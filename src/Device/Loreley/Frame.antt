-- ===== src/Device/Loreley/Frame.antt =====
-- What a device on the line makes of the frames that the Loreley driver writes.
use rs.Prelude.{
  ℕ, ◌+◌, ◌%◌, ◌≤◌, ◌<◌, ◌≡◌, ◌≢◌, ◌⊎◌, inl, inr, sym, ap, ◌∙◌, subst, true, ◌&&◌, Option, none,
  some, List, [], ◌∷◌, arith, ℤ, pos, neg_one, length, get_or, take, drop, ltb, ◌==◌, if◌then◌else◌,
  Bool-cases, Option-cases,
}
use rs.Device.Port.{MstpPort, memcpy, take-memcpy, drop-memcpy}
use rs.Device.Loreley.{
  with_sum, build, loreley_send_package, command_of, loreley_send_package_handle,
}
use rs.Device.Loreley.Sum.{sum, calculate_sum_check_lem}

-- Address, command and data of a frame: 0xaa, address, command, 0x60, the number of data bytes,
-- the data, a byte that makes the sum from the address on zero modulo 256, and 0x0d.
unfoldable pub decode : List ℕ → Option (ℕ × ℕ × List ℕ)
decode (soi ∷ addr ∷ cid ∷ rtn ∷ n ∷ rest) =
    if soi == 0xaa
      && rtn == 0x60
      && length rest == n + 2
      && sum (addr ∷ cid ∷ rtn ∷ n ∷ rest) (n + 5) % 256 == 0
      && get_or rest (n + 1) 0 == 0x0d
    then some (addr, cid, take n rest)
    else none
decode _ = none

-- What the client asks for, by the method.
unfoldable pub asked : MstpPort → Option (ℕ × ℕ × List ℕ)
asked h =
    if h.method == 201
    then some (get_or h.address 0 0, 0x23, 1 ∷ 1 ∷ 0 ∷ 0 ∷ 0 ∷ [])
    else if h.method == 202
    then some (get_or h.address 0 0, 0x23, 1 ∷ 0 ∷ 0 ∷ 0 ∷ 0 ∷ [])
    else if h.method == 204
    then some (get_or h.address 0 0, 0x22, [])
    else none

-- The frame of a method.
frame_of : MstpPort → Option (List ℕ)
frame_of h = elim (command_of h.method) [
  | none ↦ none
  | some c ↦ build (get_or h.address 0 0) c.0 c.1
]

read : Option (List ℕ) → Option (ℕ × ℕ × List ℕ)
read none = none
read (some frame) = decode frame

frame_of-asked : (h : MstpPort) → read (frame_of h) ≡ asked h
unfolding read frame_of decode asked command_of build with_sum
frame_of-asked h = ground (
  arith,
  calculate_sum_check_lem (get_or h.address 0 0 ∷ 0x22 ∷ 0x60 ∷ 0 ∷ []) 4,
  calculate_sum_check_lem (get_or h.address 0 0 ∷ 0x23 ∷ 0x60 ∷ 5 ∷ 1 ∷ 1 ∷ 0 ∷ 0 ∷ 0 ∷ []) 9,
  calculate_sum_check_lem (get_or h.address 0 0 ∷ 0x23 ∷ 0x60 ∷ 5 ∷ 1 ∷ 0 ∷ 0 ∷ 0 ∷ 0 ∷ []) 9,
)

-- The handle has one address byte and the buffer that `package_buffer_len` promises.
pub record IsReady (h : MstpPort) (buf : List ℕ) : Type 0 where
  pub points : h.package_buffer ≡ some buf
  pub one : h.address_len ≡ 1
  pub storage : h.package_buffer_len ≤ length buf

nothing_asked : (h : MstpPort) {want : ℕ × ℕ × List ℕ} → frame_of h ≡ none → asked h ≢ some want
unfolding read
nothing_asked h nothing e = ground (arith, frame_of-asked h)

something_asked : (h : MstpPort) {frame : List ℕ} → frame_of h ≡ some frame → asked h ≢ none
unfolding frame_of asked command_of
something_asked h made e = ground arith

length-frame_of :
    (h : MstpPort) {frame : List ℕ} {want : ℕ × ℕ × List ℕ}
    → frame_of h ≡ some frame
    → asked h ≡ some want
    → length frame ≡ length want.2 + 7
unfolding frame_of asked command_of build with_sum
length-frame_of h e a = ground arith

handle_ready :
    (h : MstpPort) {buf frame : List ℕ}
    → IsReady h buf
    → frame_of h ≡ some frame
    → loreley_send_package_handle (some h) ≡ (
        if ltb h.package_buffer_len (length frame)
        then (neg_one, some h)
        else (pos (length frame), some (record h { package_buffer = some (memcpy buf frame) })))
unfolding loreley_send_package_handle loreley_send_package frame_of
handle_ready h r e = ground arith

-- A ready handle with a method of the fresh air and room for the frame: the handler returns the
-- length of the frame, 7 and the data, and the device on the line reads from these bytes exactly
-- the address, the command and the data that the client asked for. The rest of the buffer is left.
pub loreley_send_package_handle-decode :
    (h : MstpPort) {buf : List ℕ} {want : ℕ × ℕ × List ℕ}
    → IsReady h buf
    → asked h ≡ some want
    → length want.2 + 7 ≤ h.package_buffer_len
    → (out : List ℕ) × (loreley_send_package_handle (some h)
        ≡ (pos (length want.2 + 7), some (record h { package_buffer = some out })))
      × (decode (take (length want.2 + 7) out) ≡ some want)
      × (drop (length want.2 + 7) out ≡ drop (length want.2 + 7) buf)
unfolding read
loreley_send_package_handle-decode h {buf} {want} r e room = elim (Option-cases (frame_of h)) [
  | inl nothing ↦ absurd (nothing_asked h nothing e)
  | inr (frame, made) ↦
      let len = length-frame_of h made e in
      (
        memcpy buf frame,
        handle_ready h r made
            ∙ fits frame len
            ∙ ap (λ n. (pos n, some (record h { package_buffer = some (memcpy buf frame) }))) len,
        subst (λ n. decode (take n (memcpy buf frame)) ≡ some want) len
            (ap decode (take-memcpy buf frame (omega (arith, r.storage)))
              ∙ sym (ap read made)
              ∙ frame_of-asked h
              ∙ e),
        subst (λ n. drop n (memcpy buf frame) ≡ drop n buf) len (drop-memcpy buf frame),
      )
]
  where
    fits :
        (frame : List ℕ) {y : ℤ × Option MstpPort}
        → length frame ≡ length want.2 + 7
        → (if ltb h.package_buffer_len (length frame) then (neg_one, some h) else y) ≡ y
    fits frame len = ground arith

abbrev pub IsBad : MstpPort → Type 0
IsBad h =
    (h.package_buffer ≡ none)
    ⊎ (h.address_len ≢ 1)
    ⊎ (asked h ≡ none)
    ⊎ ((want : ℕ × ℕ × List ℕ) × (asked h ≡ some want) × (h.package_buffer_len < length want.2 + 7))

bad-short :
    (h : MstpPort) {buf frame : List ℕ}
    → h.package_buffer ≡ some buf
    → (h.address_len == 1) ≡ true
    → frame_of h ≡ some frame
    → IsBad h
    → h.package_buffer_len < length frame
bad-short h points one made (inl null) = absurd (ground arith)
bad-short h points one made (inr (inl other)) = absurd (ground arith)
bad-short h points one made (inr (inr (inl nothing))) = absurd (something_asked h made nothing)
bad-short h points one made (inr (inr (inr (want, a, short)))) =
    omega (arith, length-frame_of h made a)

-- A handle without a buffer, with another number of address bytes, with a method of another
-- device or with less room than the frame takes gives -1, and nothing is written.
pub loreley_send_package_handle_rejects :
    (h : MstpPort) → IsBad h → loreley_send_package_handle (some h) ≡ (neg_one, some h)
unfolding loreley_send_package_handle loreley_send_package frame_of
loreley_send_package_handle_rejects h bad = elim (Option-cases h.package_buffer) [
  | inl null ↦ ground arith
  | inr (buf, points) ↦ elim (Bool-cases (h.address_len == 1)) [
    | inr other ↦ ground arith
    | inl one ↦ elim (Option-cases (frame_of h)) [
      | inl nothing ↦ ground arith
      | inr (frame, made) ↦ ground (arith, bad-short h points one made bad)
    ]
  ]
]
