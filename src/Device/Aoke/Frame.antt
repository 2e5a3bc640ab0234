-- ===== src/Device/Aoke/Frame.antt =====
-- What a curtain on the line makes of the frames that the Aoke driver writes.
use rs.Prelude.{
  ℕ, ◌%◌, ◌≤◌, ◌<◌, ◌≡◌, ◌≢◌, refl, sym, ap, ◌∙◌, ◌⊎◌, inl, inr, ◌&&◌, Option, none, some, List, [],
  ◌∷◌, arith, pos, neg_one, length, take, drop, get_or, bit_xor, ltb, ◌==◌, if◌then◌else◌,
  Bool-cases, Option-cases, zero-xor, ==_iff,
}
use native.Mathlib.Nat.{le_trans}
use rs.Device.Port.{MstpPort, memcpy, take-memcpy, drop-memcpy}
use rs.Device.Aoke.{
  Package, get_check, package_of, bytes_of, set_broadcast, store, aoke_send_package_handle,
}

-- The line, as the head of aoke.c has it: SI, ADDR0, ADDR1, ADDR2, CMD, DATA, CHECK; with the commands
-- of its macros, 0x0a for control, 0xdd for a position and 0xcc for a query.
pub data Action : Type 0 where
  open_it close_it query : Action
  move_to : ℕ → Action
  unknown : ℕ → ℕ → Action

unfoldable pub action : ℕ → ℕ → Action
action cmd d =
    if cmd == 0x0a && d == 0xee
    then open_it
    else if cmd == 0x0a && d == 0xdd
    then close_it
    else if cmd == 0xdd
    then move_to d
    else if cmd == 0xcc
    then query
    else unknown cmd d

unfoldable pub decode : List ℕ → Option (List ℕ × Action)
unfolding action
decode (si ∷ a ∷ b ∷ c ∷ cmd ∷ d ∷ check ∷ []) =
    if si == 0x9a && bit_xor (bit_xor (bit_xor (bit_xor a b) c) cmd) d == check
    then some (a ∷ b ∷ c ∷ [], action cmd d)
    else none
decode _ = none

-- What the client gets, by the method: the query has no command of the line.
unfoldable pub asked : MstpPort → Option (List ℕ × Action)
asked h =
    let address =
      if h.broadcast
      then 0 ∷ 0xff ∷ 0xff ∷ []
      else get_or h.address 0 0 ∷ get_or h.address 1 0 ∷ get_or h.address 2 0 ∷ [] in
    if h.method == 101
    then some (address, open_it)
    else if h.method == 102
    then some (address, close_it)
    else if h.method == 103
    then some (address, move_to (h.value % 256))
    else if h.method == 105
    then some (0 ∷ 0 ∷ 0 ∷ [], unknown 0 0)
    else none

-- A frame of the driver passes the check of the line.
decode-bytes_of :
    (p : Package) → decode (bytes_of p) ≡ some (p.d1 ∷ p.d2 ∷ p.d3 ∷ [], action p.d4 p.d5)
unfolding decode bytes_of get_check
decode-bytes_of p = rw (zero-xor p.d1) (
    ground (
      arith,
      ==_iff (bit_xor (bit_xor (bit_xor (bit_xor p.d1 p.d2) p.d3) p.d4) p.d5)
          (bit_xor (bit_xor (bit_xor (bit_xor p.d1 p.d2) p.d3) p.d4) p.d5),
    ))

address_byte : ℕ → MstpPort → ℕ → ℕ
address_byte b h i = if h.broadcast then b else get_or h.address i 0

memcpy-address :
    (l : List ℕ) (a b c : ℕ)
    → 3 ≤ length l
    → let l' = memcpy l (a ∷ b ∷ c ∷ []) in
      (get_or l' 0 0 ≡ a) × (get_or l' 1 0 ≡ b) × (get_or l' 2 0 ≡ c)
memcpy-address [] a b c h = absurd (omega arith)
memcpy-address (x ∷ []) a b c h = absurd (omega arith)
memcpy-address (x ∷ y ∷ []) a b c h = absurd (omega arith)
memcpy-address (x ∷ y ∷ z ∷ l) a b c h = (refl, refl, refl)

set_broadcast_address :
    (h : MstpPort)
    → 3 ≤ length h.address
    → let l = (set_broadcast h).address in
      (get_or l 0 0 ≡ address_byte 0 h 0)
      × (get_or l 1 0 ≡ address_byte 0xff h 1)
      × (get_or l 2 0 ≡ address_byte 0xff h 2)
unfolding set_broadcast address_byte
set_broadcast_address h r = ground (arith, memcpy-address h.address 0 0xff 0xff r)

-- What the line reads from a package.
read : Option Package → Option (List ℕ × Action)
read none = none
read (some p) = some (p.d1 ∷ p.d2 ∷ p.d3 ∷ [], action p.d4 p.d5)

-- The package of the method says what the client asks for.
package_of-asked :
    (h : MstpPort)
    → 3 ≤ length h.address
    → read (package_of h.method h.value (set_broadcast h).address) ≡ asked h
unfolding asked package_of action read address_byte
package_of-asked h r = let a = set_broadcast_address h r in rw (a.0, a.1, a.2) (ground arith)

-- The handle has three address bytes and a buffer with room for a frame.
pub record IsReady (h : MstpPort) (buf : List ℕ) : Type 0 where
  pub points : h.package_buffer ≡ some buf
  pub three : h.address_len ≡ 3
  pub address : 3 ≤ length h.address
  pub room : 7 ≤ h.package_buffer_len
  pub storage : h.package_buffer_len ≤ length buf

-- The handler on a ready handle, by the package of its method.
handle_ready :
    (h : MstpPort) {buf : List ℕ}
    → IsReady h buf
    → aoke_send_package_handle (some h)
      ≡ store (set_broadcast h) buf (package_of h.method h.value (set_broadcast h).address)
unfolding aoke_send_package_handle
handle_ready h r = ground arith

-- What the seven stores leave in the buffer.
bytes_of-stored :
    (buf : List ℕ) (p : Package)
    → 7 ≤ length buf
    → let out = memcpy buf (bytes_of p) in (take 7 out ≡ bytes_of p) × (drop 7 out ≡ drop 7 buf)
unfolding bytes_of
bytes_of-stored buf p room = (take-memcpy buf (bytes_of p) room, drop-memcpy buf (bytes_of p))

-- A ready handle with a method of the curtain: the handler returns 7, and the curtain on the line
-- reads from the seven bytes exactly the address (the broadcast address if it is set) and the action
-- that the client asked for. The query alone is not told: its frame has the address 0, the command 0
-- and the data 0, where the source's command of a query is 0xcc, and the curtain reads an unknown
-- command. The rest of the buffer is left.
pub aoke_send_package_handle-decode :
    (h : MstpPort) {buf : List ℕ} {want : List ℕ × Action}
    → IsReady h buf
    → asked h ≡ some want
    → (out : List ℕ) × (aoke_send_package_handle (some h)
        ≡ (pos 7, some (record (set_broadcast h) { package_buffer = some out })))
      × (decode (take 7 out) ≡ some want)
      × (drop 7 out ≡ drop 7 buf)
unfolding read store
aoke_send_package_handle-decode h {buf} {want} r e =
    elim (Option-cases (package_of h.method h.value (set_broadcast h).address)) [
      | inl nothing ↦ absurd (ground (arith, package_of-asked h r.address))
      | inr (p, made) ↦
          let (front, rest) = bytes_of-stored buf p (le_trans r.room r.storage) in
          (
            memcpy buf (bytes_of p),
            handle_ready h r ∙ ap (store (set_broadcast h) buf) made,
            ap decode front
                ∙ decode-bytes_of p
                ∙ sym (ap read made)
                ∙ package_of-asked h r.address
                ∙ e,
            rest,
          )
    ]

-- A handle (with three address bytes in memory) without a buffer, with another `address_len` than
-- 3, with room for fewer than seven bytes or with a method of another device gives -1, and no byte
-- of the buffer is written. The handle is unchanged, but for the address of a broadcast, which may
-- be set.
pub aoke_send_package_handle_rejects :
    (h : MstpPort)
    → 3 ≤ length h.address
    → (h.package_buffer ≡ none)
      ⊎ (h.address_len ≢ 3)
      ⊎ (h.package_buffer_len < 7)
      ⊎ (asked h ≡ none)
    → (h' : MstpPort) × (aoke_send_package_handle (some h) ≡ (neg_one, some h'))
      × ((h' ≡ h) ⊎ (h' ≡ set_broadcast h))
unfolding read aoke_send_package_handle store
aoke_send_package_handle_rejects h a bad = elim (Option-cases h.package_buffer) [
  | inl null ↦ (h, ground arith, inl refl)
  | inr (buf, points) ↦ elim (Bool-cases (h.address_len == 3)) [
    | inr not3 ↦ (h, ground arith, inl refl)
    | inl is3 ↦ elim (Bool-cases (ltb h.package_buffer_len 7)) [
      | inl short ↦ (h, ground arith, inl refl)
      | inr long ↦ elim (Option-cases (package_of h.method h.value (set_broadcast h).address)) [
        | inl unknown_method ↦ (set_broadcast h, ground arith, inr refl)
        | inr (p, made) ↦ absurd (ground (arith, package_of-asked h a))
      ]
    ]
  ]
]
