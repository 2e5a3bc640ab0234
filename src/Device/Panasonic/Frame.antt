-- ===== src/Device/Panasonic/Frame.antt =====
-- The frames that the Panasonic driver writes for the client's methods.
use rs.Prelude.{
  ℕ, ◌^◌, ◌≤◌, ◌<◌, ◌≡◌, ◌≢◌, inl, inr, sym, ap, ◌∙◌, subst, Option, none, some, List, arith, ℤ,
  pos, neg_eperm, length, get_or, take, drop, ltb, if◌then◌else◌, Option-cases,
}
use rs.Device.Port.{MstpPort, memcpy, take-memcpy, drop-memcpy}
use rs.Device.Panasonic.{
  sealed, build, too_short, panasonnic_send_package, command_of, panasonnic_send_package_handle,
}
use rs.Device.Panasonic.Wish.{
  Wish, temperature, swing, fan, mode, power, report, decode_setting, decode_data, at_address,
  decode, meaning, wish_of, command_of-meaning, IsCommand, frame_length, read, frame_of,
  read-frame_of, command_of-IsCommand,
}

-- The handle has one address byte and the buffer that `package_buffer_len`, an `int`, promises.
pub record IsReady (h : MstpPort) (buf : List ℕ) : Type 0 where
  pub points : h.package_buffer ≡ some buf
  pub one : h.address_len ≡ 1
  pub storage : h.package_buffer_len ≤ length buf
  pub int : h.package_buffer_len < 2 ^ 31

length-frame_of :
    (addr : ℕ) (c : ℕ × List ℕ × ℕ) {frame : List ℕ} {wish : Wish}
    → IsCommand c
    → build addr c.0 c.1 ≡ some frame
    → wish_of (some c) ≡ some wish
    → length frame ≡ frame_length wish
unfolding IsCommand build sealed wish_of decode_data decode_setting frame_length
length-frame_of addr c (inl e) made w = ground arith
length-frame_of addr c (inr (b0, b1, b2, b3, b4, e)) made w = ground arith

handle_ready :
    (h : MstpPort) {buf frame : List ℕ} {c : ℕ × List ℕ × ℕ}
    → IsReady h buf
    → command_of h.method ≡ some c
    → IsCommand c
    → build (get_or h.address 0 0) c.0 c.1 ≡ some frame
    → length frame ≤ 12
    → panasonnic_send_package_handle (some h) ≡ (
        if ltb h.package_buffer_len (length frame)
        then (neg_eperm, some h)
        else (pos (length frame), some (record h { package_buffer = some (memcpy buf frame) })))
unfolding panasonnic_send_package_handle panasonnic_send_package too_short IsCommand
handle_ready h r e (inl c) made small = ground (arith, r.points, r.one, r.int)
handle_ready h r e (inr (b0, b1, b2, b3, b4, c)) made small = ground (arith, r.points, r.one, r.int)

meaning-command :
    (method : ℕ) {wish : Wish}
    → meaning method ≡ some wish
    → (c : ℕ × List ℕ × ℕ) × (command_of method ≡ some c) × (wish_of (some c) ≡ some wish)
unfolding wish_of
meaning-command method m = elim (Option-cases (command_of method)) [
  | inl nothing ↦ absurd (ground (arith, command_of-meaning method))
  | inr (c, e) ↦ (c, e, sym (ap wish_of e) ∙ command_of-meaning method ∙ m)
]

frame_of-made :
    (addr : ℕ) (c : ℕ × List ℕ × ℕ)
    → IsCommand c
    → (frame : List ℕ) × (build addr c.0 c.1 ≡ some frame)
unfolding IsCommand build
frame_of-made addr c known = elim (Option-cases (build addr c.0 c.1)) [
  | inl nothing ↦ absurd (refuted known nothing)
  | inr made ↦ made
]
  where
    refuted : IsCommand c → build addr c.0 c.1 ≢ none
    refuted (inl e) nothing = ground arith
    refuted (inr (b0, b1, b2, b3, b4, e)) nothing = ground arith

frame_length_small : (w : Wish) → frame_length w ≤ 12
unfolding frame_length
frame_length_small report = omega arith
frame_length_small (temperature n) = omega arith
frame_length_small (swing n) = omega arith
frame_length_small (fan n) = omega arith
frame_length_small (mode n) = omega arith
frame_length_small (power n) = omega arith

-- A ready handle, a method of the air conditioner and room for its frame: the handler returns the
-- length of the frame, and the air conditioner reads from these bytes the address and the wish that
-- the method means. The rest of the buffer is left.
pub panasonnic_send_package_handle-decode :
    (h : MstpPort) {buf : List ℕ} {wish : Wish}
    → IsReady h buf
    → meaning h.method ≡ some wish
    → frame_length wish ≤ h.package_buffer_len
    → (out : List ℕ) × (panasonnic_send_package_handle (some h)
        ≡ (pos (frame_length wish), some (record h { package_buffer = some out })))
      × (decode (take (frame_length wish) out) ≡ some (get_or h.address 0 0, wish))
      × (drop (frame_length wish) out ≡ drop (frame_length wish) buf)
unfolding read frame_of at_address
panasonnic_send_package_handle-decode h {buf} {wish} r m room =
    let (c, e, w) = meaning-command h.method m in
    let known = command_of-IsCommand h.method e in
    let (frame, made) = frame_of-made (get_or h.address 0 0) c known in
    let len = length-frame_of (get_or h.address 0 0) c known made w in
    (
      memcpy buf frame,
      handle_ready h r e known made (omega (arith, frame_length_small wish))
          ∙ fits frame len
          ∙ ap (λ n. (pos n, some (record h { package_buffer = some (memcpy buf frame) }))) len,
      subst (λ n. decode (take n (memcpy buf frame)) ≡ some (get_or h.address 0 0, wish)) len
          (ap decode (take-memcpy buf frame (omega (arith, r.storage)))
            ∙ sym (ap read made)
            ∙ read-frame_of (get_or h.address 0 0) c known
            ∙ ap (at_address (get_or h.address 0 0)) w),
      subst (λ n. drop n (memcpy buf frame) ≡ drop n buf) len (drop-memcpy buf frame),
    )
  where
    fits :
        (frame : List ℕ) {y : ℤ × Option MstpPort}
        → length frame ≡ frame_length wish
        → (if ltb h.package_buffer_len (length frame) then (neg_eperm, some h) else y) ≡ y
    fits frame len = ground arith
