-- ===== src/Device/Doya/Frame.antt =====
-- The frames that the Dooya driver writes, against the layout of the line.
pub mod Refused
pub mod Residue
use rs.Prelude.{
  ℕ, ◌%◌, ◌≤◌, ◌<◌, ◌≡◌, refl, ap₂, ◌∙◌, ◌⊎◌, inl, inr, true, false, Option, none, some, List, [],
  ◌∷◌, ◌++◌, arith, pos, neg_one, u8, length, take, get_or, ltb, ◌==◌, Bool-cases, Option-cases,
  if◌then◌else◌,
}
use native.Mathlib.Nat.{le_trans}
use rs.Crc.{modbus_crc16}
use rs.Crc.Residue.{AllBytes, all_bytes_sound, crc_zero}
use rs.Crc.Frame.{sealed, modbus_crc16-crc16, modbus_crc16-append}
use rs.Device.Port.{
  MstpPort, memcpy, take-memcpy, length-memcpy, curtain_open, curtain_close, curtain_set_percent,
  curtain_reset, curtain_get_device_info,
}
use rs.Device.Doya.{
  Package, with_crc, build, refused, doya_send_package, blank, addressed, package_of, clear_reply,
  doya_send_package_handle,
}

-- Function, data address and data of each method of the client.
unfoldable pub payload : ℕ → ℕ → Option (List ℕ)
payload method value =
    if method == curtain_open
    then some (3 ∷ 1 ∷ [])
    else if method == curtain_close
    then some (3 ∷ 2 ∷ [])
    else if method == curtain_set_percent
    then some (3 ∷ 4 ∷ value % 256 ∷ [])
    else if method == curtain_reset
    then some (0 ∷ 0 ∷ [])
    else if method == curtain_get_device_info
    then some (1 ∷ 2 ∷ 0 ∷ [])
    else none

pub with_crc-sealed : (body : List ℕ) → AllBytes body → with_crc body (length body) ≡ sealed body
with_crc-sealed body h =
    let crc = modbus_crc16-crc16 body h in ap₂ (λ a b. body ++ (a ∷ b ∷ [])) crc.0 crc.1

-- The frame that the driver makes of a method and an address, and the one that the line asks for.
made : ℕ → ℕ → Package → Option (List ℕ)
made m v p = elim (package_of m v p) [
  | none ↦ none
  | some q ↦ if refused q.cmd q then none else some (build q.cmd q)
]

wanted : ℕ → ℕ → Package → Option (List ℕ)
wanted m v p = elim (payload m v) [
  | none ↦ none
  | some body ↦ some (sealed (0x55 ∷ p.addr_low ∷ p.addr_high ∷ body))
]

made-eq-wanted :
    (m v lo hi : ℕ)
    → lo < 256
    → hi < 256
    → let p = record blank { addr_low = lo; addr_high = hi } in made m v p ≡ wanted m v p
unfolding made wanted payload package_of build refused
made-eq-wanted m v lo hi hlo hhi = ground (
  arith,
  with_crc-sealed (0x55 ∷ lo ∷ hi ∷ 3 ∷ 1 ∷ []) (omega arith),
  with_crc-sealed (0x55 ∷ lo ∷ hi ∷ 3 ∷ 2 ∷ []) (omega arith),
  with_crc-sealed (0x55 ∷ lo ∷ hi ∷ 3 ∷ 4 ∷ u8 v ∷ []) (omega arith),
  with_crc-sealed (0x55 ∷ lo ∷ hi ∷ 0 ∷ 0 ∷ []) (omega arith),
  with_crc-sealed (0x55 ∷ lo ∷ hi ∷ 1 ∷ 2 ∷ 0 ∷ []) (omega arith),
)

-- The address bytes that the line carries: both zero for a broadcast.
abbrev pub line_low : MstpPort → ℕ
line_low h = if h.broadcast then 0 else get_or h.address 1 0

abbrev pub line_high : MstpPort → ℕ
line_high h = if h.broadcast then 0 else get_or h.address 0 0

addressed_lem :
    (h : MstpPort) → addressed h ≡ record blank { addr_low = line_low h; addr_high = line_high h }
unfolding addressed
addressed_lem h = ground arith

-- The handle has an address of bytes and a buffer that holds what `package_buffer_len` promises.
pub record IsReady (h : MstpPort) (buf : List ℕ) : Type 0 where
  pub points : h.package_buffer ≡ some buf
  pub has_room : h.package_buffer_len ≤ length buf
  pub low_byte : get_or h.address 1 0 < 256
  pub high_byte : get_or h.address 0 0 < 256

-- What `doya_send_package` does with a package, in terms of its frame.
send_lem :
    (buf : List ℕ) (len : ℕ) (q : Package)
    → doya_send_package (some buf) len q ≡ (
        if refused q.cmd q
        then (neg_one, some buf)
        else if ltb len (length (build q.cmd q))
        then (neg_one, some buf)
        else (pos (length (build q.cmd q)), some (memcpy buf (build q.cmd q))))
unfolding doya_send_package
send_lem buf len q = refl

-- The frame that the line asks for on a handle.
unfoldable pub request : MstpPort → Option (List ℕ)
request h = elim (payload h.method h.value) [
  | none ↦ none
  | some body ↦ some (sealed (0x55 ∷ line_low h ∷ line_high h ∷ body))
]

made-request :
    (h : MstpPort) {buf : List ℕ} → IsReady h buf → made h.method h.value (addressed h) ≡ request h
unfolding wanted request
made-request h r =
    rw (addressed_lem h)
      (made-eq-wanted h.method h.value (line_low h) (line_high h) (ground arith) (ground arith))

-- The package behind a frame that was made.
made-some :
    (m v : ℕ) (p : Package) {frame : List ℕ}
    → made m v p ≡ some frame
    → (q : Package) × (package_of m v p ≡ some q)
      × (refused q.cmd q ≡ false)
      × (build q.cmd q ≡ frame)
unfolding made
made-some m v p e = ground arith

-- The handler on a frame that fits: it returns the length, and the buffer starts with the frame.
handle_fits :
    (h : MstpPort) {buf frame : List ℕ}
    → IsReady h buf
    → 2 ≤ h.address_len
    → request h ≡ some frame
    → length frame ≤ h.package_buffer_len
    → doya_send_package_handle (some h) ≡ (
      pos (length frame),
      some (record (clear_reply h) { package_buffer = some (memcpy buf frame) }),
    )
unfolding doya_send_package_handle
handle_fits h {buf} r enough e fits =
    let (q, made_q, allowed, built) =
      made-some h.method h.value (addressed h) (made-request h r ∙ e) in
    ground (arith, send_lem buf h.package_buffer_len q)

clear_reply_lem :
    (h : MstpPort)
    → clear_reply h ≡ record h { except_reply = if line_low h == 0 then false else h.except_reply }
unfolding clear_reply
clear_reply_lem h = ground (arith, addressed_lem h)

-- A handle with enough address, a method of the curtain and room for the frame is answered by the
-- length of the frame, which then stands at the start of the buffer. The frame is 0x55, the
-- address with its low byte first, the payload of the method and the CRC-16 of those. A reply is
-- no longer expected if the low address byte is zero, and the rest of the handle is kept.
pub doya_send_package_handle-request :
    (h : MstpPort) {buf frame : List ℕ}
    → IsReady h buf
    → 2 ≤ h.address_len
    → request h ≡ some frame
    → length frame ≤ h.package_buffer_len
    → (out : List ℕ) × (doya_send_package_handle (some h) ≡ (
      pos (length frame),
      some (record h {
        package_buffer = some out;
        except_reply = if line_low h == 0 then false else h.except_reply;
      }),
    ))
      × (take (length frame) out ≡ frame)
      × (length out ≡ length buf)
doya_send_package_handle-request h {buf} {frame} r enough e fits = (
  memcpy buf frame,
  handle_fits h r enough e fits ∙ rw (clear_reply_lem h),
  take-memcpy buf frame (le_trans fits r.has_room),
  length-memcpy buf frame,
)
