-- ===== src/Device/Doya/Frame/Residue.antt =====
-- The receiver's check on the frames that the Dooya driver writes.
use rs.Prelude.{ℕ, ◌≡◌, inl, inr, some, List, ◌∷◌, arith, length, Option-cases}
use rs.Crc.{modbus_crc16}
use rs.Crc.Residue.{AllBytes, all_bytes_sound, crc_zero}
use rs.Crc.Frame.{sealed, modbus_crc16-append}
use rs.Device.Port.{MstpPort}
use rs.Device.Doya.Frame.{IsReady, request, payload, line_low, line_high, with_crc-sealed}

payload-AllBytes : (m v : ℕ) {body : List ℕ} → payload m v ≡ some body → AllBytes body
unfolding payload
payload-AllBytes m v {body} e = all_bytes_sound body (ground arith)

sealed_residue :
    (body : List ℕ) → AllBytes body → modbus_crc16 (sealed body) (length (sealed body)) ≡ crc_zero
sealed_residue body h = rw (← with_crc-sealed body h) (modbus_crc16-append body h)

-- The receiver's own check passes on every frame that a ready handle asks for: the checksum over
-- the whole frame, checksum included, is zero.
pub request-residue :
    (h : MstpPort) {buf frame : List ℕ}
    → IsReady h buf
    → request h ≡ some frame
    → modbus_crc16 frame (length frame) ≡ crc_zero
unfolding request
request-residue h {frame = frame} r e = elim (Option-cases (payload h.method h.value)) [
  | inl none_sent ↦ absurd (ground arith)
  | inr (body, sent) ↦
      let line = 0x55 ∷ line_low h ∷ line_high h ∷ body in
      let same : frame ≡ sealed line = ground arith in
      rw same (
        sealed_residue line
          (omega arith, (ground arith, (ground arith, payload-AllBytes h.method h.value sent))))
]
