-- ===== src/Crc/Tests.antt =====
-- The checksum on known frames, and the theorems at them.
use rs.Prelude.{ℕ, ◌≡◌, ◌↔◌, refl, List, [], ◌∷◌, ◌++◌, arith}
use rs.Crc.{crc_loop, crc_start, modbus_crc16}
use rs.Crc.Residue.{crc_zero, crc_loop-residue_iff}
use rs.Crc.Bitwise.{word, crc16, crc_loop-crc16}
use rs.Crc.Frame.{crc_start-IsBytes}

-- The published check value of this code: the digits 1 to 9 give 0x4b37.
abbrev digits : List ℕ
digits = 0x31 ∷ 0x32 ∷ 0x33 ∷ 0x34 ∷ 0x35 ∷ 0x36 ∷ 0x37 ∷ 0x38 ∷ 0x39 ∷ []

crc_digits : modbus_crc16 digits 9 ≡ record { lo = 0x37; hi = 0x4b }
unfolding modbus_crc16
crc_digits = refl

crc_loop-residue_iff_example :
    (crc_loop crc_start (digits ++ (0x37 ∷ 0x4b ∷ [])) ≡ crc_zero)
    ↔ ((0x37 ≡ (crc_loop crc_start digits).lo) × (0x4b ≡ (crc_loop crc_start digits).hi))
crc_loop-residue_iff_example =
    crc_loop-residue_iff crc_start digits 0x37 0x4b crc_start-IsBytes (omega arith) (omega arith)
      (omega arith)

crc_loop-crc16_example : word (crc_loop crc_start digits) ≡ crc16 0xffff digits
crc_loop-crc16_example = crc_loop-crc16 crc_start digits crc_start-IsBytes (omega arith)
