-- ===== src/Crc/Frame.antt =====
-- Frames that end in the checksum of what stands before it.
use rs.Prelude.{ℕ, ◌/◌, ◌%◌, ◌≡◌, ap, ◌∙◌, List, [], ◌∷◌, ◌++◌, arith, length, take_all}
use rs.Crc.{crc_start, crc_loop, modbus_crc16}
use rs.Crc.Residue.{IsBytes, AllBytes, crc_zero, crc_loop-IsBytes, crc_loop-residue_iff}
use rs.Crc.Bitwise.{word, crc16, crc_loop-crc16}

pub crc_start-IsBytes : IsBytes crc_start
crc_start-IsBytes = record { lo_byte = omega arith; hi_byte = omega arith }

-- The frame that the specification of the line asks for: the bytes, and their CRC-16 with the
-- low byte first.
abbrev pub sealed : List ℕ → List ℕ
sealed body = body ++ (crc16 0xffff body % 256 ∷ crc16 0xffff body / 256 ∷ [])

pub modbus_crc16_all : (bs : List ℕ) → modbus_crc16 bs (length bs) ≡ crc_loop crc_start bs
unfolding modbus_crc16
modbus_crc16_all bs = ap (crc_loop crc_start) (take_all bs)

pub modbus_crc16-IsBytes : (bs : List ℕ) → AllBytes bs → IsBytes (modbus_crc16 bs (length bs))
modbus_crc16-IsBytes bs h =
    rw (modbus_crc16_all bs) (crc_loop-IsBytes crc_start bs crc_start-IsBytes h)

-- The two bytes that the code computes are those of the bitwise definition.
pub modbus_crc16-crc16 :
    (bs : List ℕ)
    → AllBytes bs
    → ((modbus_crc16 bs (length bs)).lo ≡ crc16 0xffff bs % 256)
      × ((modbus_crc16 bs (length bs)).hi ≡ crc16 0xffff bs / 256)
modbus_crc16-crc16 bs h =
    let both =
      ap (λ c. word c) (modbus_crc16_all bs) ∙ crc_loop-crc16 crc_start bs crc_start-IsBytes h in
    let valid = modbus_crc16-IsBytes bs h in
    (
      omega (arith, both, valid.lo_byte, valid.hi_byte),
      omega (arith, both, valid.lo_byte, valid.hi_byte),
    )

-- A receiver that computes the checksum over a whole sealed frame finds zero.
pub modbus_crc16-append :
    (bs : List ℕ)
    → AllBytes bs
    → let crc = modbus_crc16 bs (length bs) in
      let frame = bs ++ (crc.lo ∷ crc.hi ∷ []) in modbus_crc16 frame (length frame) ≡ crc_zero
modbus_crc16-append bs h =
    let crc = modbus_crc16 bs (length bs) in
    let valid = modbus_crc16-IsBytes bs h in
    modbus_crc16_all (bs ++ (crc.lo ∷ crc.hi ∷ []))
    ∙ (crc_loop-residue_iff crc_start bs crc.lo crc.hi crc_start-IsBytes h valid.lo_byte
          valid.hi_byte).1
        (ap (λ c. c.lo) (modbus_crc16_all bs), ap (λ c. c.hi) (modbus_crc16_all bs))
