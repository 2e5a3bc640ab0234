-- ===== src/Crc/Bitwise.antt =====
-- The tables against the definition of the code: the reflected CRC-16 with polynomial 0xA001,
-- eight shifts for each byte.
use rs.Prelude.{
  ℕ, zero, suc, ◌+◌, ◌*◌, ◌/◌, ◌%◌, ◌^◌, ◌<◌, ◌≡◌, refl, sym, ap, ap₂, ◌∙◌, List, [], ◌∷◌, Bool,
  true, bit_xor, arith, all_below, all_below_sound, ◌==◌, ==_iff, if◌then◌else◌, get_or, xor_assoc,
  xor_comm, xor-half, xor-parity, xor_cancel, xor_byte, xor_fields,
}
use native.Mathlib.Nat.{pow-suc, mod-eq_of_lt}
use rs.Crc.{Crc, crc_high, crc_low, crc_byte, crc_loop}
use rs.Crc.Residue.{IsBytes, AllBytes, crc_byte-IsBytes, entry_facts}

-- One shift of the register, with the polynomial taken off when a one falls out.
unfoldable pub shift : ℕ → ℕ
shift x = if x % 2 == 1 then bit_xor (x / 2) 0xa001 else x / 2

unfoldable pub shifts : ℕ → ℕ → ℕ
shifts zero x = x
shifts (suc n) x = shifts n (shift x)

-- The register takes a byte in at its low end, and shifts eight times.
unfoldable pub crc16_byte : ℕ → ℕ → ℕ
unfolding shifts shift
crc16_byte r b = shifts 8 (bit_xor r b)

unfoldable pub crc16 : ℕ → List ℕ → ℕ
unfolding crc16_byte
crc16 r [] = r
crc16 r (b ∷ bs) = crc16 (crc16_byte r b) bs

-- The register that the two bytes of the code stand for.
abbrev pub word : Crc → ℕ
word c = c.hi * 256 + c.lo

table_entry : ℕ → Bool
table_entry i = get_or crc_low i 0 * 256 + get_or crc_high i 0 == shifts 8 i

table_entries : all_below 256 table_entry ≡ true
unfolding all_below table_entry shifts shift crc_high crc_low
table_entries = refl

table_lookup : (i : ℕ) → i < 256 → get_or crc_low i 0 * 256 + get_or crc_high i 0 ≡ shifts 8 i
unfolding table_entry
table_lookup i h = (==_iff _ _).0 (all_below_sound 256 table_entry i table_entries h)

-- A common part falls out.
xor_both : (a b p : ℕ) → bit_xor (bit_xor a p) (bit_xor b p) ≡ bit_xor a b
xor_both a b p =
    xor_assoc a p (bit_xor b p) ∙ ap (bit_xor a) (ap (bit_xor p) (xor_comm b p) ∙ xor_cancel p b)

-- Shifting is linear.
shift-xor : (x y : ℕ) → shift (bit_xor x y) ≡ bit_xor (shift x) (shift y)
unfolding shift
shift-xor x y = ground (
  arith,
  xor-half x y,
  xor-parity x y,
  xor_assoc (x / 2) (y / 2) 0xa001,
  xor_assoc (x / 2) 0xa001 (y / 2),
  xor_comm (y / 2) 0xa001,
  xor_both (x / 2) (y / 2) 0xa001,
)

shifts-xor : (n x y : ℕ) → shifts n (bit_xor x y) ≡ bit_xor (shifts n x) (shifts n y)
unfolding shifts
shifts-xor zero x y = refl
shifts-xor (suc n) x y = ap (shifts n) (shift-xor x y) ∙ shifts-xor n (shift x) (shift y)

shift_even : (x y : ℕ) → x ≡ 2 * y → shift x ≡ y
unfolding shift
shift_even x y e = ground arith

shifts-mul-pow : (n h : ℕ) → shifts n (h * 2 ^ n) ≡ h
unfolding shifts
shifts-mul-pow zero h = omega arith
shifts-mul-pow (suc n) h =
    ap (shifts n)
      (shift_even (h * 2 ^ suc n) (h * 2 ^ n) (omega (arith, ap (λ (t : ℕ). h * t) (pow-suc 2 n))))
    ∙ shifts-mul-pow n h

-- Eight shifts of a register: the high byte comes down, the low byte selects the table entry.
shifts_table :
    (h i : ℕ)
    → h < 256
    → i < 256
    → shifts 8 (h * 256 + i) ≡ get_or crc_low i 0 * 256 + bit_xor h (get_or crc_high i 0)
shifts_table h i hh hi =
    let lo = get_or crc_low i 0 in
    let hi_part = get_or crc_high i 0 in
    let high_byte : hi_part < 256 = (entry_facts i hi).0 in
    ap (shifts 8) (sym (xor_fields 8 h i hi))
    ∙ shifts-xor 8 (h * 256) i
    ∙ ap₂ bit_xor (shifts-mul-pow 8 h)
        (sym (table_lookup i hi) ∙ sym (xor_fields 8 lo hi_part high_byte))
    ∙ sym (xor_assoc h (lo * 256) hi_part)
    ∙ ap (λ t. bit_xor t hi_part) (xor_comm h (lo * 256))
    ∙ xor_assoc (lo * 256) h hi_part
    ∙ xor_fields 8 lo (bit_xor h hi_part) (xor_byte h hi_part hh high_byte)

-- One round of the code is one byte of the bitwise definition.
crc_byte_word :
    (c : Crc) (b : ℕ) → IsBytes c → b < 256 → word (crc_byte c b) ≡ crc16_byte (word c) b
unfolding crc_byte crc16_byte
crc_byte_word c b v h =
    let i = bit_xor c.lo b in
    let i_byte : i < 256 = xor_byte c.lo b v.lo_byte h in
    let mixed : bit_xor c.hi (get_or crc_high i 0) < 256 =
      xor_byte c.hi (get_or crc_high i 0) v.hi_byte (entry_facts i i_byte).0 in
    ap (λ t. get_or crc_low i 0 * 256 + t) (mod-eq_of_lt mixed)
    ∙ sym (shifts_table c.hi i v.hi_byte i_byte)
    ∙ ap (shifts 8) (sym (xor_fields 8 c.hi i i_byte) ∙ sym (xor_assoc (c.hi * 256) c.lo b))
    ∙ ap (λ t. shifts 8 (bit_xor t b)) (xor_fields 8 c.hi c.lo v.lo_byte)

-- From a checksum of two bytes on, the table-driven loop computes the bitwise CRC-16 of every list
-- of bytes.
pub crc_loop-crc16 :
    (c : Crc) (bs : List ℕ) → IsBytes c → AllBytes bs → word (crc_loop c bs) ≡ crc16 (word c) bs
unfolding crc_loop crc16
crc_loop-crc16 c [] v h = refl
crc_loop-crc16 c (b ∷ bs) v h =
    crc_loop-crc16 (crc_byte c b) bs (crc_byte-IsBytes c b v h.0) h.1
    ∙ ap (λ r. crc16 r bs) (crc_byte_word c b v h.0)
