-- ===== src/Table/Bitmap/Bits.antt =====
-- One byte of a bitmap: every case, by evaluation.
use rs.Prelude.{
  ℕ, ◌+◌, ◌*◌, ◌/◌, ◌%◌, ◌<◌, ◌≡◌, refl, sym, ap, ◌∙◌, Bool, true, arith, ltb, ◌&&◌, ◌==◌,
  if◌then◌else◌, all_below, all_below_sound,
}
use rs.Table.Bitmap.{test_bit, set_bit, unset_bit}

facts : ℕ → ℕ → ℕ → Bool
facts b o p =
    test_bit (set_bit b o) p == (if o == p then 1 else test_bit b p)
    && test_bit (unset_bit b o) p == (if o == p then 0 else test_bit b p)
    && ltb (set_bit b o) 256
    && ltb (unset_bit b o) 256

-- The case number `x`: byte, changed offset and read offset.
set_case : ℕ → Bool
set_case x = facts (x / 64) (x / 8 % 8) (x % 8)

set_cases : all_below 16384 set_case ≡ true
unfolding all_below set_case facts test_bit set_bit unset_bit
set_cases = refl

case_of : (b o p : ℕ) → b < 256 → o < 8 → p < 8 → facts b o p ≡ true
unfolding set_case
case_of b o p hb ho hp =
    let x = b * 64 + o * 8 + p in
    let byte : x / 64 ≡ b = omega arith in
    let changed : x / 8 % 8 ≡ o = omega arith in
    let probed : x % 8 ≡ p = omega arith in
    sym (ap (λ c. facts c o p) byte)
    ∙ sym (ap (λ c. facts (x / 64) c p) changed)
    ∙ sym (ap (facts (x / 64) (x / 8 % 8)) probed)
    ∙ all_below_sound 16384 set_case x set_cases (omega arith)

pub test_bit-update :
    (b o p : ℕ)
    → b < 256
    → o < 8
    → p < 8
    → (test_bit (set_bit b o) p ≡ (if o == p then 1 else test_bit b p))
      × (test_bit (unset_bit b o) p ≡ (if o == p then 0 else test_bit b p))
      × (set_bit b o < 256)
      × (unset_bit b o < 256)
unfolding facts
test_bit-update b o p hb ho hp = ground (arith, case_of b o p hb ho hp)
