-- ===== src/Device/York/Decimal.antt =====
-- Reading back the digits that the driver prints.
use rs.Prelude.{
  ℕ, zero, suc, ◌+◌, ◌-◌, ◌*◌, ◌/◌, ◌%◌, ◌^◌, ◌<◌, ◌≡◌, refl, List, [], ◌∷◌, ◌++◌, arith,
}
use native.Mathlib.Nat.{pow-suc}
use rs.Device.York.Table.{digits_of, decimal}

-- The number that characters spell, after the digits of `high`.
abbrev pub read_decimal : ℕ → List ℕ → ℕ
read_decimal high [] = high
read_decimal high (c ∷ cs) = read_decimal (high * 10 + (c - 48)) cs

read_decimal-append :
    (high : ℕ) (cs ds : List ℕ)
    → read_decimal high (cs ++ ds) ≡ read_decimal (read_decimal high cs) ds
read_decimal-append high [] ds = refl
read_decimal-append high (c ∷ cs) ds = read_decimal-append (high * 10 + (c - 48)) cs ds

read_decimal-digits_of : (left n : ℕ) → n < 10 ^ left → read_decimal 0 (digits_of left n) ≡ n
unfolding digits_of
read_decimal-digits_of zero n small = omega arith
read_decimal-digits_of (suc left) n small =
    let ih = read_decimal-digits_of left (n / 10) (omega (arith, pow-suc 10 left)) in
    let whole = read_decimal-append 0 (digits_of left (n / 10)) ((48 + n % 10) ∷ []) in
    ground (arith, ih, whole)

-- The digits of a number below 10 ^ 10 spell that number.
pub read_decimal-decimal : (n : ℕ) → n < 10 ^ 10 → read_decimal 0 (decimal n) ≡ n
read_decimal-decimal n small = read_decimal-digits_of 10 n small
