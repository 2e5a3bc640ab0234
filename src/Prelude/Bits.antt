-- ===== src/Prelude/Bits.antt =====
-- Exclusive or at variables, from its lowest digit.
use Prim.Native.Nat.{ℕ, zero, suc, ◌+◌, ◌*◌, ◌/◌, ◌%◌, ◌≤◌}
use Prim.Native.Nat.{bit_xor, bit_or, max, digits, differ, bit_xor-bitwise, bit_or-bitwise}
use mathlib.Core.Path.{◌≡◌, refl, sym, ap, ◌∙◌}
use native.Mathlib.Omega.{arith}

-- The digits of `x` xor `y`, with fuel for those of `x`.
abbrev xor_digits : ℕ → ℕ → ℕ → ℕ
xor_digits = digits (λ rest. rest) differ

-- Fuel beyond `x` changes nothing; `top` bounds the fuel, for the induction.
spare_fuel : (top fuel x y : ℕ) → fuel ≤ top → x ≤ fuel → xor_digits fuel x y ≡ xor_digits x x y
spare_fuel top zero zero y room enough = refl
spare_fuel top zero (suc x) y room enough = absurd (omega arith)
spare_fuel top (suc fuel) zero y room enough = refl
spare_fuel zero (suc fuel) (suc x) y room enough = absurd (omega arith)
spare_fuel (suc top) (suc fuel) (suc x) y room enough =
    let half = suc x / 2 in
    let low = spare_fuel top fuel half (y / 2) (omega arith) (omega arith) in
    let high = spare_fuel top x half (y / 2) (omega arith) (omega arith) in
    ap (λ d. d * 2 + differ (suc x % 2) (y % 2)) (low ∙ sym high)

pub bit_xor_step : (a b : ℕ) → bit_xor a b ≡ bit_xor (a / 2) (b / 2) * 2 + differ (a % 2) (b % 2)
bit_xor_step zero b = simp bit_xor-bitwise (omega arith)
bit_xor_step (suc a) b =
    simp bit_xor-bitwise
      (omega (arith, spare_fuel a a (suc a / 2) (b / 2) (omega arith) (omega arith)))

-- Or with 0.
or_digits-zero : (fuel x : ℕ) → x ≤ fuel → digits (λ rest. rest) max fuel x 0 ≡ x
or_digits-zero zero zero enough = refl
or_digits-zero zero (suc x) enough = absurd (omega arith)
or_digits-zero (suc fuel) zero enough = refl
or_digits-zero (suc fuel) (suc x) enough =
    omega (arith, or_digits-zero fuel (suc x / 2) (omega arith))

pub bit_or-zero : (a : ℕ) → bit_or a 0 ≡ a
bit_or-zero a = simp bit_or-bitwise (or_digits-zero a a (omega arith))
