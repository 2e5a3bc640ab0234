-- ===== src/Prelude/Fields.antt =====
-- And and or on numbers that are cut into fields of binary digits.
use Prim.Native.Nat.{ℕ, zero, suc, ◌+◌, ◌*◌, ◌/◌, ◌%◌, ◌^◌, ◌≤◌, ◌<◌, min, max}
use Prim.Native.Nat.{bit_and, bit_or, bitwise, digits, bit_and-bitwise, bit_or-bitwise}
use mathlib.Core.Path.{◌≡◌, refl, sym, ap, ap₂, ◌∙◌}
use native.Mathlib.Nat.{pow-suc}
use native.Mathlib.Omega.{arith}

module _ (z : ℕ → ℕ) (f : ℕ → ℕ → ℕ) where
  -- Fuel beyond the first number changes nothing; `top` bounds the fuel.
  fuel_left : (top fuel x y : ℕ) → fuel ≤ top → x ≤ fuel → digits z f fuel x y ≡ digits z f x x y
  fuel_left top zero zero y room enough = refl
  fuel_left top zero (suc x) y room enough = absurd (omega arith)
  fuel_left top (suc fuel) zero y room enough = refl
  fuel_left zero (suc fuel) (suc x) y room enough = absurd (omega arith)
  fuel_left (suc top) (suc fuel) (suc x) y room enough =
      ap (λ d. d * 2 + f (suc x % 2) (y % 2))
        (fuel_left top fuel (suc x / 2) (y / 2) (omega arith) (omega arith)
          ∙ sym (fuel_left top x (suc x / 2) (y / 2) (omega arith) (omega arith)))

  module _ (run_out : (b : ℕ) → z b ≡ z (b / 2) * 2 + f 0 (b % 2)) where
    digits_step : (a b : ℕ) → bitwise z f a b ≡ bitwise z f (a / 2) (b / 2) * 2 + f (a % 2) (b % 2)
    digits_step zero b = run_out b
    digits_step (suc a) b =
        ap (λ d. d * 2 + f (suc a % 2) (b % 2))
          (fuel_left a a (suc a / 2) (b / 2) (omega arith) (omega arith))

    -- The fields above and below a digit are handled apart.
    digits_split :
        (k q p r s : ℕ)
        → r < 2 ^ k
        → s < 2 ^ k
        → bitwise z f (q * 2 ^ k + r) (p * 2 ^ k + s) ≡ bitwise z f q p * 2 ^ k + bitwise z f r s
    digits_split zero q p zero zero hr hs =
        ap₂ (bitwise z f) (whole q) (whole p) ∙ omega (arith, run_out 0)
      where
        whole : (n : ℕ) → n * 1 + 0 ≡ n
        whole n = omega arith
    digits_split zero q p (suc r) s hr hs = absurd (omega arith)
    digits_split zero q p zero (suc s) hr hs = absurd (omega arith)
    digits_split (suc k) q p r s hr hs =
        let a = q * 2 ^ suc k + r in
        let b = p * 2 ^ suc k + s in
        let ih =
          digits_split k q p (r / 2) (s / 2) (omega (arith, pow-suc 2 k))
            (omega (arith, pow-suc 2 k)) in
        digits_step a b
        ∙ ap₂ (λ d e. d * 2 + e) (ap₂ (bitwise z f) (half q r) (half p s) ∙ ih)
            (ap₂ f (low q r) (low p s))
        ∙ omega (arith, digits_step r s, double (bitwise z f q p))
      where
        double : (n : ℕ) → n * 2 ^ suc k ≡ 2 * (n * 2 ^ k)
        double n = omega (arith, pow-suc 2 k, ap (λ (t : ℕ). n * t) (pow-suc 2 k))

        half : (n t : ℕ) → (n * 2 ^ suc k + t) / 2 ≡ n * 2 ^ k + t / 2
        half n t = omega (arith, double n)

        low : (n t : ℕ) → (n * 2 ^ suc k + t) % 2 ≡ t % 2
        low n t = omega (arith, double n)

pub bit_and_split :
    (k q p r s : ℕ)
    → r < 2 ^ k
    → s < 2 ^ k
    → bit_and (q * 2 ^ k + r) (p * 2 ^ k + s) ≡ bit_and q p * 2 ^ k + bit_and r s
bit_and_split k q p r s hr hs =
    simp bit_and-bitwise (digits_split (λ b. 0) min (λ b. omega arith) k q p r s hr hs)

pub bit_or_split :
    (k q p r s : ℕ)
    → r < 2 ^ k
    → s < 2 ^ k
    → bit_or (q * 2 ^ k + r) (p * 2 ^ k + s) ≡ bit_or q p * 2 ^ k + bit_or r s
bit_or_split k q p r s hr hs =
    simp bit_or-bitwise (digits_split (λ b. b) max (λ b. omega arith) k q p r s hr hs)

pub zero_or : (b : ℕ) → bit_or 0 b ≡ b
zero_or b = bit_or-bitwise 0 b
