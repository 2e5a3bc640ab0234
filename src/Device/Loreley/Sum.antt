-- ===== src/Device/Loreley/Sum.antt =====
-- The sum check: a block with its check sums to zero modulo 256, and one changed byte shows.
use native.Mathlib.Decide.{dec_lt}
use rs.Prelude.{
  ℕ, zero, suc, ◌+◌, ◌%◌, ◌≤◌, ◌<◌, ◌≡◌, ◌↔◌, ◌⊎◌, inl, inr, refl, List, [], ◌∷◌, arith, u8, length,
  get_or, set,
}
use rs.Device.Loreley.{sum_loop, calculate_sum_check}

-- The sum of the first `n` bytes.
abbrev pub sum : List ℕ → ℕ → ℕ
sum l zero = 0
sum [] (suc n) = 0
sum (b ∷ l) (suc n) = b + sum l n

-- The wrap of the accumulator does not show in the remainder.
pub sum_loop-sum : (r : ℕ) (l : List ℕ) (n : ℕ) → r < 256 → sum_loop r l n ≡ (r + sum l n) % 256
unfolding sum_loop
sum_loop-sum r l zero h = omega arith
sum_loop-sum r [] (suc n) h = omega arith
sum_loop-sum r (b ∷ l) (suc n) h = omega (arith, sum_loop-sum (u8 (r + b)) l n (omega arith))

-- A check byte completes the sum to zero.
pub calculate_sum_check_lem : (l : List ℕ) (n : ℕ) → (sum l n + calculate_sum_check l n) % 256 ≡ 0
unfolding calculate_sum_check
calculate_sum_check_lem l n = omega (arith, sum_loop-sum 0 l n (omega arith))

pub calculate_sum_check-byte : (l : List ℕ) (n : ℕ) → calculate_sum_check l n < 256
unfolding calculate_sum_check
calculate_sum_check-byte l n = omega arith

-- A byte is the check of a block exactly if the block and the byte sum to zero modulo 256.
pub calculate_sum_check_iff :
    (l : List ℕ) (n c : ℕ) → c < 256 → (c ≡ calculate_sum_check l n) ↔ ((sum l n + c) % 256 ≡ 0)
calculate_sum_check_iff l n c h =
    ground (arith, calculate_sum_check_lem l n, calculate_sum_check-byte l n)

-- One changed byte changes the sum by the difference.
pub sum-set :
    (l : List ℕ) (n i v : ℕ) → i < n → i < length l → sum (set l i v) n + get_or l i 0 ≡ sum l n + v
sum-set [] n i v p q = absurd (omega arith)
sum-set (b ∷ l) zero i v p q = absurd (omega arith)
sum-set (b ∷ l) (suc n) zero v p q = omega arith
sum-set (b ∷ l) (suc n) (suc i) v p q = omega (arith, sum-set l n i v (omega arith) (omega arith))

-- A byte behind the block does not count.
pub sum-set_behind : (l : List ℕ) (n i v : ℕ) → n ≤ i → sum (set l i v) n ≡ sum l n
sum-set_behind l zero i v p = refl
sum-set_behind [] (suc n) i v p = refl
sum-set_behind (b ∷ l) (suc n) zero v p = absurd (omega arith)
sum-set_behind (b ∷ l) (suc n) (suc i) v p = omega (arith, sum-set_behind l n i v (omega arith))

-- Either way.
pub sum-set_cases :
    (l : List ℕ) (n i v : ℕ)
    → i < length l
    → ((i < n) × (sum (set l i v) n + get_or l i 0 ≡ sum l n + v))
      ⊎ ((n ≤ i) × (sum (set l i v) n ≡ sum l n))
sum-set_cases l n i v h = elim (dec_lt i n) [
  | yes p ↦ inl (p, sum-set l n i v p h)
  | no p ↦ inr (omega arith, sum-set_behind l n i v (omega arith))
]
