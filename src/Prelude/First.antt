-- ===== src/Prelude/First.antt =====
-- The loop `for (i = from; i < from + n; i++) if (p(i)) break;`.
use Prim.Native.Nat.{ℕ, zero, suc, ◌+◌, ◌≤◌, ◌<◌}
use native.Mathlib.Decide.{ℕ_discrete}
use mathlib.Core.Path.{◌≡◌, subst}
use mathlib.Core.Logic.{◌⊎◌, inl, inr}
use mathlib.Core.Bool.{Bool, true, false}
use native.Mathlib.Omega.{arith}
use rs.Prelude.Tests.{if◌then◌else◌, Bool-cases}

-- The value of `i` after the loop.
unfoldable pub first_from : (ℕ → Bool) → ℕ → ℕ → ℕ
first_from p i zero = i
first_from p i (suc n) = let rest = first_from p (i + 1) n in if p i then i else rest

-- The loop over the indices from `i` to `i + n` stops at `r`.
abbrev pub StopsAt : (ℕ → Bool) → ℕ → ℕ → ℕ → Type 0
StopsAt p i n r =
    (i ≤ r) × ((k : ℕ) → i ≤ k → k < r → p k ≡ false) × ((r ≡ i + n) ⊎ ((r < i + n) × (p r ≡ true)))

module _ (p : ℕ → Bool) where
  first_step : (i n r : ℕ) → p i ≡ false → StopsAt p (i + 1) n r → StopsAt p i (suc n) r
  first_step i n r goes (low, clear, ends) = (omega arith, below, ground arith)
    where
      below : (k : ℕ) → i ≤ k → k < r → p k ≡ false
      below k lo hi = elim (ℕ_discrete i k) [
        | yes same ↦ subst (λ j. p j ≡ false) same goes
        | no other ↦ clear k (omega arith) hi
      ]

  pub first_from_lem : (i n : ℕ) → StopsAt p i n (first_from p i n)
  unfolding first_from
  first_from_lem i zero = (omega arith, λ k lo hi. absurd (omega arith), inl (omega arith))
  first_from_lem i (suc n) = elim (Bool-cases (p i)) [
    | inl stops ↦
        rw stops ((omega arith, λ k lo hi. absurd (omega arith), inr (omega arith, stops)))
    | inr goes ↦ rw goes (first_step i n (first_from p (i + 1) n) goes (first_from_lem (i + 1) n))
  ]
