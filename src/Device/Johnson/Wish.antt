-- ===== src/Device/Johnson/Wish.antt =====
-- What the methods of the Johnson Controls driver mean, and the masks of the code against it.
use rs.Prelude.{
  ◌*◌, ◌&&◌, ltb, ◌==◌, if◌then◌else◌, Bool, true, false, Option, none, some, [], ◌∷◌, all_below,
  all_below_sound, Bool-cases, inl, inr, ℕ, ◌<◌, ◌≡◌, refl, sym, ap, ◌∙◌, List, arith,
}
use rs.Device.Johnson.{Change, into_first, into_second, unknown, change}

-- What a client wants of a unit: the degrees; the swing on or off; the fan's speed (1 low, 2 middle,
-- 3 high, 4 automatic); the mode (1 cooling, 2 drying, 3 fan, 4 heating); the power on or off.
pub data Wish : Type 0 where
  degrees : ℕ → Wish
  swing : Bool → Wish
  speed : ℕ → Wish
  mode : ℕ → Wish
  power : Bool → Wish

-- The methods of the client. To swing both ways is the box's off, and the automatic mode its drying;
-- 21 degrees is missing.
abbrev wishes : List (ℕ × Wish)
wishes =
    (18, degrees 18)
    ∷ (19, degrees 19)
    ∷ (20, degrees 20)
    ∷ (22, degrees 22)
    ∷ (23, degrees 23)
    ∷ (24, degrees 24)
    ∷ (25, degrees 25)
    ∷ (26, degrees 26)
    ∷ (27, degrees 27)
    ∷ (28, degrees 28)
    ∷ (29, degrees 29)
    ∷ (30, degrees 30)
    ∷ (41, swing true)
    ∷ (42, swing true)
    ∷ (43, swing true)
    ∷ (44, swing false)
    ∷ (51, speed 4)
    ∷ (52, speed 3)
    ∷ (53, speed 2)
    ∷ (54, speed 1)
    ∷ (61, mode 3)
    ∷ (62, mode 4)
    ∷ (63, mode 1)
    ∷ (64, mode 2)
    ∷ (65, mode 2)
    ∷ (71, power false)
    ∷ (72, power true)
    ∷ []

abbrev wish_in : ℕ → List (ℕ × Wish) → Option Wish
wish_in method [] = none
wish_in method (row ∷ rows) =
    let rest = wish_in method rows in if row.0 == method then some row.1 else rest

unfoldable pub wish : ℕ → Option Wish
wish method = if ltb method 80 then wish_in method wishes else none

-- The masks of a wish in the two words of a unit: degrees in the low byte of the second and the fan
-- in its high byte; the swing in bit 1 of the first, and the mode and the power in its high byte.
abbrev pub masks : Wish → ℕ × ℕ
masks (degrees t) = (0, t)
masks (swing true) = (2, 0)
masks (swing false) = (0, 0)
masks (speed n) = (0, n * 256)
masks (mode n) = (n * 256, 0)
masks (power true) = (512, 0)
masks (power false) = (0, 0)

abbrev pub bits_in : Change → Option (ℕ × ℕ)
bits_in (into_first bits) = some (bits, 0)
bits_in (into_second bits) = some (0, bits)
bits_in unknown = none

abbrev pub has_masks : Option (ℕ × ℕ) → ℕ × ℕ → Bool
has_masks none b = false
has_masks (some a) b = a.0 == b.0 && a.1 == b.1

abbrev case_fits : ℕ → Option Wish → Bool
case_fits method none = true
case_fits method (some w) = has_masks (bits_in (change method)) (masks w)

cases_fit : all_below 80 (λ m. case_fits m (wish m)) ≡ true
unfolding all_below change wish
cases_fit = refl

wish_small : (m : ℕ) (w : Wish) → wish m ≡ some w → m < 80
unfolding wish
wish_small m w e = elim (Bool-cases (ltb m 80)) [
  | inl small ↦ ground (arith, small)
  | inr large ↦ absurd (ground (arith, large, e))
]

pub wish-masks :
    (m : ℕ) (w : Wish) → wish m ≡ some w → has_masks (bits_in (change m)) (masks w) ≡ true
wish-masks m w e =
    sym (ap (case_fits m) e)
    ∙ all_below_sound 80 (λ k. case_fits k (wish k)) m cases_fit (wish_small m w e)
