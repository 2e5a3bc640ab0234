-- ===== src/Core/Calls.antt =====
-- The calls of start-up and of the end, app/rs485d/src/core/register.c. The linker collects the
-- functions that are registered into a table, here a list; each is applied to its arguments.
use rs.Prelude.{
  ℕ, zero, suc, ◌≡◌, refl, Bool, true, false, List, [], ◌∷◌, ◌++◌, ℤ, pos, negsuc, neg_eperm,
  if◌then◌else◌,
}
use mathlib.Core.List.{Memᴰ}

-- `retval <= 0`
unfoldable pub is_final : ℤ → Bool
is_final (pos zero) = true
is_final (pos (suc n)) = false
is_final (negsuc n) = true

module _ {W : Type 0} where
  -- `bus_initcalls(interface, name)`
  pub bus_initcalls : List (W → ℤ × W) → W → ℤ × W
  bus_initcalls [] w = (neg_eperm, w)
  bus_initcalls (call ∷ calls) w =
      let (retval, w') = call w in
      let rest = bus_initcalls calls w' in if is_final retval then (retval, w') else rest

  -- `bus_exitcalls(bus)`
  pub bus_exitcalls : List (W → ℤ × W) → W → ℤ × W
  bus_exitcalls [] w = (neg_eperm, w)
  bus_exitcalls (call ∷ calls) w =
      let (retval, w') = call w in
      let rest = bus_exitcalls calls w' in if is_final retval then (retval, w') else rest

  -- `driver_initcalls(bus_name)`: every call is made, and its result is ignored.
  pub driver_initcalls : List (W → ℤ × W) → W → W
  driver_initcalls [] w = w
  driver_initcalls (call ∷ calls) w = driver_initcalls calls (call w).1

  -- A call that leaves the matter to the others.
  abbrev pub Declines : W → (W → ℤ × W) → Type 0
  Declines w call = (n : ℕ) × (call w ≡ (pos (suc n), w))

  -- The calls before the one that takes the matter decline it: that one decides, at the start and
  -- at the end, and no call after it is made.
  pub initcalls-decides :
      (before after : List (W → ℤ × W)) (call : W → ℤ × W) (w : W)
      → ((c : W → ℤ × W) → Memᴰ c before → Declines w c)
      → is_final (call w).0 ≡ true
      → (bus_initcalls (before ++ call ∷ after) w ≡ call w)
        × (bus_exitcalls (before ++ call ∷ after) w ≡ call w)
  unfolding bus_initcalls bus_exitcalls is_final
  initcalls-decides [] after call w decline final = rw final (refl, refl)
  initcalls-decides (c ∷ before) after call w decline final =
      let (n, e) = decline c (Memᴰ.head refl) in
      rw e (initcalls-decides before after call w (λ d m. decline d (Memᴰ.tail m)) final)
