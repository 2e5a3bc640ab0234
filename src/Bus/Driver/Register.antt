-- ===== src/Bus/Driver/Register.antt =====
-- Registration of a driver.
use rs.Prelude.{
  ℕ, ◌≡◌, refl, sym, ap, ◌∙◌, Bool, true, Option, none, some, List, [], ◌∷◌, ◌++◌, ℤ, pos,
  neg_eexist, is_nonzero, ◌==◌, if◌then◌else◌, drop, arith,
}
use mathlib.Core.List.{Memᴰ, append_assoc, append-nil}
use rs.Bus.{
  BusType, Hooks, wlist_del, wlist_iter_init_node, for_each, exit_drivers, bus_for_each_drv,
}
use rs.Bus.Driver.{bus_add_driver, driver_find, driver_register}
use rs.Bus.Lookup.{NoneOf, wlist_del_at}

-- The test of the search for a driver, and the search's function.
abbrev pub is_named : BusType → ℕ → ℕ → Bool
is_named bus name drv = name == (bus.driver drv).name

abbrev pub match_driver : ℕ → ℕ → BusType → ℤ × BusType
match_driver name drv bus = (if name == (bus.driver drv).name then pos 1 else pos 0, bus)

pub walk_none :
    (bus : BusType) (name : ℕ) (xs rest : List ℕ)
    → NoneOf (is_named bus name) xs
    → for_each (match_driver name) (xs ++ rest) (pos 0) bus
      ≡ for_each (match_driver name) rest (pos 0) bus
unfolding for_each
walk_none bus name [] rest others = refl
walk_none bus name (x ∷ xs) rest others =
    ground
      (arith, others x (Memᴰ.head refl), walk_none bus name xs rest (λ y m. others y (Memᴰ.tail m)))

-- The first node of a list.
abbrev head? : List ℕ → Option ℕ
head? [] = none
head? (x ∷ xs) = some x

-- The search that has found a driver stops at the next one.
walk_found :
    (bus : BusType) (name d : ℕ) (rest : List ℕ)
    → is_named bus name d ≡ true
    → for_each (match_driver name) (d ∷ rest) (pos 0) bus ≡ (head? rest, pos 1, bus)
unfolding for_each
walk_found bus name d [] here = ground arith
walk_found bus name d (r ∷ rest) here = ground arith

found :
    (bus : BusType) (name d : ℕ) (xs rest : List ℕ)
    → bus.wlist_drivers ≡ xs ++ d ∷ rest
    → NoneOf (is_named bus name) xs
    → is_named bus name d ≡ true
    → driver_find name bus ≡ (pos 1, exit_drivers (head? rest) bus)
unfolding driver_find bus_for_each_drv wlist_iter_init_node
found bus name d xs rest e others here =
    ap (λ (r : Option ℕ × ℤ × BusType). (r.1, exit_drivers r.0 r.2))
      (ap (λ l. for_each (match_driver name) l (pos 0) bus) e
        ∙ walk_none bus name xs (d ∷ rest) others
        ∙ walk_found bus name d rest here)

pub missed :
    (bus : BusType) (name : ℕ)
    → NoneOf (is_named bus name) bus.wlist_drivers
    → driver_find name bus ≡ (pos 0, bus)
unfolding driver_find bus_for_each_drv wlist_iter_init_node exit_drivers for_each
missed bus name others =
    ap (λ (r : Option ℕ × ℤ × BusType). (r.1, exit_drivers r.0 r.2))
      (ap (λ l. for_each (match_driver name) l (pos 0) bus) (sym (append-nil bus.wlist_drivers))
        ∙ walk_none bus name bus.wlist_drivers [] others)

-- No driver stands twice on the list.
abbrev pub Apart : List ℕ → List ℕ → Type 0
Apart xs ys = (y : ℕ) → Memᴰ y ys → NoneOf (λ x. x == y) xs

exit_drivers-next :
    (bus : BusType) (d : ℕ) (xs rest : List ℕ)
    → bus.wlist_drivers ≡ xs ++ d ∷ rest
    → Apart (xs ++ d ∷ []) rest
    → exit_drivers (head? rest) bus ≡ record bus { wlist_drivers = xs ++ d ∷ drop 1 rest }
unfolding exit_drivers
exit_drivers-next bus d xs [] e apart = ap (λ l. record bus { wlist_drivers = l }) e
exit_drivers-next bus d xs (r ∷ rest) e apart =
    ap (λ l. record bus { wlist_drivers = l })
      (ap (wlist_del r) (e ∙ sym (append_assoc xs (d ∷ []) (r ∷ rest)))
        ∙ wlist_del_at (xs ++ d ∷ []) rest r (apart r (Memᴰ.head refl))
        ∙ append_assoc xs (d ∷ []) rest)

abbrev pub after_find : Hooks → Bool → ℕ → ℤ × BusType → ℤ × BusType
after_find hooks memory drv (n, bus') =
    if is_nonzero n then (neg_eexist, bus') else bus_add_driver hooks memory drv bus'

-- The registration of a driver whose name the bus knows is refused with -EEXIST, and takes the
-- driver that follows the known one off the bus.
pub driver_register-known :
    (hooks : Hooks) (memory : Bool) (drv d : ℕ) (bus : BusType) (xs rest : List ℕ)
    → bus.wlist_drivers ≡ xs ++ d ∷ rest
    → NoneOf (is_named bus (bus.driver drv).name) xs
    → is_named bus (bus.driver drv).name d ≡ true
    → Apart (xs ++ d ∷ []) rest
    → driver_register hooks memory drv bus
      ≡ (neg_eexist, record bus { wlist_drivers = xs ++ d ∷ drop 1 rest })
unfolding driver_register
driver_register-known hooks memory drv d bus xs rest e others here apart =
    ap (after_find hooks memory drv) (found bus (bus.driver drv).name d xs rest e others here)
    ∙ ap (λ b. (neg_eexist, b)) (exit_drivers-next bus d xs rest e apart)
