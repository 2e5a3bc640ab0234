-- ===== src/Bus/Lists.antt =====
-- The other calls of sdk/module/list/wlist.c, and the walks over the devices of a driver in
-- sdk/framework/bus/device_driver.c.
use rs.Prelude.{
  ℕ, ◌≡◌, refl, Bool, false, Option, none, some, List, [], ◌∷◌, ℤ, pos, neg_einval, arith, ◌==◌,
  if◌then◌else◌,
}
use mathlib.Core.List.{Memᴰ}
use rs.Bus.{BusType, put, wlist_del, wlist_iter_init_node, for_each, find}
use rs.Bus.Lookup.{wlist_del-nil, wlist_del-cons}

-- `wlist_add_head(n, k)` on the list of nodes.
abbrev pub wlist_add_head : ℕ → List ℕ → List ℕ
wlist_add_head n k = n ∷ k

-- `wlist_add_after(n, pos)`, where the node `pos` is on the list.
pub wlist_add_after : ℕ → ℕ → List ℕ → List ℕ
wlist_add_after n at [] = []
wlist_add_after n at (x ∷ k) =
    let rest = wlist_add_after n at k in if x == at then x ∷ n ∷ k else x ∷ rest

-- `wlist_add_before(n, pos)`
pub wlist_add_before : ℕ → ℕ → List ℕ → List ℕ
wlist_add_before n at [] = []
wlist_add_before n at (x ∷ k) =
    let rest = wlist_add_before n at k in if x == at then n ∷ x ∷ k else x ∷ rest

-- `wlist_remove(n)`
pub wlist_remove : ℕ → List ℕ → List ℕ
wlist_remove n k = wlist_del n k

-- `wlist_iter_exit(i)` on the devices of a driver.
pub exit_driver_devices : ℕ → Option ℕ → BusType → BusType
exit_driver_devices drv none bus = bus
exit_driver_devices drv (some n) bus = record bus {
  driver =
      put bus.driver drv
        (record (bus.driver drv) { wlist_devices = wlist_del n (bus.driver drv).wlist_devices });
  device = put bus.device n (record (bus.device n) { on_driver = false });
}

-- `driver_for_each_device(drv, start, data, fn)`; `none` is a NULL driver.
pub driver_for_each_device :
    Option ℕ → Option ℕ → (ℕ → BusType → ℤ × BusType) → BusType → ℤ × BusType
driver_for_each_device none start fn bus = (neg_einval, bus)
driver_for_each_device (some drv) start fn bus =
    let (at, error, bus') =
      for_each fn (wlist_iter_init_node (bus.driver drv).wlist_devices start) (pos 0) bus in
    (error, exit_driver_devices drv at bus')

-- `driver_find_device(drv, start, data, match)`
pub driver_find_device : Option ℕ → Option ℕ → (ℕ → Bool) → BusType → Option ℕ × BusType
driver_find_device none start matches bus = (none, bus)
driver_find_device (some drv) start matches bus =
    let at = find matches (wlist_iter_init_node (bus.driver drv).wlist_devices start) in
    (at, exit_driver_devices drv at bus)

-- No node of the list is `n`.
abbrev NotOn : ℕ → List ℕ → Type 0
NotOn n k = (x : ℕ) → Memᴰ x k → (x == n) ≡ false

-- A node that is not on the list, added after or before one of it, or where there is none, and
-- removed: the list is as before.
pub wlist_remove-add :
    (n at : ℕ) (k : List ℕ)
    → NotOn n k
    → (wlist_remove n (wlist_add_after n at k) ≡ k) × (wlist_remove n (wlist_add_before n at k) ≡ k)
unfolding wlist_remove wlist_add_after wlist_add_before
wlist_remove-add n at [] fresh = (wlist_del-nil n, wlist_del-nil n)
wlist_remove-add n at (x ∷ k) fresh =
    let (after, before) = wlist_remove-add n at k (λ y m. fresh y (Memᴰ.tail m)) in
    let other = fresh x (Memᴰ.head refl) in
    (
      ground (
        arith,
        other,
        after,
        wlist_del-cons n x (n ∷ k),
        wlist_del-cons n n k,
        wlist_del-cons n x (wlist_add_after n at k),
      ),
      ground (
        arith,
        other,
        before,
        wlist_del-cons n n (x ∷ k),
        wlist_del-cons n x (wlist_add_before n at k),
      ),
    )
