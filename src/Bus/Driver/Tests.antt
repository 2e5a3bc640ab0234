-- ===== src/Bus/Driver/Tests.antt =====
-- A bus with two devices and two drivers.
use rs.Prelude.{
  ◌⊎◌, Option, ℕ, ◌+◌, ◌≡◌, refl, true, false, none, some, [], ◌∷◌, neg_eexist, ◌==◌, if◌then◌else◌,
  arith, length, length-append, get_or, ap,
}
use mathlib.Core.List.{Memᴰ}
use mathlib.Core.List.Memᴰ
use rs.Bus.{BusType, Hooks, bus_find_device_by_name}
use rs.Bus.Driver.{driver_register, driver_detach}
use rs.Bus.Driver.Register.{driver_register-known}
use rs.Bus.Driver.Detach.{Distinct, Released, driver_detach-Released}
use rs.Bus.Lookup.{NoneOf, FirstOf, has_name, bus_find_device_by_name-once}

abbrev hooks : Hooks
hooks = record { match_device = none; bus_probe = none; driver_probe = λ drv. none }

-- The device `n` is called `10 + n` and has the driver 1; the driver `n` is called `20 + n`.
abbrev small : BusType
small = record {
  wlist_devices = 1 ∷ 2 ∷ [];
  wlist_drivers = 1 ∷ 2 ∷ [];
  drivers_autoprobe = true;
  device = λ n. record {
    bus_id = 10 + n;
    is_driver_register = false;
    driver = some 1;
    on_bus = true;
    on_driver = true;
  };
  driver = λ n. record { name = 20 + n; wlist_devices = if n == 1 then 1 ∷ 2 ∷ [] else [] };
}

-- The devices 1 and 2 under one name.
abbrev same_name : BusType
same_name = record small { device = λ n. record (small.device n) { bus_id = 11 } }

bus_find_device_by_name-once_example :
    (bus' : BusType) × (bus_find_device_by_name none 11 same_name ≡ (some 1, bus'))
    × (bus'.wlist_devices ≡ 2 ∷ [])
    × ((NoneOf (has_name same_name 11) (2 ∷ [])
          × (bus_find_device_by_name none 11 bus' ≡ (none, bus')))
        ⊎ ((e : ℕ) × FirstOf (has_name same_name 11) (2 ∷ []) e
            × ((bus_find_device_by_name none 11 bus').0 ≡ some e)))
bus_find_device_by_name-once_example =
    bus_find_device_by_name-once same_name [] (2 ∷ []) 1 11 refl (λ x m. elim m [ ]) refl

-- The driver 3 has the name of the driver 1.
abbrev twin : BusType
twin = record small {
  driver = λ n. record { name = if n == 3 then 21 else 20 + n; wlist_devices = [] };
}

driver_register-known_example :
    driver_register hooks true 3 twin ≡ (neg_eexist, record twin { wlist_drivers = 1 ∷ [] })
driver_register-known_example =
    driver_register-known hooks true 3 1 twin [] (2 ∷ []) refl (λ x m. elim m [ ]) refl apart
  where
    apart : (y : ℕ) → Memᴰ y (2 ∷ []) → (x : ℕ) → Memᴰ x (1 ∷ []) → (x == y) ≡ false
    apart y m x m' = ground (arith, Memᴰ.eq_of_singleton m, Memᴰ.eq_of_singleton m')

once_each : Distinct (1 ∷ 2 ∷ [])
once_each [] ys d e x m = elim m [ ]
once_each (a ∷ []) ys d e x m =
    ground (arith, ap (λ l. get_or l 0 0) e, ap (λ l. get_or l 1 0) e, Memᴰ.eq_of_singleton m)
once_each (a ∷ b ∷ zs) ys d e x m =
    absurd (omega (arith, ap (λ l. length l) e, length-append zs (d ∷ ys)))

driver_detach-Released_example : Released 1 small (driver_detach 3 1 small)
driver_detach-Released_example =
    driver_detach-Released 1 3 small (λ dev m. refl) once_each (omega arith)

-- The device 1 asks for the name 21, which is that of the driver 1.
abbrev wants : ℕ → Option ℕ
wants dev = some 21

abbrev called : ℕ → Option ℕ
called drv = some (20 + drv)
