-- ===== src/Bus/Driver/Match.antt =====
-- The match of devices and drivers, rs485_device_match of app/rs485d/src/core/core.c, as the callback of
-- the bus.
use rs.Prelude.{
  ℕ, ◌≡◌, ap, ap₂, ◌∙◌, true, false, not, Option, none, some, ℤ, pos, neg_einval, neg_enodev,
  is_nonzero, ◌==◌, if◌then◌else◌, arith,
}
use rs.Bus.{BusType, Hooks}
use rs.Bus.Driver.{really_probe, mismatch, driver_probe_device}

-- The comparison of the names, of which `none` is NULL.
pub match_names : Option ℕ → Option ℕ → ℤ
match_names none driver_name = neg_einval
match_names (some wanted) none = neg_einval
match_names (some wanted) (some name) = if wanted == name then pos 0 else neg_enodev

-- `rs485_device_match(dev, drv)`, with the `info.match_driver` of each device and the `name` of each
-- driver.
pub rs485_device_match : (ℕ → Option ℕ) → (ℕ → Option ℕ) → ℕ → ℕ → ℤ
rs485_device_match match_driver name dev drv = match_names (match_driver dev) (name drv)

abbrev pub with_match : Hooks → (ℕ → Option ℕ) → (ℕ → Option ℕ) → Hooks
with_match hooks match_driver name = record hooks {
  match_device = some (rs485_device_match match_driver name);
}

-- A probe of a free device goes by what the match gives.
probe_by_match :
    (hooks : Hooks) (match_driver name : ℕ → Option ℕ) (dev drv : ℕ) (bus : BusType) (v : ℤ)
    → (bus.device dev).is_driver_register ≡ false
    → match_names (match_driver dev) (name drv) ≡ v
    → let hooks' = with_match hooks match_driver name in
      driver_probe_device hooks' drv dev bus
      ≡ (if not (is_nonzero v) then (pos 0, bus) else really_probe hooks' dev drv bus)
unfolding driver_probe_device mismatch rs485_device_match
probe_by_match hooks match_driver name dev drv bus v free matched =
    let hooks' = with_match hooks match_driver name in
    ap
      (λ b.
        if b
        then (neg_enodev, bus)
        else if mismatch hooks' drv dev
        then (pos 0, bus)
        else really_probe hooks' dev drv bus)
      free
    ∙ ap (λ n. if not (is_nonzero n) then (pos 0, bus) else really_probe hooks' dev drv bus) matched

-- With `rs485_device_match` as the match of the bus, a driver that has the name a device asks for is
-- not probed for it, and the bus stays as it is, while a driver with another name is probed.
pub driver_probe_device-rs485_device_match :
    (hooks : Hooks) (match_driver name : ℕ → Option ℕ) (dev drv other wanted another : ℕ)
    (bus : BusType)
    → (bus.device dev).is_driver_register ≡ false
    → match_driver dev ≡ some wanted
    → name drv ≡ some wanted
    → name other ≡ some another
    → (wanted == another) ≡ false
    → let hooks' = with_match hooks match_driver name in
      (driver_probe_device hooks' drv dev bus ≡ (pos 0, bus))
      × (driver_probe_device hooks' other dev bus ≡ really_probe hooks' dev other bus)
unfolding match_names
driver_probe_device-rs485_device_match hooks match_driver name dev drv other wanted another bus free
      asks has differs apart =
    let self : (wanted == wanted) ≡ true = ground arith in
    (
      probe_by_match hooks match_driver name dev drv bus (pos 0) free
          (ap₂ match_names asks has ∙ ap (λ b. if b then pos 0 else neg_enodev) self),
      probe_by_match hooks match_driver name dev other bus neg_enodev free
          (ap₂ match_names asks differs ∙ ap (λ b. if b then pos 0 else neg_enodev) apart),
    )
