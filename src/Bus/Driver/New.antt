-- ===== src/Bus/Driver/New.antt =====
-- The registration of a driver whose name is new.
use rs.Prelude.{
  ℕ, ◌≡◌, refl, sym, ap, ◌∙◌, subst, Bool, true, false, Option, none, some, List, [], ◌∷◌, ◌++◌, ℤ,
  pos, neg_enodev, is_nonzero, if◌then◌else◌,
}
use rs.Bus.{
  BusType, Hooks, put, wlist_add_tail, wlist_iter_init_node, for_each, exit_devices,
  bus_for_each_dev,
}
use rs.Bus.Driver.{
  set_driver, list_bound, driver_bound, probe_of, really_probe, mismatch, driver_probe_device,
  driver_attach_one, driver_attach, bus_add_driver, driver_register,
}
use rs.Bus.Lookup.{NoneOf}
use rs.Bus.Driver.Register.{is_named, missed, after_find}

module _ (hooks : Hooks) where
  driver_bound-drivers :
      (dev : ℕ) (bus : BusType) → (driver_bound dev bus).wlist_drivers ≡ bus.wlist_drivers
  unfolding driver_bound
  driver_bound-drivers dev bus = go (bus.device dev).on_driver (bus.device dev).driver
    where
      go :
          (b : Bool) (o : Option ℕ)
          → (if b
              then bus
              else elim o [ none ↦ bus | some drv ↦ list_bound drv dev bus ]).wlist_drivers
            ≡ bus.wlist_drivers
      go true o = refl
      go false none = refl
      go false (some drv) = refl

  driver_probe_device-drivers :
      (drv dev : ℕ) (bus : BusType)
      → (driver_probe_device hooks drv dev bus).1.wlist_drivers ≡ bus.wlist_drivers
  unfolding driver_probe_device really_probe
  driver_probe_device-drivers drv dev bus =
      go (bus.device dev).is_driver_register (mismatch hooks drv dev)
        (is_nonzero (probe_of hooks drv dev))
    where
      go :
          (a b c : Bool)
          → let r : ℤ × BusType =
              if a
              then (neg_enodev, bus)
              else if b
              then (pos 0, bus)
              else if c
              then (pos 0, set_driver dev none (set_driver dev (some drv) bus))
              else (pos 1, driver_bound dev (set_driver dev (some drv) bus)) in
            r.1.wlist_drivers ≡ bus.wlist_drivers
      go true b c = refl
      go false true c = refl
      go false false true = refl
      go false false false = driver_bound-drivers dev (set_driver dev (some drv) bus)

  driver_attach_one-drivers :
      (drv dev : ℕ) (bus : BusType)
      → ((driver_attach_one hooks drv dev bus).0 ≡ pos 0)
        × ((driver_attach_one hooks drv dev bus).1.wlist_drivers ≡ bus.wlist_drivers)
  unfolding driver_attach_one
  driver_attach_one-drivers drv dev bus = go (bus.device dev).driver
    where
      go :
          (o : Option ℕ)
          → let r : ℤ × BusType = elim o [
            | some old ↦ (pos 0, bus)
            | none ↦ (pos 0, (driver_probe_device hooks drv dev bus).1)
          ] in
            (r.0 ≡ pos 0) × (r.1.wlist_drivers ≡ bus.wlist_drivers)
      go none = (refl, driver_probe_device-drivers drv dev bus)
      go (some old) = (refl, refl)

  walk_attach :
      (drv : ℕ) (xs : List ℕ) (error : ℤ) (bus : BusType)
      → error ≡ pos 0
      → let r = for_each (driver_attach_one hooks drv) xs error bus in
        (r.0 ≡ none) × (r.1 ≡ pos 0) × (r.2.wlist_drivers ≡ bus.wlist_drivers)
  unfolding for_each
  walk_attach drv [] error bus e = (refl, e, refl)
  walk_attach drv (x ∷ xs) error bus e =
      let (quiet, kept) = driver_attach_one-drivers drv x bus in
      let (at, err, same) =
        walk_attach drv xs (driver_attach_one hooks drv x bus).0
          (driver_attach_one hooks drv x bus).1 quiet in
      let after : Option ℕ × ℤ × BusType =
        for_each (driver_attach_one hooks drv) xs (driver_attach_one hooks drv x bus).0
          (driver_attach_one hooks drv x bus).1 in
      subst
        (λ n.
          let r : Option ℕ × ℤ × BusType = if is_nonzero n then (some x, n, bus) else after in
          (r.0 ≡ none) × (r.1 ≡ pos 0) × (r.2.wlist_drivers ≡ bus.wlist_drivers))
        (sym e) (at, err, same ∙ kept)

  exit_devices-drivers :
      (at : Option ℕ) (bus : BusType) → (exit_devices at bus).wlist_drivers ≡ bus.wlist_drivers
  unfolding exit_devices
  exit_devices-drivers none bus = refl
  exit_devices-drivers (some n) bus = refl

  driver_attach-drivers :
      (drv : ℕ) (bus : BusType)
      → ((driver_attach hooks drv bus).0 ≡ pos 0)
        × ((driver_attach hooks drv bus).1.wlist_drivers ≡ bus.wlist_drivers)
  unfolding driver_attach bus_for_each_dev wlist_iter_init_node
  driver_attach-drivers drv bus =
      let r = for_each (driver_attach_one hooks drv) bus.wlist_devices (pos 0) bus in
      let (at, err, same) = walk_attach drv bus.wlist_devices (pos 0) bus refl in
      (err, exit_devices-drivers r.0 r.2 ∙ same)

  bus_add_driver-drivers :
      (drv : ℕ) (bus : BusType)
      → ((bus_add_driver hooks true drv bus).0 ≡ pos 0)
        × ((bus_add_driver hooks true drv bus).1.wlist_drivers ≡ bus.wlist_drivers ++ drv ∷ [])
  unfolding bus_add_driver
  bus_add_driver-drivers drv bus = finish probed (attached bus.drivers_autoprobe)
    where
      fresh : BusType
      fresh = record bus {
        driver = put bus.driver drv (record (bus.driver drv) { wlist_devices = [] });
      }

      attached :
          (b : Bool)
          → let r : ℤ × BusType = if b then driver_attach hooks drv fresh else (pos 0, fresh) in
            (r.0 ≡ pos 0) × (r.1.wlist_drivers ≡ bus.wlist_drivers)
      attached true = driver_attach-drivers drv fresh
      attached false = (refl, refl)

      probed : ℤ × BusType
      probed = if bus.drivers_autoprobe then driver_attach hooks drv fresh else (pos 0, fresh)

      finish :
          (r : ℤ × BusType)
          → (r.0 ≡ pos 0) × (r.1.wlist_drivers ≡ bus.wlist_drivers)
          → let s : ℤ × BusType =
              if is_nonzero r.0
              then (r.0, r.1)
              else (pos 0, record r.1 { wlist_drivers = wlist_add_tail drv r.1.wlist_drivers }) in
            (s.0 ≡ pos 0) × (s.1.wlist_drivers ≡ bus.wlist_drivers ++ drv ∷ [])
      finish r (e, same) =
          subst
            (λ n.
              let s : ℤ × BusType =
                if is_nonzero n
                then (n, r.1)
                else (pos 0, record r.1 { wlist_drivers = wlist_add_tail drv r.1.wlist_drivers }) in
              (s.0 ≡ pos 0) × (s.1.wlist_drivers ≡ bus.wlist_drivers ++ drv ∷ []))
            (sym e) (refl, ap (λ l. l ++ drv ∷ []) same)

-- The registration of a driver whose name is new on the bus succeeds when there is memory, whatever
-- the probes of the devices give, and puts the driver at the end of the bus's drivers.
pub driver_register-new :
    (hooks : Hooks) (drv : ℕ) (bus : BusType)
    → NoneOf (is_named bus (bus.driver drv).name) bus.wlist_drivers
    → (bus' : BusType) × (driver_register hooks true drv bus ≡ (pos 0, bus'))
      × (bus'.wlist_drivers ≡ bus.wlist_drivers ++ drv ∷ [])
unfolding driver_register
driver_register-new hooks drv bus others =
    let (quiet, kept) = bus_add_driver-drivers hooks drv bus in
    let added = bus_add_driver hooks true drv bus in
    (
      added.1,
      ap (after_find hooks true drv) (missed bus (bus.driver drv).name others)
          ∙ ap (λ n. (n, added.1)) quiet,
      kept,
    )
