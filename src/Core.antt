-- ===== src/Core.antt =====
-- The buses of the daemon: rs485_bus_register and its kin of app/rs485d/src/core/core.c, with
-- bus_register and bus_unregister of sdk/framework/bus/bus.c. A bus is a number that stands for its
-- address, and a string is the list of its bytes before the NUL. The callbacks of a bus, the threads
-- and malloc are parameters.
pub mod Register
pub mod Ports
pub mod Names
pub mod Device
pub mod Calls
mod Tests
use rs.Prelude.{
  ℕ, ◌≡◌, Bool, true, false, ◌&&◌, Option, none, some, List, [], ◌∷◌, ◌++◌, ℤ, pos, neg_eperm,
  neg_einval, neg_enomem, neg_enodev, is_nonzero, take, ◌==◌, if◌then◌else◌,
}
use rs.Bus.{BusType, Hooks, put, wlist_del}
use rs.Bus.Driver.{driver_register, bus_remove_driver}

-- `probe` and `remove` of a bus (`none` is NULL) and whether it has a `pthread_func`; the start of
-- that function in a thread, and its end.
pub record Host (W : Type 0) : Type 0 where
  pub probe : ℕ → Option (W → ℤ × W)
  pub remove : ℕ → Option (W → W)
  pub has_pthread_func : ℕ → Bool
  pub pthread_create : ℕ → W → ℤ × W
  pub pthread_cancel : ℕ → W → W

-- The buses in memory: `rs485_bus_list`, the fields of each `struct rs485_bus_type` (`none` is a
-- NULL name), its `struct bus_type` with whether `bus.p` is allocated, and the rest of the world.
pub record Core (W : Type 0) : Type 0 where
  pub rs485_bus_list : List ℕ
  pub name : ℕ → Option (List ℕ)
  pub port_name : ℕ → Option (List ℕ)
  pub init_name : ℕ → List ℕ
  pub bus : ℕ → BusType
  pub allocated : ℕ → Bool
  pub world : W

-- `strcmp(a, b) == 0`
unfoldable pub same_string : List ℕ → List ℕ → Bool
same_string [] [] = true
same_string [] (b ∷ bs) = false
same_string (a ∷ as') [] = false
same_string (a ∷ as') (b ∷ bs) = a == b && same_string as' bs

-- The same for a name that may be NULL, which it is for no bus of the list.
pub is_name : List ℕ → Option (List ℕ) → Bool
is_name wanted none = false
is_name wanted (some given) = same_string given wanted

-- `snprintf(init_name, RS485_NAME_SIZE, "%s-%s", name, port_name)`
unfoldable pub init_name_of : List ℕ → List ℕ → List ℕ
init_name_of name port_name = take 19 (name ++ 45 ∷ port_name)

module _ {W : Type 0} where
  -- `is_rs485_bus_used(name)`, on the buses of the list.
  unfoldable pub is_rs485_bus_used : List ℕ → Core W → List ℕ → Bool
  is_rs485_bus_used name s [] = false
  is_rs485_bus_used name s (b ∷ buses) =
      let rest = is_rs485_bus_used name s buses in
      if is_name name (s.port_name b) then true else rest

  -- `rs485_bus_match_by_name(name)`, on the buses of the list.
  pub rs485_bus_match_by_name : List ℕ → Core W → List ℕ → Option ℕ
  rs485_bus_match_by_name name s [] = none
  rs485_bus_match_by_name name s (b ∷ buses) =
      let rest = rs485_bus_match_by_name name s buses in
      if same_string (s.init_name b) name then some b else rest

  -- `bus_register(bus)`; the flag says whether malloc succeeds.
  unfoldable pub bus_register : Bool → ℕ → Core W → ℤ × Core W
  bus_register false b s = (neg_enomem, s)
  bus_register true b s = (
    pos 0,
    record s {
      bus =
          put s.bus b
            (record (s.bus b) { wlist_devices = []; wlist_drivers = []; drivers_autoprobe = true });
      allocated = put s.allocated b true;
    },
  )

  -- `bus_unregister(bus)`
  pub bus_unregister : ℕ → Core W → Core W
  bus_unregister b s = record s { allocated = put s.allocated b false }

  -- `if(bus->remove) bus->remove(bus);`
  unfoldable pub removed : Option (W → W) → W → W
  removed none w = w
  removed (some remove) w = remove w

  -- `if(bus->probe) status = bus->probe(bus);`
  unfoldable pub probed : Option (W → ℤ × W) → W → ℤ × W
  probed none w = (pos 0, w)
  probed (some probe) w = probe w

  module _ (host : Host W) where
    -- The label `sysbus_register_fail`.
    pub sysbus_register_fail : ℕ → Core W → Core W
    sysbus_register_fail b s = record s { world = removed (host.remove b) s.world }

    -- From the start of the thread on: the list, or the label `pthread_init_fail`.
    unfoldable pub after_thread : ℕ → Core W → ℤ × W → ℤ × Core W
    after_thread b s (status, w) =
        if is_nonzero status
        then (status, sysbus_register_fail b (bus_unregister b (record s { world = w })))
        else (pos 0, record s { world = w; rs485_bus_list = b ∷ s.rs485_bus_list })

    -- From `bus_register` on.
    unfoldable pub after_register : ℕ → ℤ × Core W → ℤ × Core W
    after_register b (status, s) =
        if is_nonzero status
        then (status, sysbus_register_fail b s)
        else if host.has_pthread_func b
        then after_thread b s (host.pthread_create b s.world)
        else (status, sysbus_register_fail b (bus_unregister b s))

    -- From the probe on, `bus_init_fail` at its failure.
    unfoldable pub after_probe : Bool → ℕ → Core W → ℤ × W → ℤ × Core W
    after_probe memory b s (status, w) =
        let s' : Core W = record s { world = w } in
        if is_nonzero status then (status, s') else after_register b (bus_register memory b s')

    -- From the names on.
    unfoldable pub with_names : Bool → ℕ → Option (List ℕ) → Option (List ℕ) → Core W → ℤ × Core W
    with_names memory b none port_name s = (neg_einval, s)
    with_names memory b (some name) none s = (neg_einval, s)
    with_names memory b (some name) (some port_name) s =
        let s' : Core W = record s {
          init_name = put s.init_name b (init_name_of name port_name);
        } in
        if is_rs485_bus_used port_name s' s'.rs485_bus_list
        then (neg_eperm, s')
        else after_probe memory b s' (probed (host.probe b) s'.world)

    -- `rs485_bus_register(bus)`; `none` is NULL.
    unfoldable pub rs485_bus_register : Bool → Option ℕ → Core W → ℤ × Core W
    rs485_bus_register memory none s = (neg_einval, s)
    rs485_bus_register memory (some b) s = with_names memory b (s.name b) (s.port_name b) s

    -- `rs485_bus_unregister(bus)`
    pub rs485_bus_unregister : Option ℕ → Core W → Core W
    rs485_bus_unregister none s = s
    rs485_bus_unregister (some b) s = sysbus_register_fail b (
        bus_unregister b (record s {
          rs485_bus_list = wlist_del b s.rs485_bus_list;
          world = host.pthread_cancel b s.world;
        }))

  -- `rs485_driver_register(driver, bus_name)`, with the callbacks of the bus and of the drivers.
  pub register_on : Hooks → Bool → ℕ → Option ℕ → Core W → ℤ × Core W
  register_on hooks memory drv none s = (neg_enodev, s)
  register_on hooks memory drv (some b) s =
      let (error, bus) = driver_register hooks memory drv (s.bus b) in
      (error, record s { bus = put s.bus b bus })

  -- `rs485_driver_match_bus(bus_name)`
  pub rs485_driver_match_bus : List ℕ → Core W → Option ℕ
  rs485_driver_match_bus bus_name s = rs485_bus_match_by_name bus_name s s.rs485_bus_list

  pub rs485_driver_register : Hooks → Bool → ℕ → List ℕ → Core W → ℤ × Core W
  rs485_driver_register hooks memory drv bus_name s =
      register_on hooks memory drv (rs485_driver_match_bus bus_name s) s

  -- `rs485_driver_unregister(driver)` of a driver of the bus `b`, with the fuel of its loop.
  pub rs485_driver_unregister : ℕ → ℕ → Option ℕ → Core W → Option (Core W)
  rs485_driver_unregister fuel b none s = some s
  rs485_driver_unregister fuel b (some drv) s = elim (bus_remove_driver fuel drv (s.bus b)) [
    | none ↦ none
    | some bus ↦ some (record s { bus = put s.bus b bus })
  ]

-- `rs485_device_suspend(dev)` and `rs485_device_resume(dev)`: the call of the device's driver, of
-- which the outer `none` is a device without a driver and the inner one a NULL call.
pub rs485_device_suspend : {W : Type 0} → Option (Option (W → ℤ × W)) → W → ℤ × W
rs485_device_suspend none w = (pos 0, w)
rs485_device_suspend (some none) w = (pos 0, w)
rs485_device_suspend (some (some suspend)) w = suspend w

pub rs485_device_resume : {W : Type 0} → Option (Option (W → ℤ × W)) → W → ℤ × W
rs485_device_resume none w = (pos 0, w)
rs485_device_resume (some none) w = (pos 0, w)
rs485_device_resume (some (some resume)) w = resume w
