-- ===== src/Bus/Driver.antt =====
-- Binding of devices to drivers: sdk/framework/bus/device_driver.c, and the calls of
-- sdk/framework/bus/bus.c and sdk/framework/bus/device.c that stand on it.
pub mod Register
pub mod New
pub mod Detach
pub mod Match
mod Tests
use rs.Prelude.{
  ℕ, zero, suc, ◌≡◌, Bool, true, false, ◌&&◌, not, Option, none, some, List, [], ◌∷◌, ◌++◌, ℤ, pos,
  is_nonzero, is_neg, neg_enodev, neg_einval, neg_enomem, neg_eexist, ◌==◌, if◌then◌else◌,
}
use rs.Bus.{
  Device, DeviceDriver, BusType, Hooks, put, wlist_del, wlist_add_tail, bus_for_each_drv,
  bus_for_each_dev,
}

-- Stores to the fields of one device, and of one driver.
abbrev pub set_driver : ℕ → Option ℕ → BusType → BusType
set_driver dev drv bus = record bus {
  device = put bus.device dev (record (bus.device dev) { driver = drv });
}

abbrev pub list_bound : ℕ → ℕ → BusType → BusType
list_bound drv dev bus = record bus {
  device = put bus.device dev (record (bus.device dev) { on_driver = true });
  driver = put bus.driver drv (record (bus.driver drv) {
    wlist_devices = wlist_add_tail dev (bus.driver drv).wlist_devices;
  });
}

-- `driver_bound(dev)`; a device without a driver, which the source does not allow, is left alone.
pub driver_bound : ℕ → BusType → BusType
driver_bound dev bus =
    let bound : BusType = elim (bus.device dev).driver [
      | none ↦ bus
      | some drv ↦ list_bound drv dev bus
    ] in
    if (bus.device dev).on_driver then bus else bound

-- The probe that `really_probe` calls: the bus's, else the driver's, else none.
pub probe_of : Hooks → ℕ → ℕ → ℤ
probe_of hooks drv dev = elim hooks.bus_probe [
  | some probe ↦ probe dev
  | none ↦ elim (hooks.driver_probe drv) [ some probe ↦ probe dev | none ↦ pos 0 ]
]

-- `really_probe(dev, drv)`
pub really_probe : Hooks → ℕ → ℕ → BusType → ℤ × BusType
really_probe hooks dev drv bus =
    let bus' = set_driver dev (some drv) bus in
    if is_nonzero (probe_of hooks drv dev)
    then (pos 0, set_driver dev none bus')
    else (pos 1, driver_bound dev bus')

-- Whether `drv->bus->match` is there and gives 0.
pub mismatch : Hooks → ℕ → ℕ → Bool
mismatch hooks drv dev = elim hooks.match_device [
  | none ↦ false
  | some fn ↦ not (is_nonzero (fn dev drv))
]

-- `driver_probe_device(drv, dev)`
pub driver_probe_device : Hooks → ℕ → ℕ → BusType → ℤ × BusType
driver_probe_device hooks drv dev bus =
    if (bus.device dev).is_driver_register
    then (neg_enodev, bus)
    else if mismatch hooks drv dev
    then (pos 0, bus)
    else really_probe hooks dev drv bus

-- `device_attach(dev)`
pub device_attach : Hooks → ℕ → BusType → ℤ × BusType
device_attach hooks dev bus = elim (bus.device dev).driver [
  | some drv ↦ (pos 1, driver_bound dev bus)
  | none ↦ bus_for_each_drv (λ drv b. driver_probe_device hooks drv dev b) none bus
]

-- `__driver_attach(dev, drv)`
pub driver_attach_one : Hooks → ℕ → ℕ → BusType → ℤ × BusType
driver_attach_one hooks drv dev bus = elim (bus.device dev).driver [
  | some old ↦ (pos 0, bus)
  | none ↦ (pos 0, (driver_probe_device hooks drv dev bus).1)
]

-- `driver_attach(drv)`
pub driver_attach : Hooks → ℕ → BusType → ℤ × BusType
driver_attach hooks drv bus = bus_for_each_dev (driver_attach_one hooks drv) none bus

-- The body of `__device_release_driver` for the driver that the device has.
pub release_from : ℕ → BusType → Option ℕ → BusType
release_from dev bus none = bus
release_from dev bus (some drv) = record bus {
  device = put bus.device dev (record (bus.device dev) { driver = none; on_driver = false });
  driver =
      put bus.driver drv
        (record (bus.driver drv) { wlist_devices = wlist_del dev (bus.driver drv).wlist_devices });
}

-- `device_release_driver(dev)`; the calls of `remove` do not change the bus.
pub device_release_driver : ℕ → BusType → BusType
device_release_driver dev bus = release_from dev bus (bus.device dev).driver

-- The last node of a list.
pub last : List ℕ → Option ℕ
last [] = none
last (x ∷ xs) = let rest = last xs in elim rest [ none ↦ some x | some y ↦ some y ]

-- Whether the driver of a device is `drv`.
abbrev pub is_driver : ℕ → Option ℕ → Bool
is_driver drv none = false
is_driver drv (some other) = other == drv

-- One turn of the loop of `driver_detach`, at the last device of the list, and the turns after it.
pub detach_turn : (BusType → Option BusType) → ℕ → BusType → Option ℕ → Option BusType
detach_turn again drv bus none = some bus
detach_turn again drv bus (some dev) =
    again (if is_driver drv (bus.device dev).driver then device_release_driver dev bus else bus)

-- `driver_detach(drv)`: the loop releases the last device of the driver's list until the list is
-- empty, and turns for ever at a device whose driver is another; `none` is out of fuel.
pub driver_detach : ℕ → ℕ → BusType → Option BusType
driver_detach zero drv bus = none
driver_detach (suc fuel) drv bus =
    detach_turn (driver_detach fuel drv) drv bus (last (bus.driver drv).wlist_devices)

-- `bus_attach_device(dev)`
pub bus_attach_device : Hooks → ℕ → BusType → BusType
bus_attach_device hooks dev bus =
    let (ret, bus') : ℤ × BusType =
      if bus.drivers_autoprobe then device_attach hooks dev bus else (pos 0, bus) in
    if is_neg ret then bus' else record bus' {
      wlist_devices = wlist_add_tail dev bus'.wlist_devices;
      device = put bus'.device dev (record (bus'.device dev) { on_bus = true });
    }

-- `bus_remove_device(dev)`
pub bus_remove_device : ℕ → BusType → BusType
bus_remove_device dev bus = device_release_driver dev (
    if (bus.device dev).on_bus
    then record bus {
      wlist_devices = wlist_del dev bus.wlist_devices;
      device = put bus.device dev (record (bus.device dev) { on_bus = false });
    }
    else bus)

-- `bus_add_driver(drv)`, for a driver with a bus; `memory` says whether malloc succeeds.
pub bus_add_driver : Hooks → Bool → ℕ → BusType → ℤ × BusType
bus_add_driver hooks memory drv bus =
    let fresh : BusType = record bus {
      driver = put bus.driver drv (record (bus.driver drv) { wlist_devices = [] });
    } in
    let (error, bus') : ℤ × BusType =
      if bus.drivers_autoprobe then driver_attach hooks drv fresh else (pos 0, fresh) in
    if not memory
    then (neg_enomem, bus)
    else if is_nonzero error
    then (error, bus')
    else (pos 0, record bus' { wlist_drivers = wlist_add_tail drv bus'.wlist_drivers })

-- `driver_match_name` in `driver_find(name, bus)`
pub driver_find : ℕ → BusType → ℤ × BusType
driver_find name bus =
    bus_for_each_drv (λ drv b. (if name == (b.driver drv).name then pos 1 else pos 0, b)) none bus

-- `driver_register(drv)`
pub driver_register : Hooks → Bool → ℕ → BusType → ℤ × BusType
driver_register hooks memory drv bus =
    let (found, bus') = driver_find (bus.driver drv).name bus in
    if is_nonzero found then (neg_eexist, bus') else bus_add_driver hooks memory drv bus'

-- `bus_remove_driver(drv)`, with the fuel of `driver_detach`.
pub bus_remove_driver : ℕ → ℕ → BusType → Option BusType
bus_remove_driver fuel drv bus =
    driver_detach fuel drv (record bus { wlist_drivers = wlist_del drv bus.wlist_drivers })

-- `bus_rescan_devices_helper(dev, data)`
pub bus_rescan_devices_helper : Hooks → ℕ → BusType → ℤ × BusType
bus_rescan_devices_helper hooks dev bus =
    let (ret, bus') : ℤ × BusType = elim (bus.device dev).driver [
      | none ↦ device_attach hooks dev bus
      | some drv ↦ (pos 0, bus)
    ] in
    (if is_neg ret then ret else pos 0, bus')

-- `bus_rescan_devices(bus)`
pub bus_rescan_devices : Hooks → BusType → ℤ × BusType
bus_rescan_devices hooks bus = bus_for_each_dev (bus_rescan_devices_helper hooks) none bus

-- `device_reprobe(dev)`
pub device_reprobe : Hooks → ℕ → BusType → ℤ × BusType
device_reprobe hooks dev bus = bus_rescan_devices_helper hooks dev (device_release_driver dev bus)
