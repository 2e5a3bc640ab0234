-- ===== src/Bus.antt =====
-- The bus of devices and drivers, sdk/framework/bus/bus.c, sdk/framework/bus/device.c and
-- sdk/framework/bus/device_driver.c, on the list with iterators of sdk/module/list/wlist.c. A device
-- or a driver is a number that stands for its address, and a name is a number too, with `==` for
-- strcmp. The callbacks of the bus type and of the drivers are parameters that do not change the bus.
pub mod Driver
pub mod Lookup
pub mod Lists
use rs.Prelude.{
  ℕ, ◌≡◌, Bool, true, false, ◌&&◌, not, Option, none, some, List, [], ◌∷◌, ◌++◌, ℤ, pos, is_nonzero,
  is_neg, neg_enodev, neg_einval, neg_enomem, neg_eexist, ◌==◌, if◌then◌else◌,
}

-- `struct device`: its name, the flag `is_driver_register`, its driver, and whether its two list
-- nodes are on a list (`n_wlist` is not NULL).
pub record Device : Type 0 where
  pub bus_id : ℕ
  pub is_driver_register : Bool
  pub driver : Option ℕ
  pub on_bus : Bool
  pub on_driver : Bool

-- `struct device_driver` with the list of its devices, from its `struct driver_private`.
pub record DeviceDriver : Type 0 where
  pub name : ℕ
  pub wlist_devices : List ℕ

-- `struct bus_type_private`, and the devices and the drivers in memory.
pub record BusType : Type 0 where
  pub wlist_devices : List ℕ
  pub wlist_drivers : List ℕ
  pub drivers_autoprobe : Bool
  pub device : ℕ → Device
  pub driver : ℕ → DeviceDriver

-- The callbacks: `match` of the bus, `probe` of the bus, and `probe` of a driver; `none` is NULL.
pub record Hooks : Type 0 where
  pub match_device : Option (ℕ → ℕ → ℤ)
  pub bus_probe : Option (ℕ → ℤ)
  pub driver_probe : ℕ → Option (ℕ → ℤ)

-- A store to one object.
abbrev pub put : {A : Type 0} → (ℕ → A) → ℕ → A → ℕ → A
put f i a j = if j == i then a else f j

-- `wlist_del(n)` on the list of nodes.
pub wlist_del : ℕ → List ℕ → List ℕ
wlist_del n [] = []
wlist_del n (x ∷ xs) = let rest = wlist_del n xs in if x == n then xs else x ∷ rest

-- `wlist_add_tail(n, k)` on the list of nodes.
abbrev pub wlist_add_tail : ℕ → List ℕ → List ℕ
wlist_add_tail n k = k ++ n ∷ []

-- The nodes that `wlist_next` will give an iterator that starts after `start`, or at the head.
pub wlist_iter_init_node : List ℕ → Option ℕ → List ℕ
wlist_iter_init_node k none = k
wlist_iter_init_node [] (some start) = []
wlist_iter_init_node (x ∷ xs) (some start) =
    let rest = wlist_iter_init_node xs (some start) in if x == start then xs else rest

-- `while ((n = next(&i)) && !error) error = fn(n, data);` over the nodes that are left: the node at
-- which the iterator stands, the error, and the state. The function leaves the list alone.
pub for_each : {S : Type 0} → (ℕ → S → ℤ × S) → List ℕ → ℤ → S → Option ℕ × ℤ × S
for_each fn [] error s = (none, error, s)
for_each fn (n ∷ rest) error s =
    let (error', s') = fn n s in
    let after = for_each fn rest error' s' in if is_nonzero error then (some n, error, s) else after

-- `while ((n = next(&i))) if (match(n, data)) break;`: the node at which the iterator stands.
pub find : (ℕ → Bool) → List ℕ → Option ℕ
find matches [] = none
find matches (n ∷ rest) = let after = find matches rest in if matches n then some n else after

-- `wlist_iter_exit(i)` on the drivers and on the devices: it deletes the node where the iterator is.
pub exit_drivers : Option ℕ → BusType → BusType
exit_drivers none bus = bus
exit_drivers (some n) bus = record bus { wlist_drivers = wlist_del n bus.wlist_drivers }

pub exit_devices : Option ℕ → BusType → BusType
exit_devices none bus = bus
exit_devices (some n) bus = record bus {
  wlist_devices = wlist_del n bus.wlist_devices;
  device = put bus.device n (record (bus.device n) { on_bus = false });
}

-- `bus_for_each_drv(bus, start, data, fn)` for a bus that is not NULL.
pub bus_for_each_drv : (ℕ → BusType → ℤ × BusType) → Option ℕ → BusType → ℤ × BusType
bus_for_each_drv fn start bus =
    let (at, error, bus') =
      for_each fn (wlist_iter_init_node bus.wlist_drivers start) (pos 0) bus in
    (error, exit_drivers at bus')

-- `bus_for_each_dev(bus, start, data, fn)`
pub bus_for_each_dev : (ℕ → BusType → ℤ × BusType) → Option ℕ → BusType → ℤ × BusType
bus_for_each_dev fn start bus =
    let (at, error, bus') =
      for_each fn (wlist_iter_init_node bus.wlist_devices start) (pos 0) bus in
    (error, exit_devices at bus')

-- `bus_find_device(bus, start, data, match)`
pub bus_find_device : (ℕ → Bool) → Option ℕ → BusType → Option ℕ × BusType
bus_find_device matches start bus =
    let at = find matches (wlist_iter_init_node bus.wlist_devices start) in
    (at, exit_devices at bus)

-- `bus_find_device_by_name(bus, start, name)`
pub bus_find_device_by_name : Option ℕ → ℕ → BusType → Option ℕ × BusType
bus_find_device_by_name start name bus =
    bus_find_device (λ d. name == (bus.device d).bus_id) start bus
