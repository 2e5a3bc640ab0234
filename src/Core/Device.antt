-- ===== src/Core/Device.antt =====
-- The devices of the daemon: rs485_device_create and rs485_device_destroy of
-- app/rs485d/src/core/core.c, on the buses, the table of device ids and the bus of
-- sdk/framework/bus/device.c. A device is the number that stands for its address.
pub mod Created
mod Tests
use rs.Prelude.{
  ℕ, ◌+◌, ◌/◌, ◌%◌, ◌≡◌, Bool, true, false, Option, none, some, List, [], ◌∷◌, ◌++◌, ℤ, pos,
  neg_enodev, neg_enomem, is_neg, is_nonzero, get_or, take, ltb, if◌then◌else◌,
}
use rs.Bus.{BusType, Hooks, put, wlist_del}
use rs.Bus.Driver.{bus_attach_device, bus_remove_device}
use rs.Table.Devices.{Devices, get_device_id, free_device_id}
use rs.Core.{Core, rs485_bus_match_by_name}

-- `struct rs485_device_info`
pub record DeviceInfo : Type 0 where
  pub match_bus : List ℕ
  pub match_driver : List ℕ
  pub mac : List ℕ

-- `struct rs485_device`: its id, its information, and the bus that `dev.bus` points to.
pub record Rs485Device : Type 0 where
  pub id : ℤ
  pub info : DeviceInfo
  pub bus : ℕ

-- The buses, the table of ids, `rs485_device_list`, the devices in memory, and the addresses that
-- free was called with, the last first.
pub record Daemon (W : Type 0) : Type 0 where
  pub core : Core W
  pub ids : Devices
  pub rs485_device_list : List ℕ
  pub device : ℕ → Rs485Device
  pub frees : List ℕ

-- `%02x` of a byte
abbrev pub hex_digit : ℕ → ℕ
hex_digit n = if ltb n 10 then 48 + n else 87 + n

abbrev pub hex : ℕ → List ℕ
hex n = hex_digit (n / 16) ∷ hex_digit (n % 16) ∷ []

-- `snprintf(bus_id, BUS_ID_SIZE, "%02x%02x%02x%02x-%s", mac[0], ..., match_driver)`
pub bus_id_of : DeviceInfo → List ℕ
bus_id_of info = take 19 (
    hex (get_or info.mac 0 0)
    ++ (hex (get_or info.mac 1 0)
        ++ (hex (get_or info.mac 2 0) ++ (hex (get_or info.mac 3 0) ++ (45 ∷ info.match_driver)))))

-- `!strlen(s)`
abbrev pub is_empty : List ℕ → Bool
is_empty [] = true
is_empty (c ∷ s) = false

-- `device_add(dev)` for a device without an init_name: `bus_add_device` returns 0.
pub device_add : Hooks → List ℕ → ℕ → BusType → ℤ × BusType
device_add hooks bus_id dev bus =
    if is_empty bus_id then (pos 0, bus) else (pos 0, bus_attach_device hooks dev bus)

-- `device_register(dev)`
pub device_register : Hooks → List ℕ → ℕ → BusType → ℤ × BusType
device_register hooks bus_id dev bus = device_add hooks bus_id dev bus

module _ {W : Type 0} where
  -- `free(device)`
  pub free : ℕ → Daemon W → Daemon W
  free d s = record s { frees = d ∷ s.frees }

  -- `device_unregister(dev)`, that is `device_del(dev)`: the bus, and `release`, which is
  -- `rs485_device_create_release`; `devres_release_all` does nothing.
  pub device_unregister : ℕ → Daemon W → Daemon W
  device_unregister d s =
      let b = (s.device d).bus in
      free d (record s {
        core = record s.core { bus = put s.core.bus b (bus_remove_device d (s.core.bus b)) };
      })

  -- A string as the number that the bus compares.
  module _ (numbered : List ℕ → ℕ) (hooks : Hooks) where
    -- The device in memory, and in the bus, where calloc has cleared it.
    pub filled_device : DeviceInfo → ℕ → ℕ → ℤ → Daemon W → Daemon W
    filled_device info b d id s = record s {
      device = put s.device d (record { id = id; info = info; bus = b });
      core = record s.core {
        bus = put s.core.bus b (record (s.core.bus b) {
          device = put (s.core.bus b).device d (record {
            bus_id = numbered (bus_id_of info);
            is_driver_register = false;
            driver = none;
            on_bus = false;
            on_driver = false;
          });
        });
      };
    }

    -- After `device_register`: the list, or the label `sysdevice_register_fail`.
    pub after_device_register : ℕ → ℕ → ℤ → ℤ × BusType → Daemon W → ℤ × Daemon W
    after_device_register b d id (retval, bus) s =
        let s' : Daemon W = record s { core = record s.core { bus = put s.core.bus b bus } } in
        if is_nonzero retval
        then (retval, free d (record s' { ids = free_device_id s'.ids id }))
        else (pos 0, record s' { rs485_device_list = d ∷ s'.rs485_device_list })

    -- After `get_device_id`, with the label `get_device_id_fail`.
    pub after_id : DeviceInfo → ℕ → ℕ → ℤ × Devices → Daemon W → ℤ × Daemon W
    after_id info b d (id, ids) s =
        let s' = filled_device info b d id (record s { ids = ids }) in
        if is_neg id
        then (neg_enodev, free d (record s { ids = ids }))
        else after_device_register b d id (device_register hooks (bus_id_of info) d (s'.core.bus b))
            s'

    -- After the match of the bus and `calloc`: the result, what `*id` becomes, and the state.
    pub after_match : DeviceInfo → Option ℕ → Option ℕ → Daemon W → ℤ × Option ℤ × Daemon W
    after_match info none memory s = (neg_enodev, none, s)
    after_match info (some b) none s = (neg_enomem, none, s)
    after_match info (some b) (some d) s =
        let (id, ids) = get_device_id s.ids (some d) in
        let (retval, s') = after_id info b d (id, ids) s in (retval, some id, s')

    -- `rs485_device_create(info, id)`, where calloc gives `memory`; `*id` is `none` while it is not
    -- written.
    pub rs485_device_create : DeviceInfo → Option ℕ → Daemon W → ℤ × Option ℤ × Daemon W
    rs485_device_create info memory s =
        after_match info (rs485_bus_match_by_name info.match_bus s.core s.core.rs485_bus_list)
          memory s

  -- `rs485_device_destroy(device)`. The id is read after `device_unregister` has freed the device:
  -- `stale` is what that memory then holds.
  pub rs485_device_destroy : ℤ → Option ℕ → Daemon W → Daemon W
  rs485_device_destroy stale none s = s
  rs485_device_destroy stale (some d) s =
      let s' =
        device_unregister d (record s { rs485_device_list = wlist_del d s.rs485_device_list }) in
      free d (record s' { ids = free_device_id s'.ids stale })
