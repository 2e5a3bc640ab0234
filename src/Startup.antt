-- ===== src/Startup.antt =====
-- How the daemon starts: custom_init and custom_exit of app/rs485d/src/protocol/custom/custom.c, and
-- get_client of app/rs485d/src/client/client.c, as main of app/rs485d/src/main.c calls them.
pub mod Bus
pub mod Device
pub mod Custom
mod Tests
use rs.Prelude.{
  is_nonzero, ℕ, ◌≡◌, Bool, true, false, not, Option, none, some, List, [], ◌∷◌, ℤ, pos, neg_enodev,
  neg_einval, neg_enomem, ◌==◌, if◌then◌else◌,
}
use rs.Bus.{put}
use rs.Core.{
  Host, Core, same_string, is_name, init_name_of, rs485_bus_register, rs485_bus_unregister,
}
use rs.Core.Device.{DeviceInfo}
use rs.Custom.Interface.{InterfaceProfile}

-- `custom.name`, "custom"
abbrev pub custom_name : List ℕ
custom_name = 99 ∷ 117 ∷ 115 ∷ 116 ∷ 111 ∷ 109 ∷ []

-- The new bus, a copy of `custom` with the interface; calloc has cleared the rest.
pub fresh_bus : {W : Type 0} → ℕ → List ℕ → Core W → Core W
fresh_bus b port_name s = record s {
  name = put s.name b (some custom_name);
  port_name = put s.port_name b (some port_name);
  init_name = put s.init_name b [];
  allocated = put s.allocated b false;
}

-- The core, and the blocks of the buses that calloc has given and that are not freed.
pub record Process (W : Type 0) : Type 0 where
  pub core : Core W
  pub blocks : List ℕ

-- `free(bus)`
pub free_block : ℕ → List ℕ → List ℕ
free_block b [] = []
free_block b (c ∷ blocks) = let rest = free_block b blocks in if c == b then blocks else c ∷ rest

-- After rs485_bus_register, with the label `bus_register_fail`: a bus that is not registered is freed.
pub after_bus_register : {W : Type 0} → ℕ → List ℕ → ℤ × Core W → ℤ × Process W
after_bus_register b blocks (retval, core) =
    if is_nonzero retval
    then (retval, record { core = core; blocks = free_block b blocks })
    else (pos 0, record { core = core; blocks = blocks })

module _ {W : Type 0} (host : Host W) (memory : Bool) where
  -- From calloc on, which gives the block `new_bus`.
  pub with_bus : Option ℕ → InterfaceProfile → Process W → ℤ × Process W
  with_bus none interface s = (neg_enomem, s)
  with_bus (some b) interface s =
      after_bus_register b (b ∷ s.blocks)
        (rs485_bus_register host memory (some b) (fresh_bus b interface.port_name s.core))

  -- `custom_init(interface, match_bus)`; `memory` is for the bus that it registers.
  pub custom_init : Option ℕ → Option InterfaceProfile → Option (List ℕ) → Process W → ℤ × Process W
  custom_init new_bus none match_bus s = (neg_einval, s)
  custom_init new_bus (some interface) none s = (neg_einval, s)
  custom_init new_bus (some interface) (some match_bus) s =
      if not (same_string match_bus custom_name) then (pos 1, s) else with_bus new_bus interface s

module _ {W : Type 0} (host : Host W) where
  -- `custom_exit(bus)`
  pub custom_exit : Option ℕ → Process W → ℤ × Process W
  custom_exit none s = (neg_einval, s)
  custom_exit (some b) s = if not (is_name custom_name (s.core.name b)) then (pos 1, s) else (
    pos 0,
    record { core = rs485_bus_unregister host (some b) s.core; blocks = free_block b s.blocks },
  )

-- `struct rs485_driver_info_table`
pub record DriverInfo : Type 0 where
  pub device_type : ℕ
  pub bus_name : List ℕ
  pub driver_name : List ℕ

-- `driver_table`: RS485_CURTAIN_CUSTOMIZE_DOOYA_ALL is 0, the bus "custom", and the driver
-- "curtain_custom_dooya".
abbrev pub driver_table : List DriverInfo
driver_table =
    record {
      device_type = 0;
      bus_name = custom_name;
      driver_name =
          99 ∷ 117 ∷ 114 ∷ 116 ∷ 97 ∷ 105 ∷ 110 ∷ 95 ∷ 99 ∷ 117 ∷ 115 ∷ 116 ∷ 111 ∷ 109 ∷ 95 ∷ 100
          ∷ 111 ∷ 111 ∷ 121 ∷ 97 ∷ [];
    }
    ∷ []

-- The loop over the table: the last row of the type.
pub driver_of : ℕ → List DriverInfo → Option DriverInfo → Option DriverInfo
driver_of device_type [] driver = driver
driver_of device_type (d ∷ rows) driver =
    driver_of device_type rows (if d.device_type == device_type then some d else driver)

-- What `get_client` stores for the row that it has found.
pub client_info : List ℕ → List ℕ → Option DriverInfo → ℤ × Option DeviceInfo
client_info bus_port_name mac none = (neg_enodev, none)
client_info bus_port_name mac (some d) = (
  pos 0,
  some (record {
    match_bus = init_name_of d.bus_name bus_port_name;
    match_driver = d.driver_name;
    mac = mac;
  }),
)

-- `get_client(info, bus_port_name, device_type, mac)` over a table: the result and what it stores
-- into `info`, which is there or not.
pub get_client : List DriverInfo → Bool → List ℕ → ℕ → List ℕ → ℤ × Option DeviceInfo
get_client table false bus_port_name device_type mac = (neg_einval, none)
get_client table true bus_port_name device_type mac =
    client_info bus_port_name mac (driver_of device_type table none)
