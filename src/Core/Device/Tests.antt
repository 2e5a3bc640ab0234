-- ===== src/Core/Device/Tests.antt =====
-- The creation and the destruction of one device.
use rs.Prelude.{ℕ, ◌≡◌, refl, true, false, none, some, List, [], ◌∷◌, pos, replicate}
use rs.Bus.{Hooks, BusType}
use rs.Core.{rs485_bus_match_by_name, same_string}
use rs.Core.Device.{DeviceInfo, Daemon, rs485_device_create}
use rs.Core.Device.Created.{CreateResult, rs485_device_create-Result}

abbrev bus_memory : BusType
bus_memory = record {
  wlist_devices = [];
  wlist_drivers = [];
  drivers_autoprobe = true;
  device = λ d. record {
    bus_id = 0;
    is_driver_register = false;
    driver = none;
    on_bus = false;
    on_driver = false;
  };
  driver = λ n. record { name = n; wlist_devices = [] };
}

abbrev hooks : Hooks
hooks = record { match_device = none; bus_probe = none; driver_probe = λ drv. none }

-- The bus 1 is registered, and the ids 0 and 1 are in use.
abbrev daemon : Daemon (List ℕ)
daemon = record {
  core = record {
    rs485_bus_list = 1 ∷ [];
    name = λ b. some (97 ∷ []);
    port_name = λ b. some (98 ∷ []);
    init_name = λ b. 97 ∷ 45 ∷ 98 ∷ [];
    bus = λ b. bus_memory;
    allocated = λ b. true;
    world = [];
  };
  ids = record { table = some 9 ∷ some 8 ∷ replicate 1022 none; before = λ k. none };
  rs485_device_list = [];
  device = λ d. record {
    id = pos 0;
    info = record { match_bus = []; match_driver = []; mac = [] };
    bus = 0;
  };
  frees = [];
}

abbrev info : DeviceInfo
info = record { match_bus = 97 ∷ 45 ∷ 98 ∷ []; match_driver = 99 ∷ []; mac = 1 ∷ 2 ∷ 3 ∷ 4 ∷ [] }

matched : rs485_bus_match_by_name info.match_bus daemon.core daemon.core.rs485_bus_list ≡ some 1
unfolding rs485_bus_match_by_name same_string
matched = refl

rs485_device_create-Result_example :
    CreateResult info 1 7 daemon (rs485_device_create (λ l. 0) hooks info (some 7) daemon)
rs485_device_create-Result_example =
    rs485_device_create-Result (λ l. 0) hooks info 1 7 daemon refl matched
