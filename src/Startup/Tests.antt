-- ===== src/Startup/Tests.antt =====
-- The start of one bus and one device.
use rs.Prelude.{
  ℤ, ℕ, ◌+◌, ◌⊎◌, true, false, none, some, List, [], ◌∷◌, arith, pos, drop, replicate, ◌-◌, length,
  neg_one, ◌==◌, if◌then◌else◌,
}
use rs.Bus.{Hooks, BusType}
use rs.Core.{Host, Core}
use rs.Core.Device.{DeviceInfo, Daemon}
use rs.Custom.Interface.{InterfaceProfile}
use rs.Startup.{Process, custom_name, custom_init}
use rs.Startup.Bus.{Started, Failed}
use rs.Custom.Probe.{PortOs, IsTidyOs}
use rs.Startup.Custom.{CustomWorld, system_of, custom_host, IsTidyThread, custom_init-custom_host}

abbrev host : Host (List ℕ)
host = record {
  probe = λ b. some (λ w. (pos 0, (10 + b) ∷ w));
  remove = λ b. some (λ w. drop 1 w);
  has_pthread_func = λ b. true;
  pthread_create = λ b w. (pos 0, (20 + b) ∷ w);
  pthread_cancel = λ b w. drop 1 w;
}

-- All of the world is seen.
abbrev seen : List ℕ → List ℕ
seen w = w

abbrev bus_memory : BusType
bus_memory = record {
  wlist_devices = [];
  wlist_drivers = [];
  drivers_autoprobe = true;
  device = λ d. record {
    bus_id = 0;
    is_driver_register = false;
    driver = none;
    on_bus = false;
    on_driver = false;
  };
  driver = λ n. record { name = n; wlist_devices = [] };
}

abbrev start : Core (List ℕ)
start = record {
  rs485_bus_list = [];
  name = λ b. none;
  port_name = λ b. none;
  init_name = λ b. [];
  bus = λ b. bus_memory;
  allocated = λ b. false;
  world = [];
}

abbrev ttys1 : InterfaceProfile
ttys1 = record {
  port_name = 83 ∷ 49 ∷ [];
  baud_rate = 9600;
  data_bits = 8;
  parity = 0;
  stop_bits = 1;
}

abbrev fresh : Process (List ℕ)
fresh = record { core = start; blocks = [] }

abbrev hooks : Hooks
hooks = record { match_device = none; bus_probe = none; driver_probe = λ drv. none }

abbrev daemon : Daemon (List ℕ)
daemon = record {
  core = (custom_init host true (some 1) (some ttys1) (some custom_name) fresh).1.core;
  ids = record { table = replicate 1024 none; before = λ k. none };
  rs485_device_list = [];
  device = λ d. record {
    id = pos 0;
    info = record { match_bus = []; match_driver = []; mac = [] };
    bus = 0;
  };
  frees = [];
}

abbrev mac : List ℕ
mac = 1 ∷ 2 ∷ 3 ∷ 4 ∷ []

abbrev curtain : DeviceInfo
curtain = record {
  match_bus = 99 ∷ 117 ∷ 115 ∷ 116 ∷ 111 ∷ 109 ∷ 45 ∷ 83 ∷ 49 ∷ [];
  match_driver =
      99 ∷ 117 ∷ 114 ∷ 116 ∷ 97 ∷ 105 ∷ 110 ∷ 95 ∷ 99 ∷ 117 ∷ 115 ∷ 116 ∷ 111 ∷ 109 ∷ 95 ∷ 100 ∷ 111
      ∷ 111 ∷ 121 ∷ 97 ∷ [];
  mac = mac;
}

-- Memory, the semaphore and the port count up and down; the port 5 is refused.
abbrev system : PortOs ℕ
system = record {
  calloc = λ w. (true, w + 1);
  free = λ w. w - 1;
  sem_init = λ w. (pos 0, w + 1);
  sem_destroy = λ w. w - 1;
  open_port = λ name w. if length name == 5 then (neg_one, w) else (pos 3, w + 1);
  configure = λ fd flags w. w;
  restore = λ fd w. w;
  close_port = λ fd w. w - 1;
}

system-IsTidyOs : IsTidyOs system
system-IsTidyOs = record {
  no_memory = λ w e. absurd (ground arith);
  memory = λ w e. omega arith;
  no_sem = λ w e. absurd (ground arith);
  sem = λ w e. omega arith;
  no_port = λ name w e. ground arith;
  port = λ name flags w e. ground arith;
}

abbrev create : ℕ → ℤ × ℕ
create w = (pos 0, w + 1)

abbrev cancel : ℕ → ℕ
cancel w = w - 1

threads-IsTidyThread : IsTidyThread system create cancel (λ b. ttys1)
threads-IsTidyThread = record { failed = λ w e. absurd (ground arith); undone = λ w e. omega arith }

abbrev empty_core : Core (CustomWorld ℕ)
empty_core = record {
  rs485_bus_list = [];
  name = λ b. none;
  port_name = λ b. none;
  init_name = λ b. [];
  bus = λ b. bus_memory;
  allocated = λ b. false;
  world = record { system = 0; priv_data = λ b. none };
}

abbrev empty : Process (CustomWorld ℕ)
empty = record { core = empty_core; blocks = [] }

custom_init-custom_host_example :
    let host' = custom_host system create cancel (λ b. ttys1) in
    let r = custom_init host' true (some 1) (some ttys1) (some custom_name) empty in
    Started system_of host' true 1 ttys1 empty r ⊎ Failed system_of host' true 1 ttys1 empty r
custom_init-custom_host_example =
    custom_init-custom_host system create cancel (λ b. ttys1) system-IsTidyOs threads-IsTidyThread
      true 1 empty
