-- ===== src/Core/Tests.antt =====
-- The core with one bus. The world is the list of what is in use: ports by 10 and the
-- bus, threads by 20 and the bus.
use rs.Prelude.{ℕ, ◌+◌, ◌≡◌, refl, true, false, none, some, List, [], ◌∷◌, arith, ℤ, pos, drop}
use rs.Bus.{BusType}
use rs.Core.{
  Host, Core, rs485_bus_register, with_names, after_probe, after_register, after_thread,
  bus_register, removed, probed, is_rs485_bus_used, same_string, is_name,
}
use rs.Core.Register.{IsTidy, Outcome, rs485_bus_register-Outcome}
use rs.Core.Ports.{register, unregister, step, run, ports_apart, run-ports_apart}

abbrev host : Host (List ℕ)
host = record {
  probe = λ b. some (λ w. (pos 0, (10 + b) ∷ w));
  remove = λ b. some (λ w. drop 1 w);
  has_pthread_func = λ b. true;
  pthread_create = λ b w. (pos 0, (20 + b) ∷ w);
  pthread_cancel = λ b w. drop 1 w;
}

-- All of the world is seen.
abbrev seen : List ℕ → List ℕ
seen w = w

host-IsTidy : IsTidy seen host 1
unfolding probed removed
host-IsTidy = record {
  failed_probe = λ w e. absurd (ground arith);
  undo_probe = λ w e. refl;
  failed_create = λ w e. absurd (ground arith);
  undo_create = λ w e. refl;
}

abbrev bus_memory : BusType
bus_memory = record {
  wlist_devices = [];
  wlist_drivers = [];
  drivers_autoprobe = true;
  device = λ d. record {
    bus_id = 0;
    is_driver_register = false;
    driver = none;
    on_bus = false;
    on_driver = false;
  };
  driver = λ n. record { name = n; wlist_devices = [] };
}

-- The buses 1 and 2, both called "a", are on the port "b".
abbrev start : Core (List ℕ)
start = record {
  rs485_bus_list = [];
  name = λ b. some (97 ∷ []);
  port_name = λ b. some (98 ∷ []);
  init_name = λ b. [];
  bus = λ b. bus_memory;
  allocated = λ b. false;
  world = [];
}

registered : (rs485_bus_register host true (some 1) start).1.world ≡ 21 ∷ 11 ∷ []
unfolding rs485_bus_register with_names is_rs485_bus_used after_probe probed after_register
    bus_register after_thread
registered = refl

-- The second bus does not get the port.
refused :
    (run host start (register true (some 1) ∷ register true (some 2) ∷ [])).rs485_bus_list ≡ 1 ∷ []
unfolding run step rs485_bus_register with_names is_rs485_bus_used after_probe probed after_register
    bus_register after_thread is_name same_string
refused = refl

rs485_bus_register-Outcome_example :
    Outcome seen host start 1 (rs485_bus_register host true (some 1) start)
rs485_bus_register-Outcome_example =
    rs485_bus_register-Outcome seen host true 1 start host-IsTidy refl

run-ports_apart_example :
    ports_apart
      (run host start
        (register true (some 1) ∷ register true (some 2) ∷ unregister (some 1) ∷ [])).port_name
      (run host start
        (register true (some 1) ∷ register true (some 2) ∷ unregister (some 1) ∷ [])).rs485_bus_list
    ≡ true
unfolding ports_apart
run-ports_apart_example =
    run-ports_apart host start
      (register true (some 1) ∷ register true (some 2) ∷ unregister (some 1) ∷ []) refl

abbrev declining : List ℕ → ℤ × List ℕ
declining w = (pos 1, w)

abbrev taking : List ℕ → ℤ × List ℕ
taking w = (pos 0, 5 ∷ w)
