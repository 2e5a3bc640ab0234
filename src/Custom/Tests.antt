-- ===== src/Custom/Tests.antt =====
-- The worker of the custom bus with a device that answers every frame.
use rs.Prelude.{
  ℕ, ◌+◌, ◌-◌, refl, true, false, some, [], ◌∷◌, pos, neg_one, arith, length, ◌==◌, if◌then◌else◌,
  ◌*◌, List, Option, Bool-cases, inl, inr, none, replicate,
}
use rs.Custom.Interface.{InterfaceProfile}
use rs.Table.Devices.{Devices}
use rs.Custom.Dooya.{dooya_driver}
use rs.Custom.Message.{Exchange, answered}
use rs.Custom.Service.{Transmits, handle, Served, service-drains}
use rs.Custom.Queue.Fifo.{Call, write, turn, Run, IsFifo, oldest_first, run}
use rs.Custom.Probe.{PortOs, IsTidyOs}
use rs.Custom.{Os, Driver, interface_recv_a_frame, selected}

-- The world counts the frames out and adds up what the replies bring.
abbrev Count : Type 0
Count = ℕ × ℕ

abbrev line : Os Count
line = record {
  write = λ frame len w. (pos 0, (w.0 + 1, w.1));
  select = λ timeout w. (pos 1, w);
  is_set = λ w. true;
  read = λ frame len w. (pos 1, 7 ∷ [], w);
}

-- The driver sends the node's number, and adds that, the device's data and the length of the reply.
abbrev driver : Driver Count
driver = record {
  get = some (λ arg buffer broadcast w. (pos 1, arg ∷ [], broadcast, w));
  put = some (λ arg profile buffer len w. (pos 0, (w.0, w.1 + arg + profile + len)));
  retransmission = 2;
  receive_timeout_ms = 500;
  broadcast = false;
}

abbrev profile : InterfaceProfile
profile = record { port_name = 98 ∷ []; baud_rate = 9600; data_bits = 8; parity = 2; stop_bits = 1 }

-- Memory, the semaphore and the port count up and down; the port 5 is refused.
abbrev system : PortOs ℕ
system = record {
  calloc = λ w. (true, w + 1);
  free = λ w. w - 1;
  sem_init = λ w. (pos 0, w + 1);
  sem_destroy = λ w. w - 1;
  open_port = λ name w. if length name == 5 then (neg_one, w) else (pos 3, w + 1);
  configure = λ fd flags w. w;
  restore = λ fd w. w;
  close_port = λ fd w. w - 1;
}

system-IsTidyOs : IsTidyOs system
system-IsTidyOs = record {
  no_memory = λ w e. absurd (ground arith);
  memory = λ w e. omega arith;
  no_sem = λ w e. absurd (ground arith);
  sem = λ w e. omega arith;
  no_port = λ name w e. ground arith;
  port = λ name flags w e. ground arith;
}

-- The device 7, which the Dooya driver drives, has the id 1, and the device 8 the id 2.
abbrev ids : Devices
ids = record { table = none ∷ some 7 ∷ some 8 ∷ []; before = λ k. none }

abbrev drivers : ℕ → Option (Driver Count)
drivers d = if d == 7 then some dooya_driver else some driver

abbrev device_data : ℕ → ℕ
device_data device = device * 10

-- The message of the node 9 goes to the device 8, is answered, and the reply is handled once.
answered_once : Exchange line driver 9 (device_data 8) (0, 0) (1, 90)
unfolding interface_recv_a_frame selected
answered_once = answered refl refl refl refl (omega arith) refl refl refl

drivers-Transmits : Transmits line ids drivers (λ node. pos 2) device_data
unfolding Transmits dooya_driver
drivers-Transmits device d e = elim (Bool-cases (device == 7)) [
  | inl seven ↦ ground (arith, e)
  | inr other ↦ ground (arith, e)
]

abbrev queue : Run Count
queue = record {
  stack = record { list = []; sem = 0; world = (0, 0) };
  accepted = [];
  defined = true;
}

abbrev one_message : List Call
one_message = write true (pos 0) 9 20 ∷ []

queue-IsFifo : IsFifo (handle line ids drivers (λ node. pos 2) device_data) (0, 0) queue
unfolding oldest_first
queue-IsFifo = record { done = []; order = refl; world = refl; counts = refl; defined = refl }

service-drains_example :
    let r = run (handle line ids drivers (λ node. pos 2) device_data) queue one_message in
    Served line ids drivers
      (λ node. pos 2)
      device_data
      r.accepted
      (0, 0)
      (run
        (handle line ids drivers (λ node. pos 2) device_data)
        r
        (replicate (length r.stack.list) turn))
service-drains_example =
    service-drains line ids drivers (λ node. pos 2) device_data drivers-Transmits queue one_message
      (0, 0) queue-IsFifo
