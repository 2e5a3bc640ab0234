-- ===== src/Modbus/Tests.antt =====
-- The Modbus worker on a line that fails a number of times.
use rs.Prelude.{
  handle_all, get_or, ℕ, zero, suc, ◌≡◌, refl, true, false, Option, none, some, List, [], ◌∷◌, ℤ,
  pos, negsuc, neg_one, arith,
}
use rs.Device.Hitachi.{read_multiple_registers, do_nothing}
use rs.Modbus.{
  Answer, LibModbus, Message, Handle, Handler, Outcome, reads, keeping, modbus_work, step_of,
}
use rs.Modbus.Retry.{Attempted}
use rs.Modbus.Ends.{LeavesOpt}
use rs.Modbus.Thread.{ModbusThread, modbus_handle, IsModest, Course, modbus-drains}
use rs.Worker.{work_turns}
use rs.Worker.Example.{list_queue, Holds, list-IsQueue, at_last, at_last-Reached}
use rs.Modbus.Hitachi.{hitachi_send, modbus_work-temperature}

-- The failures to come, the slave, and the register and value of the last write that arrived.
abbrev Line : Type 0
Line = ℕ × ℕ × ℕ × ℕ

abbrev write_word : ℕ → ℕ → Line → ℤ × Line
write_word addr value (zero, slave, a, v) = (pos 1, (zero, slave, addr, value))
write_word addr value (suc n, slave, a, v) = (neg_one, (n, slave, a, v))

abbrev read_words : ℕ → ℤ → List ℕ → Line → Answer Line
read_words addr len buffer (zero, slave, a, v) = (len, v ∷ [], (zero, slave, a, v))
read_words addr len buffer (suc n, slave, a, v) = (neg_one, buffer, (n, slave, a, v))

abbrev lib : LibModbus Line
lib = record {
  set_slave = λ slave w. (w.0, slave, w.2, w.3);
  write_bit = write_word;
  write_bits = λ addr len buffer w. (len, w);
  write_register = write_word;
  write_registers = λ addr len buffer w. (len, w);
  read_bits = read_words;
  read_input_bits = read_words;
  read_registers = read_words;
  read_input_registers = read_words;
}

abbrev quiet : Line
quiet = (1, 0, 0, 0)

-- 26 degrees for the air conditioner 5, three times at most.
abbrev warm : Message
warm = record {
  port = record { code = do_nothing; device_addr = 5; register_addr = 0; buffer = []; method = 26 };
  buffer_len = pos 0;
  broadcast = false;
  retransmission = 3;
  done = false;
}

abbrev handle : Option (Handler Line) → Handle Line
handle send = record { message = warm; send_handle = send; recv_handle = none }

modbus_work-temperature_example :
    (o : Outcome Line) × (m : Message) × (buffer : List ℕ) × (modbus_work lib 255 3
        (7 ∷ 7 ∷ [])
        2
        (handle (some hitachi_send))
        quiet
      ≡ some (m, o.3))
    × Attempted (keeping (λ b. lib.write_register 4021 26)) (pos 1) 3 (buffer, (1, 2, 0, 0)) o
modbus_work-temperature_example =
    modbus_work-temperature lib 255 3 none (7 ∷ 7 ∷ []) 2 warm quiet (omega arith) (omega arith)
      (omega arith) (omega arith) (omega arith) (omega arith)

-- A handler that fails.
abbrev failing : Handler Line
failing m w = (negsuc 21, m, w)

-- A query of three registers, and a receiver that notes the length.
abbrev query : Message
query = record warm {
  port = record warm.port { code = read_multiple_registers; register_addr = 12 };
}

abbrev receiver : Handler Line
receiver m w = (pos 0, record m { done = true }, w)

step_query :
    step_of lib read_multiple_registers 12 (pos 3) 0
    ≡ reads (read_words 12 (pos 3)) (pos 3) (λ n. n)
unfolding step_of
step_query = refl

-- A handler that leaves the message, and asks for three registers.
abbrev as_it_is : Handler Line
as_it_is m w = (pos 3, m, w)

-- The messages of the queue: the byte is the temperature.
abbrev handle_of : List ℕ → Handle Line
handle_of bytes = record (handle (some as_it_is)) {
  message = record query { port = record query.port { method = get_or bytes 0 0 } };
}

abbrev thread : ModbusThread Line
thread = record { send_recv_buffer = 7 ∷ 7 ∷ []; world = quiet }

handle_of-IsModest : (m : List ℕ) → IsModest lib 255 3 2 handle_of m
unfolding LeavesOpt
handle_of-IsModest m = record {
  sends = record { flag = λ p w. refl; number = λ p w. refl };
  receives = tt;
  allowed = omega arith;
  enough = omega arith;
}

modbus-drains_example :
    let handle' = modbus_handle lib 255 3 2 handle_of in
    let s = at_last handle' thread in
    let s' = work_turns list_queue handle' s.sem s in
    ((m : List ℕ) (t : ModbusThread Line) → Course lib 255 3 2 handle_of m t)
    × Holds s'.queue []
    × (s'.world ≡ handle_all handle' ((5 ∷ []) ∷ (6 ∷ []) ∷ []) thread)
modbus-drains_example =
    modbus-drains lib 255 3 2 handle_of handle_of-IsModest list_queue Holds thread list-IsQueue
      (at_last-Reached (modbus_handle lib 255 3 2 handle_of) thread)
