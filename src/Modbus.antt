-- ===== src/Modbus.antt =====
-- The worker of the Modbus devices, app/rs485d/src/protocol/modbus/modbus.c. The calls of libmodbus
-- are parameters, and so is the value of `-- retransmission` at 0, since the source does not show
-- the type of that field.
pub mod Retry
pub mod Process
pub mod Hitachi
pub mod Ends
pub mod Thread
pub mod Service
mod Tests
use rs.Prelude.{
  ℕ, zero, suc, ◌-◌, ◌*◌, ◌^◌, ◌≡◌, Bool, true, false, ◌&&◌, not, Option, none, some, List, ℤ, pos,
  negsuc, is_neg, neg_eperm, neg_eio, get_or, bit_or, ◌==◌, if◌then◌else◌,
}
use rs.Device.Hitachi.{
  FunctionCode, write_signle_coil, read_signle_coil, write_multiple_coils, read_multiple_coils,
  read_input_bit, read_input_multiple_bits, write_signle_register, read_signle_register,
  write_multiple_registers, read_multiple_registers, read_input_register,
  read_input_multiple_registers, do_nothing, other_code, ModbusPort,
}

-- The result of a call, the buffer after it, and the world after it.
abbrev pub Answer : Type 0 → Type 0
Answer W = ℤ × List ℕ × W

-- The calls of libmodbus on one descriptor: a register address, a number of items or a value, and
-- for a read the buffer that it fills.
pub record LibModbus (W : Type 0) : Type 0 where
  pub set_slave : ℕ → W → W
  pub write_bit : ℕ → ℕ → W → ℤ × W
  pub write_bits : ℕ → ℤ → List ℕ → W → ℤ × W
  pub write_register : ℕ → ℕ → W → ℤ × W
  pub write_registers : ℕ → ℤ → List ℕ → W → ℤ × W
  pub read_bits : ℕ → ℤ → List ℕ → W → Answer W
  pub read_input_bits : ℕ → ℤ → List ℕ → W → Answer W
  pub read_registers : ℕ → ℤ → List ℕ → W → Answer W
  pub read_input_registers : ℕ → ℤ → List ℕ → W → Answer W

-- The fields of `modbus_port_handle_t` that the worker and the drivers use.
pub record Message : Type 0 where
  pub port : ModbusPort
  pub buffer_len : ℤ
  pub broadcast : Bool
  pub retransmission : ℕ
  pub done : Bool

-- A driver's handler.
abbrev pub Handler : Type 0 → Type 0
Handler W = Message → W → ℤ × Message × W

-- The handle with its handlers; `none` is NULL.
pub record Handle (W : Type 0) : Type 0 where
  pub message : Message
  pub send_handle : Option (Handler W)
  pub recv_handle : Option (Handler W)

-- `a == b`
abbrev pub same : ℤ → ℤ → Bool
same (pos a) (pos b) = a == b
same (negsuc a) (negsuc b) = a == b
same (pos a) (negsuc b) = false
same (negsuc a) (pos b) = false

-- DO_SOMETHINGS_MAX_COUNTS
abbrev pub do_somethings_max_counts : ℕ
do_somethings_max_counts = 3

-- A case of the switch on the code: the call, the result that ends the retries, and for a read the
-- length that the receive handler is given for the result.
pub data Step (W : Type 0) : Type 0 where
  writes : (List ℕ → W → Answer W) → ℤ → Step W
  reads : (List ℕ → W → Answer W) → ℤ → (ℤ → ℤ) → Step W
  rests unsupported : Step W

-- A call that leaves the buffer alone.
abbrev pub keeping : {W : Type 0} → (List ℕ → W → ℤ × W) → List ℕ → W → Answer W
keeping call buffer w = let (n, w') = call buffer w in (n, buffer, w')

-- The word that a single write sends, from the first two bytes of the buffer.
abbrev pub word_in : List ℕ → ℕ
word_in buffer = bit_or (get_or buffer 0 0 * 2 ^ 8) (get_or buffer 1 0)

module _ {W : Type 0} (lib : LibModbus W) where
  -- The switch; `len` is `send_frame_len` and `value` the word of a single write.
  pub step_of : FunctionCode → ℕ → ℤ → ℕ → Step W
  step_of write_signle_coil addr len value =
      writes (keeping (λ b w. lib.write_bit addr (get_or b 0 0) w)) (pos 1)
  step_of read_signle_coil addr len value = reads (lib.read_bits addr (pos 1)) (pos 1) (λ n. pos 1)
  step_of write_multiple_coils addr len value =
      writes (keeping (λ b w. lib.write_bits addr len b w)) len
  step_of read_multiple_coils addr len value = reads (lib.read_bits addr len) len (λ n. n)
  step_of read_input_bit addr len value =
      reads (lib.read_input_bits addr (pos 1)) (pos 1) (λ n. pos 1)
  step_of read_input_multiple_bits addr len value =
      reads (lib.read_input_bits addr len) len (λ n. n)
  step_of write_signle_register addr len value =
      writes (keeping (λ b w. lib.write_register addr value w)) (pos 1)
  step_of read_signle_register addr len value =
      reads (lib.read_registers addr (pos 1)) (pos 1) (λ n. n)
  step_of write_multiple_registers addr len value =
      writes (keeping (λ b w. lib.write_registers addr len b w)) len
  step_of read_multiple_registers addr len value = reads (lib.read_registers addr len) len (λ n. n)
  step_of read_input_register addr len value =
      reads (lib.read_input_registers addr (pos 1)) (pos 1) (λ n. n)
  step_of read_input_multiple_registers addr len value =
      reads (lib.read_input_registers addr len) len (λ n. n)
  step_of do_nothing addr len value = rests
  step_of (other_code c) addr len value = unsupported

-- `-- retransmission`
abbrev pub decrement : ℕ → ℕ → ℕ
decrement wrapped zero = wrapped
decrement wrapped (suc n) = n

-- What the retries of a call leave: its result, the retransmissions left, the buffer, the world.
abbrev pub Outcome : Type 0 → Type 0
Outcome W = ℤ × ℕ × List ℕ × W

module _ {W : Type 0} (wrapped : ℕ) (call : List ℕ → W → Answer W) (wanted : ℤ) where
  -- `do { retval = call } while(-- retransmission && (retval != wanted))`; `none` is out of fuel.
  pub retry : ℕ → ℕ → List ℕ → W → Option (Outcome W)
  retry zero n buffer w = none
  retry (suc fuel) n buffer w =
      let (retval, buffer', w') = call buffer w in
      let n' = decrement wrapped n in
      let rest = retry fuel n' buffer' w' in
      if not (n' == 0) && not (same retval wanted) then rest else some (retval, n', buffer', w')

-- The stores of the retries into the message.
abbrev pub retried : Message → ℕ → List ℕ → Message
retried m n buffer = record m { retransmission = n; port = record m.port { buffer = buffer } }

module _ {W : Type 0} where
  -- The call of the receive handler, with the length that was read.
  pub receive : Option (Handler W) → ℤ → Message → W → Message × W
  receive none len m w = (m, w)
  receive (some f) len m w = let (n, m', w') = f (record m { buffer_len = len }) w in (m', w')

  pub after_write : Message → Option (Outcome W) → Option (Message × W)
  after_write m none = none
  after_write m (some (retval, n, buffer, w)) = some (retried m n buffer, w)

  pub after_read :
      Option (Handler W) → (ℤ → ℤ) → Message → Option (Outcome W) → Option (Message × W)
  after_read handler len m none = none
  after_read handler len m (some (retval, n, buffer, w)) =
      let m' = retried m n buffer in
      if m'.broadcast then some (m', w) else some (receive handler (len retval) m' w)

  -- The body of a case.
  pub perform : ℕ → ℕ → Option (Handler W) → Step W → Message → W → Option (Message × W)
  perform wrapped fuel handler (writes call wanted) m w =
      after_write m (retry wrapped call wanted fuel m.retransmission m.port.buffer w)
  perform wrapped fuel handler (reads call wanted len) m w =
      after_read handler len m (retry wrapped call wanted fuel m.retransmission m.port.buffer w)
  perform wrapped fuel handler rests m w = some (m, w)
  perform wrapped fuel handler unsupported m w = some (record m { done = true }, w)

  module _ (lib : LibModbus W) (wrapped fuel : ℕ) (recv_handle : Option (Handler W)) where
    -- `message_process` after the send handler.
    pub packaged : ℤ × Message × W → Option (Message × W)
    packaged (len, m, w) =
        if is_neg len
        then some (record m { done = true }, w)
        else let w' = lib.set_slave m.port.device_addr w in
          perform wrapped fuel recv_handle
            (step_of lib m.port.code m.port.register_addr len (word_in m.port.buffer)) m w'

    -- `message_process(message, lib_modbus_fd)`; `none` is out of fuel.
    pub message_process : Option (Handler W) → Message → W → Option (Message × W)
    message_process none m w = some (record m { done = true }, w)
    message_process (some send_handle) m w = packaged (send_handle m w)

    -- `do { message_process } while(!(message->done) && --done_counts)`, with `count` turns at most.
    pub process_turns : Option (Handler W) → ℕ → Option (Message × W) → Option (Message × W)
    process_turns send_handle zero r = r
    process_turns send_handle (suc count) none = none
    process_turns send_handle (suc count) (some (m, w)) =
        let rest = process_turns send_handle count (message_process send_handle m w) in
        if m.done then some (m, w) else rest

  -- The handling of one message by `modbus_work_thread_function`, with its buffer and its length.
  pub modbus_work : LibModbus W → ℕ → ℕ → List ℕ → ℕ → Handle W → W → Option (Message × W)
  modbus_work lib wrapped fuel block mtu h w =
      let m : Message = record h.message {
        port = record h.message.port { buffer = block };
        buffer_len = pos mtu;
        done = true;
      } in
      let first = message_process lib wrapped fuel h.recv_handle h.send_handle m w in
      process_turns lib wrapped fuel h.recv_handle h.send_handle (do_somethings_max_counts - 1)
        first
