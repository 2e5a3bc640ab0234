-- ===== src/Modbus/Process.antt =====
-- One message through the worker: errors, and a message that is done after one turn.
use rs.Prelude.{
  ℕ, zero, suc, ◌≤◌, ◌≡◌, refl, ap, ◌∙◌, true, Option, none, some, List, ℤ, pos, negsuc,
  if◌then◌else◌, arith,
}
use rs.Modbus.{
  LibModbus, Answer, Outcome, retried, writes, reads, after_write, after_read, receive, Handler,
  Handle, Message, Step, perform, step_of, word_in, packaged, message_process, process_turns,
  modbus_work,
}
use rs.Modbus.Retry.{Attempted, retry-Attempted}

-- The message as the worker hands it to the send handler.
abbrev pub opened : {W : Type 0} → List ℕ → ℕ → Handle W → Message
opened block mtu h = record h.message {
  port = record h.message.port { buffer = block };
  buffer_len = pos mtu;
  done = true;
}

module _ {W : Type 0} (lib : LibModbus W) (wrapped fuel : ℕ) where
  pub process_turns-done :
      (send recv : Option (Handler W)) (count : ℕ) (m : Message) (w : W)
      → m.done ≡ true
      → process_turns lib wrapped fuel recv send count (some (m, w)) ≡ some (m, w)
  unfolding process_turns
  process_turns-done send recv zero m w e = refl
  process_turns-done send recv (suc count) m w e = ground arith

  -- The turn of the worker after a handler.
  pub modbus_work-packaged :
      (send : Handler W) (recv : Option (Handler W)) (block : List ℕ) (mtu : ℕ) (old : Message)
      (w : W) (m : Message) (w' : W)
      → let h : Handle W = record { message = old; send_handle = some send; recv_handle = recv } in
        packaged lib wrapped fuel recv (send (opened block mtu h) w) ≡ some (m, w')
        → m.done ≡ true
        → modbus_work lib wrapped fuel block mtu h w ≡ some (m, w')
  unfolding modbus_work message_process
  modbus_work-packaged send recv block mtu old w m w' ran e =
      ap (process_turns lib wrapped fuel recv (some send) 2) ran
      ∙ process_turns-done (some send) recv 2 m w' e

  -- A message without a send handler, or whose send handler fails, is done at once: the worker
  -- calls nothing of libmodbus, so that the world is the one that the handler left.
  pub modbus_work-refuses :
      (send : Handler W) (recv : Option (Handler W)) (block : List ℕ) (mtu : ℕ) (old m : Message)
      (w w' : W) (e : ℕ)
      → let h : Handle W = record { message = old; send_handle = some send; recv_handle = recv } in
        send (opened block mtu h) w ≡ (negsuc e, m, w')
        → (modbus_work lib wrapped fuel block mtu h w ≡ some (record m { done = true }, w'))
          × (modbus_work lib wrapped fuel block mtu (record h { send_handle = none }) w
              ≡ some (opened block mtu h, w))
  unfolding modbus_work message_process packaged
  modbus_work-refuses send recv block mtu old m w w' e failed = (
    modbus_work-packaged send recv block mtu old w (record m { done = true }) w'
        (ap (packaged lib wrapped fuel recv) failed) refl,
    process_turns-done none recv 2
        (opened block mtu (record { message = old; send_handle = none; recv_handle = recv })) w
        refl,
  )

  module _ (m : Message) (w : W) (n : ℕ) where
    -- The world and the step of a message that a handler has packaged.
    abbrev pub slave_set : W
    slave_set = lib.set_slave m.port.device_addr w

    abbrev pub step : Step W
    step = step_of lib m.port.code m.port.register_addr (pos n) (word_in m.port.buffer)

    pub packaged-writes :
        (recv : Option (Handler W)) (call : List ℕ → W → Answer W) (wanted : ℤ)
        → step ≡ writes call wanted
        → 1 ≤ m.retransmission
        → m.retransmission ≤ fuel
        → (o : Outcome W) × (packaged lib wrapped fuel recv (pos n, m, w)
            ≡ some (retried m o.1 o.2, o.3))
          × Attempted call wanted m.retransmission (m.port.buffer, slave_set) o
    unfolding packaged perform after_write
    packaged-writes recv call wanted e some_call enough =
        let (o, ran, a) =
          retry-Attempted call wrapped wanted fuel m.retransmission m.port.buffer slave_set
            some_call enough in
        (o, ap (λ s. perform wrapped fuel recv s m slave_set) e ∙ ap (after_write m) ran, a)

    -- For a code that reads, with at least one transmission and fuel for all of them, the worker
    -- sets the slave and tries the read until it gives the wanted number of items or the
    -- transmissions are used up; unless the message is a broadcast, it then calls the receive
    -- handler with the buffer that the last read left and the length for its result.
    pub packaged-reads :
        (receiver : Handler W) (call : List ℕ → W → Answer W) (wanted : ℤ) (len : ℤ → ℤ)
        → step ≡ reads call wanted len
        → 1 ≤ m.retransmission
        → m.retransmission ≤ fuel
        → (o : Outcome W) × (packaged lib wrapped fuel (some receiver) (pos n, m, w) ≡ (
            let m' : Message = retried m o.1 o.2 in
            if m.broadcast
            then some (m', o.3)
            else let (r, m'', w'') = receiver (record m' { buffer_len = len o.0 }) o.3 in
              some (m'', w'')))
          × Attempted call wanted m.retransmission (m.port.buffer, slave_set) o
    unfolding packaged perform after_read receive
    packaged-reads receiver call wanted len e some_call enough =
        let (o, ran, a) =
          retry-Attempted call wrapped wanted fuel m.retransmission m.port.buffer slave_set
            some_call enough in
        (
          o,
          ap (λ s. perform wrapped fuel (some receiver) s m slave_set) e
              ∙ ap (after_read (some receiver) len m) ran,
          a,
        )
