-- ===== src/Modbus/Thread.antt =====
-- modbus_work_thread_function over its queue of messages.
use rs.Prelude.{ℕ, ◌≤◌, ◌≡◌, ap, Option, none, some, List, [], handle_all}
use rs.Modbus.{LibModbus, Message, Handle, modbus_work}
use rs.Modbus.Ends.{LeavesOpt, Done, modbus_work-done}
use rs.Worker.{WorkQueue, IsQueue, Worker, work_turns}
use rs.Worker.Drain.{Reached, worker-drains}

-- `send_recv_buffer`, the block that all messages share, and the world.
pub record ModbusThread (W : Type 0) : Type 0 where
  pub send_recv_buffer : List ℕ
  pub world : W

module _ {M W : Type 0} (lib : LibModbus W) (wrapped fuel mtu : ℕ) (handle_of : M → Handle W) where
  -- One message of the queue.
  abbrev pub thread_message : M → ModbusThread W → Option (Message × W)
  thread_message m t = modbus_work lib wrapped fuel t.send_recv_buffer mtu (handle_of m) t.world

  -- What it leaves of the block and the world.
  pub modbus_left : Option (Message × W) → ModbusThread W → ModbusThread W
  modbus_left none t = t
  modbus_left (some (m, w)) t = record { send_recv_buffer = m.port.buffer; world = w }

  pub modbus_handle : M → ModbusThread W → ModbusThread W
  modbus_handle m t = modbus_left (thread_message m t) t

  -- A message comes to an end, and that is what the thread is left with.
  pub record Course (m : M) (t : ModbusThread W) : Type 0 where
    pub ends : Done (thread_message m t)
    pub block : (modbus_handle m t).send_recv_buffer ≡ ends.out.0.port.buffer
    pub world : (modbus_handle m t).world ≡ ends.out.1

  -- Handlers that leave the flag `done` and the number of retransmissions, of which a message has at
  -- least one and at most the fuel.
  pub record IsModest (m : M) : Type 0 where
    pub sends : LeavesOpt (handle_of m).send_handle
    pub receives : LeavesOpt (handle_of m).recv_handle
    pub allowed : 1 ≤ (handle_of m).message.retransmission
    pub enough : (handle_of m).message.retransmission ≤ fuel

  module _ (modest : (m : M) → IsModest m) where
    thread_message-Course : (m : M) (t : ModbusThread W) → Course m t
    unfolding modbus_handle modbus_left
    thread_message-Course m t =
        let k = modest m in
        let h = handle_of m in
        let d =
          modbus_work-done lib wrapped fuel h.recv_handle k.receives h.send_handle h.message
            t.send_recv_buffer mtu t.world k.sends k.allowed k.enough in
        record {
          ends = d;
          block = ap (λ r. (modbus_left r t).send_recv_buffer) d.ran;
          world = ap (λ r. (modbus_left r t).world) d.ran;
        }

    -- With messages whose handlers leave the flag `done` and the number of retransmissions, from 1
    -- on, and fuel for these: however the thread's turns fall between the clients' calls, every
    -- message comes to an end; as many turns as the semaphore counts then leave the queue empty, and
    -- the block and the world are what the messages have made of them, one after the other, in the
    -- order of arrival.
    pub modbus-drains :
        {Q : Type 0} (calls : WorkQueue Q M) (Holds : Q → List M → Type 0) (t0 : ModbusThread W)
        {s : Worker Q (ModbusThread W)} {arrived : List M}
        → IsQueue calls Holds
        → Reached calls Holds modbus_handle t0 s arrived
        → let s' = work_turns calls modbus_handle s.sem s in
          ((m : M) (t : ModbusThread W) → Course m t)
          × Holds s'.queue []
          × (s'.world ≡ handle_all modbus_handle arrived t0)
    modbus-drains calls Holds t0 laws r =
        let (empty, world) = worker-drains calls Holds modbus_handle t0 laws r in
        (thread_message-Course, empty, world)
