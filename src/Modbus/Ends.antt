-- ===== src/Modbus/Ends.antt =====
-- Every message of the Modbus worker ends, after one turn of its loop, if its handlers leave the
-- flag `done` and the number of retransmissions.
use rs.Prelude.{
  ℕ, ◌≤◌, ◌≡◌, refl, sym, ap, ◌∙◌, subst, Bool, true, false, Option, none, some, List, ℤ, pos,
  negsuc, arith, if◌then◌else◌,
}
use rs.Modbus.{
  LibModbus, Handler, Handle, Message, Step, writes, reads, rests, unsupported, retried,
  after_write, after_read, receive, perform, step_of, word_in, packaged, message_process,
  process_turns, modbus_work,
}
use rs.Modbus.Retry.{retry-Attempted}
use rs.Modbus.Process.{opened, process_turns-done}

module _ {W : Type 0} where
  -- A handler that leaves the flag and the number; `none` is NULL.
  pub record Leaves (f : Handler W) : Type 0 where
    pub flag : (m : Message) (w : W) → (f m w).1.done ≡ m.done
    pub number : (m : Message) (w : W) → (f m w).1.retransmission ≡ m.retransmission

  unfoldable pub LeavesOpt : Option (Handler W) → Type 0
  LeavesOpt none = Unit
  LeavesOpt (some f) = Leaves f

  -- The message comes out done.
  pub record Done (r : Option (Message × W)) : Type 0 where
    pub out : Message × W
    pub ran : r ≡ some out
    pub flag : out.0.done ≡ true

  receive-done :
      (recv : Option (Handler W)) (len : ℤ) (m : Message) (w : W)
      → LeavesOpt recv
      → m.done ≡ true
      → Done (some (receive recv len m w))
  unfolding receive LeavesOpt
  receive-done none len m w l e = record { out = (m, w); ran = refl; flag = e }
  receive-done (some f) len m w l e = record {
    out = ((f (record m { buffer_len = len }) w).1, (f (record m { buffer_len = len }) w).2);
    ran = refl;
    flag = l.flag (record m { buffer_len = len }) w ∙ e;
  }

  reading-done :
      (recv : Option (Handler W)) (len : ℤ) (m : Message) (w : W) (b : Bool)
      → LeavesOpt recv
      → m.done ≡ true
      → Done (if b then some (m, w) else some (receive recv len m w))
  reading-done recv len m w true l e = record { out = (m, w); ran = refl; flag = e }
  reading-done recv len m w false l e = receive-done recv len m w l e

  module _ (lib : LibModbus W) (wrapped fuel : ℕ) (recv : Option (Handler W))
      (l : LeavesOpt recv) where
    perform-done :
        (s : Step W) (m : Message) (w : W)
        → 1 ≤ m.retransmission
        → m.retransmission ≤ fuel
        → m.done ≡ true
        → Done (perform wrapped fuel recv s m w)
    unfolding perform after_write after_read
    perform-done rests m w low high e = record { out = (m, w); ran = refl; flag = e }
    perform-done unsupported m w low high e = record { out = _; ran = refl; flag = refl }
    perform-done (writes call wanted) m w low high e =
        let (o, ran, a) =
          retry-Attempted call wrapped wanted fuel m.retransmission m.port.buffer w low high in
        record { out = (retried m o.1 o.2, o.3); ran = ap (after_write m) ran; flag = e }
    perform-done (reads call wanted len) m w low high e =
        let (o, ran, a) =
          retry-Attempted call wrapped wanted fuel m.retransmission m.port.buffer w low high in
        subst Done (sym (ap (after_read recv len m) ran))
          (reading-done recv (len o.0) (retried m o.1 o.2) o.3 m.broadcast l e)

    packaged-done :
        (n : ℤ) (m : Message) (w : W)
        → 1 ≤ m.retransmission
        → m.retransmission ≤ fuel
        → m.done ≡ true
        → Done (packaged lib wrapped fuel recv (n, m, w))
    unfolding packaged
    packaged-done (negsuc n) m w low high e = record { out = _; ran = refl; flag = refl }
    packaged-done (pos n) m w low high e =
        perform-done (step_of lib m.port.code m.port.register_addr (pos n) (word_in m.port.buffer))
          m (lib.set_slave m.port.device_addr w) low high e

    process-done :
        (send : Option (Handler W)) (m : Message) (w : W)
        → LeavesOpt send
        → 1 ≤ m.retransmission
        → m.retransmission ≤ fuel
        → m.done ≡ true
        → Done (message_process lib wrapped fuel recv send m w)
    unfolding message_process LeavesOpt
    process-done none m w k low high e = record { out = _; ran = refl; flag = refl }
    process-done (some f) m w k low high e =
        packaged-done (f m w).0 (f m w).1 (f m w).2 (omega (arith, low, k.number m w))
          (omega (arith, high, k.number m w)) (k.flag m w ∙ e)

    -- With fuel for the retransmissions, of which there is at least one.
    pub modbus_work-done :
        (send : Option (Handler W)) (old : Message) (block : List ℕ) (mtu : ℕ) (w : W)
        → LeavesOpt send
        → 1 ≤ old.retransmission
        → old.retransmission ≤ fuel
        → Done (
            modbus_work lib wrapped fuel block mtu
              (record { message = old; send_handle = send; recv_handle = recv })
              w)
    unfolding modbus_work
    modbus_work-done send old block mtu w k low high =
        let h : Handle W = record { message = old; send_handle = send; recv_handle = recv } in
        let d = process-done send (opened block mtu h) w k low high refl in
        record {
          out = d.out;
          ran =
              ap (process_turns lib wrapped fuel recv send 2) d.ran
              ∙ process_turns-done lib wrapped fuel send recv 2 d.out.0 d.out.1 d.flag;
          flag = d.flag;
        }
