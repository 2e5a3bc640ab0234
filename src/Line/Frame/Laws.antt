-- ===== src/Line/Frame/Laws.antt =====
-- What sending and receiving a frame leave of the handle, and what their results say.
use rs.Prelude.{
  ℕ, zero, suc, ◌*◌, ◌/◌, ◌%◌, ◌≡◌, refl, ◌∙◌, inl, inr, Option, none, some, List, ℤ, pos, negsuc,
  ◌==◌, Bool-cases,
}
use rs.Device.Port.{MstpPort, memcpy}
use rs.Line.Frame.{
  Os, Handler, Handle, bytes_of, write_frame, send_with, receive_with, process, selected,
  rs485_send_handle_frame, rs485_recv_handle_frame,
}

module _ {W : Type 0} where
  -- A driver leaves the number of retransmissions.
  abbrev pub KeepsOpt : Option (Handler W) → Type 0
  KeepsOpt none = Unit
  KeepsOpt (some f) = (p : MstpPort) (w : W) → (f p w).1.retransmission ≡ p.retransmission

  pub record IsKeeping (h : Handle W) : Type 0 where
    pub sends : KeepsOpt h.send_handle
    pub receives : KeepsOpt h.recv_handle

  -- A handle afterwards: as many retransmissions, and drivers that keep them.
  pub record Kept (h h' : Handle W) : Type 0 where
    pub same : h'.port.retransmission ≡ h.port.retransmission
    pub keeping : IsKeeping h'

  with_port :
      (h : Handle W) (p : MstpPort)
      → IsKeeping h
      → p.retransmission ≡ h.port.retransmission
      → Kept h (record h { port = p })
  with_port h p k e = record {
    same = e;
    keeping = record { sends = k.sends; receives = k.receives };
  }

  module _ (os : Os W) where
    write-Kept :
        (h : Handle W) (r : ℤ × MstpPort × W)
        → IsKeeping h
        → r.1.retransmission ≡ h.port.retransmission
        → Kept h (write_frame os h r).1
    unfolding write_frame
    write-Kept h (negsuc k, p, w) kp e = with_port h p kp e
    write-Kept h (pos len, p, w) kp e = with_port h p kp e

    send_with-Kept :
        (h : Handle W) (send : Option (Handler W)) (w : W)
        → IsKeeping h
        → KeepsOpt send
        → Kept h (send_with os h send w).1
    unfolding send_with
    send_with-Kept h none w k s = with_port h h.port k refl
    send_with-Kept h (some send) w k s = write-Kept h (send h.port w) k (s h.port w)

    pub send-Kept : (h : Handle W) (w : W) → IsKeeping h → Kept h (rs485_send_handle_frame os h w).1
    unfolding rs485_send_handle_frame
    send-Kept h w k = send_with-Kept h h.send_handle w k k.sends

    receive_with-Kept :
        (h : Handle W) (p : MstpPort) (recv : Option (Handler W)) (w : W)
        → IsKeeping h
        → p.retransmission ≡ h.port.retransmission
        → KeepsOpt recv
        → Kept h (receive_with os h p recv w).1
    unfolding receive_with
    receive_with-Kept h p none w k e r = with_port h p k e
    receive_with-Kept h p (some recv) w k e r = with_port h (recv p w).1 k (r p w ∙ e)

    process-Kept : (h : Handle W) (r : ℤ × List ℕ × W) → IsKeeping h → Kept h (process os h r).1
    unfolding process
    process-Kept h (negsuc k, bytes, w) kp = with_port h h.port kp refl
    process-Kept h (pos zero, bytes, w) kp = with_port h h.port kp refl
    process-Kept h (pos (suc k), bytes, w) kp =
        receive_with-Kept h
          (record h.port {
            package_buffer = some (memcpy (bytes_of h.port) bytes);
            package_buffer_len = suc k;
          })
          h.recv_handle w kp refl kp.receives

    selected-Kept : (h : Handle W) (r : ℤ × W) → IsKeeping h → Kept h (selected os h r).1
    unfolding selected
    selected-Kept h (negsuc k, w) kp = with_port h h.port kp refl
    selected-Kept h (pos zero, w) kp = with_port h h.port kp refl
    selected-Kept h (pos (suc k), w) kp = elim (Bool-cases (os.is_set w)) [
      | inl ready ↦ rw ready (process-Kept h (os.read h.port.package_buffer_len w) kp)
      | inr idle ↦ rw idle (with_port h h.port kp refl)
    ]

    pub recv-Kept : (h : Handle W) (w : W) → IsKeeping h → Kept h (rs485_recv_handle_frame os h w).1
    unfolding rs485_recv_handle_frame
    recv-Kept h w k = elim (Bool-cases (h.port.timeout_ms == 0)) [
      | inl never ↦ rw never (with_port h h.port k refl)
      | inr waits ↦ rw waits (
          selected-Kept h (os.select (h.port.timeout_ms / 1000) (h.port.timeout_ms % 1000 * 1000) w)
            k)
    ]
