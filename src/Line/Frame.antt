-- ===== src/Line/Frame.antt =====
-- One frame out and one in, rs485.c. The operating system is a parameter: `write`, `select` with
-- FD_ISSET, and `read`, on a state of the world.
pub mod Laws
use rs.Prelude.{
  ℕ, zero, suc, ◌*◌, ◌/◌, ◌%◌, ◌≡◌, Bool, true, false, Option, none, some, List, [], ℤ, pos, negsuc,
  neg_eperm, neg_eio, neg_einval, is_neg, ◌==◌, if◌then◌else◌,
}
use rs.Device.Port.{MstpPort, memcpy}

module _ (W : Type 0) where
  pub record Os : Type 0 where
    pub write : List ℕ → ℕ → W → ℤ × W
    pub select : ℕ → ℕ → W → ℤ × W
    pub is_set : W → Bool
    pub read : ℕ → W → ℤ × List ℕ × W

  -- `send_handle` and `recv_handle`, as functions of the handle and the world.
  abbrev pub Handler : Type 0
  Handler = MstpPort → W → ℤ × MstpPort × W

  pub record Handle : Type 0 where
    pub port : MstpPort
    pub send_handle : Option Handler
    pub recv_handle : Option Handler

abbrev pub Result : Type 0 → Type 0
Result W = ℤ × Handle W × W

-- What `package_buffer` points to.
abbrev pub bytes_of : MstpPort → List ℕ
bytes_of p = elim p.package_buffer [ none ↦ [] | some buf ↦ buf ]

-- `n != frame_len`
abbrev pub is_length : ℤ → ℕ → Bool
is_length (pos n) len = n == len
is_length (negsuc n) len = false

module _ {W : Type 0} (os : Os W) where
  -- The part of `rs485_send_handle_frame` behind the call of the driver.
  unfoldable pub write_frame : Handle W → ℤ × MstpPort × W → Result W
  write_frame h (negsuc k, p, w) = (negsuc k, record h { port = p }, w)
  write_frame h (pos len, p, w) =
      let (n, w') = os.write (bytes_of p) len w in
      (if is_length n len then pos 0 else neg_eio, record h { port = p }, w')

  -- The test of `mstp_port->send_handle`.
  unfoldable pub send_with : Handle W → Option (Handler W) → W → Result W
  send_with h none w = (neg_eperm, h, w)
  send_with h (some send) w = write_frame h (send h.port w)

  -- `rs485_send_handle_frame(mstp_port)` on a handle that is not NULL.
  unfoldable pub rs485_send_handle_frame : Handle W → W → Result W
  rs485_send_handle_frame h w = send_with h h.send_handle w

  -- The call of the driver on the bytes of a reply.
  unfoldable pub receive_with : Handle W → MstpPort → Option (Handler W) → W → Result W
  receive_with h p none w = (pos 0, record h { port = p }, w)
  receive_with h p (some recv) w =
      let (error, p', w') = recv p w in
      (if is_neg error then error else pos 0, record h { port = p' }, w')

  -- The part of `rs485_recv_handle_frame` behind `read`.
  unfoldable pub process : Handle W → ℤ × List ℕ × W → Result W
  process h (negsuc k, bytes, w) = (neg_eio, h, w)
  process h (pos zero, bytes, w) = (neg_eio, h, w)
  process h (pos (suc k), bytes, w) =
      let p : MstpPort = record h.port {
        package_buffer = some (memcpy (bytes_of h.port) bytes);
        package_buffer_len = suc k;
      } in
      receive_with h p h.recv_handle w

  -- The branches on the result of `select`.
  unfoldable pub selected : Handle W → ℤ × W → Result W
  selected h (negsuc k, w) = (negsuc k, h, w)
  selected h (pos zero, w) = (neg_eio, h, w)
  selected h (pos (suc k), w) =
      if os.is_set w then process h (os.read h.port.package_buffer_len w) else (pos 0, h, w)

  -- `rs485_recv_handle_frame(mstp_port)` on a handle that is not NULL.
  unfoldable pub rs485_recv_handle_frame : Handle W → W → Result W
  rs485_recv_handle_frame h w =
      if h.port.timeout_ms == 0
      then (neg_eperm, h, w)
      else selected h (os.select (h.port.timeout_ms / 1000) (h.port.timeout_ms % 1000 * 1000) w)
