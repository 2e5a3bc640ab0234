-- ===== src/Line/Work.antt =====
-- The worker of general.c on one message: send, wait for the reply, and retransmit. The size of the
-- package buffer is a parameter, since the configuration is generated, and so is the value of
-- `-- retransmission` at 0, since the source does not show the type of that field.
pub mod Retry
pub mod Message
pub mod Service
use rs.Prelude.{
  ℕ, zero, suc, ◌≡◌, Bool, true, false, ◌&&◌, not, Option, none, some, List, ℤ, pos, is_nonzero,
  ltb, ◌==◌, if◌then◌else◌,
}
use rs.Device.Port.{MstpPort}
use rs.Line.Frame.{Os, Handle, Result, rs485_send_handle_frame, rs485_recv_handle_frame}

-- BUS_MAX_RETRANSMISSION
abbrev pub bus_max_retransmission : ℕ
bus_max_retransmission = 3

module _ {W : Type 0} (os : Os W) (mtu wrapped : ℕ) where
  -- `handle->package_buffer = package_buffer` and its length, on a turn after the first: the handle
  -- points to the block already, with the bytes that the turns before have left in it.
  unfoldable pub prepared : List ℕ → Handle W → Handle W
  prepared block h =
      let keep : Option (List ℕ) = elim h.port.package_buffer [
        | none ↦ some block
        | some buf ↦ some buf
      ] in
      record h { port = record h.port { package_buffer = keep; package_buffer_len = mtu } }

  -- One turn of the loop's body: the jump to `free_message`, or the error it ends with.
  pub data Turn : Type 0 where
    aborted tried : ℤ → Handle W → W → Turn

  unfoldable pub await : Handle W → W → Turn
  await h w = let (error, h', w') = rs485_recv_handle_frame os h w in tried error h' w'

  unfoldable pub after_send : Result W → Turn
  after_send (error, h', w') =
      if is_nonzero error
      then aborted error h' w'
      else if h'.port.except_reply
      then await h' w'
      else tried error h' w'

  unfoldable pub attempt : List ℕ → Handle W → W → Turn
  attempt block h w = after_send (rs485_send_handle_frame os (prepared block h) w)

  unfoldable pub decrement : Handle W → Handle W
  decrement h =
      let n : ℕ = elim h.port.retransmission [ zero ↦ wrapped | suc k ↦ k ] in
      record h { port = record h.port { retransmission = n } }

  -- `-- handle->retransmission && error`, with the loop for the turns that follow.
  unfoldable pub settle : (Handle W → W → Option (Result W)) → Turn → Option (Result W)
  settle again (aborted error h w) = some (error, h, w)
  settle again (tried error h w) =
      let h' = decrement h in
      let rest = again h' w in
      if not (h'.port.retransmission == 0) && is_nonzero error then rest else some (error, h', w)

  -- `do ... while(-- handle->retransmission && error)`; `none` is out of fuel.
  unfoldable pub loop : ℕ → List ℕ → Handle W → W → Option (Result W)
  loop zero block h w = none
  loop (suc n) block h w = settle (loop n block) (attempt block h w)

  -- The handling of one message by `general_work_thread_function`. The first turn's assignment of the
  -- block to the handle, whatever a client has stored there, stands before the loop.
  unfoldable pub general_work : ℕ → List ℕ → Handle W → W → Option (Result W)
  general_work fuel block h w =
      let n : ℕ =
        if ltb bus_max_retransmission h.port.retransmission
        then bus_max_retransmission
        else h.port.retransmission in
      loop fuel block
        (record h { port = record h.port { retransmission = n; package_buffer = some block } }) w
