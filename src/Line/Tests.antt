-- ===== src/Line/Tests.antt =====
-- The worker on a line that loses replies, and the baud rates.
use rs.Prelude.{
  get_or, List, handle_all, ℕ, zero, suc, ◌≡◌, refl, true, false, Option, none, some, [], ◌∷◌, ℤ,
  pos, arith, replicate, neg_eio,
}
use rs.Line.Frame.{
  Os, Handler, Handle, Result, write_frame, send_with, rs485_send_handle_frame, receive_with,
  process, selected, rs485_recv_handle_frame,
}
use rs.Line.Frame.Laws.{IsKeeping}
use rs.Line.Work.{prepared, await, after_send, attempt, decrement, settle, loop, general_work}
use rs.Line.Work.Retry.{End, Runs, Within}
use rs.Line.Work.Message.{clamped, general_work-Runs}
use rs.Line.Work.Service.{GeneralThread, general_handle, Course, general-drains}
use rs.Worker.{work_turns}
use rs.Worker.Example.{list_queue, Holds, list-IsQueue, at_last, at_last-Reached}

-- The state of the world: the number of replies that get lost, and of the frames sent.
abbrev World : Type 0
World = ℕ × ℕ

abbrev lossy : Os World
lossy = record {
  write = λ buf len w. (pos len, (w.0, suc w.1));
  select = λ s us w. elim w.0 [ zero ↦ (pos 1, w) | suc k ↦ (pos 0, (k, w.1)) ];
  is_set = λ w. true;
  read = λ len w. (pos 2, 6 ∷ 7 ∷ [], w);
}

-- A driver that sends four bytes.
abbrev driver : Handler World
driver = λ p w. (pos 4, p, w)

abbrev message : Handle World
message = record {
  port = record {
    package_buffer = none;
    package_buffer_len = 0;
    address = 1 ∷ [];
    address_len = 1;
    broadcast = false;
    except_reply = true;
    method = 201;
    value = 0;
    device_id = 7;
    retransmission = 9;
    timeout_ms = 300;
  };
  send_handle = some driver;
  recv_handle = none;
}

message-IsKeeping : IsKeeping message
message-IsKeeping = record { sends = λ p w. refl; receives = tt }

-- The error and the number of frames sent.
abbrev summary : Option (Result World) → Option (ℤ × ℕ)
summary none = none
summary (some r) = some (r.0, r.2.1)

-- Two lost replies are made good by the third transmission; three are not.
two_lost : summary (general_work lossy 20 255 3 (replicate 20 0) message (2, 0)) ≡ some (pos 0, 3)
unfolding general_work loop settle attempt after_send await prepared decrement
    rs485_send_handle_frame send_with write_frame rs485_recv_handle_frame selected process
    receive_with
two_lost = refl

three_lost :
    summary (general_work lossy 20 255 3 (replicate 20 0) message (3, 0)) ≡ some (neg_eio, 3)
unfolding general_work loop settle attempt after_send await prepared decrement
    rs485_send_handle_frame send_with write_frame rs485_recv_handle_frame selected process
    receive_with
three_lost = refl

general_work-Runs_example :
    (k : ℕ) × (end : End) × (out : Result World) × (general_work lossy 20 255 3
        (replicate 20 0)
        message
        (2, 0)
      ≡ some out)
    × Runs lossy 20 255 (replicate 20 0) k end (clamped (replicate 20 0) message) (2, 0) out
    × Within lossy 20 255 (replicate 20 0) end k 3
general_work-Runs_example =
    general_work-Runs lossy 20 255 (replicate 20 0) message (2, 0) message-IsKeeping (omega arith)

-- The messages of the queue: the byte is the value of the method.
abbrev handle_of : List ℕ → Handle World
handle_of bytes = record message { port = record message.port { value = get_or bytes 0 0 } }

abbrev thread : GeneralThread World
thread = record { package_buffer = replicate 20 0; world = (2, 0) }

general-drains_example :
    let handle = general_handle lossy 20 255 handle_of in
    let s = at_last handle thread in
    let s' = work_turns list_queue handle s.sem s in
    ((m : List ℕ) (t : GeneralThread World) → Course lossy 20 255 handle_of m t)
    × Holds s'.queue []
    × (s'.world ≡ handle_all handle ((5 ∷ []) ∷ (6 ∷ []) ∷ []) thread)
general-drains_example =
    general-drains lossy 20 255 handle_of (λ m. record { sends = λ p w. refl; receives = tt })
      (λ m. omega arith) list_queue Holds thread list-IsQueue
      (at_last-Reached (general_handle lossy 20 255 handle_of) thread)
