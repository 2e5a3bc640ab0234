-- ===== src/Worker.antt =====
-- The loop that the worker threads share: general_work_thread_function of
-- app/rs485d/src/protocol/general/general.c, modbus_work_thread_function of
-- app/rs485d/src/protocol/modbus/modbus.c and bacnet_work_thread_function of
-- app/rs485d/src/protocol/bacnet/bacnet.c. The calls of the work queue are parameters.
pub mod Drain
pub mod Example
use rs.Prelude.{ℕ, zero, suc, ◌≡◌, Bool, true, false, Option, none, some, List, [], ◌∷◌}

-- Ringbuf_Empty, Ringbuf_Peek and Ringbuf_Pop; a peek gives the message at the pointer, or NULL.
pub record WorkQueue (Q M : Type 0) : Type 0 where
  pub ringbuf_empty : Q → Bool
  pub ringbuf_peek : Q → Option M
  pub ringbuf_pop : Q → Q

-- What the calls promise on a queue that holds the messages of a list, the oldest first.
pub record IsQueue {Q M : Type 0} (calls : WorkQueue Q M) (Holds : Q → List M → Type 0)
    : Type 0 where
  pub at_end : (q : Q) → Holds q [] → calls.ringbuf_empty q ≡ true
  pub at_front :
      (q : Q) (m : M) (l : List M)
      → Holds q (m ∷ l)
      → (calls.ringbuf_empty q ≡ false)
        × (calls.ringbuf_peek q ≡ some m)
        × Holds (calls.ringbuf_pop q) l

-- `object->work_queue`, the value of `object->queue_sem`, and what the messages act on.
pub record Worker (Q W : Type 0) : Type 0 where
  pub queue : Q
  pub sem : ℕ
  pub world : W

-- How `sem_wait` comes back: with the semaphore taken, or with an error, which the threads pass over.
pub data Wait : Type 0 where
  woken interrupted : Wait

module _ {Q M W : Type 0} (calls : WorkQueue Q M) (handle : M → W → W) where
  -- From the peek on: the message is handled and popped.
  pub served : Worker Q W → Option M → Worker Q W
  served s none = s
  served s (some m) = record s { queue = calls.ringbuf_pop s.queue; world = handle m s.world }

  -- After `sem_wait`, with whether the queue is empty.
  pub after_wait : Worker Q W → Bool → Worker Q W
  after_wait s true = s
  after_wait s false = served s (calls.ringbuf_peek s.queue)

  -- A turn whose `sem_wait` is woken; with the value 0 the thread goes on waiting.
  pub woken_turn : Worker Q W → ℕ → Worker Q W
  woken_turn s zero = s
  woken_turn s (suc n) = after_wait (record s { sem = n }) (calls.ringbuf_empty s.queue)

  -- One turn of `while(1)`.
  pub work_turn : Wait → Worker Q W → Worker Q W
  work_turn woken s = woken_turn s s.sem
  work_turn interrupted s = after_wait s (calls.ringbuf_empty s.queue)

  -- Turns that are woken.
  pub work_turns : ℕ → Worker Q W → Worker Q W
  work_turns zero s = s
  work_turns (suc n) s = work_turns n (work_turn woken s)
