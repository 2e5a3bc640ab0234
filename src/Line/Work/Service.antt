-- ===== src/Line/Work/Service.antt =====
-- The thread of general.c over its queue of messages, with general_work for each of them.
use rs.Prelude.{ℕ, ◌≤◌, ◌≡◌, ap, Option, none, some, List, [], handle_all}
use rs.Line.Frame.{Os, Handle, Result, bytes_of}
use rs.Line.Frame.Laws.{IsKeeping}
use rs.Line.Work.{general_work}
use rs.Line.Work.Retry.{End, Runs, Within}
use rs.Line.Work.Message.{clamped, general_work-Runs}
use rs.Worker.{WorkQueue, IsQueue, Worker, work_turns}
use rs.Worker.Drain.{Reached, worker-drains}

-- `package_buffer`, the block that all messages share, and the world.
pub record GeneralThread (W : Type 0) : Type 0 where
  pub package_buffer : List ℕ
  pub world : W

-- What a message leaves of the block and the world.
pub general_left : {W : Type 0} → Result W → GeneralThread W
general_left (error, h, w) = record { package_buffer = bytes_of h.port; world = w }

module _ {M W : Type 0} (os : Os W) (mtu wrapped : ℕ) (handle_of : M → Handle W) where
  -- One message of the queue.
  abbrev pub general_message : M → GeneralThread W → Option (Result W)
  general_message m t = general_work os mtu wrapped 3 t.package_buffer (handle_of m) t.world

  pub general_after : Option (Result W) → GeneralThread W → GeneralThread W
  general_after none t = t
  general_after (some r) t = general_left r

  pub general_handle : M → GeneralThread W → GeneralThread W
  general_handle m t = general_after (general_message m t) t

  -- A message comes to an end: it is sent `k` times, and that is what the thread is left with.
  pub record Course (m : M) (t : GeneralThread W) : Type 0 where
    pub k : ℕ
    pub end : End
    pub out : Result W
    pub ran : general_message m t ≡ some out
    pub left : general_handle m t ≡ general_left out
    pub runs :
        Runs os mtu wrapped t.package_buffer k end
          (clamped t.package_buffer (handle_of m))
          t.world
          out
    pub within :
        Within os mtu wrapped t.package_buffer end k
          (clamped t.package_buffer (handle_of m)).port.retransmission

  module _ (keeping : (m : M) → IsKeeping (handle_of m))
      (allowed : (m : M) → 1 ≤ (handle_of m).port.retransmission) where
    general_message-Course : (m : M) (t : GeneralThread W) → Course m t
    unfolding general_handle general_after
    general_message-Course m t =
        let h = handle_of m in
        let (k, end, out, ran, runs, within) =
          general_work-Runs os mtu wrapped t.package_buffer h t.world (keeping m) (allowed m) in
        record {
          k = k;
          end = end;
          out = out;
          ran = ran;
          left = ap (λ r. general_after r t) ran;
          runs = runs;
          within = within;
        }

    -- With messages that allow at least one transmission and whose drivers leave that number:
    -- however the thread's turns fall between the clients' calls, every message comes to an end;
    -- as many turns as the semaphore counts then leave the queue empty, and the block and the world
    -- are what the messages have made of them, one after the other, in the order of arrival.
    pub general-drains :
        {Q : Type 0} (calls : WorkQueue Q M) (Holds : Q → List M → Type 0) (t0 : GeneralThread W)
        {s : Worker Q (GeneralThread W)} {arrived : List M}
        → IsQueue calls Holds
        → Reached calls Holds general_handle t0 s arrived
        → let s' = work_turns calls general_handle s.sem s in
          ((m : M) (t : GeneralThread W) → Course m t)
          × Holds s'.queue []
          × (s'.world ≡ handle_all general_handle arrived t0)
    general-drains calls Holds t0 laws r =
        let (empty, world) = worker-drains calls Holds general_handle t0 laws r in
        (general_message-Course, empty, world)
