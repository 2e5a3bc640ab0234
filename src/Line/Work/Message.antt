-- ===== src/Line/Work/Message.antt =====
-- One message of the queue, from the clamp of its retransmissions on.
use rs.Prelude.{ℕ, ◌≤◌, ◌≡◌, some, List, arith, ltb, if◌then◌else◌}
use rs.Line.Frame.{Os, Handle, Result}
use rs.Line.Frame.Laws.{IsKeeping}
use rs.Line.Work.{general_work}
use rs.Line.Work.Retry.{End, Runs, Within, loop-Runs}

-- The handle with at most three retransmissions, on the thread's block.
abbrev pub clamped : {W : Type 0} → List ℕ → Handle W → Handle W
clamped block h = record h {
  port = record h.port {
    retransmission = if ltb 3 h.port.retransmission then 3 else h.port.retransmission;
    package_buffer = some block;
  };
}

-- The worker gets done with a message that allows at least one transmission and whose drivers leave
-- the number of retransmissions: after at most three transmissions, and no more than the message
-- allows, it was sent and answered, or could not be sent; or it is given up after exactly the
-- allowed number, all of which failed. Fuel 3 is enough.
pub general_work-Runs :
    {W : Type 0} (os : Os W) (mtu wrapped : ℕ) (block : List ℕ) (h : Handle W) (w : W)
    → IsKeeping h
    → 1 ≤ h.port.retransmission
    → (k : ℕ) × (end : End) × (out : Result W) × (general_work os mtu wrapped 3 block h w
        ≡ some out)
      × Runs os mtu wrapped block k end (clamped block h) w out
      × Within os mtu wrapped block end k (clamped block h).port.retransmission
unfolding general_work
general_work-Runs os mtu wrapped block h w k low =
    loop-Runs os mtu wrapped block 3 (clamped block h) w
      (record { sends = k.sends; receives = k.receives }) (ground arith) (ground arith)
