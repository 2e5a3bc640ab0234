-- ===== src/Timer/Tests.antt =====
-- The timer at concrete tasks.
use rs.Prelude.{◌+◌, ◌*◌, ◌≡◌, refl, true, false, some, [], ◌∷◌, pos, arith, replicate}
use mathlib.Core.List.{Memᴰ}
use rs.Timer.{TimerTask, Timer, timer_task_register}
use rs.Timer.Period.{visits, visits-Due}
use rs.Timer.Rounds.{rounds, timer_task_register-calls}

-- Every quarter of a second, on a clock of 100 milliseconds.
abbrev quarter : TimerTask
quarter = record {
  address = 5;
  period = 250;
  tick = 0;
  enable = true;
  function = some 7;
  argument = 9;
}

visits-Due_example :
    visits 100 (4 * 3 + 2) quarter ≡ (record quarter { tick = 200 }, replicate 4 (7, 9))
visits-Due_example =
    visits-Due 100 quarter 7 2 4 2 (refl, refl, refl, omega arith, omega arith, omega arith)
      (omega arith)

-- A timer with one task that is switched off.
abbrev idle : Timer
idle = record { tasks = record quarter { enable = false } ∷ []; running = true }

timer_task_register-calls_example :
    (timer' : Timer) × (timer_task_register (some 6) 50 250 (some 8) 1 true idle
      ≡ (pos 0, some 6, timer'))
    × Memᴰ (8, 1) (rounds 100 2 timer'.tasks).1
timer_task_register-calls_example =
    timer_task_register-calls 100 6 50 250 8 1 idle 2 (omega arith) (omega arith) (omega arith)
      (omega arith) (omega arith)
