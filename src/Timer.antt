-- ===== src/Timer.antt =====
-- The timer, sdk/module/timer/timer.c: tasks that a thread calls at their periods. The list of
-- sdk/include/klist.h is a list here, and a task is known by its address.
pub mod Period
pub mod Rounds
mod Tests
use rs.Prelude.{
  ℕ, zero, suc, ◌+◌, ◌*◌, ◌%◌, ◌^◌, ◌≡◌, Bool, true, false, ◌&&◌, ◌||◌, not, Option, none, some,
  List, [], ◌∷◌, ◌++◌, ℤ, pos, is_nonzero, neg_eperm, neg_einval, neg_enomem, u32, ltb, ◌==◌,
  if◌then◌else◌,
}

-- `struct timer_task`, with its address; the function is `none` for NULL.
pub record TimerTask : Type 0 where
  pub address : ℕ
  pub period : ℕ
  pub tick : ℕ
  pub enable : Bool
  pub function : Option ℕ
  pub argument : ℕ

-- The options of the build that choose TIMER_PERCISION, in milliseconds; 1000 without one.
pub data Percision : Type 0 where
  percision_10ms percision_50ms percision_100ms percision_500ms percision_1s percision_10s :
      Percision
  percision_default : Percision

pub timer_percision : Percision → ℕ
timer_percision percision_10ms = 10
timer_percision percision_50ms = 50
timer_percision percision_100ms = 100
timer_percision percision_500ms = 500
timer_percision percision_1s = 1000
timer_percision percision_10s = 10000
timer_percision percision_default = 1000

-- A call of a function with its argument.
abbrev pub Call : Type 0
Call = ℕ × ℕ

abbrev pub call_of : Option ℕ → ℕ → List Call
call_of none arg = []
call_of (some f) arg = (f, arg) ∷ []

-- The body of the thread's loop over the tasks, for one of them: the task after it, and the call.
pub visit : ℕ → TimerTask → TimerTask × List Call
visit percision t =
    if not t.enable
    then (t, [])
    else let tick = u32 (t.tick + percision) in
      if ltb tick t.period
      then (record t { tick = tick }, [])
      else (record t { tick = 0 }, call_of t.function t.argument)

-- One turn of the thread after its tick; an empty list has nothing to visit.
pub round : ℕ → List TimerTask → List TimerTask × List Call
round percision [] = ([], [])
round percision (t ∷ ts) =
    let (t', called) = visit percision t in
    let (ts', rest) = round percision ts in (t' ∷ ts', called ++ rest)

-- The state of the module: its list and timer_task_start_status.
pub record Timer : Type 0 where
  pub tasks : List TimerTask
  pub running : Bool

-- `timer_start()`; `created` is what pthread_create returns.
pub timer_start : ℤ → Timer → ℤ × Timer
timer_start created timer =
    if timer.running
    then (neg_eperm, timer)
    else if is_nonzero created
    then (created, timer)
    else (pos 0, record timer { running = true })

-- `timer_stop()`; `cancelled` is what pthread_cancel returns. The tasks are freed.
pub timer_stop : ℤ → Timer → ℤ × Timer
timer_stop cancelled timer =
    if not timer.running
    then (pos 0, timer)
    else if is_nonzero cancelled
    then (cancelled, timer)
    else (pos 0, record { tasks = []; running = false })

-- `timer_restart()`
pub timer_restart : ℤ → ℤ → Timer → ℤ × Timer
timer_restart cancelled created timer =
    let (error, stopped) = timer_stop cancelled timer in
    if is_nonzero error then (error, stopped) else timer_start created stopped

-- The new task at the end of the list, and its id; `none` is malloc's NULL.
pub add_task : Option ℕ → TimerTask → Timer → ℤ × Option ℕ × Timer
add_task none new timer = (neg_enomem, none, timer)
add_task (some address) new timer = (
  pos 0,
  some address,
  record timer { tasks = timer.tasks ++ record new { address = address } ∷ [] },
)

-- `timer_task_register(id, prev, period, function, arg, enable)`: the result, what is stored at
-- `id` if anything is, and the timer; `address` is what malloc returns.
pub timer_task_register : Option ℕ → ℕ → ℕ → Option ℕ → ℕ → Bool → Timer → ℤ × Option ℕ × Timer
timer_task_register address prev period none arg enable timer = (neg_einval, none, timer)
timer_task_register address prev period (some f) arg enable timer =
    let new : TimerTask = record {
      address = 0;
      period = period;
      tick = prev;
      enable = enable;
      function = some f;
      argument = arg;
    } in
    if period == 0 then (neg_einval, none, timer) else add_task address new timer

-- The list without the task at an address: list_del of it.
pub remove : ℕ → List TimerTask → List TimerTask
remove address [] = []
remove address (t ∷ ts) =
    let rest = remove address ts in if t.address == address then ts else t ∷ rest

-- `timer_task_unregister(id)`; `none` is NULL.
pub timer_task_unregister : Option ℕ → Timer → ℤ × Timer
timer_task_unregister none timer = (neg_einval, timer)
timer_task_unregister (some id) timer = (pos 0, record timer { tasks = remove id timer.tasks })
