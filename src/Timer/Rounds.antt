-- ===== src/Timer/Rounds.antt =====
-- The thread's turns over all the tasks: a registered task is called.
use rs.Prelude.{
  ℕ, zero, suc, ◌+◌, ◌*◌, ◌^◌, ◌≤◌, ◌<◌, ◌≡◌, ◌≢◌, ◌⊎◌, inl, inr, refl, sym, ap, subst, Bool-cases,
  true, some, List, [], ◌∷◌, ◌++◌, pos, u32, ltb, arith,
}
use mathlib.Core.List.{Memᴰ}
use mathlib.Core.List.Memᴰ
use rs.Timer.{TimerTask, Call, visit, round, Timer, timer_task_register, add_task}

-- The tasks after a number of turns, and the calls that were made.
pub rounds : ℕ → ℕ → List TimerTask → List TimerTask × List Call
rounds percision zero ts = (ts, [])
rounds percision (suc n) ts =
    let (ts', called) = round percision ts in
    let (ts'', later) = rounds percision n ts' in (ts'', called ++ later)

module _ (q : ℕ) where
  -- A turn visits every task of the list.
  round-visit :
      (ts : List TimerTask) (t : TimerTask)
      → Memᴰ t ts
      → Memᴰ (visit q t).0 (round q ts).0
        × ((c : Call) → Memᴰ c (visit q t).1 → Memᴰ c (round q ts).1)
  unfolding round
  round-visit [] t m = elim m [ ]
  round-visit (x ∷ ts) t (Memᴰ.head e) = (
    Memᴰ.head (ap (λ s. (visit q s).0) e),
    λ c m. Memᴰ.append_left (round q ts).1 (subst (λ s. Memᴰ c (visit q s).1) e m),
  )
  round-visit (x ∷ ts) t (Memᴰ.tail m) =
      let (stays, calls) = round-visit ts t m in
      (Memᴰ.tail stays, λ c m'. Memᴰ.append_right (visit q x).1 (calls c m'))

  -- An enabled task is called in this turn, or it has come nearer to its period.
  visit-cases :
      (t : TimerTask) (f : ℕ)
      → t.enable ≡ true
      → t.function ≡ some f
      → t.tick + q < 2 ^ 32
      → ((visit q t).1 ≡ (f, t.argument) ∷ [])
        ⊎ ((t.tick + q < t.period) × ((visit q t).0 ≡ record t { tick = t.tick + q }))
  unfolding visit
  visit-cases t f on calls fits = elim (Bool-cases (ltb (u32 (t.tick + q)) t.period)) [
    | inl early ↦ inr (ground arith)
    | inr due ↦ inl (ground arith)
  ]

  -- The first of the turns, and the others for a task that it has not called.
  rounds_step :
      (n : ℕ) (ts : List TimerTask) (t : TimerTask) (f : ℕ)
      → Memᴰ t ts
      → t.enable ≡ true
      → t.function ≡ some f
      → t.tick + q < 2 ^ 32
      → (t.tick + q < t.period
          → Memᴰ (record t { tick = t.tick + q }) (round q ts).0
          → Memᴰ (f, t.argument) (rounds q n (round q ts).0).1)
      → Memᴰ (f, t.argument) (rounds q (suc n) ts).1
  unfolding rounds
  rounds_step n ts t f here on calls fits later =
      let (stays, called) = round-visit ts t here in
      elim (visit-cases t f on calls fits) [
        | inl now ↦
            Memᴰ.append_left (rounds q n (round q ts).0).1
              (called (f, t.argument) (subst (Memᴰ (f, t.argument)) (sym now) (Memᴰ.head refl)))
        | inr (early, moved) ↦
            Memᴰ.append_right (round q ts).1
              (later early (subst (λ s. Memᴰ s (round q ts).0) moved stays))
      ]

  -- An enabled task of the list is called in the turns that reach its period.
  rounds-calls :
      (n : ℕ) (ts : List TimerTask) (t : TimerTask) (f : ℕ)
      → Memᴰ t ts
      → t.enable ≡ true
      → t.function ≡ some f
      → t.tick + q < 2 ^ 32
      → t.period + q ≤ 2 ^ 32
      → t.period ≤ t.tick + (n + 1) * q
      → Memᴰ (f, t.argument) (rounds q (suc n) ts).1
  rounds-calls zero ts t f here on calls fits bound due =
      rounds_step 0 ts t f here on calls fits (λ early stays. absurd (omega arith))
  rounds-calls (suc n) ts t f here on calls fits bound due =
      rounds_step (suc n) ts t f here on calls fits (λ early stays.
        rounds-calls n (round q ts).0 (record t { tick = t.tick + q }) f stays on calls
          (omega arith) bound (omega arith))

  -- A registration with a function and a period other than 0, for which there is memory, succeeds
  -- with the task's id, and, if the task is enabled, some of the next `n` turns calls the function
  -- with its argument, when `n ≥ 1` turns reach the period from the start value `prev`, and the
  -- start value and the period leave room for a turn in 32 bits.
  pub timer_task_register-calls :
      (address prev period f arg : ℕ) (timer : Timer) (n : ℕ)
      → period ≢ 0
      → prev + q < 2 ^ 32
      → period + q ≤ 2 ^ 32
      → 1 ≤ n
      → period ≤ prev + n * q
      → (timer' : Timer) × (timer_task_register (some address) prev period (some f) arg true timer
          ≡ (pos 0, some address, timer'))
        × Memᴰ (f, arg) (rounds q n timer'.tasks).1
  unfolding timer_task_register add_task
  timer_task_register-calls address prev period f arg timer zero some_period fits bound some_turn
        due =
      absurd (omega arith)
  timer_task_register-calls address prev period f arg timer (suc n) some_period fits bound some_turn
        due =
      let new : TimerTask = record {
        address = address;
        period = period;
        tick = prev;
        enable = true;
        function = some f;
        argument = arg;
      } in
      let tasks = timer.tasks ++ new ∷ [] in
      (
        record timer { tasks = tasks },
        ground arith,
        rounds-calls n tasks new f (Memᴰ.append_right timer.tasks (Memᴰ.head refl)) refl refl fits
            bound (omega arith),
      )
