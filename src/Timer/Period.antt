-- ===== src/Timer/Period.antt =====
-- One task over several turns of the thread.
use rs.Prelude.{
  ℕ, zero, suc, ◌+◌, ◌*◌, ◌^◌, ◌≤◌, ◌<◌, ◌≡◌, sym, ap, ◌∙◌, true, some, List, [], ◌∷◌, ◌++◌, arith,
  replicate,
}
use mathlib.Core.List.{append_assoc}
use rs.Timer.{TimerTask, Call, call_of, visit}

-- The task after a number of turns, and its calls in their order.
pub visits : ℕ → ℕ → TimerTask → TimerTask × List Call
visits percision zero t = (t, [])
visits percision (suc n) t =
    let (t', called) = visit percision t in
    let (t'', later) = visits percision n t' in (t'', called ++ later)

mul_mono : (a b c : ℕ) → a ≤ b → a * c ≤ b * c
mul_mono zero b c h = omega arith
mul_mono (suc a) zero c h = absurd (omega arith)
mul_mono (suc a) (suc b) c h = omega (arith, mul_mono a b c (omega arith))

module _ (q : ℕ) where
  visit-idle :
      (t : TimerTask)
      → t.enable ≡ true
      → t.tick + q < t.period
      → t.period ≤ 2 ^ 32
      → visit q t ≡ (record t { tick = t.tick + q }, [])
  unfolding visit
  visit-idle t on early fits = ground arith

  visit-due :
      (t : TimerTask)
      → t.enable ≡ true
      → t.period ≤ t.tick + q
      → t.tick + q < 2 ^ 32
      → visit q t ≡ (record t { tick = 0 }, call_of t.function t.argument)
  unfolding visit
  visit-due t on late fits = ground arith

  -- A visit and then the later ones.
  after : ℕ → TimerTask × List Call → TimerTask × List Call
  after n (t, called) = let (t', later) = visits q n t in (t', called ++ later)

  visits-idle :
      (n : ℕ) (t : TimerTask)
      → t.enable ≡ true
      → t.tick + n * q < t.period
      → t.period ≤ 2 ^ 32
      → visits q n t ≡ (record t { tick = t.tick + n * q }, [])
  unfolding visits after
  visits-idle zero t on early fits = ap (λ k. (record t { tick = k }, [])) (omega arith)
  visits-idle (suc n) t on early fits =
      ap (after n) (visit-idle t on (omega arith) fits)
      ∙ visits-idle n (record t { tick = t.tick + q }) on (omega arith) fits
      ∙ ap (λ k. (record t { tick = k }, [])) (omega arith)

  turns : (m n : ℕ) (t : TimerTask) → m ≡ n → visits q m t ≡ visits q n t
  turns m n t e = ap (λ k. visits q k t) e

  visits-append :
      (m n : ℕ) (t : TimerTask)
      → visits q (m + n) t
        ≡ ((visits q n (visits q m t).0).0, (visits q m t).1 ++ (visits q n (visits q m t).0).1)
  unfolding visits after
  visits-append zero n t = turns (0 + n) n t (omega arith)
  visits-append (suc m) n t =
      let (t', called) = visit q t in
      let (t'', more) = visits q m t' in
      let (last, rest) = visits q n t'' in
      turns (suc m + n) (suc (m + n)) t (omega arith)
      ∙ ap (λ r. (r.0, called ++ r.1)) (visits-append m n t')
      ∙ ap (λ l. (last, l)) (sym (append_assoc called more rest))

  module _ (t : TimerTask) (f n : ℕ) where
    abbrev called_back : List Call
    called_back = (f, t.argument) ∷ []

    -- The task starts at 0 and is due after `n` turns and one more.
    abbrev pub Due : Type 0
    Due =
        (t.enable ≡ true)
        × (t.function ≡ some f)
        × (t.tick ≡ 0)
        × (n * q < t.period)
        × (t.period ≤ (n + 1) * q)
        × (t.period + q ≤ 2 ^ 32)

    ticked :
        (a b : ℕ)
        → a ≡ b
        → ◌≡◌ {A = TimerTask × List Call} (record t { tick = a }, []) (record t { tick = b }, [])
    ticked a b e = ap (λ k. (record t { tick = k }, [])) e

    visits-period : Due → visits q (n + 1) t ≡ (t, called_back)
    unfolding visits after
    visits-period (on, calls, start, before, due, fits) =
        let here : TimerTask = record t { tick = t.tick + n * q } in
        visits-append n 1 t
        ∙ ap (after 1) (visits-idle n t on (omega arith) (omega arith))
        ∙ ap (after 0) (visit-due here on (omega arith) (omega arith))
        ∙ ap (λ o. (record t { tick = 0 }, call_of o t.argument ++ [])) calls
        ∙ ap (λ k. (record t { tick = k }, called_back)) (sym start)

    -- A task that is enabled and starts at 0 is called exactly once in every `n + 1` turns, where
    -- `n + 1` turns are the first to reach its period, when its period and a turn fit in 32 bits:
    -- after `m` times `n + 1` turns and `r ≤ n` more it has been called `m` times, and the time since
    -- the last call is that of `r` turns.
    pub visits-Due :
        (m r : ℕ)
        → Due
        → r ≤ n
        → visits q (m * (n + 1) + r) t ≡ (record t { tick = r * q }, replicate m (f, t.argument))
    unfolding after
    visits-Due zero r (on, calls, start, before, due, fits) short =
        turns (0 * (n + 1) + r) r t (omega arith)
        ∙ visits-idle r t on (omega (arith, mul_mono r n q short)) (omega arith)
        ∙ ticked (t.tick + r * q) (r * q) (omega arith)
    visits-Due (suc m) r d short =
        turns (suc m * (n + 1) + r) ((n + 1) + (m * (n + 1) + r)) t (omega arith)
        ∙ visits-append (n + 1) (m * (n + 1) + r) t
        ∙ ap (after (m * (n + 1) + r)) (visits-period d)
        ∙ ap (λ p. (p.0, called_back ++ p.1)) (visits-Due m r d short)
