-- ===== src/Custom/Queue/Drain.antt =====
-- The thread of the custom bus empties its queue.
use rs.Prelude.{
  handle_all, ℕ, zero, suc, ◌≡◌, true, refl, sym, ap, ◌∙◌, some, List, [], ◌∷◌, ◌++◌, arith, length,
  replicate,
}
use mathlib.Core.List.{append-nil}
use rs.Custom.Queue.{
  target, woken, StackTurn, waits, undefined, handled, taken, turn_at, custom_stack_handle,
}
use rs.Custom.Queue.Fifo.{
  Call, turn, oldest_first, takes_oldest, Run, turned, step, run, IsFifo, step-IsFifo, run-IsFifo,
}

module _ {W : Type 0} (handle : ℕ → W → W) (w0 : W) where
  turned-sem :
      (r : Run W) (l : List ℕ) (n : ℕ)
      → r.stack.list ≡ l
      → length l ≡ suc n
      → (turned r (turn_at handle r.stack (suc n))).stack.sem ≡ n
  unfolding turned turn_at taken
  turned-sem r [] n e len = absurd (omega (arith, len))
  turned-sem r (x ∷ l) n e len =
      let found : target r.stack.list ≡ some (takes_oldest x l).node =
        ap target e ∙ (takes_oldest x l).found in
      rw found refl

  step-sem :
      (r : Run W) (n : ℕ)
      → length r.stack.list ≡ suc n
      → IsFifo handle w0 r
      → (step handle r turn).stack.sem ≡ n
  unfolding step custom_stack_handle
  step-sem r n len f =
      ap (λ k. (turned r (turn_at handle r.stack k)).stack.sem) (f.counts ∙ len)
      ∙ turned-sem r r.stack.list n refl len

  turned-accepted : (r : Run W) (t : StackTurn W) → (turned r t).accepted ≡ r.accepted
  unfolding turned
  turned-accepted r waits = refl
  turned-accepted r undefined = refl
  turned-accepted r (handled s) = refl

  step-accepted : (r : Run W) → (step handle r turn).accepted ≡ r.accepted
  unfolding step
  step-accepted r = turned-accepted r (custom_stack_handle handle woken r.stack)

  no_node : (l : List ℕ) → length l ≡ 0 → l ≡ []
  no_node [] e = refl
  no_node (x ∷ l) e = absurd (omega (arith, e))

  -- As many turns as there are messages on the list.
  drain :
      (n : ℕ) (r : Run W)
      → length r.stack.list ≡ n
      → IsFifo handle w0 r
      → let r' = run handle r (replicate n turn) in
        (r'.stack.list ≡ [])
        × (r'.stack.world ≡ handle_all handle r.accepted w0)
        × (r'.defined ≡ true)
  unfolding run oldest_first
  drain zero r len f =
      let empty = no_node r.stack.list len in
      (
        empty,
        f.world
            ∙ ap (λ l. handle_all handle l w0)
                (sym (f.order ∙ ap (λ l. f.done ++ oldest_first l) empty ∙ append-nil f.done)),
        f.defined,
      )
  drain (suc n) r len f =
      let f' = step-IsFifo handle w0 r turn f in
      let (empty, world, defined) =
        drain n (step handle r turn) (sym f'.counts ∙ step-sem r n len f) f' in
      (empty, world ∙ ap (λ l. handle_all handle l w0) (step-accepted r), defined)

  -- After any calls, as many turns of the thread as there are messages on the list leave it empty,
  -- and the world is the one that has handled every accepted message once, in the order in which
  -- they were accepted.
  pub run-drains :
      (r : Run W) (calls : List Call)
      → IsFifo handle w0 r
      → let r' = run handle r calls in
        let r'' = run handle r' (replicate (length r'.stack.list) turn) in
        (r''.stack.list ≡ [])
        × (r''.stack.world ≡ handle_all handle r'.accepted w0)
        × (r''.defined ≡ true)
  run-drains r calls f =
      drain (length (run handle r calls).stack.list) (run handle r calls) refl
        (run-IsFifo handle w0 r calls f)
