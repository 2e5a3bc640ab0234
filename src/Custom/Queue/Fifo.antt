-- ===== src/Custom/Queue/Fifo.antt =====
-- The queue of the custom bus is first in, first out.
use rs.Prelude.{
  ℕ, suc, ◌+◌, ◌≡◌, refl, sym, ap, ◌∙◌, subst, Bool, true, false, Option, none, some, List, [], ◌∷◌,
  ◌++◌, ℤ, pos, neg_eperm, neg_enomem, is_nonzero, arith, length, handle_all, handle_all-append,
  Bool-cases, ◌⊎◌, inl, inr, ◌==◌, if◌then◌else◌,
}
use mathlib.Core.List.{append_assoc}
use rs.Custom.Queue.{
  Stack, message_size, target, del_target, after_add, custom_bus_write, woken, StackTurn, waits,
  undefined, handled, taken, turn_at, custom_stack_handle,
}

-- A call: a client writes a node, with what calloc and `sem_post` give and the length it says, or
-- the thread makes a turn, with a `sem_wait` that is not broken off.
pub data Call : Type 0 where
  write : Bool → ℤ → ℕ → ℕ → Call
  turn : Call

-- The list, the oldest message first.
unfoldable pub oldest_first : List ℕ → List ℕ
oldest_first [] = []
oldest_first (n ∷ nodes) = oldest_first nodes ++ n ∷ []

pub record TakesOldest (l : List ℕ) : Type 0 where
  pub node : ℕ
  pub rest : List ℕ
  pub found : target l ≡ some node
  pub left : del_target l ≡ rest
  pub order : oldest_first l ≡ node ∷ oldest_first rest
  pub count : length l ≡ suc (length rest)

pub takes_oldest : (n : ℕ) (nodes : List ℕ) → TakesOldest (n ∷ nodes)
unfolding target del_target oldest_first
takes_oldest n [] = record {
  node = n;
  rest = [];
  found = refl;
  left = refl;
  order = refl;
  count = refl;
}
takes_oldest n (m ∷ nodes) =
    let t = takes_oldest m nodes in
    record {
      node = t.node;
      rest = n ∷ t.rest;
      found = ap (λ o. elim o [ none ↦ some n | some last ↦ some last ]) t.found;
      left = ap (λ l. n ∷ l) t.left;
      order = ap (λ l. l ++ n ∷ []) t.order;
      count = ap suc t.count;
    }

-- The stack, with the nodes for which `custom_bus_write` has returned 0, in their order, and whether
-- no turn so far has taken a node of an empty list.
pub record Run (W : Type 0) : Type 0 where
  pub stack : Stack W
  pub accepted : List ℕ
  pub defined : Bool

module _ {W : Type 0} where
  -- What a write leaves.
  unfoldable pub written : ℕ → Run W → ℤ × Option (Stack W) → Run W
  written node r (retval, none) = r
  written node r (retval, some s) = record {
    stack = s;
    accepted = if is_nonzero retval then r.accepted else r.accepted ++ node ∷ [];
    defined = r.defined;
  }

  -- What a turn leaves.
  unfoldable pub turned : Run W → StackTurn W → Run W
  turned r waits = r
  turned r undefined = record r { defined = false }
  turned r (handled s) = record r { stack = s }

  module _ (handle : ℕ → W → W) where
    unfoldable pub step : Run W → Call → Run W
    step r (write memory posted node len) =
        written node r (custom_bus_write memory posted (some r.stack) (some node) len)
    step r turn = turned r (custom_stack_handle handle woken r.stack)

    unfoldable pub run : Run W → List Call → Run W
    run r [] = r
    run r (c ∷ calls) = run (step r c) calls

    -- The messages `done` have been handled, in their order; the others that were accepted are on
    -- the list, the newest first; the semaphore counts the list; and no turn has met an empty list.
    pub record IsFifo (w0 : W) (r : Run W) : Type 0 where
      pub done : List ℕ
      pub order : r.accepted ≡ done ++ oldest_first r.stack.list
      pub world : r.stack.world ≡ handle_all handle done w0
      pub counts : r.stack.sem ≡ length r.stack.list
      pub defined : r.defined ≡ true

    module _ (w0 : W) where
      added-IsFifo :
          (r : Run W) (node : ℕ) (posted : ℤ)
          → IsFifo w0 r
          → IsFifo w0 (
              written node r (
                pos 0,
                some (record r.stack { list = node ∷ r.stack.list; sem = r.stack.sem + 1 }),
              ))
      unfolding written oldest_first
      added-IsFifo r node posted f = record {
        done = f.done;
        order =
            ap (λ l. l ++ node ∷ []) f.order
            ∙ append_assoc f.done (oldest_first r.stack.list) (node ∷ []);
        world = f.world;
        counts = omega (arith, f.counts);
        defined = f.defined;
      }

      refused-IsFifo :
          (r : Run W) (node : ℕ) (retval : ℤ)
          → is_nonzero retval ≡ true
          → IsFifo w0 r
          → IsFifo w0 (written node r (retval, some r.stack))
      unfolding written
      refused-IsFifo r node retval e f = rw e f

      write-IsFifo :
          (r : Run W) (memory : Bool) (posted : ℤ) (node len : ℕ)
          → IsFifo w0 r
          → IsFifo w0
              (written node r (custom_bus_write memory posted (some r.stack) (some node) len))
      unfolding custom_bus_write after_add
      write-IsFifo r memory posted node len f = elim (Bool-cases (len == message_size)) [
        | inr other ↦ rw other (refused-IsFifo r node neg_eperm refl f)
        | inl same ↦ rw same (allocated memory (Bool-cases (is_nonzero posted)))
      ]
        where
          allocated :
              (memory : Bool)
              → (is_nonzero posted ≡ true) ⊎ (is_nonzero posted ≡ false)
              → IsFifo w0 (
                  written node r (
                    if memory
                    then ((after_add node posted r.stack).0, some (after_add node posted r.stack).1)
                    else (neg_enomem, some r.stack)))
          allocated false o = refused-IsFifo r node neg_enomem refl f
          allocated true (inl fails) = rw fails (refused-IsFifo r node posted fails f)
          allocated true (inr posts) = rw posts (added-IsFifo r node posted f)

      -- A turn on a list that is not empty handles the oldest message.
      turn-IsFifo :
          (r : Run W) (l : List ℕ)
          → r.stack.list ≡ l
          → IsFifo w0 r
          → IsFifo w0 (turned r (turn_at handle r.stack (length l)))
      unfolding turned turn_at taken
      turn-IsFifo r [] e f = f
      turn-IsFifo r (n ∷ nodes) e f =
          let t = takes_oldest n nodes in
          let found : target r.stack.list ≡ some t.node = ap target e ∙ t.found in
          let left : del_target r.stack.list ≡ t.rest = ap del_target e ∙ t.left in
          rw found (record {
            done = f.done ++ t.node ∷ [];
            order =
                f.order
                ∙ ap (λ l. f.done ++ oldest_first l) e
                ∙ ap (λ l. f.done ++ l) t.order
                ∙ sym (append_assoc f.done (t.node ∷ []) (oldest_first t.rest))
                ∙ ap (λ l. (f.done ++ t.node ∷ []) ++ oldest_first l) (sym left);
            world = ap (handle t.node) f.world ∙ sym (handle_all-append handle f.done t.node w0);
            counts = omega (arith, t.count, ap length left);
            defined = f.defined;
          })

      pub step-IsFifo : (r : Run W) (c : Call) → IsFifo w0 r → IsFifo w0 (step r c)
      unfolding step custom_stack_handle
      step-IsFifo r (write memory posted node len) f = write-IsFifo r memory posted node len f
      step-IsFifo r turn f =
          subst (λ n. IsFifo w0 (turned r (turn_at handle r.stack n))) (sym f.counts)
            (turn-IsFifo r r.stack.list refl f)

      -- Over any calls: the messages that were accepted are, in their order, those that have been
      -- handled and then those on the list, each once, and the semaphore counts the list.
      pub run-IsFifo : (r : Run W) (calls : List Call) → IsFifo w0 r → IsFifo w0 (run r calls)
      unfolding run
      run-IsFifo r [] f = f
      run-IsFifo r (c ∷ calls) f = run-IsFifo (step r c) calls (step-IsFifo r c f)
