-- ===== src/Worker/Drain.antt =====
-- The worker thread serves its queue in order, however its turns fall between the clients' calls.
use rs.Prelude.{
  ℕ, zero, suc, ◌+◌, ◌≤◌, ◌≡◌, refl, sym, ap, ◌∙◌, Bool, true, false, Option, none, some, List, [],
  ◌∷◌, ◌++◌, arith, length, length-append, handle_all, handle_all-append,
}
use mathlib.Core.List.{append_assoc, append-nil}
use rs.Worker.{
  WorkQueue, IsQueue, Worker, Wait, woken, interrupted, served, after_wait, woken_turn, work_turn,
  work_turns,
}

module _ {Q M W : Type 0} (calls : WorkQueue Q M) (Holds : Q → List M → Type 0) (handle : M → W → W)
    (w0 : W) where
  -- `Reached s arrived`: from an empty queue, in any order, a client has put a message at the end of
  -- the queue and posted the semaphore for each of `arrived`, and the thread has made its turns.
  pub data Reached : Worker Q W → List M → Type 0 where
    started : {q : Q} (n : ℕ) → Holds q [] → Reached (record { queue = q; sem = n; world = w0 }) []
    posted :
        {s : Worker Q W} {arrived : List M} (m : M) (q' : Q)
        → Reached s arrived
        → ((l : List M) → Holds s.queue l → Holds q' (l ++ m ∷ []))
        → Reached (record s { queue = q'; sem = s.sem + 1 }) (arrived ++ m ∷ [])
    turned :
        {s : Worker Q W} {arrived : List M} (wait : Wait)
        → Reached s arrived
        → Reached (work_turn calls handle wait s) arrived

  -- The messages that are done and those that the queue holds, with a post for each of these.
  pub record Serves (s : Worker Q W) (arrived : List M) : Type 0 where
    pub done : List M
    pub queued : List M
    pub holds : Holds s.queue queued
    pub order : done ++ queued ≡ arrived
    pub world : s.world ≡ handle_all handle done w0
    pub posts : length queued ≤ s.sem

  module _ (laws : IsQueue calls Holds) where
    -- The queue after `sem_wait` has left the value `sem`.
    after_wait-Serves :
        (s : Worker Q W) (sem : ℕ) (arrived done queued : List M)
        → Holds s.queue queued
        → done ++ queued ≡ arrived
        → s.world ≡ handle_all handle done w0
        → length queued ≤ suc sem
        → Serves
            (after_wait calls handle (record s { sem = sem }) (calls.ringbuf_empty s.queue))
            arrived
    unfolding after_wait served
    after_wait-Serves s sem arrived done [] h o w p =
        rw (laws.at_end s.queue h) (record {
          done = done;
          queued = [];
          holds = h;
          order = o;
          world = w;
          posts = omega arith;
        })
    after_wait-Serves s sem arrived done (m ∷ l) h o w p =
        let (held, front, rest) = laws.at_front s.queue m l h in
        rw (held, front)
          (record {
            done = done ++ m ∷ [];
            queued = l;
            holds = rest;
            order = append_assoc done (m ∷ []) l ∙ o;
            world = ap (handle m) w ∙ sym (handle_all-append handle done m w0);
            posts = omega (arith, p);
          })

    turn-Serves :
        (s : Worker Q W) (arrived : List M) (wait : Wait)
        → Serves s arrived
        → Serves (work_turn calls handle wait s) arrived
    unfolding work_turn woken_turn
    turn-Serves s arrived interrupted v =
        after_wait-Serves s s.sem arrived v.done v.queued v.holds v.order v.world
          (omega (arith, v.posts))
    turn-Serves s arrived woken v = woken_turn-Serves s.sem refl
      where
        woken_turn-Serves : (n : ℕ) → s.sem ≡ n → Serves (woken_turn calls handle s n) arrived
        woken_turn-Serves zero e = v
        woken_turn-Serves (suc n) e =
            after_wait-Serves s n arrived v.done v.queued v.holds v.order v.world
              (omega (arith, v.posts, e))

    pub Reached-Serves : {s : Worker Q W} {arrived : List M} → Reached s arrived → Serves s arrived
    Reached-Serves (started n h) = record {
      done = [];
      queued = [];
      holds = h;
      order = refl;
      world = refl;
      posts = omega arith;
    }
    Reached-Serves (posted m q' r put) =
        let v = Reached-Serves r in
        record {
          done = v.done;
          queued = v.queued ++ m ∷ [];
          holds = put v.queued v.holds;
          order = sym (append_assoc v.done v.queued (m ∷ [])) ∙ ap (λ l. l ++ m ∷ []) v.order;
          world = v.world;
          posts = omega (arith, v.posts, length-append v.queued (m ∷ []));
        }
    Reached-Serves (turned wait r) = turn-Serves _ _ wait (Reached-Serves r)

    after_wait-sem : (s : Worker Q W) (b : Bool) → (after_wait calls handle s b).sem ≡ s.sem
    unfolding after_wait served
    after_wait-sem s true = refl
    after_wait-sem s false = served-sem (calls.ringbuf_peek s.queue)
      where
        served-sem : (p : Option M) → (served calls handle s p).sem ≡ s.sem
        served-sem none = refl
        served-sem (some m) = refl

    work_turn-sem :
        (s : Worker Q W) (n : ℕ) → s.sem ≡ suc n → (work_turn calls handle woken s).sem ≡ n
    unfolding work_turn woken_turn
    work_turn-sem s n e =
        ap (λ k. (woken_turn calls handle s k).sem) e
        ∙ after_wait-sem (record s { sem = n }) (calls.ringbuf_empty s.queue)

    no_more :
        (s : Worker Q W) (arrived done queued : List M)
        → Holds s.queue queued
        → done ++ queued ≡ arrived
        → s.world ≡ handle_all handle done w0
        → length queued ≡ 0
        → Holds s.queue [] × (s.world ≡ handle_all handle arrived w0)
    no_more s arrived done [] h o w e =
        (h, w ∙ ap (λ l. handle_all handle l w0) (sym (append-nil done) ∙ o))
    no_more s arrived done (m ∷ l) h o w e = absurd (omega (arith, e))

    drained :
        (n : ℕ) (s : Worker Q W) (arrived : List M)
        → s.sem ≡ n
        → Serves s arrived
        → let s' = work_turns calls handle n s in
          Holds s'.queue [] × (s'.world ≡ handle_all handle arrived w0)
    unfolding work_turns
    drained zero s arrived e v =
        no_more s arrived v.done v.queued v.holds v.order v.world (omega (arith, e, v.posts))
    drained (suc n) s arrived e v =
        drained n (work_turn calls handle woken s) arrived (work_turn-sem s n e)
          (turn-Serves s arrived woken v)

    -- However the thread's turns fall between the clients' calls, and whatever breaks off its waits:
    -- as many turns as the semaphore then counts leave the queue empty, and every message that has
    -- arrived is handled once, in the order of arrival.
    pub worker-drains :
        {s : Worker Q W} {arrived : List M}
        → Reached s arrived
        → let s' = work_turns calls handle s.sem s in
          Holds s'.queue [] × (s'.world ≡ handle_all handle arrived w0)
    worker-drains r = drained _ _ _ refl (Reached-Serves r)
