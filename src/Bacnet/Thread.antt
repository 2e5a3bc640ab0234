-- ===== src/Bacnet/Thread.antt =====
-- bacnet_work_thread_function over its queue of messages.
use rs.Prelude.{◌≡◌, refl, sym, ◌∙◌, subst, Option, List, [], ◌∷◌, ℤ, handle_all, map}
use rs.Device.York.{BacnetPort}
use rs.Bacnet.{BacnetStack, BacnetClient, bacnet_message, bacnet_work}
use rs.Bacnet.Work.{Stays, bacnet_work-Stays}
use rs.Worker.{WorkQueue, IsQueue, Worker, work_turns}
use rs.Worker.Drain.{Reached, Reached-Serves, worker-drains}

-- A message of the queue: its `send_handle`, and the port.
abbrev pub Queued : Type 0
Queued = Option (Option BacnetPort → ℤ × Option BacnetPort) × BacnetPort

module _ {M W : Type 0} (lib : BacnetStack W) (queued : M → Queued) where
  abbrev pub bacnet_handle : M → BacnetClient W → BacnetClient W
  bacnet_handle m s = bacnet_message lib (queued m).0 (queued m).1 s

  bacnet_work-all :
      (messages : List M) (s : BacnetClient W)
      → handle_all bacnet_handle messages s ≡ bacnet_work lib (map queued messages) s
  unfolding bacnet_work
  bacnet_work-all [] s = refl
  bacnet_work-all (m ∷ messages) s = bacnet_work-all messages (bacnet_handle m s)

  all-Stays :
      (messages : List M) (s s' : BacnetClient W)
      → s' ≡ handle_all bacnet_handle messages s
      → Stays s s'
  all-Stays messages s s' e =
      subst (λ t. Stays s t) (sym (e ∙ bacnet_work-all messages s))
        (bacnet_work-Stays lib (map queued messages) s)

  -- However the thread's turns fall between the clients' calls, and whatever the BACnet stack
  -- answers: in every state between, an idle id is idle again, an error that was noted before is
  -- noted, and the objects of a read made before are those that are asked for; and as many turns as
  -- the semaphore counts then leave the queue empty, with every message that has arrived worked off
  -- once, in the order of arrival.
  pub bacnet-drains :
      {Q : Type 0} (calls : WorkQueue Q M) (Holds : Q → List M → Type 0) (s0 : BacnetClient W)
      {s : Worker Q (BacnetClient W)} {arrived : List M}
      → IsQueue calls Holds
      → Reached calls Holds bacnet_handle s0 s arrived
      → let s' = work_turns calls bacnet_handle s.sem s in
        Stays s0 s.world × Holds s'.queue [] × (s'.world ≡ bacnet_work lib (map queued arrived) s0)
  bacnet-drains calls Holds s0 laws r =
      let now = Reached-Serves calls Holds bacnet_handle s0 laws r in
      let (empty, world) = worker-drains calls Holds bacnet_handle s0 laws r in
      (all-Stays now.done s0 _ now.world, empty, world ∙ bacnet_work-all _ s0)
