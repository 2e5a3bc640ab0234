-- ===== src/Custom/Queue.antt =====
-- The queue of the custom bus: custom_bus_write and the turns of custom_stack_handle of
-- app/rs485d/src/protocol/custom/custom.c. A message is the number of its node. The handling of a
-- message, do_bus_message, and the semaphore's calls are parameters.
pub mod Fifo
pub mod Drain
use rs.Prelude.{
  ℕ, zero, suc, ◌+◌, ◌-◌, ◌≡◌, refl, sym, ap, ap₂, ◌∙◌, Bool, true, false, ◌&&◌, not, Option, none,
  some, List, [], ◌∷◌, ◌++◌, ℤ, pos, neg_eperm, neg_einval, neg_enomem, is_nonzero, arith, length,
  length-append, Bool-cases, inl, inr, ◌==◌, if◌then◌else◌,
}
use mathlib.Core.List.{append_assoc, append-nil}

-- `struct rs485_custom_stack`: its list, the newest message first, and the value of its semaphore,
-- with the world that the messages act on.
pub record Stack (W : Type 0) : Type 0 where
  pub list : List ℕ
  pub sem : ℕ
  pub world : W

-- sizeof(write_device_t), on the target of the repository.
abbrev pub message_size : ℕ
message_size = 20

-- The node at which `list_for_each` ends, the last of the list.
pub target : List ℕ → Option ℕ
target [] = none
target (n ∷ nodes) = let rest = target nodes in elim rest [ none ↦ some n | some last ↦ some last ]

-- `list_del(target)` of the last node.
pub del_target : List ℕ → List ℕ
del_target [] = []
del_target (n ∷ nodes) = let rest = del_target nodes in elim nodes [ [] ↦ [] | m ∷ more ↦ n ∷ rest ]

-- How `sem_wait` ends, whose result the thread does not test: it takes one off the semaphore (or the
-- thread waits), or it is broken off by a signal and leaves the semaphore.
pub data Wait : Type 0 where
  woken : Wait
  interrupted : Wait

-- What `sem_wait` and the turn after it come to: the thread waits, its list is empty and it goes on
-- with `list_entry` of NULL, or it has handled a message.
pub data StackTurn (W : Type 0) : Type 0 where
  waits : StackTurn W
  undefined : StackTurn W
  handled : Stack W → StackTurn W

module _ {W : Type 0} where
  -- From `list_add` on: `posted` is the result of `sem_post`, and `sem_post_fail` takes the node off.
  pub after_add : ℕ → ℤ → Stack W → ℤ × Stack W
  after_add node posted s =
      if is_nonzero posted
      then (posted, s)
      else (pos 0, record s { list = node ∷ s.list; sem = s.sem + 1 })

  -- `custom_bus_write(bus_data, buffer, len)`; `none` is a NULL stack or buffer, and the flag says
  -- whether calloc succeeds.
  pub custom_bus_write : Bool → ℤ → Option (Stack W) → Option ℕ → ℕ → ℤ × Option (Stack W)
  custom_bus_write memory posted none buffer len = (neg_einval, none)
  custom_bus_write memory posted (some s) none len = (neg_einval, some s)
  custom_bus_write memory posted (some s) (some node) len =
      let (retval, s') = after_add node posted s in
      if not (len == message_size)
      then (neg_eperm, some s)
      else if memory
      then (retval, some s')
      else (neg_enomem, some s)

  -- After `sem_wait`, which leaves the value `sem`, with the target.
  pub taken : (ℕ → W → W) → Stack W → ℕ → Option ℕ → StackTurn W
  taken handle s sem none = undefined
  taken handle s sem (some node) =
      handled (record s { list = del_target s.list; sem = sem; world = handle node s.world })

  -- One turn of the loop of `custom_stack_handle` after `sem_wait` has taken one, where `handle` is `do_bus_message` of a node.
  pub turn_at : (ℕ → W → W) → Stack W → ℕ → StackTurn W
  turn_at handle s zero = waits
  turn_at handle s (suc sem) = taken handle s sem (target s.list)

  pub custom_stack_handle : (ℕ → W → W) → Wait → Stack W → StackTurn W
  custom_stack_handle handle woken s = turn_at handle s s.sem
  custom_stack_handle handle interrupted s = taken handle s s.sem (target s.list)

-- `custom_bus_read(message, buffer, len)`, with whether the pointers are there, and
-- sizeof(read_device_t): no byte is read yet.
pub custom_bus_read : Bool → Bool → ℕ → ℕ → ℤ
custom_bus_read message buffer len size =
    if not (message && buffer) then neg_einval else if not (len == size) then neg_einval else pos 0
