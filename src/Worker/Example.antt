-- ===== src/Worker/Example.antt =====
-- A queue of bytes that is a list, the oldest first, and two messages for it.
use rs.Prelude.{◌≡◌, refl, ap, Bool, true, false, Option, none, some, ℕ, List, [], ◌∷◌, ◌++◌}
use rs.Worker.{WorkQueue, IsQueue, Worker, interrupted, work_turn}
use rs.Worker.Drain.{Reached, started, posted, turned}

-- A message is its bytes.
abbrev pub Bytes : Type 0
Bytes = List ℕ

abbrev pub list_empty : List Bytes → Bool
list_empty [] = true
list_empty (m ∷ l) = false

abbrev pub list_peek : List Bytes → Option Bytes
list_peek [] = none
list_peek (m ∷ l) = some m

abbrev pub list_pop : List Bytes → List Bytes
list_pop [] = []
list_pop (m ∷ l) = l

abbrev pub list_queue : WorkQueue (List Bytes) Bytes
list_queue = record { ringbuf_empty = list_empty; ringbuf_peek = list_peek; ringbuf_pop = list_pop }

-- The list itself is what it holds.
abbrev pub Holds : List Bytes → List Bytes → Type 0
Holds q l = q ≡ l

pub list-IsQueue : IsQueue list_queue Holds
list-IsQueue = record {
  at_end = λ q h. ap list_empty h;
  at_front = λ q m l h. (ap list_empty h, ap list_peek h, ap list_pop h);
}

module _ {W : Type 0} (handle : Bytes → W → W) (w0 : W) where
  -- Two messages are put in and posted, and then a signal breaks off a wait.
  abbrev pub at_last : Worker (List Bytes) W
  at_last =
      work_turn list_queue handle interrupted
        (record { queue = (5 ∷ []) ∷ (6 ∷ []) ∷ []; sem = 2; world = w0 })

  pub at_last-Reached : Reached list_queue Holds handle w0 at_last ((5 ∷ []) ∷ (6 ∷ []) ∷ [])
  at_last-Reached = turned interrupted (
      posted (6 ∷ []) ((5 ∷ []) ∷ (6 ∷ []) ∷ [])
        (posted (5 ∷ []) ((5 ∷ []) ∷ []) (started {q = []} 0 refl)
          (λ l h. ap (λ q. q ++ (5 ∷ []) ∷ []) h))
        (λ l h. ap (λ q. q ++ (6 ∷ []) ∷ []) h))
