-- ===== src/EventQueue/Tests.antt =====
-- include/cpph/thread/event_queue.hxx: runs of the event queue.
use cppheaders.Prelude.{ℕ, ◌≡◌, refl, true, false, Option, none, some, List, [], ◌∷◌, ◌++◌, ◌⊎◌}
use cppheaders.EventQueue.{
  Queue, write, Waited, waits, got, make, post, push_event, pop_event, wait_one, release, stop,
  clear, empty, release_from,
}
use cppheaders.EventQueue.Chain.{Cells, has, message_of}
use cppheaders.EventQueue.Holds.{Holds}
use cppheaders.EventQueue.History.{Reach, messages, Reach-fifo, Reach-wait_one, Reach-clear}

-- The queue `o` gives.
abbrev from : Option Queue → Queue
from none = make
from (some q) = q

abbrev taken_from : Option (Waited × Queue) → Queue
taken_from none = make
taken_from (some (w, q)) = q

-- The first message fits the ring, the second does not.
abbrev one : Queue
one = from (post (some 16) 0 7 make)

abbrev two : Queue
two = from (post none 32 8 one)

-- The first message runs.
abbrev run : Queue
run = taken_from (wait_one two)

abbrev posted : List ℕ
posted = 7 ∷ 8 ∷ []

abbrev gone : List ℕ
gone = 7 ∷ []

abbrev running : Cells
running = (16, 7) ∷ []

two-Reach : Reach two (7 ∷ 8 ∷ []) [] []
unfolding make post push_event write
two-Reach =
    Reach.posts one two (7 ∷ []) [] [] none 32 8
      (Reach.posts make one [] [] [] (some 16) 0 7 Reach.new refl refl refl) refl refl refl

run-Reach : Reach run posted gone running
unfolding make post push_event write wait_one pop_event
run-Reach = Reach.takes_one two run posted [] [] 16 two-Reach refl refl

given_back_at_stop : (from (clear 2 (stop run))).given_back ≡ (32, false) ∷ []
unfolding make post push_event write wait_one pop_event stop clear release_from release
given_back_at_stop = refl

Reach-fifo_example : (w : Cells) × Holds run w running × (posted ≡ gone ++ messages w)
Reach-fifo_example = Reach-fifo run posted gone running run-Reach

Reach-wait_one_example :
    ((posted ≡ gone) × (wait_one run ≡ some (waits, run)))
    ⊎ ((p : ℕ) × (q' : Queue) × (rest : List ℕ) × (wait_one run ≡ some (got p, q'))
        × (posted ≡ gone ++ message_of (run.heap p) ∷ rest))
unfolding make post push_event write wait_one pop_event
Reach-wait_one_example = Reach-wait_one run posted gone running run-Reach refl

Reach-clear_example :
    (q' : Queue) × (clear 2 run ≡ some q')
    × (empty q' ≡ true)
    × ((a : ℕ) → has a running ≡ false → q'.heap a ≡ none)
Reach-clear_example = Reach-clear run posted gone running run-Reach
