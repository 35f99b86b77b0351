-- ===== src/EventQueue.antt =====
-- include/cpph/thread/event_queue.hxx: `basic_event_queue`. Its nodes stand at addresses of which 0 is
-- null; a message is a number. `none` is an access to an address that holds no node. Each method
-- works under its lock, so that a history of the queue is a sequence of its steps, taken by any
-- threads; a message runs between the step that takes it and the step that releases its node.
pub mod Chain
pub mod Holds
pub mod Clears
pub mod History
mod Tests
use cppheaders.Prelude.{
  ℕ, zero, suc, Bool, true, false, not, ◌&&◌, ◌||◌, Option, none, some, List, [], ◌∷◌, ◌==◌,
  if◌then◌else◌, ◌>>=◌,
}

-- `function_node`
pub record Node : Type 0 where
  pub next : ℕ
  pub is_ring_allocated : Bool
  pub message : ℕ

abbrev pub Heap : Type 0
Heap = ℕ → Option Node

unfoldable pub write : Heap → ℕ → Option Node → Heap
write h p c a = if a == p then c else h a

-- `given_back` holds the addresses that were deallocated, the last one first, and whether each went
-- to `alloc_`.
pub record Queue : Type 0 where
  pub heap : Heap
  pub front : ℕ
  pub back : ℕ
  pub stopped : Bool
  pub given_back : List (ℕ × Bool)

-- `basic_event_queue(queue_buffer_size)`
unfoldable pub make : Queue
make = record { heap = λ a. none; front = 0; back = 0; stopped = false; given_back = [] }

abbrev pub is_null : ℕ → Bool
is_null p = p == 0

-- `_push_event`
unfoldable pub push_event : ℕ → Queue → Option Queue
unfolding write
push_event p q = do
  r ←
      (if is_null q.back then some (record q { back = p }) else (do
        n ← q.heap q.back
        some (record q { back = p; heap = write q.heap q.back (some (record n { next = p })) })))
  some (if is_null r.front then record r { front = p } else r)

-- `_pop_event`
unfoldable pub pop_event : Queue → Option (ℕ × Queue)
pop_event q = if is_null q.front then some (0, q) else (do
  n ← q.heap q.front
  some (q.front, record q { front = n.next; back = if q.front == q.back then 0 else q.back }))

-- `_release`
unfoldable pub release : ℕ → Queue → Option Queue
unfolding write
release p q = do
  n ← q.heap p
  some (record q {
    heap = write q.heap p none;
    given_back = (p, n.is_ring_allocated) ∷ q.given_back;
  })

-- `empty`
unfoldable pub empty : Queue → Bool
empty q = is_null q.front

-- What `allocate_nt` of the ring gave, if anything, and what `new` would give: the address of the
-- node and whether the ring holds it.
abbrev pub placed : Option ℕ → ℕ → ℕ × Bool
placed none heap_address = (heap_address, false)
placed (some ring_address) heap_address = (ring_address, true)

unfoldable pub post : Option ℕ → ℕ → ℕ → Queue → Option Queue
unfolding write push_event
post ring_address heap_address message q =
    let (p, in_ring) = placed ring_address heap_address in
    let node : Node = record { next = 0; is_ring_allocated = in_ring; message = message } in
    push_event p (record q { heap = write q.heap p (some node) })

-- What a thread gets that waits for a message: the address of one that it took, null where the queue
-- is stopped, or nothing yet.
pub data Waited : Type 0 where
  waits : Waited
  got : ℕ → Waited

-- The condition of `exec_one`: `stopped_ || (p_func = _pop_event())`
unfoldable pub wait_one : Queue → Option (Waited × Queue)
unfolding pop_event
wait_one q =
    if q.stopped
    then some (got 0, q)
    else (pop_event q >>= λ (p, r). some (if is_null p then waits else got p, r))

-- The condition of `flush`: `stopped_ || (p_func = _pop_event(), true)`
unfoldable pub wait_flush : Queue → Option (Waited × Queue)
unfolding pop_event
wait_flush q = if q.stopped then some (got 0, q) else (pop_event q >>= λ (p, r). some (got p, r))

unfoldable pub stop : Queue → Queue
stop q = record q { stopped = true }

unfoldable pub restart : Queue → Queue
restart q = record q { stopped = false }

-- The loop of `clear`, on as many nodes as `fuel`.
unfoldable pub release_from : ℕ → ℕ → Queue → Option Queue
unfolding release
release_from zero p q = if is_null p then some q else none
release_from (suc fuel) p q =
    if is_null p then some q else (do n ← q.heap p; r ← release p q; release_from fuel n.next r)

unfoldable pub clear : ℕ → Queue → Option Queue
unfolding release_from
clear fuel q = release_from fuel q.front (record q { front = 0; back = 0 })
