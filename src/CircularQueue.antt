-- ===== src/CircularQueue.antt =====
-- include/cpph/container/circular_queue.hxx: `circular_queue<Ty_>`, a ring of `_capacity` slots of
-- which one is always free. `none` stands for an assertion that fails, for an access outside the
-- allocated chunks and for a read of a slot in which no object lives.
pub mod Bulk
pub mod Copy
pub mod Holds
pub mod Ends
pub mod Ranges
pub mod Drain
pub mod Enqueue
pub mod Refine
pub mod History
pub mod Resize
pub mod Iterator
pub mod Tests
use cppheaders.Prelude.{
  ℕ, zero, suc, ◌+◌, ◌-◌, ◌*◌, ◌%◌, ◌^◌, Bool, true, false, not, Option, none, some, ltb, leb, ◌==◌,
  if◌then◌else◌, ◌>>=◌, ◌>>◌, assert,
}
use cppheaders.Prelude.Int.{ℤ, pos, negsuc}

abbrev pub size_max : ℕ
size_max = 2 ^ 64

-- `capacity` is the field `_capacity`, with the spare slot. `chunks` is the number of chunks that
-- `_data` points to, 0 for a null pointer. A slot holds the object that lives in it, if one does.
pub record CircularQueue {ℓ} (A : Type ℓ) : Type ℓ where
  pub capacity : ℕ
  pub chunks : ℕ
  pub slot : ℕ → Option A
  pub head : ℕ
  pub tail : ℕ

module _ {ℓ} {A : Type ℓ} where
  abbrev pub update : (ℕ → Option A) → ℕ → Option A → ℕ → Option A
  update f i v j = if i == j then v else f j

  -- `circular_queue(size_t)`
  unfoldable pub make : ℕ → CircularQueue A
  make n =
      let total = (n + 1) % size_max in
      record {
        capacity = total;
        chunks = if n == 0 then 0 else total;
        slot = λ _. none;
        head = 0;
        tail = 0;
      }

  -- `_at` for a read, and the placement of an object in a chunk.
  unfoldable pub read : CircularQueue A → ℕ → Option A
  read q i = if ltb i q.chunks then q.slot i else none

  unfoldable pub write : CircularQueue A → ℕ → A → Option (CircularQueue A)
  write q i x = if ltb i q.chunks then some (record q { slot = update q.slot i (some x) }) else none

  unfoldable pub next : CircularQueue A → ℕ → ℕ
  next q current = let c = (current + 1) % size_max in if c == q.capacity then 0 else c

  unfoldable pub prev : CircularQueue A → ℕ → ℕ
  prev q current =
      let c = (current + size_max - 1) % size_max in
      if c == (size_max - 1) then (q.capacity + size_max - 1) % size_max else c

  -- `_jmp`: the test `(ptrdiff_t)at < 0` reads the highest bit.
  unfoldable pub jmp : CircularQueue A → ℕ → ℤ → ℕ
  jmp q at (pos n) = (at + n) % size_max % q.capacity
  jmp q at (negsuc n) =
      let a = (at + size_max - (n + 1)) % size_max in
      if leb (2 ^ 63) a then (a + q.capacity) % size_max else a

  unfoldable pub size : CircularQueue A → ℕ
  size q =
      if leb q.tail q.head
      then q.head - q.tail
      else (q.head + q.capacity + size_max - q.tail) % size_max

  -- `capacity()`
  unfoldable pub room : CircularQueue A → ℕ
  room q = (q.capacity + size_max - 1) % size_max

  unfoldable pub is_empty : CircularQueue A → Bool
  is_empty q = q.head == q.tail

  unfoldable pub is_full : CircularQueue A → Bool
  is_full q = next q q.head == q.tail

  unfoldable pub reserve : CircularQueue A → Option (ℕ × CircularQueue A)
  reserve q = do assert (not (is_full q)); some (q.head, record q { head = next q q.head })

  -- `push`, `emplace`
  unfoldable pub push : CircularQueue A → A → Option (CircularQueue A)
  push q x = do (i, q') ← reserve q; write q' i x

  -- `pop()`, `_pop`: the object at the tail is destroyed.
  unfoldable pub pop : CircularQueue A → Option (CircularQueue A)
  pop q = do
    assert (not (is_empty q))
    _ ← read q q.tail
    some (record q { slot = update q.slot q.tail none; tail = next q q.tail })

  unfoldable pub front : CircularQueue A → Option A
  front q = do assert (not (is_empty q)); read q q.tail

  unfoldable pub back : CircularQueue A → Option A
  back q = do assert (not (is_empty q)); read q (prev q q.head)

  -- `rotate`, `emplace_rotate`, `push_back`, `emplace_back`, `enqueue`
  unfoldable pub rotate : CircularQueue A → A → Option (CircularQueue A)
  rotate q x = do q' ← if is_full q then pop q else some q; push q' x

  -- `dequeue`, `pop(Ty_&)`
  unfoldable pub dequeue : CircularQueue A → Option (A × CircularQueue A)
  dequeue q = do r ← front q; q' ← pop q; some (r, q')
