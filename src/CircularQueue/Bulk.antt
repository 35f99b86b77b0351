-- ===== src/CircularQueue/Bulk.antt =====
-- include/cpph/container/circular_queue.hxx: the operations on many elements. `trivial` is the
-- answer of `std::is_trivially_destructible_v` and its like, by which the code chooses a branch.
use cppheaders.Prelude.{
  ℕ, zero, suc, ◌+◌, ◌-◌, ◌%◌, min, Bool, true, false, Option, none, some, List, [], ◌∷◌, ◌++◌, ltb,
  leb, ◌==◌, if◌then◌else◌, ◌>>=◌, ◌>>◌, assert, length, take, drop,
}
use cppheaders.Prelude.Int.{pos}
use cppheaders.CircularQueue.{
  CircularQueue, read, write, next, jmp, size, room, is_empty, pop, dequeue, size_max,
}

module _ {ℓ} {A : Type ℓ} where
  -- `for (it = from; it != to; it = _next(it)) visit(_at(it))`: the elements visited, in order. Each
  -- round moves `it`, so `capacity` rounds reach every index.
  unfoldable pub visit : ℕ → CircularQueue A → ℕ → ℕ → Option (List A)
  visit zero q from to = none
  visit (suc fuel) q from to = elim (from == to) [
    | true ↦ some []
    | false ↦ read q from >>= λ x. visit fuel q (next q from) to >>= λ rest. some (x ∷ rest)
  ]

  -- `for_each`, and a walk of an iterator from `begin()` to `end()`.
  unfoldable pub for_each : CircularQueue A → Option (List A)
  for_each q = visit q.capacity q q.tail q.head

  -- `n` rounds of `*(oit++) = *(it++)` from `&_at(i)`.
  unfoldable pub read_run : CircularQueue A → ℕ → ℕ → Option (List A)
  read_run q i zero = some []
  read_run q i (suc n) = do x ← read q i; rest ← read_run q (i + 1) n; some (x ∷ rest)

  -- `*it = x` at `&_at(i)`: an assignment, which needs an object to assign to, unless the type is
  -- trivial.
  unfoldable pub assign : Bool → CircularQueue A → ℕ → A → Option (CircularQueue A)
  assign trivial q i x = if trivial then write q i x else (read q i >>= λ old. write q i x)

  -- `*(it++) = *(begin++)` from `&_at(i)` for each element.
  unfoldable pub write_run : Bool → CircularQueue A → ℕ → List A → Option (CircularQueue A)
  unfolding assign
  write_run trivial q i [] = some q
  write_run trivial q i (x ∷ xs) = do q' ← assign trivial q i x; write_run trivial q' (i + 1) xs

  -- `flat`: the ranges that the callback gets.
  unfoldable pub flat : CircularQueue A → Option (List (List A))
  flat q =
      if ltb q.tail q.head
      then (do run ← read_run q q.tail (q.head - q.tail); some (run ∷ []))
      else if ltb q.head q.tail
      then (do
        upper ← read_run q q.tail (q.capacity - q.tail)
        lower ← read_run q 0 q.head
        some (upper ∷ lower ∷ []))
      else some []

  -- `while (n--) *oit++ = dequeue()`
  unfoldable pub dequeue_each : ℕ → CircularQueue A → Option (List A × CircularQueue A)
  dequeue_each zero q = some ([], q)
  dequeue_each (suc n) q = do
    (x, q') ← dequeue q
    (rest, last) ← dequeue_each n q'
    some (x ∷ rest, last)

  -- The branch of `dequeue_n` for trivial types.
  unfoldable pub dequeue_copy : ℕ → CircularQueue A → Option (List A × CircularQueue A)
  dequeue_copy n q = do
    out ← if ltb q.tail q.head then read_run q q.tail (min (q.head - q.tail) n) else (do
      let first = min (q.capacity - q.tail) n
      assert (leb (n - first) q.head)
      upper ← read_run q q.tail first
      lower ← read_run q 0 (n - first)
      some (upper ++ lower))
    some (out, record q { tail = jmp q q.tail (pos n) })

  unfoldable pub dequeue_n : Bool → ℕ → CircularQueue A → Option (List A × CircularQueue A)
  dequeue_n trivial n q = do
    assert (leb n (size q))
    if trivial then dequeue_copy n q else dequeue_each n q

  -- `while (required_space--) _pop()`
  unfoldable pub pop_n : ℕ → CircularQueue A → Option (CircularQueue A)
  pop_n zero q = some q
  pop_n (suc n) q = do q' ← pop q; pop_n n q'

  -- `while (not empty()) pop()`
  unfoldable pub clear_each : ℕ → CircularQueue A → Option (CircularQueue A)
  clear_each zero q = none
  clear_each (suc fuel) q = elim (is_empty q) [
    | true ↦ some q
    | false ↦ pop q >>= λ q'. clear_each fuel q'
  ]

  unfoldable pub clear : Bool → CircularQueue A → Option (CircularQueue A)
  clear trivial q = if trivial then some (record q { tail = q.head }) else clear_each q.capacity q

  -- `enqueue_n` makes place for its input by dropping the oldest elements.
  unfoldable pub evict : Bool → ℕ → CircularQueue A → Option (CircularQueue A)
  evict trivial n q =
      if n == 0
      then some q
      else if trivial
      then some (record q { tail = jmp q q.tail (pos n) })
      else pop_n n q

  -- `required_space`, 0 where the space suffices.
  unfoldable pub required_space : CircularQueue A → ℕ → ℕ
  required_space q total =
      let space = (room q + size_max - size q) % size_max in
      if ltb space total then total - space else 0

  -- The part of `enqueue_n` after the input has been cut to the capacity.
  unfoldable pub enqueue_cut : Bool → CircularQueue A → List A → Option (CircularQueue A)
  enqueue_cut trivial q xs = do
    let total = length xs
    q' ← evict trivial (required_space q total) q
    let first = min total (q'.capacity - q'.head)
    q'' ←
        write_run trivial (record q' { head = jmp q' q'.head (pos total) }) q'.head (take first xs)
    write_run trivial q'' 0 (drop first xs)

  unfoldable pub enqueue_n : Bool → CircularQueue A → List A → Option (CircularQueue A)
  unfolding enqueue_cut
  enqueue_n trivial q xs =
      enqueue_cut trivial q (if ltb (room q) (length xs) then drop (length xs - room q) xs else xs)
