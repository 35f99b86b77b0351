-- ===== src/CircularQueue/Copy.antt =====
-- include/cpph/container/circular_queue.hxx: copy assignment and `reserve_shrink`.
use cppheaders.Prelude.{
  ℕ, ◌==◌, if◌then◌else◌, Bool, Option, none, some, List, [], ◌∷◌, ◌>>=◌, min, ltb,
}
use cppheaders.Prelude.Int.{pos}
use cppheaders.CircularQueue.{CircularQueue, make, jmp, size, room, rotate}
use cppheaders.CircularQueue.Bulk.{visit, for_each, clear}

module _ {ℓ} {A : Type ℓ} where
  -- `std::copy` and `std::move` through a `std::back_inserter`: `push_back` is `rotate`.
  unfoldable pub rotate_all : CircularQueue A → List A → Option (CircularQueue A)
  rotate_all q [] = some q
  rotate_all q (x ∷ xs) = rotate q x >>= λ q'. rotate_all q' xs

  -- `operator=(const circular_queue& op)`: the old elements are destroyed, then the chunks of a
  -- queue of the other capacity are filled in order.
  unfoldable pub copy : Bool → CircularQueue A → CircularQueue A → Option (CircularQueue A)
  copy trivial q op = do
    _ ← clear trivial q
    xs ← for_each op
    rotate_all
        (record {
          capacity = op.capacity;
          chunks = op.capacity;
          slot = λ _. none;
          head = 0;
          tail = 0;
        })
        xs

  -- `reserve_shrink`: the elements from the tail on move to a new queue of the new capacity; the
  -- swap of the last line makes it the queue.
  unfoldable pub reserve_shrink : Bool → CircularQueue A → ℕ → Option (CircularQueue A)
  reserve_shrink trivial q n =
      if n == room q
      then some q
      else if n == 0
      then (do q' ← clear trivial q; some (record q' { chunks = 0; capacity = 1 }))
      else (do
        let n_copy = min (size q) n
        if ltb 0 n_copy
            then (do
              xs ← visit q.capacity q q.tail (jmp q q.tail (pos n_copy))
              next ← rotate_all (make n) xs
              _ ← clear trivial (record q { tail = jmp q q.tail (pos n_copy) })
              some next)
            else some (make n))

  -- Move assignment exchanges the two queues.
  unfoldable pub move : CircularQueue A → CircularQueue A → CircularQueue A × CircularQueue A
  move self op = (op, self)
