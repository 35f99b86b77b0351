-- ===== src/CircularQueue/Resize.antt =====
-- include/cpph/container/circular_queue.hxx: copies, and changes of the capacity.
use cppheaders.Prelude.{
  ℕ, ◌<◌, ◌≡◌, refl, Bool, false, none, some, List, [], ◌^◌, arith, ltb, ◌==◌, length, ◌>>=◌, take,
  min, >>=-some, length-take, take_all, take-min, take-eq-nil, Bool-cases, inl, inr, ==_iff, subst,
}
use cppheaders.Prelude.Int.{pos}
use cppheaders.CircularQueue.{CircularQueue, make, jmp, room, next, is_full, push, reserve, write}
use cppheaders.CircularQueue.Bulk.{visit, for_each, clear}
use cppheaders.CircularQueue.Copy.{rotate_all, copy, reserve_shrink}
use cppheaders.CircularQueue.Holds.{Holds, make-Holds, size-length, room-eq, jmp-spot}
use cppheaders.CircularQueue.Ranges.{visit_prefix, for_each-Holds, advance-Holds}
use cppheaders.CircularQueue.Drain.{clear-Holds, clear_in_place}
use cppheaders.CircularQueue.Refine.{rotate_all-Holds}

module _ {ℓ} {A : Type ℓ} where
  fresh-Holds :
      (c : ℕ) (op : CircularQueue A) (xs : List A)
      → Holds c op xs
      → Holds {A = A} c
          (record {
            capacity = op.capacity;
            chunks = op.capacity;
            slot = λ _. none;
            head = 0;
            tail = 0;
          })
          []
  fresh-Holds c op xs h = record {
    small = h.small;
    slots = h.slots;
    storage = λ p. h.slots;
    tail_in = omega arith;
    fits = omega arith;
    head_at = ground arith;
    stored = λ i p. elim p [ ];
  }

  -- Copy assignment leaves a queue of the other one's capacity with the other one's elements,
  -- whatever the queue held before.
  pub copy-Holds :
      (c d : ℕ) (trivial : Bool) (q op : CircularQueue A) (xs ys : List A)
      → Holds c q xs
      → Holds d op ys
      → (q' : CircularQueue A) × (copy trivial q op ≡ some q') × Holds d q' ys
  unfolding copy
  copy-Holds c d trivial q op xs ys h k =
      let (cleared, ran, _) = clear-Holds trivial q xs h in
      let (q', run, done) =
        rotate_all-Holds ys _ [] (fresh-Holds d op ys k) (omega (arith, k.fits)) in
      (q', >>=-some (clear trivial q) _ ran (>>=-some (for_each op) _ (for_each-Holds k) run), done)

  module _ {c : ℕ} (trivial : Bool) (q : CircularQueue A) (xs : List A) (h : Holds c q xs) where
    move_some :
        (n k : ℕ)
        → k ≡ min (length xs) n
        → n < 2 ^ 62
        → (q' : CircularQueue A) × ((visit q.capacity q q.tail (jmp q q.tail (pos k)) >>= λ ys.
              rotate_all (make n) ys >>= λ next.
              clear trivial (record q { tail = jmp q q.tail (pos k) }) >>= λ _. some next)
            ≡ some q')
          × Holds n q' (take k xs)
    move_some n k e small =
        let len = length-take k xs in
        let walk = visit_prefix h k _ (omega arith) (jmp-spot h k (omega (arith, h.fits))) in
        let (q', run, done) =
          rotate_all-Holds (take k xs) (make n) [] (make-Holds n small) (omega (arith, len)) in
        let (old, ran, _) = clear-Holds trivial _ _ (advance-Holds h k (omega arith)) in
        (
          q',
          >>=-some (visit q.capacity q q.tail (jmp q q.tail (pos k))) _ walk (
              >>=-some (rotate_all (make n) (take k xs)) _ run
                (>>=-some (clear trivial (record q { tail = jmp q q.tail (pos k) })) _ ran refl)),
          done,
        )

    -- `reserve_shrink` to a capacity of at least 1 and below `2 ^ 62` keeps the oldest elements,
    -- as many as fit.
    pub reserve_shrink-Holds :
        (n : ℕ)
        → 0 < n
        → n < 2 ^ 62
        → (q' : CircularQueue A) × (reserve_shrink trivial q n ≡ some q') × Holds n q' (take n xs)
    unfolding reserve_shrink
    reserve_shrink-Holds n p small = elim (Bool-cases (n == c)) [
      | inl same ↦
          let e : n ≡ c = (==_iff n c).0 same in
          (q, rw (room-eq h, same) refl, rw (e, take_all c xs h.fits) h)
      | inr other ↦
          let at_least_one : (n == 0) ≡ false = ground arith in
          elim (Bool-cases (ltb 0 (min (length xs) n))) [
            | inl any ↦
                let (q', run, done) = move_some n (min (length xs) n) refl small in
                (
                  q',
                  rw (room-eq h, other, at_least_one, size-length h, any) run,
                  subst (Holds n q') (take-min (length xs) n xs refl) done,
                )
            | inr nothing ↦
                let empty : take n xs ≡ [] = take-eq-nil n xs (ground arith) in
                (
                  make n,
                  rw (room-eq h, other, at_least_one, size-length h, nothing) refl,
                  rw empty (make-Holds n small),
                )
          ]
    ]

    -- `reserve_shrink(0)` of a queue of capacity at least 1 whose head is not at 0 leaves a
    -- queue of capacity 0 that does not count as full; the next `push` accesses a chunk that is
    -- not there.
    pub reserve_shrink_zero :
        (x : A)
        → 0 < c
        → 0 < q.head
        → (q' : CircularQueue A) × (reserve_shrink trivial q 0 ≡ some q')
          × (room q' ≡ 0)
          × (is_full q' ≡ false)
          × (push q' x ≡ none)
    unfolding reserve_shrink room is_full push reserve write next
    reserve_shrink_zero x p moved =
        let (r, ran, done, same) = clear_in_place trivial q xs h in
        let resized : (0 == c) ≡ false = ground arith in
        (
          record r { chunks = 0; capacity = 1 },
          rw (room-eq h, resized) (>>=-some (clear trivial q) _ ran refl),
          refl,
          ground (arith, same, h.head_at, h.tail_in, h.fits, h.small, done.head_at, done.tail_in),
          ground (arith, same, h.head_at, h.tail_in, h.fits, h.small, done.head_at, done.tail_in),
        )
