-- ===== src/CircularQueue/Drain.antt =====
-- include/cpph/container/circular_queue.hxx: the operations that take many elements from the tail,
-- on the branch for trivial types and on the other.
use cppheaders.Prelude.{
  ℕ, zero, suc, ◌≤◌, ◌<◌, ◌≡◌, refl, ◌∙◌, Bool, true, false, Option, none, some, List, [], ◌∷◌,
  arith, leb, length, drop, take, le→leb, leb→le, Bool-cases, inl, inr,
}
use cppheaders.CircularQueue.{CircularQueue, is_empty, pop}
use cppheaders.CircularQueue.Bulk.{dequeue_each, dequeue_n, pop_n, clear_each, clear}
use cppheaders.CircularQueue.Holds.{Holds, size-length, is_empty-eq}
use cppheaders.CircularQueue.Ends.{pop-Holds, dequeue-Holds}
use cppheaders.CircularQueue.Ranges.{dequeue_copy-Holds}

module _ {ℓ} {A : Type ℓ} where
  head-pop : (q : CircularQueue A) {q' : CircularQueue A} → pop q ≡ some q' → q'.head ≡ q.head
  unfolding pop
  head-pop q e = ground arith

  clear_step :
      (fuel : ℕ) (q : CircularQueue A) {q' : CircularQueue A} {r : Option (CircularQueue A)}
      → is_empty q ≡ false
      → pop q ≡ some q'
      → clear_each fuel q' ≡ r
      → clear_each (suc fuel) q ≡ r
  unfolding clear_each
  clear_step fuel q e run rest = rw (e, clear_each, run) rest

module _ {ℓ} {A : Type ℓ} {c : ℕ} where
  dequeue_each-Holds :
      (n : ℕ) (q : CircularQueue A) (xs : List A)
      → Holds c q xs
      → n ≤ length xs
      → (q' : CircularQueue A) × (dequeue_each n q ≡ some (take n xs, q')) × Holds c q' (drop n xs)
  unfolding dequeue_each
  dequeue_each-Holds zero q xs h p = (q, refl, h)
  dequeue_each-Holds (suc n) q [] h p = absurd (omega arith)
  dequeue_each-Holds (suc n) q (x ∷ xs) h p =
      let (q', run, h') = dequeue-Holds h in
      let (last, rest, done) = dequeue_each-Holds n q' xs h' (omega arith) in
      (last, rw (run, rest) refl, done)

  -- Where there are at least `n` elements, `dequeue_n` hands out the `n` oldest in order and
  -- leaves the others, on both branches.
  pub dequeue_n-Holds :
      (trivial : Bool) (n : ℕ) (q : CircularQueue A) (xs : List A)
      → Holds c q xs
      → n ≤ length xs
      → (q' : CircularQueue A) × (dequeue_n trivial n q ≡ some (take n xs, q'))
        × Holds c q' (drop n xs)
  unfolding dequeue_n
  dequeue_n-Holds true n q xs h p =
      let (q', run, h') = dequeue_copy-Holds h n p in
      (q', rw (size-length h, le→leb n (length xs) p) run, h')
  dequeue_n-Holds false n q xs h p =
      let (q', run, h') = dequeue_each-Holds n q xs h p in
      (q', rw (size-length h, le→leb n (length xs) p) run, h')

  pub dequeue_n_short :
      (trivial : Bool) (n : ℕ) (q : CircularQueue A) (xs : List A)
      → Holds c q xs
      → length xs < n
      → dequeue_n trivial n q ≡ none
  unfolding dequeue_n
  dequeue_n_short trivial n q xs h p = elim (Bool-cases (leb n (length xs))) [
    | inl e ↦ absurd (omega (arith, leb→le n (length xs) e))
    | inr e ↦ rw (size-length h, e) refl
  ]

  pub pop_n-Holds :
      (n : ℕ) (q : CircularQueue A) (xs : List A)
      → Holds c q xs
      → n ≤ length xs
      → (q' : CircularQueue A) × (pop_n n q ≡ some q') × Holds c q' (drop n xs)
  unfolding pop_n
  pop_n-Holds zero q xs h p = (q, refl, h)
  pop_n-Holds (suc n) q [] h p = absurd (omega arith)
  pop_n-Holds (suc n) q (x ∷ xs) h p =
      let (q', run, h') = pop-Holds h in
      let (last, rest, done) = pop_n-Holds n q' xs h' (omega arith) in (last, rw run rest, done)

  clear_each-Holds :
      (fuel : ℕ) (q : CircularQueue A) (xs : List A)
      → Holds c q xs
      → length xs < fuel
      → (q' : CircularQueue A) × (clear_each fuel q ≡ some q') × Holds c q' [] × (q'.head ≡ q.head)
  unfolding clear_each
  clear_each-Holds zero q xs h p = absurd (omega arith)
  clear_each-Holds (suc fuel) q [] h p = (q, rw (is_empty-eq h, clear_each) refl, h, refl)
  clear_each-Holds (suc fuel) q (x ∷ xs) h p =
      let (q', run, h') = pop-Holds h in
      let (last, rest, done, same) = clear_each-Holds fuel q' xs h' (omega arith) in
      (last, clear_step fuel q (is_empty-eq h ∙ ground arith) run rest, done, same ∙ head-pop q run)

  clear_trivial-Holds :
      (q : CircularQueue A) (xs : List A) → Holds c q xs → Holds c (record q { tail = q.head }) []
  clear_trivial-Holds q xs h = record {
    small = h.small;
    slots = h.slots;
    storage = h.storage;
    tail_in = ground (arith, h.head_at, h.tail_in, h.fits);
    fits = omega arith;
    head_at = ground (arith, h.head_at, h.tail_in, h.fits);
    stored = λ i p. elim p [ ];
  }

  -- `clear` leaves the head where it is.
  pub clear_in_place :
      (trivial : Bool) (q : CircularQueue A) (xs : List A)
      → Holds c q xs
      → (q' : CircularQueue A) × (clear trivial q ≡ some q') × Holds c q' [] × (q'.head ≡ q.head)
  unfolding clear
  clear_in_place true q xs h = (record q { tail = q.head }, refl, clear_trivial-Holds q xs h, refl)
  clear_in_place false q xs h = clear_each-Holds q.capacity q xs h (omega (arith, h.slots, h.fits))

  -- `clear` ends, and empties the queue, on both branches.
  pub clear-Holds :
      (trivial : Bool) (q : CircularQueue A) (xs : List A)
      → Holds c q xs
      → (q' : CircularQueue A) × (clear trivial q ≡ some q') × Holds c q' []
  clear-Holds trivial q xs h = let (q', run, h', _) = clear_in_place trivial q xs h in (q', run, h')
