-- ===== src/CircularQueue/Ends.antt =====
-- include/cpph/container/circular_queue.hxx: what one call at an end of the queue does, stated
-- over the elements that the queue holds.
use cppheaders.Prelude.{
  ℕ, suc, ◌+◌, ◌≤◌, ◌<◌, ◌≡◌, refl, ◌∙◌, Option, none, some, List, [], ◌∷◌, ◌++◌, arith, ◌==◌,
  length, get_elem?, length-append, dec_lt, ==_iff, Bool-cases, sym, get_elem?-append_left,
  get_elem?-append_right, ◌≢◌, inl, inr,
}
use cppheaders.CircularQueue.{
  CircularQueue, read, write, update, next, reserve, push, pop, front, dequeue,
}
use cppheaders.CircularQueue.Holds.{Holds, spot, is_full-eq, is_empty-eq, next-spot, read-spot}

pub spot-ne : (c t i j : ℕ) → t ≤ c → i ≤ c → j ≤ c → i ≢ j → spot c t i ≢ spot c t j
spot-ne c t i j ht hi hj ne = ground arith

pub spot-le : (c t i : ℕ) → t ≤ c → i ≤ c → spot c t i ≤ c
spot-le c t i ht hi = ground arith

module _ {ℓ} {A : Type ℓ} (f : ℕ → Option A) (i : ℕ) (v : Option A) where
  pub update_self : update f i v i ≡ v
  update_self = rw ((==_iff i i).1 refl)

  pub update_ne : (j : ℕ) → i ≢ j → update f i v j ≡ f j
  update_ne j ne = elim (Bool-cases (i == j)) [
    | inl e ↦ absurd (ne ((==_iff i j).0 e))
    | inr e ↦ rw e
  ]

module _ {ℓ} {A : Type ℓ} {c : ℕ} {q : CircularQueue A} {xs : List A} (h : Holds c q xs) where
  -- The queue after an element has been placed at the head.
  abbrev pub pushed : A → CircularQueue A
  pushed x = record q { slot = update q.slot q.head (some x); head = next q q.head }

  stored-pushed :
      (x : A) (i : ℕ)
      → length xs < c
      → i < length (xs ++ x ∷ [])
      → (pushed x).slot (spot c q.tail i) ≡ get_elem? (xs ++ x ∷ []) i
  stored-pushed x i space p = elim (dec_lt i (length xs)) [
    | yes old ↦
        let apart : q.head ≢ spot c q.tail i =
          rw h.head_at (
            spot-ne c q.tail (length xs) i h.tail_in h.fits (omega (arith, h.fits))
              (omega arith)) in
        update_ne q.slot q.head (some x) (spot c q.tail i) apart
        ∙ h.stored i old
        ∙ sym (get_elem?-append_left xs (x ∷ []) i old)
    | no new ↦
        let e : i ≡ length xs + 0 = omega (arith, length-append xs (x ∷ [])) in
        let here : spot c q.tail i ≡ q.head = ground (arith, h.head_at) in
        rw (here, e)
          (update_self q.slot q.head (some x) ∙ sym (get_elem?-append_right xs (x ∷ []) 0))
  ]

  pub pushed-Holds : (x : A) → length xs < c → Holds c (pushed x) (xs ++ x ∷ [])
  pushed-Holds x space = record {
    small = h.small;
    slots = h.slots;
    storage = h.storage;
    tail_in = h.tail_in;
    fits = omega (arith, length-append xs (x ∷ []));
    head_at = ground (arith, h.head_at, next-spot h (length xs), length-append xs (x ∷ []));
    stored = λ i p. stored-pushed x i space p;
  }

  push-eq : (x : A) → length xs < c → push q x ≡ some (pushed x)
  unfolding push reserve write
  push-eq x space =
      ground (arith, is_full-eq h, h.head_at, h.storage, spot-le c q.tail (length xs) h.tail_in)

  -- `push` on a queue that is not full appends the element.
  pub push-Holds :
      (x : A)
      → length xs < c
      → (q' : CircularQueue A) × (push q x ≡ some q') × Holds c q' (xs ++ x ∷ [])
  push-Holds x space = (pushed x, push-eq x space, pushed-Holds x space)

  pub push_full : (x : A) → length xs ≡ c → push q x ≡ none
  unfolding push reserve
  push_full x e = ground (arith, is_full-eq h)

module _ {ℓ} {A : Type ℓ} {c : ℕ} {q : CircularQueue A} {x : A} {xs : List A}
    (h : Holds c q (x ∷ xs)) where
  abbrev popped : CircularQueue A
  popped = record q { slot = update q.slot q.tail none; tail = next q q.tail }

  tail-spot : next q q.tail ≡ spot c q.tail 1
  tail-spot = ground (arith, next-spot h 0, h.tail_in)

  stored-popped : (i : ℕ) → i < length xs → popped.slot (spot c popped.tail i) ≡ get_elem? xs i
  stored-popped i p = ground (arith, tail-spot, h.stored (suc i), h.tail_in, h.fits)

  popped-Holds : Holds c popped xs
  popped-Holds = record {
    small = h.small;
    slots = h.slots;
    storage = h.storage;
    tail_in = ground (arith, tail-spot, h.tail_in, h.fits);
    fits = omega (arith, h.fits);
    head_at = ground (arith, h.head_at, tail-spot, h.tail_in, h.fits);
    stored = λ i p. stored-popped i p;
  }

  read_tail : read q q.tail ≡ some x
  read_tail = ground (arith, read-spot h 0, h.tail_in)

  pub front-Holds : front q ≡ some x
  unfolding front
  front-Holds = ground (arith, is_empty-eq h, read_tail)

  pop-eq : pop q ≡ some popped
  unfolding pop
  pop-eq = ground (arith, is_empty-eq h, read_tail)

  -- `pop` on a queue that is not empty destroys the oldest element.
  pub pop-Holds : (q' : CircularQueue A) × (pop q ≡ some q') × Holds c q' xs
  pop-Holds = (popped, pop-eq, popped-Holds)

  -- `dequeue` on a queue that is not empty returns the oldest element and leaves the others.
  pub dequeue-Holds : (q' : CircularQueue A) × (dequeue q ≡ some (x, q')) × Holds c q' xs
  unfolding dequeue
  dequeue-Holds = (popped, rw (front-Holds, pop-eq) refl, popped-Holds)

module _ {ℓ} {A : Type ℓ} {c : ℕ} {q : CircularQueue A} (h : Holds c q []) where
  pub pop_empty : pop q ≡ none
  unfolding pop
  pop_empty = rw (is_empty-eq h) refl

  pub dequeue_empty : dequeue q ≡ none
  unfolding dequeue front
  dequeue_empty = rw (is_empty-eq h) refl
