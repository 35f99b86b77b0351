-- ===== src/CircularQueue/Ranges.antt =====
-- include/cpph/container/circular_queue.hxx: walks over the elements, and the operations that take
-- or drop many of them at the tail.
use cppheaders.Prelude.{
  ℕ, zero, suc, ◌+◌, ◌-◌, ◌≤◌, ◌<◌, ◌≡◌, refl, ◌∙◌, ap, true, false, some, List, [], ◌∷◌, arith,
  ltb, leb, ◌==◌, length, drop, take, ◌≢◌, drop_cons, take_all, min, length-drop, get_elem?-drop,
  sym, take-take-append, ==_iff, Bool-cases, inl, inr, le→leb,
}
use cppheaders.Prelude.Int.{pos}
use cppheaders.CircularQueue.{CircularQueue, read, next, jmp}
use cppheaders.CircularQueue.Bulk.{visit, for_each, read_run, dequeue_copy}
use cppheaders.CircularQueue.Holds.{Holds, spot, next-spot, jmp-spot, read-spot}
use cppheaders.CircularQueue.Ends.{spot-ne}

module _ {ℓ} {A : Type ℓ} (q : CircularQueue A) (fuel from to : ℕ) where
  visit_stop : from ≡ to → visit (suc fuel) q from to ≡ some []
  unfolding visit
  visit_stop e = rw ((==_iff from to).1 e, visit) refl

  visit_go :
      {x : A} {rest : List A}
      → from ≢ to
      → read q from ≡ some x
      → visit fuel q (next q from) to ≡ some rest
      → visit (suc fuel) q from to ≡ some (x ∷ rest)
  unfolding visit
  visit_go ne found tail = elim (Bool-cases (from == to)) [
    | inl e ↦ absurd (ne ((==_iff from to).0 e))
    | inr e ↦ rw (e, visit, found, tail) refl
  ]

module _ {ℓ} {A : Type ℓ} {c : ℕ} {q : CircularQueue A} {xs : List A} (h : Holds c q xs) where
  visit-take :
      (n fuel i from to : ℕ)
      → n < fuel
      → i + n ≤ length xs
      → from ≡ spot c q.tail i
      → to ≡ spot c q.tail (i + n)
      → visit fuel q from to ≡ some (take n (drop i xs))
  visit-take n zero i from to p b e e' = absurd (omega arith)
  visit-take zero (suc fuel) i from to p b e e' = visit_stop q fuel from to (ground arith)
  visit-take (suc n) (suc fuel) i from to p b e e' =
      let (x, at, split) = drop_cons i xs (omega arith) in
      let ne : from ≢ to =
        rw (e, e')
          (spot-ne c q.tail i (i + suc n) h.tail_in (omega (arith, h.fits)) (omega (arith, h.fits))
            (omega arith)) in
      visit_go q fuel from to ne (rw e (read-spot h i (omega arith) ∙ at)) (
        visit-take n fuel (suc i) (next q from) to (omega arith) (omega arith)
          (rw e (next-spot h i (omega (arith, h.fits)))) (ground arith))
      ∙ ap (λ ys. some (take (suc n) ys)) (sym split)

  -- The elements from the tail up to the iterator `begin() + n`.
  pub visit_prefix :
      (n to : ℕ)
      → n ≤ length xs
      → to ≡ spot c q.tail n
      → visit q.capacity q q.tail to ≡ some (take n xs)
  visit_prefix n to p e =
      visit-take n q.capacity 0 q.tail to (omega (arith, h.fits, h.slots)) (omega arith)
        (ground (arith, h.tail_in)) (ground arith)

  -- `for_each` visits the elements, oldest first.
  pub for_each-Holds : for_each q ≡ some xs
  unfolding for_each
  for_each-Holds =
      visit_prefix (length xs) q.head (omega arith) h.head_at
      ∙ ap some (take_all (length xs) xs (omega arith))

  pub read_run-take :
      (n i j : ℕ)
      → (0 < n → j ≡ spot c q.tail i)
      → j + n ≤ suc c
      → i + n ≤ length xs
      → read_run q j n ≡ some (take n (drop i xs))
  unfolding read_run
  read_run-take zero i j e b p = refl
  read_run-take (suc n) i j e b p =
      let (x, at, split) = drop_cons i xs (omega arith) in
      let here : j ≡ spot c q.tail i = e (omega arith) in
      let after : 0 < n → j + 1 ≡ spot c q.tail (suc i) = λ pos_n. ground arith in
      let found : read q j ≡ some x = ap (read q) here ∙ read-spot h i (omega arith) ∙ at in
      rw (found, read_run-take n (suc i) (j + 1) after (omega arith) (omega arith), split) refl

  -- Moving the tail forward drops the oldest elements, without a destructor.
  pub advance-Holds :
      (k : ℕ) → k ≤ length xs → Holds c (record q { tail = jmp q q.tail (pos k) }) (drop k xs)
  advance-Holds k p =
      let moved = jmp-spot h k (omega (arith, h.fits)) in
      let len = length-drop k xs in
      record {
        small = h.small;
        slots = h.slots;
        storage = h.storage;
        tail_in = ground (arith, moved, h.tail_in, h.fits);
        fits = omega (arith, len, h.fits);
        head_at = ground (arith, moved, len, h.head_at, h.tail_in, h.fits);
        stored = λ i b.
            let same : spot c (jmp q q.tail (pos k)) i ≡ spot c q.tail (k + i) =
              ground (arith, moved, len, h.tail_in, h.fits) in
            rw same (h.stored (k + i) (omega (arith, len)) ∙ sym (get_elem?-drop k i xs));
      }

  -- The copy that `dequeue_n` makes for a trivial type.
  pub dequeue_copy-Holds :
      (n : ℕ)
      → n ≤ length xs
      → (q' : CircularQueue A) × (dequeue_copy n q ≡ some (take n xs, q')) × Holds c q' (drop n xs)
  unfolding dequeue_copy
  dequeue_copy-Holds n p = elim (Bool-cases (ltb q.tail q.head)) [
    | inl straight ↦
        let count : min (q.head - q.tail) n ≡ n = ground (arith, h.head_at, h.fits, h.tail_in) in
        (
          record q { tail = jmp q q.tail (pos n) },
          rw
              (
                straight,
                count,
                read_run-take n 0 q.tail (λ _. ground (arith, h.tail_in))
                    (ground (arith, h.head_at, h.fits, h.tail_in)) (omega arith),
              )
              refl,
          advance-Holds n p,
        )
    | inr wrapped ↦ wrap wrapped
  ]
    where
      wrap :
          ltb q.tail q.head ≡ false
          → (q' : CircularQueue A) × (dequeue_copy n q ≡ some (take n xs, q'))
            × Holds c q' (drop n xs)
      wrap e =
          let first = min (q.capacity - q.tail) n in
          let upper =
            read_run-take first 0 q.tail (λ _. ground (arith, h.tail_in))
              (omega (arith, h.slots, h.tail_in)) (omega arith) in
          let lower =
            read_run-take (n - first) first 0 (λ b. ground (arith, h.slots, h.tail_in))
              (omega (arith, h.fits)) (omega arith) in
          let enough : leb (n - first) q.head ≡ true =
            le→leb _ _ (ground (arith, h.slots, h.head_at, h.fits, h.tail_in)) in
          (
            record q { tail = jmp q q.tail (pos n) },
            rw (e, enough, upper, lower, take-take-append first (n - first) xs)
                (ap (λ k. some (take k xs, record q { tail = jmp q q.tail (pos n) }))
                  (omega arith)),
            advance-Holds n p,
          )
