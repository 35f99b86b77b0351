-- ===== src/EventQueue/Clears.antt =====
-- include/cpph/thread/event_queue.hxx: `clear`, which gives every waiting node back.
use cppheaders.Prelude.{
  ℕ, zero, suc, ◌≤◌, ◌≡◌, refl, ap, sym, subst, ◌∙◌, true, false, none, some, [], ◌∷◌, arith, ◌==◌,
  ◌>>=◌, Bool-cases, inl, inr, length,
}
use cppheaders.EventQueue.{Node, Queue, write, release, release_from, clear}
use cppheaders.EventQueue.Chain.{Cells, last, Chain, Chain-write}
use cppheaders.EventQueue.Holds.{Holds, other}

-- The queue as it was before the loop took `p` for its next node.
abbrev rest_of : ℕ → Cells → Queue → Queue
rest_of p w q = record q { front = p; back = last w }

release_first :
    (q : Queue) (p a m : ℕ) (w r : Cells)
    → Holds (rest_of p ((a, m) ∷ w) q) ((a, m) ∷ w) r
    → (n : Node) × (q.heap p ≡ some n)
      × ((p == 0) ≡ false)
      × (q' : Queue) × (release p q ≡ some q')
      × (q'.front ≡ q.front)
      × (q'.back ≡ q.back)
      × Holds (rest_of n.next w q') w r
unfolding release write
release_first q p a m w r h =
    let (front, some_a, out, next, (n, at_a, msg, to_next), rest) = h.chain in
    let at_p : q.heap p ≡ some n = ap q.heap front ∙ at_a in
    let self : (p == a) ≡ true = ground (arith, front) in
    (
      n,
      at_p,
      ap (λ b. b == 0) front ∙ some_a,
      record q { heap = write q.heap p none; given_back = (p, n.is_ring_allocated) ∷ q.given_back },
      rw at_p refl,
      refl,
      refl,
      record {
        chain =
            subst (λ b. Chain (write q.heap b none) n.next w) (sym front)
              (subst (λ b. Chain (write q.heap a none) b w) (sym to_next)
                (Chain-write q.heap next a none w rest out));
        back = refl;
        apart = λ b i. h.apart b (ground (arith, i));
        alive = λ b i.
            let (n', at_b) = h.alive b i in
            let ne : (b == a) ≡ false = other b a r i (h.apart a (ground arith)) in
            let ne' : (b == p) ≡ false = ground (arith, ne, front) in (n', rw ne' at_b);
        only = λ b i j. elim (Bool-cases (b == p)) [
          | inl e ↦ rw e refl
          | inr e ↦
              let ne : (b == a) ≡ false = ground (arith, e, front) in
              rw e (h.only b (ground (arith, i, ne)) j)
        ];
      },
    )

release_step :
    (fuel p : ℕ) (q : Queue) (n : Node) (q' : Queue)
    → q.heap p ≡ some n
    → (p == 0) ≡ false
    → release p q ≡ some q'
    → release_from (suc fuel) p q ≡ release_from fuel n.next q'
unfolding release_from
release_step fuel p q n q' at_p some_p gives = rw some_p (
    ap (λ c. c >>= λ n. release p q >>= λ s. release_from fuel n.next s) at_p
    ∙ ap (λ c. c >>= λ s. release_from fuel n.next s) gives)

release_from-Holds :
    (fuel p : ℕ) (q : Queue) (w r : Cells)
    → length w ≤ fuel
    → Holds (rest_of p w q) w r
    → (q' : Queue) × (release_from fuel p q ≡ some q')
      × (q'.front ≡ q.front)
      × (q'.back ≡ q.back)
      × Holds (rest_of 0 [] q') [] r
unfolding release_from
release_from-Holds zero p q [] r le h =
    (q, rw h.chain refl, refl, refl, subst (λ b. Holds (rest_of b [] q) [] r) h.chain h)
release_from-Holds (suc fuel) p q [] r le h =
    (q, rw h.chain refl, refl, refl, subst (λ b. Holds (rest_of b [] q) [] r) h.chain h)
release_from-Holds zero p q ((a, m) ∷ w) r le h = absurd (ground (arith, le))
release_from-Holds (suc fuel) p q ((a, m) ∷ w) r le h =
    let (n, at_p, some_p, q', gives, front, back, h') = release_first q p a m w r h in
    let (q'', gives', front', back', h'') =
      release_from-Holds fuel n.next q' w r (ground arith) h' in
    (q'', release_step fuel p q n q' at_p some_p gives ∙ gives', front' ∙ front, back' ∙ back, h'')

-- Nothing waits after `clear`, and what runs is left alone.
pub clear-Holds :
    (fuel : ℕ) (q : Queue) (w r : Cells)
    → length w ≤ fuel
    → Holds q w r
    → (q' : Queue) × (clear fuel q ≡ some q') × Holds q' [] r
unfolding clear
clear-Holds fuel q w r le h =
    let start : Queue = record q { front = 0; back = 0 } in
    let same : Holds (rest_of q.front w start) w r =
      subst (λ b. Holds (record q { back = b }) w r) h.back h in
    let (q', gives, front, back, h') = release_from-Holds fuel q.front start w r le same in
    (
      q',
      gives,
      subst (λ f. Holds (record q' { front = f }) [] r) (sym front)
          (subst (λ b. Holds (record q' { front = 0; back = b }) [] r) (sym back) h'),
    )
