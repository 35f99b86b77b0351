-- ===== src/EventQueue/Holds.antt =====
-- include/cpph/thread/event_queue.hxx: the nodes that wait and those whose messages run, through each
-- step of the queue.
use cppheaders.Prelude.{
  ℕ, ◌≡◌, refl, ap, sym, subst, ◌∙◌, Bool, true, false, not, ◌&&◌, ◌||◌, none, some, [], ◌∷◌, ◌++◌,
  arith, ◌==◌, if◌then◌else◌, Bool-cases, inl, inr,
}
use cppheaders.EventQueue.{Node, Heap, write, Queue, make, push_event, pop_event, release}
use cppheaders.EventQueue.Chain.{
  Cells, has, last, Chain, write_self, Chain-write, has-append, Chain-snoc, last_node, Chain-has,
  last-has,
}

-- The nodes of `waiting` are chained from the front to the back; those of `running` are other nodes; and
-- there are no others.
pub record Holds (q : Queue) (waiting running : Cells) : Type 0 where
  pub chain : Chain q.heap q.front waiting
  pub back : q.back ≡ last waiting
  pub apart : (a : ℕ) → has a waiting ≡ true → has a running ≡ false
  pub alive : (a : ℕ) → has a running ≡ true → (n : Node) × (q.heap a ≡ some n)
  pub only : (a : ℕ) → has a waiting ≡ false → has a running ≡ false → q.heap a ≡ none

pub make-Holds : Holds make [] []
unfolding make
make-Holds = record {
  chain = refl;
  back = refl;
  apart = λ a h. ground arith;
  alive = λ a h. absurd (ground arith);
  only = λ a h h'. refl;
}

-- An address at which no node stands is none of the nodes.
fresh-apart :
    (q : Queue) (w r : Cells) (p : ℕ)
    → Holds q w r
    → q.heap p ≡ none
    → (has p w ≡ false) × (has p r ≡ false)
fresh-apart q w r p h fresh = (
  elim (Bool-cases (has p w)) [
    | inl e ↦
        let (n, at) = Chain-has q.heap q.front p w h.chain e in absurd (ground (arith, fresh, at))
    | inr e ↦ e
  ],
  elim (Bool-cases (has p r)) [
    | inl e ↦ let (n, at) = h.alive p e in absurd (ground (arith, fresh, at))
    | inr e ↦ e
  ],
)

has-snoc : (a : ℕ) (w : Cells) (p m : ℕ) → has a (w ++ (p, m) ∷ []) ≡ (has a w || (a == p))
has-snoc a w p m = has-append a w ((p, m) ∷ []) ∙ ground arith

last-snoc : (w : Cells) (p m : ℕ) → last (w ++ (p, m) ∷ []) ≡ p
last-snoc [] p m = refl
last-snoc ((a, k) ∷ []) p m = refl
last-snoc ((a, k) ∷ (y ∷ ys)) p m = last-snoc (y ∷ ys) p m

-- Of two addresses one of which is among the cells, and the other is not.
pub other : (a b : ℕ) (r : Cells) → has a r ≡ true → has b r ≡ false → (a == b) ≡ false
other a b r i out = elim (Bool-cases (a == b)) [
  | inl e ↦ absurd (ground (arith, i, out, ap (λ c. has c r) {x = a} {y = b} (ground (arith, e))))
  | inr e ↦ e
]

sym_other : (a b : ℕ) (r : Cells) → has a r ≡ true → has b r ≡ false → (b == a) ≡ false
sym_other a b r i out = ground (arith, other a b r i out)

-- A node is chained behind the others.
pub push_event-Holds :
    (q : Queue) (w r : Cells) (p m : ℕ) (flag : Bool)
    → Holds q w r
    → (p == 0) ≡ false
    → q.heap p ≡ none
    → (q' : Queue) × (push_event p (record q {
      heap = write q.heap p (some (record { next = 0; is_ring_allocated = flag; message = m }));
    })
        ≡ some q')
      × Holds q' (w ++ (p, m) ∷ []) r
unfolding push_event write
push_event-Holds q [] r p m flag h some_p fresh =
    let node : Node = record { next = 0; is_ring_allocated = flag; message = m } in
    let g : Heap = write q.heap p (some node) in
    let (out, out_r) = fresh-apart q [] r p h fresh in
    (
      record q { heap = g; back = p; front = p },
      rw (h.back, h.chain) refl,
      record {
        chain = (refl, some_p, refl, 0, (node, write_self q.heap p (some node), refl, refl), refl);
        back = refl;
        apart = λ a i. elim (Bool-cases (a == p)) [
          | inl e ↦ ap (λ c. has c r) {x = a} {y = p} (ground (arith, e)) ∙ out_r
          | inr e ↦ absurd (ground (arith, i, e))
        ];
        alive = λ a i. elim (Bool-cases (a == p)) [
          | inl e ↦ (node, rw e refl)
          | inr e ↦ let (n, at_a) = h.alive a i in (n, rw e at_a)
        ];
        only = λ a i j. elim (Bool-cases (a == p)) [
          | inl e ↦ absurd (ground (arith, i, e))
          | inr e ↦ rw e (h.only a refl j)
        ];
      },
    )
push_event-Holds q ((x, k) ∷ xs) r p m flag h some_p fresh =
    let w : Cells = (x, k) ∷ xs in
    let node : Node = record { next = 0; is_ring_allocated = flag; message = m } in
    let g : Heap = write q.heap p (some node) in
    let (out, out_r) = fresh-apart q w r p h fresh in
    let chained : Chain g q.front w = Chain-write q.heap q.front p (some node) w h.chain out in
    let (n, at_back, some_back) = last_node g q.front (x, k) xs chained in
    let b : ℕ = last w in
    let linked : Heap = write g b (some (record n { next = p })) in
    let front_some : (q.front == 0) ≡ false = ap (λ a. a == 0) h.chain.0 ∙ h.chain.1 in
    let in_w : has b w ≡ true = last-has (x, k) xs in
    (
      record q { heap = linked; back = p },
      rw (h.back, some_back, at_back, front_some) refl,
      record {
        chain =
            Chain-snoc g q.front p m b (x, k) xs n chained some_p out refl at_back
              (node, write_self q.heap p (some node), refl, refl);
        back = sym (last-snoc w p m);
        apart = λ a i. elim (Bool-cases (has a w)) [
          | inl e ↦ h.apart a e
          | inr e ↦
              ap (λ c. has c r) {x = a} {y = p} (ground (arith, i, e, has-snoc a w p m)) ∙ out_r
        ];
        alive = λ a i.
            let (n', at_a) = h.alive a i in
            let not_p : (a == p) ≡ false = other a p r i out_r in
            let not_b : (a == b) ≡ false = other a b r i (h.apart b in_w) in
            (n', rw (not_b, not_p) at_a);
        only = λ a i j.
            let outside : (has a w || (a == p)) ≡ false = sym (has-snoc a w p m) ∙ i in
            let not_p : (a == p) ≡ false = ground (arith, outside) in
            let not_w : has a w ≡ false = ground (arith, outside) in
            let not_b : (a == b) ≡ false = sym_other b a w in_w not_w in
            rw (not_b, not_p) (h.only a not_w j);
      },
    )

popped_back :
    (f b a m : ℕ) (w : Cells)
    → f ≡ a
    → b ≡ last ((a, m) ∷ w)
    → has a w ≡ false
    → (if f == b then 0 else b) ≡ last w
popped_back f b a m [] front back out = let e : (f == b) ≡ true = ground arith in rw e refl
popped_back f b a m (y ∷ ys) front back out =
    let ne : (last (y ∷ ys) == a) ≡ false = other (last (y ∷ ys)) a (y ∷ ys) (last-has y ys) out in
    let e : (f == b) ≡ false = ground (arith, ne, front, back) in rw e back

-- The oldest node is taken.
pub pop_event-Holds :
    (q : Queue) (a m : ℕ) (w r : Cells)
    → Holds q ((a, m) ∷ w) r
    → (q' : Queue) × (pop_event q ≡ some (a, q')) × Holds q' w ((a, m) ∷ r)
unfolding pop_event
pop_event-Holds q a m w r h =
    let (front, some_a, out, next, (n, at_a, msg, to_next), rest) = h.chain in
    let front_some : (q.front == 0) ≡ false = ap (λ a. a == 0) front ∙ some_a in
    let at_front : q.heap q.front ≡ some n = ap q.heap front ∙ at_a in
    (
      record q { front = n.next; back = if q.front == q.back then 0 else q.back },
      rw (front_some, at_front)
          (ap
            (λ p.
              some (p, record q { front = n.next; back = if q.front == q.back then 0 else q.back }))
            front),
      record {
        chain = subst (λ p. Chain q.heap p w) (sym to_next) rest;
        back = popped_back q.front q.back a m w front h.back out;
        apart = λ b i.
            let ne : (b == a) ≡ false = other b a w i out in
            let beside : has b r ≡ false = h.apart b (ground (arith, i)) in rw (ne, beside) refl;
        alive = λ b i. elim (Bool-cases (b == a)) [
          | inl e ↦ (n, ap q.heap {x = b} {y = a} (ground (arith, e)) ∙ at_a)
          | inr e ↦ h.alive b (ground (arith, i, e))
        ];
        only = λ b i j. h.only b (ground (arith, i, j)) (ground (arith, i, j));
      },
    )

-- The cells but those at an address.
abbrev pub without : ℕ → Cells → Cells
without a [] = []
without a ((p, m) ∷ xs) = if p == a then without a xs else (p, m) ∷ without a xs

has-without : (b a : ℕ) (r : Cells) → has b (without a r) ≡ (has b r && not (b == a))
has-without b a [] = refl
has-without b a ((p, m) ∷ r) = elim (Bool-cases (p == a)) [
  | inl e ↦ rw e (has-without b a r ∙ ground (arith, e))
  | inr e ↦ rw e (ground (arith, e, has-without b a r))
]

-- The node of a message that has run is given back.
pub release-Holds :
    (q : Queue) (p : ℕ) (w r : Cells)
    → Holds q w r
    → has p r ≡ true
    → (q' : Queue) × (release p q ≡ some q')
      × Holds q' w (without p r)
      × (q'.front ≡ q.front)
      × (q'.back ≡ q.back)
unfolding release write
release-Holds q p w r h i =
    let (n, at_p) = h.alive p i in
    let out : has p w ≡ false = elim (Bool-cases (has p w)) [
      | inl e ↦ absurd (ground (arith, i, h.apart p e))
      | inr e ↦ e
    ] in
    (
      record q { heap = write q.heap p none; given_back = (p, n.is_ring_allocated) ∷ q.given_back },
      rw at_p refl,
      record {
        chain = Chain-write q.heap q.front p none w h.chain out;
        back = h.back;
        apart = λ a j. has-without a p r ∙ ground (arith, h.apart a j);
        alive = λ a j.
            let both : (has a r && not (a == p)) ≡ true = sym (has-without a p r) ∙ j in
            let (n', at_a) = h.alive a (ground (arith, both)) in
            let ne : (a == p) ≡ false = ground (arith, both) in (n', rw ne at_a);
        only = λ a j k. elim (Bool-cases (a == p)) [
          | inl e ↦ rw e refl
          | inr e ↦
              let gone : (has a r && not (a == p)) ≡ false = sym (has-without a p r) ∙ k in
              rw e (h.only a j (ground (arith, gone, e)))
        ];
      },
      refl,
      refl,
    )
