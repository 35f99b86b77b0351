-- ===== src/EventQueue/Chain.antt =====
-- include/cpph/thread/event_queue.hxx: the nodes that wait, as a chain from the front to the back.
use cppheaders.Prelude.{
  ℕ, ◌≡◌, refl, ap, sym, ◌∙◌, Bool, true, false, ◌||◌, Option, none, some, List, [], ◌∷◌, ◌++◌,
  arith, ◌==◌, Bool-cases, inl, inr,
}
use cppheaders.EventQueue.{Node, Heap, write}

-- Address and message of each node, the oldest first.
abbrev pub Cells : Type 0
Cells = List (ℕ × ℕ)

abbrev pub has : ℕ → Cells → Bool
has a [] = false
has a ((p, m) ∷ xs) = (a == p) || has a xs

abbrev pub last : Cells → ℕ
last [] = 0
last ((p, m) ∷ []) = p
last ((p, m) ∷ (x ∷ xs)) = last (x ∷ xs)

-- At `p` stands a node of the message `m`, before `next`.
abbrev pub Points : Heap → ℕ → ℕ → ℕ → Type 0
Points h p m next = (n : Node) × (h p ≡ some n) × (n.message ≡ m) × (n.next ≡ next)

-- From `p` the `next` pointers lead through the distinct nodes to null.
abbrev pub Chain : Heap → ℕ → Cells → Type 0
Chain h p [] = p ≡ 0
Chain h p ((a, m) ∷ xs) =
    (p ≡ a) × ((a == 0) ≡ false) × (has a xs ≡ false) × (q : ℕ) × Points h a m q × Chain h q xs

pub write_self : (h : Heap) (p : ℕ) (c : Option Node) → write h p c p ≡ c
unfolding write
write_self h p c = ground arith

pub write_other :
    (h : Heap) (p : ℕ) (c : Option Node) (a : ℕ) → (a == p) ≡ false → write h p c a ≡ h a
unfolding write
write_other h p c a e = rw e refl

-- A chain survives a write beside it.
pub Chain-write :
    (h : Heap) (p a : ℕ) (c : Option Node) (xs : Cells)
    → Chain h p xs
    → has a xs ≡ false
    → Chain (write h a c) p xs
Chain-write h p a c [] e out = e
Chain-write h p a c ((x, m) ∷ xs) (e, some_x, apart, q, (n, at_x, msg, next), rest) out =
    let other : (x == a) ≡ false = ground arith in
    (
      e,
      some_x,
      apart,
      q,
      (n, write_other h a c x other ∙ at_x, msg, next),
      Chain-write h q a c xs rest (ground arith),
    )

pub has-append : (a : ℕ) (xs ys : Cells) → has a (xs ++ ys) ≡ (has a xs || has a ys)
has-append a [] ys = refl
has-append a ((x, m) ∷ xs) ys = ground (arith, has-append a xs ys)

pub last-has : (x : ℕ × ℕ) (xs : Cells) → has (last (x ∷ xs)) (x ∷ xs) ≡ true
last-has (p, m) [] = ground arith
last-has (p, m) (y ∷ ys) = ground (arith, last-has y ys)

ne_last :
    (a b : ℕ) (x : ℕ × ℕ) (xs : Cells)
    → has a (x ∷ xs) ≡ false
    → last (x ∷ xs) ≡ b
    → (a == b) ≡ false
ne_last a b x xs out back = elim (Bool-cases (a == b)) [
  | inl e ↦
      let same : a ≡ last (x ∷ xs) = ground (arith, e, back) in
      absurd (ground (arith, ap (λ c. has c (x ∷ xs)) same, last-has x xs))
  | inr e ↦ e
]

abbrev pub message_of : Option Node → ℕ
message_of none = 0
message_of (some n) = n.message

-- The last node of a chain that is not empty is relinked to a new one.
pub Chain-snoc :
    (h : Heap) (p a m b : ℕ) (x : ℕ × ℕ) (xs : Cells) (n : Node)
    → Chain h p (x ∷ xs)
    → (a == 0) ≡ false
    → has a (x ∷ xs) ≡ false
    → last (x ∷ xs) ≡ b
    → h b ≡ some n
    → Points h a m 0
    → Chain (write h b (some (record n { next = a }))) p (x ∷ xs ++ (a, m) ∷ [])
Chain-snoc h p a m b (x, k) [] n (e, some_x, apart, q, (n', at_x, msg, next), rest) some_a out back
      at_b (new, at_a, new_msg, end) =
    let c : Option Node = some (record n { next = a }) in
    let same : some n' ≡ some n = sym at_x ∙ ap h back ∙ at_b in
    let other : (a == b) ≡ false = ne_last a b (x, k) [] out back in
    (
      e,
      some_x,
      ground (arith, out),
      a,
      (
        record n { next = a },
        ap (write h b c) back ∙ write_self h b c,
        ap message_of (sym same) ∙ msg,
        refl,
      ),
      (refl, some_a, refl, 0, (new, write_other h b c a other ∙ at_a, new_msg, end), refl),
    )
Chain-snoc h p a m b (x, k) (y ∷ ys) n (e, some_x, apart, q, (n', at_x, msg, next), rest) some_a out
      back at_b new =
    let c : Option Node = some (record n { next = a }) in
    let other : (x == b) ≡ false = ne_last x b y ys apart back in
    (
      e,
      some_x,
      has-append x (y ∷ ys) ((a, m) ∷ []) ∙ ground (arith, out, apart),
      q,
      (n', write_other h b c x other ∙ at_x, msg, next),
      Chain-snoc h q a m b y ys n rest some_a (ground (arith, out)) back at_b new,
    )

-- The last node of a chain stands in the heap.
pub last_node :
    (h : Heap) (p : ℕ) (x : ℕ × ℕ) (xs : Cells)
    → Chain h p (x ∷ xs)
    → (n : Node) × (h (last (x ∷ xs)) ≡ some n) × ((last (x ∷ xs) == 0) ≡ false)
last_node h p (a, m) [] (e, some_a, apart, q, (n, at_a, msg, next), rest) = (n, at_a, some_a)
last_node h p (a, m) (y ∷ ys) (e, some_a, apart, q, at_a, rest) = last_node h q y ys rest

-- What a chain passes stands in the heap.
pub Chain-has :
    (h : Heap) (p a : ℕ) (xs : Cells) → Chain h p xs → has a xs ≡ true → (n : Node) × (h a ≡ some n)
Chain-has h p a [] c e = absurd (ground arith)
Chain-has h p a ((x, m) ∷ xs) (e, some_x, apart, q, (n, at_x, msg, next), rest) i =
    elim (Bool-cases (a == x)) [
      | inl s ↦ (n, ap h {x = a} {y = x} (ground arith) ∙ at_x)
      | inr s ↦ Chain-has h q a xs rest (ground (arith, s, i))
    ]
