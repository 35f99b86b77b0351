-- ===== src/RingAllocator/Place.antt =====
-- include/cpph/memory/ring_allocator.hxx: a node that `_allocate_ring` writes, in a ring of each shape.
use cppheaders.Prelude.{
  ℕ, ◌+◌, ◌-◌, ◌^◌, ◌≤◌, ◌<◌, ◌≡◌, refl, ◌∙◌, ap, sym, false, Option, none, some, List, [], ◌∷◌,
  ◌++◌, arith, ◌==◌, if◌then◌else◌, Bool-cases, inl, inr, ==_iff, subst,
}
use mathlib.Core.List.{append-nil, append_assoc}
use native.Mathlib.Nat.{mod-eq_of_lt}
use cppheaders.RingAllocator.{Ring, Node, update, next_node, wrap, place}
use cppheaders.RingAllocator.Shape.{
  Block, node_of, Run, Run-frame, Run-append, live, live-append, live_alive, Shape, straight, split,
  Settled, Holds,
}

abbrev pub block : ℕ → ℕ → Block
block h n = record { at = h; extent = n; pending = false }

-- A node written at the end of a run makes the run longer.
pub Run-snoc :
    (f : ℕ → Node) (lo : ℕ) (bs : List Block) (h : ℕ) (b : Block) (hi : ℕ)
    → Run f lo bs h
    → b.at ≡ h
    → h + 1 + b.extent ≡ hi
    → Run (update f h (node_of b)) lo (bs ++ b ∷ []) hi
Run-snoc f lo bs h b hi run e e' =
    Run-append (update f h (node_of b)) lo bs h (b ∷ []) hi
      (Run-frame f h (node_of b) lo bs h (inr (omega arith)) run)
      (e, rw ((==_iff h h).1 refl) refl, e')

live-snoc : (bs : List Block) (h n : ℕ) → live (bs ++ block h n ∷ []) ≡ live bs ++ block h n ∷ []
unfolding live
live-snoc bs h n = live-append bs (block h n ∷ [])

-- `place` writes a node of `n` blocks and moves the head behind it.
place_fields :
    (r : Ring) (h n : ℕ)
    → n < 2 ^ 60
    → place r h n ≡ record r {
      node = update r.node h (node_of (block h n));
      head = some (if h + 1 + n == r.capacity then 0 else h + 1 + n);
    }
unfolding place wrap next_node
place_fields r h n small = rw (mod-eq_of_lt small, (==_iff h h).1 refl) refl

-- A run that ends at the end of the memory leaves the head at its start.
Shape_up :
    (q : Ring) (t hi : ℕ) (xs : List Block)
    → q.tail ≡ some t
    → q.head ≡ some (if hi == q.capacity then 0 else hi)
    → t < hi
    → hi ≤ q.capacity
    → Run q.node t xs hi
    → Shape q xs []
Shape_up q t hi xs et eh lt le run = elim (Bool-cases (hi == q.capacity)) [
  | inl full ↦
      split t 0 (eh ∙ rw full refl) et (omega arith) (omega arith)
        (subst (Run q.node t xs) ((==_iff _ _).0 full) run) refl
  | inr space ↦ straight t hi (eh ∙ rw space refl) et lt (ground arith) run
]

Settled-snoc : (xs : List Block) (h n : ℕ) → Settled xs → Settled (xs ++ block h n ∷ [])
Settled-snoc [] h n e = refl
Settled-snoc (b ∷ xs) h n e = e

-- The first block is given out.
pub place_idle :
    (r : Ring) (n : ℕ)
    → r.capacity < 2 ^ 60
    → n < r.capacity
    → Holds (place (record r { tail = some 0 }) 0 n) (block 0 n ∷ [])
unfolding live
place_idle r n small lt =
    let run = Run-snoc r.node 0 [] 0 (block 0 n) (0 + 1 + n) refl refl refl in
    subst (λ q. Holds q (block 0 n ∷ []))
      (sym (place_fields (record r { tail = some 0 }) 0 n (omega (arith, small))))
      (
        block 0 n ∷ [],
        [],
        record {
          small = small;
          shape =
              Shape_up _ 0 (0 + 1 + n) (block 0 n ∷ []) refl refl (omega arith) (omega arith) run;
          settled = refl;
        },
        live_alive (block 0 n) [] refl,
      )

-- A block behind the head, which is above the tail.
pub place_straight :
    (r : Ring) (t h n : ℕ) (xs : List Block)
    → r.capacity < 2 ^ 60
    → r.tail ≡ some t
    → t < h
    → h + 1 + n ≤ r.capacity
    → Run r.node t xs h
    → Settled xs
    → Holds (place r h n) (live xs ++ block h n ∷ [])
place_straight r t h n xs small et lt le run settled =
    subst (λ q. Holds q (live xs ++ block h n ∷ []))
      (sym (place_fields r h n (omega (arith, small))))
      (
        xs ++ block h n ∷ [],
        [],
        record {
          small = small;
          shape =
              Shape_up _ t (h + 1 + n) (xs ++ block h n ∷ []) et refl (omega arith) le
                (Run-snoc r.node t xs h (block h n) (h + 1 + n) run refl refl);
          settled = Settled-snoc xs h n settled;
        },
        ap live (append-nil (xs ++ block h n ∷ [])) ∙ live-snoc xs h n,
      )

-- A block between the head and the tail above it.
pub place_split :
    (r : Ring) (t h n : ℕ) (xs ys : List Block)
    → r.capacity < 2 ^ 60
    → r.tail ≡ some t
    → h + 1 + n ≤ t
    → t < r.capacity
    → Run r.node t xs r.capacity
    → Run r.node 0 ys h
    → Settled xs
    → Holds (place r h n) (live (xs ++ ys) ++ block h n ∷ [])
place_split r t h n xs ys small et le lt run low settled =
    let inside : (h + 1 + n == r.capacity) ≡ false = ground arith in
    subst (λ q. Holds q (live (xs ++ ys) ++ block h n ∷ []))
      (sym (place_fields r h n (omega (arith, small))))
      (
        xs,
        ys ++ block h n ∷ [],
        record {
          small = small;
          shape =
              split t (h + 1 + n) (rw inside refl) et le lt
                (Run-frame r.node h (node_of (block h n)) t xs r.capacity (inl (omega arith)) run)
                (Run-snoc r.node 0 ys h (block h n) (h + 1 + n) low refl refl);
          settled = settled;
        },
        ap live (sym (append_assoc xs ys (block h n ∷ []))) ∙ live-snoc (xs ++ ys) h n,
      )

-- What `_allocate_ring` answers for `n` blocks when the client holds `held`: a null pointer, and
-- the client holds the same; or the address of a new block of `n` blocks, which it holds besides.
abbrev pub Answers : List Block → ℕ → Option ℕ → Ring → Type 0
Answers held n none q = Holds q held
Answers held n (some p) q = (0 < p) × Holds q (held ++ block (p - 1) n ∷ [])
