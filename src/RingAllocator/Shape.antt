-- ===== src/RingAllocator/Shape.antt =====
-- include/cpph/memory/ring_allocator.hxx: the nodes of the ring as lists of blocks.
use cppheaders.Prelude.{
  ℕ, ◌+◌, ◌^◌, ◌≤◌, ◌<◌, ◌≡◌, ◌⊎◌, refl, Bool, true, false, none, some, List, [], ◌∷◌, ◌++◌, arith,
  ◌==◌, if◌then◌else◌, inl, inr,
}
use cppheaders.RingAllocator.{Ring, Node, update}

-- A node's place, size and mark. Its data stands at `at + 1`.
pub record Block : Type 0 where
  pub at : ℕ
  pub extent : ℕ
  pub pending : Bool

abbrev pub node_of : Block → Node
node_of b = record { pending_kill = b.pending; fallback_allocated = false; extent = b.extent }

-- The nodes from `lo` up to `hi`, with no gap between them.
abbrev pub Run : (ℕ → Node) → ℕ → List Block → ℕ → Type 0
Run f lo [] hi = lo ≡ hi
Run f lo (b ∷ bs) hi = (b.at ≡ lo) × (f lo ≡ node_of b) × Run f (lo + 1 + b.extent) bs hi

-- The blocks that the client holds.
unfoldable pub live : List Block → List Block
live [] = []
live (b ∷ bs) = if b.pending then live bs else b ∷ live bs

abbrev pub end_of : Block → ℕ
end_of b = b.at + 1 + b.extent

pub Run-le : (f : ℕ → Node) (lo : ℕ) (bs : List Block) (hi : ℕ) → Run f lo bs hi → lo ≤ hi
Run-le f lo [] hi r = omega (arith, r)
Run-le f lo (b ∷ bs) hi r = omega (arith, Run-le f (lo + 1 + b.extent) bs hi r.2)

-- A write outside the run changes no node of it.
pub Run-frame :
    (f : ℕ → Node) (x : ℕ) (v : Node) (lo : ℕ) (bs : List Block) (hi : ℕ)
    → (x < lo) ⊎ (hi ≤ x)
    → Run f lo bs hi
    → Run (update f x v) lo bs hi
Run-frame f x v lo [] hi out r = r
Run-frame f x v lo (b ∷ bs) hi out r =
    let bound = Run-le f (lo + 1 + b.extent) bs hi r.2 in
    let other : (x == lo) ≡ false = ground (arith, bound) in
    (r.0, rw other (r.1), Run-frame f x v (lo + 1 + b.extent) bs hi (ground (arith, bound)) r.2)

pub Run-append :
    (f : ℕ → Node) (lo : ℕ) (xs : List Block) (mid : ℕ) (bs : List Block) (hi : ℕ)
    → Run f lo xs mid
    → Run f mid bs hi
    → Run f lo (xs ++ bs) hi
Run-append f lo [] mid bs hi r s = rw r s
Run-append f lo (a ∷ xs) mid bs hi r s =
    (r.0, r.1, Run-append f (lo + 1 + a.extent) xs mid bs hi r.2 s)

abbrev pub mark : ℕ → List Block → List Block
mark x [] = []
mark x (b ∷ bs) =
    record { at = b.at; extent = b.extent; pending = if x == b.at then true else b.pending }
    ∷ mark x bs

-- Setting `pending_kill` in one header.
abbrev pub kill : (ℕ → Node) → ℕ → ℕ → Node
kill f x = update f x (record (f x) { pending_kill = true })

pub Run-mark :
    (f : ℕ → Node) (x lo : ℕ) (bs : List Block) (hi : ℕ)
    → Run f lo bs hi
    → Run (kill f x) lo (mark x bs) hi
Run-mark f x lo [] hi r = r
Run-mark f x lo (b ∷ bs) hi (e, node, rest) =
    (e, ground (arith, e, node), Run-mark f x (lo + 1 + b.extent) bs hi rest)

pub live-append : (xs bs : List Block) → live (xs ++ bs) ≡ live xs ++ live bs
unfolding live
live-append [] bs = refl
live-append (a ∷ xs) bs = ground (arith, live-append xs bs)

-- The nodes in order of their age, oldest first: those of the run from the tail, `xs`, then those
-- of the run from the start of the memory, `ys`.
pub data Shape (r : Ring) : List Block → List Block → Type 0 where
  idle : r.head ≡ none → r.tail ≡ none → Shape r [] []
  straight :
      {xs : List Block} (t h : ℕ)
      → r.head ≡ some h
      → r.tail ≡ some t
      → t < h
      → h < r.capacity
      → Run r.node t xs h
      → Shape r xs []
  split :
      {xs ys : List Block} (t h : ℕ)
      → r.head ≡ some h
      → r.tail ≡ some t
      → h ≤ t
      → t < r.capacity
      → Run r.node t xs r.capacity
      → Run r.node 0 ys h
      → Shape r xs ys

-- The oldest node is not a dead one.
abbrev pub Settled : List Block → Type 0
Settled [] = Unit {0}
Settled (b ∷ bs) = b.pending ≡ false

-- What holds between two calls: the ring has the given nodes, and the oldest is alive.
pub record Inv (r : Ring) (xs ys : List Block) : Type 0 where
  pub small : r.capacity < 2 ^ 60
  pub shape : Shape r xs ys
  pub settled : Settled xs

pub live_dead : (b : Block) (bs : List Block) → b.pending ≡ true → live (b ∷ bs) ≡ live bs
unfolding live
live_dead b bs e = rw e refl

pub live_alive : (b : Block) (bs : List Block) → b.pending ≡ false → live (b ∷ bs) ≡ b ∷ live bs
unfolding live
live_alive b bs e = rw e refl

-- Some block of the list stands at `x`.
abbrev pub In : ℕ → List Block → Type 0
In x [] = ⊥
In x (b ∷ bs) = (b.at ≡ x) ⊎ In x bs

pub In-append : (x : ℕ) (xs ys : List Block) → In x (xs ++ ys) → In x xs ⊎ In x ys
In-append x [] ys h = inr h
In-append x (b ∷ xs) ys (inl e) = inl (inl e)
In-append x (b ∷ xs) ys (inr h) = elim (In-append x xs ys h) [ inl u ↦ inl (inr u) | inr v ↦ inr v ]

pub In-live : (x : ℕ) (bs : List Block) → In x (live bs) → In x bs
unfolding live
In-live x [] h = h
In-live x (b ∷ bs) h = ground (arith, In-live x bs)

pub Run-In :
    (f : ℕ → Node) (x lo : ℕ) (bs : List Block) (hi : ℕ)
    → Run f lo bs hi
    → In x bs
    → (x < hi) × (lo ≤ x)
Run-In f x lo [] hi r h = absurd h
Run-In f x lo (b ∷ bs) hi r (inl e) =
    let bound = Run-le f (lo + 1 + b.extent) bs hi r.2 in (omega arith, omega arith)
Run-In f x lo (b ∷ bs) hi r (inr h) =
    let later = Run-In f x (lo + 1 + b.extent) bs hi r.2 h in (later.0, omega arith)

-- The blocks but those at `x`.
unfoldable pub drop_at : ℕ → List Block → List Block
drop_at x [] = []
drop_at x (b ∷ bs) = if x == b.at then drop_at x bs else b ∷ drop_at x bs

pub live-mark : (x : ℕ) (bs : List Block) → live (mark x bs) ≡ drop_at x (live bs)
unfolding live drop_at
live-mark x [] = refl
live-mark x (b ∷ bs) = ground (arith, live-mark x bs)

-- The client holds the blocks `held`, in the order of their allocation.
abbrev pub Holds : Ring → List Block → Type 0
Holds r held = (xs : List Block) × (ys : List Block) × Inv r xs ys × (live (xs ++ ys) ≡ held)

-- When the client holds nothing, the ring is empty: no dead node stays behind.
pub Holds-nil : (r : Ring) → Holds r [] → r.head ≡ none
unfolding live
Holds-nil r (xs, ys, inv, e) = empty xs ys inv.shape inv.settled e
  where
    empty : (us vs : List Block) → Shape r us vs → Settled us → live (us ++ vs) ≡ [] → r.head ≡ none
    empty us vs (idle eh et) s l = eh
    empty [] vs (straight t h eh et lt top run) s l = absurd (omega (arith, run))
    empty (b ∷ us) vs (straight t h eh et lt top run) s l = absurd (ground (arith, s, l))
    empty [] vs (split t h eh et le lt run low) s l = absurd (omega (arith, run))
    empty (b ∷ us) vs (split t h eh et le lt run low) s l = absurd (ground (arith, s, l))
