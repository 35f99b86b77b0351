-- ===== src/RingAllocator/Apart.antt =====
-- include/cpph/memory/ring_allocator.hxx: the blocks of the ring do not overlap.
use cppheaders.Prelude.{
  ℕ, ◌+◌, ◌≤◌, ◌⊎◌, refl, List, [], ◌∷◌, ◌++◌, arith, Bool-cases, inl, inr, subst,
}
use mathlib.Core.List.{append-nil}
use cppheaders.RingAllocator.{Ring, Node}
use cppheaders.RingAllocator.Shape.{
  Block, Run, Run-le, live, end_of, Shape, idle, straight, split, Holds,
}

-- Two blocks that share no header and no data.
abbrev pub Apart : Block → Block → Type 0
Apart a b = (end_of a ≤ b.at) ⊎ (end_of b ≤ a.at)

abbrev pub ApartFrom : Block → List Block → Type 0
ApartFrom a [] = Unit {0}
ApartFrom a (b ∷ bs) = Apart a b × ApartFrom a bs

-- The blocks lie within the first `cap` ones of the memory, and no two overlap.
abbrev pub Disjoint : ℕ → List Block → Type 0
Disjoint cap [] = Unit {0}
Disjoint cap (b ∷ bs) = (end_of b ≤ cap) × ApartFrom b bs × Disjoint cap bs

ApartFrom-live : (a : Block) (bs : List Block) → ApartFrom a bs → ApartFrom a (live bs)
unfolding live
ApartFrom-live a [] p = tt
ApartFrom-live a (b ∷ bs) (p, rest) = elim (Bool-cases b.pending) [
  | inl e ↦ rw e (ApartFrom-live a bs rest)
  | inr e ↦ rw e (p, ApartFrom-live a bs rest)
]

Disjoint-live : (cap : ℕ) (bs : List Block) → Disjoint cap bs → Disjoint cap (live bs)
unfolding live
Disjoint-live cap [] d = tt
Disjoint-live cap (b ∷ bs) (top, apart, rest) = elim (Bool-cases b.pending) [
  | inl e ↦ rw e (Disjoint-live cap bs rest)
  | inr e ↦ rw e (top, ApartFrom-live b bs apart, Disjoint-live cap bs rest)
]

-- A block below a run, and below a run above it and above another.
Run-ApartFrom :
    (f : ℕ → Node) (a : Block) (lo : ℕ) (bs : List Block) (hi : ℕ)
    → (end_of a ≤ lo) ⊎ (hi ≤ a.at)
    → Run f lo bs hi
    → ApartFrom a bs
Run-ApartFrom f a lo [] hi out run = tt
Run-ApartFrom f a lo (b ∷ bs) hi out (at, node, rest) =
    let bound = Run-le f (lo + 1 + b.extent) bs hi rest in
    (
      ground (arith, bound, at),
      Run-ApartFrom f a (lo + 1 + b.extent) bs hi (ground (arith, bound)) rest,
    )

ApartFrom-append :
    (a : Block) (xs ys : List Block) → ApartFrom a xs → ApartFrom a ys → ApartFrom a (xs ++ ys)
ApartFrom-append a [] ys p q = q
ApartFrom-append a (x ∷ xs) ys (p, ps) q = (p, ApartFrom-append a xs ys ps q)

Run-Disjoint :
    (f : ℕ → Node) (cap lo : ℕ) (xs : List Block) (hi : ℕ) (ys : List Block) (h : ℕ)
    → hi ≤ cap
    → h ≤ lo
    → Run f lo xs hi
    → Run f 0 ys h
    → Disjoint cap ys
    → Disjoint cap (xs ++ ys)
Run-Disjoint f cap lo [] hi ys h top below run low d = d
Run-Disjoint f cap lo (x ∷ xs) hi ys h top below (at, node, rest) low d =
    let next = lo + 1 + x.extent in
    let bound = Run-le f next xs hi rest in
    (
      omega arith,
      ApartFrom-append x xs ys (Run-ApartFrom f x next xs hi (inl (omega arith)) rest)
          (Run-ApartFrom f x 0 ys h (inr (omega arith)) low),
      Run-Disjoint f cap next xs hi ys h top (omega arith) rest low d,
    )

Shape-Disjoint : (r : Ring) (xs ys : List Block) → Shape r xs ys → Disjoint r.capacity (xs ++ ys)
Shape-Disjoint r xs ys (idle eh et) = tt
Shape-Disjoint r xs ys (straight t h eh et lt top run) =
    Run-Disjoint r.node r.capacity t xs h [] 0 (omega arith) (omega arith) run refl tt
Shape-Disjoint r xs ys (split t h eh et le lt run low) =
    Run-Disjoint r.node r.capacity t xs r.capacity ys h (omega arith) le run low (
      subst (Disjoint r.capacity) (append-nil ys)
        (Run-Disjoint r.node r.capacity 0 ys h [] 0 (omega arith) (omega arith) low refl tt))

-- The blocks that a client holds lie within the memory, and no two of them overlap.
pub Holds-Disjoint : (r : Ring) (held : List Block) → Holds r held → Disjoint r.capacity held
Holds-Disjoint r held (xs, ys, inv, e) =
    subst (Disjoint r.capacity) e
      (Disjoint-live r.capacity (xs ++ ys) (Shape-Disjoint r xs ys inv.shape))
