-- ===== src/RingAllocator/Trace.antt =====
-- include/cpph/memory/ring_allocator.hxx over any history of calls of a client that frees what it
-- holds.
use cppheaders.Prelude.{
  ℕ, ◌-◌, ◌^◌, ◌<◌, ◌≡◌, refl, ◌∙◌, sym, Option, none, some, List, [], ◌++◌, ◌∷◌, arith, subst,
  true, false, ap,
}
use cppheaders.RingAllocator.{
  Ring, make, allocate_ring, deallocate, is_empty, node_size_ceil, node_size_floor,
}
use cppheaders.RingAllocator.Shape.{Block, Holds, In, drop_at, Holds-nil, idle, live}
use cppheaders.RingAllocator.Apart.{Disjoint, Holds-Disjoint}
use cppheaders.RingAllocator.Deallocate.{deallocate-Holds}
use cppheaders.RingAllocator.Allocate.{Answered, allocate_ring-Holds}
use cppheaders.RingAllocator.Place.{block, Answers}

-- One call, of a client that holds `held` before it and `held'` after it.
pub data Step (r : Ring) (held : List Block) : Ring → List Block → Type 0 where
  refused : {q : Ring} (n : ℕ) → allocate_ring r n ≡ some (none, q) → Step r held q held
  given :
      {q : Ring} (n p : ℕ)
      → allocate_ring r n ≡ some (some p, q)
      → Step r held q (held ++ block (p - 1) (node_size_ceil n) ∷ [])
  freed :
      {q : Ring} (p : ℕ)
      → 0 < p
      → In (p - 1) held
      → deallocate r p ≡ some q
      → Step r held q (drop_at (p - 1) held)

-- What a history of calls leads to from a ring that nobody has used.
pub data Reach (r : Ring) : Ring → List Block → Type 0 where
  start : Reach r r []
  next :
      {s t : Ring} {held held' : List Block}
      → Reach r s held
      → Step s held t held'
      → Reach r t held'

-- `Answers`, read off a result.
abbrev AnswersOf : List Block → ℕ → Option (Option ℕ × Ring) → Type 0
AnswersOf held n none = Unit {0}
AnswersOf held n (some (out, q)) = Answers held n out q

answered :
    (held : List Block) (n : ℕ) (result : Option (Option ℕ × Ring)) (out : Option ℕ) (q : Ring)
    → Answered held n result
    → result ≡ some (out, q)
    → Answers held n out q
answered held n result out q (out', q', e', a) e = subst (AnswersOf held n) (sym e' ∙ e) a

abbrev HoldsOf : List Block → Option Ring → Type 0
HoldsOf held none = Unit {0}
HoldsOf held (some q) = Holds q held

Step-Holds :
    {r q : Ring} {held held' : List Block} → Step r held q held' → Holds r held → Holds q held'
Step-Holds {r} {q} {held} (refused n e) h =
    answered held (node_size_ceil n) (allocate_ring r n) none q (allocate_ring-Holds r held n h) e
Step-Holds {r} {q} {held} (given n p e) h =
    (answered held (node_size_ceil n) (allocate_ring r n) (some p) q
      (allocate_ring-Holds r held n h) e).1
Step-Holds {r} {q} {held} (freed p pos inside e) h =
    let (q', e', a) = deallocate-Holds r held p h pos inside in
    subst (HoldsOf (drop_at (p - 1) held)) (sym e' ∙ e) a

make-Holds : (size : ℕ) (r : Ring) → size < 2 ^ 63 → make size ≡ some r → Holds r []
unfolding make node_size_floor live
make-Holds size r small e = (
  [],
  [],
  record {
    small = ground (arith, e);
    shape = idle (ground (arith, e)) (ground (arith, e));
    settled = tt;
  },
  refl,
)

Reach-Holds : {r s : Ring} {held : List Block} → Holds r [] → Reach r s held → Holds s held
Reach-Holds h start = h
Reach-Holds h (next path st) = Step-Holds st (Reach-Holds h path)

-- However the client allocates and frees on a ring that it made of less than `2 ^ 63` bytes, the
-- blocks that it holds lie within the memory of the ring and never overlap.
pub Reach-Disjoint :
    {r s : Ring} {held : List Block} (size : ℕ)
    → size < 2 ^ 63
    → make size ≡ some r
    → Reach r s held
    → Disjoint s.capacity held
Reach-Disjoint {r} {s} {held} size small e path =
    Holds-Disjoint s held (Reach-Holds (make-Holds size r small e) path)

-- When the client holds no block of the ring that it made of less than `2 ^ 63` bytes, after any
-- history, the ring is empty.
pub Reach-is_empty :
    {r s : Ring} (size : ℕ) → size < 2 ^ 63 → make size ≡ some r → Reach r s [] → is_empty s ≡ true
unfolding is_empty
Reach-is_empty {r} {s} size small e path =
    ap (λ h. elim h [ none ↦ true | some _ ↦ false ])
      (Holds-nil s (Reach-Holds (make-Holds size r small e) path))
