-- ===== src/RingAllocator/Deallocate.antt =====
-- include/cpph/memory/ring_allocator.hxx: `deallocate` of a block that is held.
use cppheaders.Prelude.{
  ℕ, suc, ◌+◌, ◌-◌, ◌^◌, ◌≤◌, ◌<◌, ◌≡◌, refl, ◌∙◌, ap, sym, true, false, some, List, [], ◌∷◌, ◌++◌,
  arith, ltb, length, inl, inr, length-append, assert, not, ◌&&◌, subst, lt→ltb, >>=-some,
}
use mathlib.Core.List.{append-nil}
use cppheaders.RingAllocator.{Ring, Node, deallocate, is_empty}
use cppheaders.RingAllocator.Shape.{
  Block, Run, Run-mark, live, mark, In, drop_at, live-mark, In-live, In-append, Holds, Run-In, kill,
  Shape, idle, straight, split,
}
use cppheaders.RingAllocator.Flush.{flush_ring-Flushed}

Shape-mark :
    (r : Ring) (x : ℕ) (xs ys : List Block)
    → Shape r xs ys
    → Shape (record r { node = kill r.node x }) (mark x xs) (mark x ys)
Shape-mark r x xs ys (idle eh et) = idle eh et
Shape-mark r x xs ys (straight t h eh et lt small run) =
    straight t h eh et lt small (Run-mark r.node x t xs h run)
Shape-mark r x xs ys (split t h eh et le lt run low) =
    split t h eh et le lt (Run-mark r.node x t xs r.capacity run) (Run-mark r.node x 0 ys h low)

mark-append : (x : ℕ) (xs ys : List Block) → mark x (xs ++ ys) ≡ mark x xs ++ mark x ys
mark-append x [] ys = refl
mark-append x (b ∷ xs) ys = rw (mark-append x xs ys) refl

length-mark : (x : ℕ) (xs : List Block) → length (mark x xs) ≡ length xs
length-mark x [] = refl
length-mark x (b ∷ xs) = ap suc (length-mark x xs)

-- A run has at most as many nodes as blocks.
Run-length :
    (f : ℕ → Node) (lo : ℕ) (bs : List Block) (hi : ℕ) → Run f lo bs hi → lo + length bs ≤ hi
Run-length f lo [] hi r = omega (arith, r)
Run-length f lo (b ∷ bs) hi r = omega (arith, Run-length f (lo + 1 + b.extent) bs hi r.2)

Shape-length : (r : Ring) (xs ys : List Block) → Shape r xs ys → length (xs ++ ys) ≤ r.capacity
Shape-length r xs ys (idle eh et) = omega arith
Shape-length r xs ys (straight t h eh et lt small run) =
    omega (arith, length-append xs [], Run-length r.node t xs h run)
Shape-length r xs ys (split t h eh et le lt run low) = omega (
  arith,
  length-append xs ys,
  Run-length r.node t xs r.capacity run,
  Run-length r.node 0 ys h low,
)

Shape-In :
    (r : Ring) (x : ℕ) (xs ys : List Block)
    → Shape r xs ys
    → In x (xs ++ ys)
    → (x < r.capacity) × (is_empty r ≡ false)
unfolding is_empty
Shape-In r x xs ys (idle eh et) (inside) = absurd inside
Shape-In r x xs ys (straight t h eh et lt small run) inside =
    let (below, _) = Run-In r.node x t xs h run (subst (In x) (append-nil xs) inside) in
    (omega arith, ground (arith, eh))
Shape-In r x xs ys (split t h eh et le lt run low) inside = (
  elim (In-append x xs ys inside) [
    | inl upper ↦ (Run-In r.node x t xs r.capacity run upper).0
    | inr lower ↦ let (below, _) = Run-In r.node x 0 ys h low lower in omega arith
  ],
  ground (arith, eh),
)

-- `deallocate` of a block that the client holds neither asserts nor runs on; then the client holds
-- the other blocks.
pub deallocate-Holds :
    (r : Ring) (held : List Block) (p : ℕ)
    → Holds r held
    → 0 < p
    → In (p - 1) held
    → (q : Ring) × (deallocate r p ≡ some q) × Holds q (drop_at (p - 1) held)
unfolding deallocate
deallocate-Holds r held p (xs, ys, inv, e) pos inside =
    let x = p - 1 in
    let (below, busy) = Shape-In r x xs ys inv.shape (In-live x (xs ++ ys) (rw e inside)) in
    let (q, run, (us, vs, shape, settled, same, cap)) =
      flush_ring-Flushed (r.capacity + 1) (record r { node = kill r.node x }) (mark x xs)
        (mark x ys) (Shape-mark r x xs ys inv.shape)
        (rw (← mark-append x xs ys, length-mark) (omega (arith, Shape-length r xs ys inv.shape))) in
    let valid : (ltb 0 p && not (is_empty r)) ≡ true = rw busy (ground arith) in
    (
      q,
      >>=-some (assert (ltb 0 p && not (is_empty r))) _ (ap assert valid)
          (>>=-some (assert (ltb x r.capacity)) _ (ap assert (lt→ltb x r.capacity below)) run),
      (
        us,
        vs,
        record {
          small = subst (λ c. c < 2 ^ 60) (sym cap) inv.small;
          shape = shape;
          settled = settled;
        },
        same ∙ ap live (sym (mark-append x xs ys)) ∙ live-mark x (xs ++ ys) ∙ ap (drop_at x) e,
      ),
    )
