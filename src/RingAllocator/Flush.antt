-- ===== src/RingAllocator/Flush.antt =====
-- include/cpph/memory/ring_allocator.hxx: `_flush_ring` drops the blocks that are no longer held.
use cppheaders.Prelude.{
  ℕ, zero, suc, ◌+◌, ◌≤◌, ◌<◌, ◌≡◌, ◌≢◌, refl, ◌∙◌, ap, true, false, none, some, List, [], ◌∷◌,
  ◌++◌, arith, ◌==◌, if◌then◌else◌, length, Bool-cases, inl, inr,
}
use mathlib.Core.List.{append-nil}
use cppheaders.RingAllocator.{Ring, next_node, wrap, flush_step, flush_ring}
use cppheaders.RingAllocator.Shape.{
  Block, node_of, Run, Run-le, live, live_dead, Shape, idle, straight, split, Settled,
}

-- One more round at a dead node: what `flush_ring` returns from `r` is what it returns from `s`.
flush_go :
    (fuel : ℕ) (r : Ring) (t : ℕ)
    → r.tail ≡ some t
    → (r.node t).pending_kill ≡ true
    → (r.node t).fallback_allocated ≡ false
    → flush_ring (suc fuel) r ≡ flush_ring fuel (flush_step r t)
unfolding flush_ring
flush_go fuel r t e dead own = rw (e, flush_ring, dead, own) refl

flush_rest :
    (fuel : ℕ) (r : Ring) (t : ℕ)
    → r.tail ≡ some t
    → (r.node t).pending_kill ≡ false
    → flush_ring (suc fuel) r ≡ some r
unfolding flush_ring
flush_rest fuel r t e alive = ground (arith, e, alive)

flush_idle : (fuel : ℕ) (r : Ring) → r.tail ≡ none → flush_ring (suc fuel) r ≡ some r
unfolding flush_ring
flush_idle fuel r e = ground (arith, e)

module _ (r : Ring) (t h : ℕ) (eh : r.head ≡ some h) where
  step_end : wrap r (next_node r t) ≡ h → flush_step r t ≡ record r { head = none; tail = none }
  unfolding flush_step
  step_end e = ground (arith, eh, e)

  step_on :
      (t' : ℕ) → wrap r (next_node r t) ≡ t' → t' ≢ h → flush_step r t ≡ record r { tail = some t' }
  unfolding flush_step
  step_on t' e ne = ground (arith, eh, e, ne)

wrap_next :
    (r : Ring) (t : ℕ) (b : Block)
    → r.node t ≡ node_of b
    → wrap r (next_node r t) ≡ (if t + 1 + b.extent == r.capacity then 0 else t + 1 + b.extent)
unfolding wrap next_node
wrap_next r t b e = ground (arith, e)

-- The nodes after one round at the oldest one.
abbrev Dropped : Ring → List Block → Type 0
Dropped r bs = (xs : List Block) × (ys : List Block) × Shape r xs ys × (xs ++ ys ≡ bs)

-- One round drops the oldest node.
module _ (r : Ring) (b : Block) (t h : ℕ) (eh : r.head ≡ some h) where
  step_straight :
      (xs : List Block)
      → t < h
      → h < r.capacity
      → Run r.node t (b ∷ xs) h
      → Dropped (flush_step r t) xs
  step_straight [] lt small (at, node, reached) =
      let e : wrap r (next_node r t) ≡ h = wrap_next r t b node ∙ ground (arith, reached) in
      rw (step_end r t h eh e) ([], [], idle refl refl, refl)
  step_straight (x ∷ xs) lt small (at, node, rest) =
      let t' = t + 1 + b.extent in
      let before : t' < h = omega (arith, Run-le r.node (t' + 1 + x.extent) xs h rest.2) in
      let e : wrap r (next_node r t) ≡ t' = wrap_next r t b node ∙ ground arith in
      rw (step_on r t h eh t' e (omega arith))
        (x ∷ xs, [], straight t' h eh refl before small rest, append-nil (x ∷ xs))

  step_split :
      (xs ys : List Block)
      → h ≤ t
      → t < r.capacity
      → Run r.node t (b ∷ xs) r.capacity
      → Run r.node 0 ys h
      → Dropped (flush_step r t) (xs ++ ys)
  step_split [] [] le lt (at, node, reached) low =
      let e : wrap r (next_node r t) ≡ h = wrap_next r t b node ∙ ground (arith, reached, low) in
      rw (step_end r t h eh e) ([], [], idle refl refl, refl)
  step_split [] (y ∷ ys) le lt (at, node, reached) low =
      let above = Run-le r.node (0 + 1 + y.extent) ys h low.2 in
      let e : wrap r (next_node r t) ≡ 0 = wrap_next r t b node ∙ ground (arith, reached) in
      rw (step_on r t h eh 0 e (omega (arith, above))) (
        y ∷ ys,
        [],
        straight 0 h eh refl (omega (arith, above)) (omega arith) low,
        append-nil (y ∷ ys),
      )
  step_split (x ∷ xs) ys le lt (at, node, rest) low =
      let t' = t + 1 + b.extent in
      let before : t' < r.capacity =
        omega (arith, Run-le r.node (t' + 1 + x.extent) xs r.capacity rest.2) in
      let e : wrap r (next_node r t) ≡ t' = wrap_next r t b node ∙ ground arith in
      rw (step_on r t h eh t' e (omega arith))
        (x ∷ xs, ys, split t' h eh refl (omega arith) before rest low, refl)

-- What `flush_ring` leaves: a ring whose oldest node is alive, with the same live blocks.
abbrev pub Flushed : ℕ → List Block → Ring → Type 0
Flushed c held r =
    (xs : List Block) × (ys : List Block) × Shape r xs ys
    × Settled xs
    × (live (xs ++ ys) ≡ held)
    × (r.capacity ≡ c)

capacity-flush_step : (r : Ring) (t : ℕ) → (flush_step r t).capacity ≡ r.capacity
unfolding flush_step
capacity-flush_step r t = ground arith

flush_dead :
    (fuel : ℕ) (r : Ring) (b : Block) (t : ℕ) (bs : List Block)
    → r.tail ≡ some t
    → r.node t ≡ node_of b
    → b.pending ≡ true
    → Dropped (flush_step r t) bs
    → ((s : Ring) (xs ys : List Block)
        → Shape s xs ys
        → xs ++ ys ≡ bs
        → (q : Ring) × (flush_ring fuel s ≡ some q) × Flushed s.capacity (live (xs ++ ys)) q)
    → (q : Ring) × (flush_ring (suc fuel) r ≡ some q) × Flushed r.capacity (live bs) q
flush_dead fuel r b t bs et node dead (xs, ys, shape, same) later =
    let (q, run, flushed) = later (flush_step r t) xs ys shape same in
    let go =
      flush_go fuel r t et (ap (λ n. n.pending_kill) node ∙ dead)
        (ap (λ n. n.fallback_allocated) node) in
    (
      q,
      go ∙ run,
      (
        flushed.0,
        flushed.1,
        flushed.2,
        flushed.3,
        flushed.4 ∙ ap live same,
        flushed.5 ∙ capacity-flush_step r t,
      ),
    )

-- What is to be shown of `flush_ring` at a ring whose nodes are `bs`.
abbrev Flushes : ℕ → Ring → List Block → Type 0
Flushes fuel r bs = (q : Ring) × (flush_ring fuel r ≡ some q) × Flushed r.capacity (live bs) q

flush_first :
    (fuel : ℕ) (r : Ring) (b : Block) (t : ℕ) (xs ys : List Block)
    → r.tail ≡ some t
    → r.node t ≡ node_of b
    → Shape r (b ∷ xs) ys
    → Dropped (flush_step r t) (xs ++ ys)
    → ((s : Ring) (us vs : List Block)
        → Shape s us vs
        → us ++ vs ≡ xs ++ ys
        → Flushes fuel s (us ++ vs))
    → Flushes (suc fuel) r (b ∷ xs ++ ys)
flush_first fuel r b t xs ys et node shape dropped later = elim (Bool-cases b.pending) [
  | inl dead ↦
      rw (live_dead b (xs ++ ys) dead) (flush_dead fuel r b t (xs ++ ys) et node dead dropped later)
  | inr alive ↦ (
    r,
    flush_rest fuel r t et (ap (λ n. n.pending_kill) node ∙ alive),
    (b ∷ xs, ys, shape, alive, refl, refl),
  )
]

-- `flush_ring` ends when the fuel exceeds the number of nodes.
pub flush_ring-Flushed :
    (fuel : ℕ) (r : Ring) (xs ys : List Block)
    → Shape r xs ys
    → length (xs ++ ys) < fuel
    → Flushes fuel r (xs ++ ys)
flush_ring-Flushed zero r xs ys shape p = absurd (omega arith)
flush_ring-Flushed (suc fuel) r xs ys (idle eh et) p =
    (r, flush_idle fuel r et, ([], [], idle eh et, tt, refl, refl))
flush_ring-Flushed (suc fuel) r [] ys (straight t h eh et lt small run) p = absurd (omega arith)
flush_ring-Flushed (suc fuel) r (b ∷ xs) ys (straight t h eh et lt small run) p =
    flush_first fuel r b t xs [] et run.1 (straight t h eh et lt small run)
      (rw (append-nil xs) (step_straight r b t h eh xs lt small run))
      (λ s us vs sh e. flush_ring-Flushed fuel s us vs sh (rw e (omega (arith, p))))
flush_ring-Flushed (suc fuel) r [] ys (split t h eh et le lt run low) p = absurd (omega arith)
flush_ring-Flushed (suc fuel) r (b ∷ xs) ys (split t h eh et le lt run low) p =
    flush_first fuel r b t xs ys et run.1 (split t h eh et le lt run low)
      (step_split r b t h eh xs ys le lt run low)
      (λ s us vs sh e. flush_ring-Flushed fuel s us vs sh (rw e (omega (arith, p))))
