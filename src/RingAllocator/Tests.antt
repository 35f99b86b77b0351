-- ===== src/RingAllocator/Tests.antt =====
-- include/cpph/memory/ring_allocator.hxx on a concrete ring of four blocks.
use cppheaders.Prelude.{◌-◌, ◌^◌, ◌≡◌, refl, inl, none, some, [], ◌∷◌, arith, true, false}
use cppheaders.RingAllocator.{
  Ring, make, allocate_ring, allocate_first, deallocate, node_size_ceil, node_size_floor, place,
  update, is_empty, flush_ring, flush_step, next_node, wrap,
}
use cppheaders.RingAllocator.Shape.{Holds, drop_at, Shape, straight, live}
use cppheaders.RingAllocator.Apart.{Disjoint}
use cppheaders.RingAllocator.Deallocate.{deallocate-Holds}
use cppheaders.RingAllocator.Allocate.{Answered, allocate_ring-Holds}
use cppheaders.RingAllocator.Place.{block}
use cppheaders.RingAllocator.Bounds.{allocate_ring_wraps}
use cppheaders.RingAllocator.Trace.{start, next, given, freed, Reach-Disjoint, Reach-is_empty}

abbrev blank : Ring
blank = record {
  capacity = 4;
  node = λ _. record { pending_kill = false; fallback_allocated = false; extent = 0 };
  head = none;
  tail = none;
}

-- A node of one block at the start.
abbrev one_block : Ring
one_block = record blank {
  node =
      update blank.node 0 (record { pending_kill = false; fallback_allocated = false; extent = 1 });
  head = some 2;
  tail = some 0;
}

one_block-Holds : Holds one_block (block 0 1 ∷ [])
unfolding live
one_block-Holds = (
  block 0 1 ∷ [],
  [],
  record {
    small = omega arith;
    shape = straight 0 2 refl refl (omega arith) (omega arith) (refl, refl, refl);
    settled = refl;
  },
  refl,
)

allocate-blank : allocate_ring blank 8 ≡ some (some 1, one_block)
unfolding allocate_ring node_size_ceil allocate_first place
allocate-blank = refl

allocate_ring-Holds_example :
    Answered (block 0 1 ∷ []) (node_size_ceil 5) (allocate_ring one_block 5)
allocate_ring-Holds_example = allocate_ring-Holds one_block (block 0 1 ∷ []) 5 one_block-Holds

deallocate-Holds_example : (q : Ring) × (deallocate one_block 1 ≡ some q) × Holds q []
unfolding drop_at
deallocate-Holds_example =
    deallocate-Holds one_block (block 0 1 ∷ []) 1 one_block-Holds (omega arith) (inl refl)

blank-Holds : Holds blank []
unfolding live
blank-Holds =
    ([], [], record { small = omega arith; shape = Shape.idle refl refl; settled = tt }, refl)

Reach-Disjoint_example : Disjoint 4 (block 0 1 ∷ [])
unfolding make node_size_floor node_size_ceil
Reach-Disjoint_example =
    Reach-Disjoint {s = one_block} {held = block 0 1 ∷ []} 32 (omega arith) refl
      (next start (given 8 1 allocate-blank))

-- The ring after its one block has been freed.
abbrev emptied : Ring
emptied = record one_block {
  node = update one_block.node 0 (record (one_block.node 0) { pending_kill = true });
  head = none;
  tail = none;
}

deallocate-one_block : deallocate one_block 1 ≡ some emptied
unfolding deallocate is_empty flush_ring flush_step next_node wrap
deallocate-one_block = refl

Reach-is_empty_example : is_empty emptied ≡ true
unfolding make node_size_floor node_size_ceil drop_at
Reach-is_empty_example = Reach-is_empty {r = blank} {s = emptied} 32 (omega arith) refl (
    next (next start (given 8 1 allocate-blank))
      (freed 1 (omega arith) (inl refl) deallocate-one_block))

allocate_ring_wraps_example :
    (q : Ring) × (allocate_ring blank (2 ^ 64 - 1) ≡ some (some 1, q))
    × Answered [] 0 (allocate_ring blank (2 ^ 64 - 1))
allocate_ring_wraps_example =
    allocate_ring_wraps blank (2 ^ 64 - 1) (omega arith) (omega arith) (omega arith) blank-Holds
