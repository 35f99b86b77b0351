-- ===== src/RingAllocator/Bounds.antt =====
-- include/cpph/memory/ring_allocator.hxx: how many blocks a request takes.
use cppheaders.Prelude.{ℕ, ◌+◌, ◌*◌, ◌^◌, ◌≤◌, ◌<◌, ◌≡◌, some, [], arith, inl, inr, subst}
use cppheaders.RingAllocator.{
  Ring, allocate_ring, node_size_ceil, fallback_taken, fallback_returned,
}
use cppheaders.RingAllocator.Shape.{Holds}
use cppheaders.RingAllocator.Allocate.{allocate_ring_first, allocate_ring-Holds, Answered}

-- A request of `n` bytes takes the least number of blocks that hold them, unless the rounding
-- leaves 64 bits.
pub node_size_ceil_bounds :
    (n : ℕ) → n + 7 < 2 ^ 64 → (n ≤ node_size_ceil n * 8) × (node_size_ceil n * 8 < n + 8)
unfolding node_size_ceil
node_size_ceil_bounds n h = omega arith

node_size_ceil_wraps : (n : ℕ) → n < 2 ^ 64 → 2 ^ 64 ≤ n + 7 → node_size_ceil n ≡ 0
unfolding node_size_ceil
node_size_ceil_wraps n h k = omega arith

-- The seven largest requests wrap to no block at all: a ring with some capacity of which nothing
-- is held answers such a request with an address, and as it does one of 0 bytes.
pub allocate_ring_wraps :
    (r : Ring) (n : ℕ)
    → n < 2 ^ 64
    → 2 ^ 64 ≤ n + 7
    → 0 < r.capacity
    → Holds r []
    → (q : Ring) × (allocate_ring r n ≡ some (some 1, q)) × Answered [] 0 (allocate_ring r n)
allocate_ring_wraps r n h k room holds =
    let none_needed = node_size_ceil_wraps n h k in
    let answer =
      subst (λ m. Answered [] m (allocate_ring r n)) none_needed
        (allocate_ring-Holds r [] n holds) in
    elim (allocate_ring_first r n holds) [
      | inl (e, full) ↦ absurd (omega (arith, none_needed))
      | inr (q, e, fits) ↦ (q, e, answer)
    ]

-- The fallback path takes eight bytes more from its allocator than it returns.
pub fallback_size_differs : (n : ℕ) → fallback_returned n + 8 ≡ fallback_taken n
unfolding fallback_taken fallback_returned
fallback_size_differs n = omega arith
