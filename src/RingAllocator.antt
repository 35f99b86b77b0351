-- ===== src/RingAllocator.antt =====
-- include/cpph/memory/ring_allocator.hxx: `basic_ring_allocator<void>`, which hands out runs of
-- 8-byte blocks from a ring. An address is a block index from `_memory`; a node's header takes one
-- block and its data the `extent` blocks behind it. `none` stands for an assertion that fails.
pub mod Shape
pub mod Apart
pub mod Flush
pub mod Deallocate
pub mod Place
pub mod Allocate
pub mod Bounds
pub mod Trace
pub mod Tests
use cppheaders.Prelude.{
  ℕ, zero, suc, ◌+◌, ◌-◌, ◌*◌, ◌/◌, ◌%◌, ◌^◌, Bool, true, false, not, Option, none, some, ltb, leb,
  ◌==◌, if◌then◌else◌, ◌>>=◌, ◌>>◌, assert, ◌&&◌,
}

-- `ring_node_t`; `extent` is a bit field of 60 bits.
pub record Node : Type 0 where
  pub pending_kill : Bool
  pub fallback_allocated : Bool
  pub extent : ℕ

pub record Ring : Type 0 where
  pub capacity : ℕ
  pub node : ℕ → Node
  pub head : Option ℕ
  pub tail : Option ℕ

abbrev pub update : (ℕ → Node) → ℕ → Node → ℕ → Node
update f i v j = if i == j then v else f j

abbrev pub node_size : ℕ
node_size = 8

-- `& ~(node_size - 1)` clears the low three bits.
unfoldable pub node_size_ceil : ℕ → ℕ
node_size_ceil s = (s + (node_size - 1)) % 2 ^ 64 / node_size * node_size / node_size

unfoldable pub node_size_floor : ℕ → ℕ
node_size_floor s = s / node_size

-- The constructor on a given buffer, which it fills with zeros.
unfoldable pub make : ℕ → Option Ring
make size = do
  assert (ltb 0 (node_size_floor size))
  some (record {
    capacity = node_size_floor size;
    node = λ _. record { pending_kill = false; fallback_allocated = false; extent = 0 };
    head = none;
    tail = none;
  })

unfoldable pub capacity_bytes : Ring → ℕ
capacity_bytes r = r.capacity * node_size

unfoldable pub is_empty : Ring → Bool
is_empty r = elim r.head [ none ↦ true | some _ ↦ false ]

unfoldable pub next_node : Ring → ℕ → ℕ
next_node r i = i + 1 + (r.node i).extent

-- A pointer that has reached the end of the memory goes to its start.
unfoldable pub wrap : Ring → ℕ → ℕ
wrap r i = if i == r.capacity then 0 else i

abbrev pub live_node : ℕ → Node
live_node n = record { pending_kill = false; fallback_allocated = false; extent = n % 2 ^ 60 }

-- A node of `n` blocks at `h`, which is the head, and the head behind it.
unfoldable pub place : Ring → ℕ → ℕ → Ring
unfolding wrap next_node
place r h n =
    let r' = record r { node = update r.node h (live_node n) } in
    record r' { head = some (wrap r' (next_node r' h)) }

-- A dummy node from the head to the end of the memory; the head jumps to the start.
unfoldable pub fill : Ring → ℕ → ℕ → Ring
fill r h space = record r {
  node =
      update r.node h
        (record { pending_kill = true; fallback_allocated = false; extent = space % 2 ^ 60 });
  head = some 0;
}

-- `_allocate_ring` without the jump: the data's address, or `none` for a null pointer.
unfoldable pub allocate_behind : Ring → ℕ → ℕ → ℕ → Option ℕ × Ring
allocate_behind r h t nblk =
    if ltb (t - h - 1) nblk then (none, r) else (some (h + 1), place r h nblk)

-- `_allocate_ring` with the head above the tail; the call in its own body is made with the head at
-- the start, below the tail.
unfoldable pub allocate_above : Ring → ℕ → ℕ → ℕ → Option ℕ × Ring
allocate_above r h t nblk =
    if leb nblk (r.capacity - (h + 1))
    then (some (h + 1), place r h nblk)
    else if not (t == 0)
    then allocate_behind (fill r h (r.capacity - (h + 1))) 0 t nblk
    else (none, r)

-- `_allocate_ring` of an empty ring.
unfoldable pub allocate_first : Ring → ℕ → Option ℕ × Ring
allocate_first r nblk =
    if leb r.capacity nblk then (none, r) else (some 1, place (record r { tail = some 0 }) 0 nblk)

-- The branches of `_allocate_ring` on the pointers `_head` and `_tail`.
unfoldable pub allocate_at : Option ℕ → Option ℕ → Ring → ℕ → Option (Option ℕ × Ring)
allocate_at none tail r nblk = some (allocate_first r nblk)
allocate_at (some h) none r nblk = none
allocate_at (some h) (some t) r nblk = some (
    if ltb t h
    then allocate_above r h t nblk
    else if ltb h t
    then allocate_behind r h t nblk
    else (none, r))

unfoldable pub allocate_ring : Ring → ℕ → Option (Option ℕ × Ring)
unfolding allocate_at
allocate_ring r n = allocate_at r.head r.tail r (node_size_ceil n)

-- One round of `_flush_ring`, whose tail is `t`.
unfoldable pub flush_step : Ring → ℕ → Ring
unfolding next_node wrap
flush_step r t =
    let t' = wrap r (next_node r t) in
    elim r.head [
      | none ↦ record r { tail = some t' }
      | some h ↦
          if t' == h then record r { head = none; tail = none } else record r { tail = some t' }
    ]

-- `_flush_ring` with fuel: each round passes one node.
unfoldable pub flush_ring : ℕ → Ring → Option Ring
unfolding flush_step
flush_ring zero r = none
flush_ring (suc fuel) r = elim r.tail [
  | none ↦ some r
  | some t ↦ elim (r.node t).pending_kill [
    | false ↦ some r
    | true ↦ assert (not (r.node t).fallback_allocated) >> flush_ring fuel (flush_step r t)
  ]
]

-- `deallocate`, `_deallocate_ring`, of the data at address `p`; 0 is the null pointer's.
unfoldable pub deallocate : Ring → ℕ → Option Ring
unfolding is_empty
deallocate r p = do
  assert (ltb 0 p && not (is_empty r))
  assert (ltb (p - 1) r.capacity)
  let killed = record (r.node (p - 1)) { pending_kill = true }
  flush_ring (r.capacity + 1) (record r { node = update r.node (p - 1) killed })

-- `extent`, in bytes.
unfoldable pub extent_bytes : Ring → ℕ → ℕ
extent_bytes r p = (r.node (p - 1)).extent * node_size

-- The bytes that `allocate_nt` takes from a fallback allocator of bytes for a request of `n` bytes,
-- and those that `deallocate` says it gives back for a node of `extent` blocks.
unfoldable pub fallback_taken : ℕ → ℕ
unfolding node_size_ceil
fallback_taken n = (node_size_ceil n + 1) * node_size

unfoldable pub fallback_returned : ℕ → ℕ
unfolding node_size_ceil
fallback_returned n = node_size_ceil n * node_size

-- `allocate`, which throws `std::bad_alloc` for a null pointer.
pub data Allocation : Type 0 where
  bad_alloc : Ring → Allocation
  allocated : ℕ → Ring → Allocation

unfoldable pub allocate : Ring → ℕ → Option Allocation
unfolding allocate_ring
allocate r n = do
  (address, q) ← allocate_ring r n
  some (elim address [ none ↦ bad_alloc q | some p ↦ allocated p q ])

-- `front`: the data of the node at the tail.
unfoldable pub front_data : Ring → Option ℕ
front_data r = r.tail >>= λ t. some (t + 1)

-- `is_ring_allocated` of an allocator without and with a fallback
unfoldable pub is_ring_allocated : Bool → Ring → ℕ → Option Bool
is_ring_allocated false r p = some false
is_ring_allocated true r p =
    if not (r.node (p - 1)).fallback_allocated
    then (assert (ltb (p - 1) r.capacity) >> some true)
    else some false

-- Move assignment exchanges the two allocators.
unfoldable pub move_ring : Ring → Ring → Ring × Ring
move_ring self other = (other, self)
