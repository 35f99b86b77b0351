-- ===== src/CircularQueue/Holds.antt =====
-- What a `circular_queue` stands for: a sequence of at most `c` elements, oldest first.
use cppheaders.Prelude.{
  ℕ, suc, ◌+◌, ◌-◌, ◌^◌, ◌≤◌, ◌<◌, ◌≡◌, List, [], arith, leb, ◌==◌, if◌then◌else◌, length,
  get_elem?,
}
use cppheaders.Prelude.Int.{pos}
use native.Mathlib.Nat.{mod-eq_of_lt, mod-eq-sub-mod}
use cppheaders.CircularQueue.{
  CircularQueue, make, read, next, prev, jmp, size, room, is_empty, is_full,
}

-- The index `i` places after `t` in a ring of `c + 1` slots.
abbrev pub spot : ℕ → ℕ → ℕ → ℕ
spot c t i = if leb (t + i) c then t + i else t + i - suc c

module _ {ℓ} {A : Type ℓ} where
  pub record Holds (c : ℕ) (q : CircularQueue A) (xs : List A) : Type ℓ where
    pub small : c < 2 ^ 62
    pub slots : q.capacity ≡ suc c
    pub storage : 0 < c → q.chunks ≡ suc c
    pub tail_in : q.tail ≤ c
    pub fits : length xs ≤ c
    pub head_at : q.head ≡ spot c q.tail (length xs)
    pub stored : (i : ℕ) → i < length xs → q.slot (spot c q.tail i) ≡ get_elem? xs i

  pub make-Holds : (c : ℕ) → c < 2 ^ 62 → Holds c (make c) []
  unfolding make
  make-Holds c h = record {
    small = h;
    slots = ground arith;
    storage = λ p. ground arith;
    tail_in = ground arith;
    fits = ground arith;
    head_at = ground arith;
    stored = λ i p. elim p [ ];
  }

  module _ {c : ℕ} {q : CircularQueue A} {xs : List A} (h : Holds c q xs) where
    pub size-length : size q ≡ length xs
    unfolding size
    size-length = ground (arith, h.slots, h.head_at)

    pub room-eq : room q ≡ c
    unfolding room
    room-eq = ground (arith, h.slots)

    pub is_empty-eq : is_empty q ≡ (length xs == 0)
    unfolding is_empty
    is_empty-eq = ground (arith, h.head_at)

    pub next-spot : (i : ℕ) → i ≤ c → next q (spot c q.tail i) ≡ spot c q.tail (suc i)
    unfolding next
    next-spot i p = ground (arith, h.slots)

    pub is_full-eq : is_full q ≡ (length xs == c)
    unfolding is_full next
    is_full-eq = ground (arith, h.slots, h.head_at)

    pub prev_head : 0 < length xs → prev q q.head ≡ spot c q.tail (length xs - 1)
    unfolding prev
    prev_head p = ground (arith, h.slots, h.head_at)

    pub jmp-spot : (n : ℕ) → n ≤ c → jmp q q.tail (pos n) ≡ spot c q.tail n
    unfolding jmp
    jmp-spot n p = ground (
      arith,
      h.slots,
      mod-eq_of_lt {n = q.tail + n} {m = suc c},
      mod-eq-sub-mod {n = q.tail + n} {m = suc c},
      mod-eq_of_lt {n = q.tail + n - suc c} {m = suc c},
    )

    pub read-spot : (i : ℕ) → i < length xs → read q (spot c q.tail i) ≡ get_elem? xs i
    unfolding read
    read-spot i p = ground (arith, h.stored i p, h.storage, h.slots)
