-- ===== src/CircularQueue/Iterator.antt =====
-- include/cpph/container/circular_queue.hxx: `_iterator`, the forward and the reverse one, as the
-- position that it holds. A difference of iterators is its pattern of 64 bits.
use cppheaders.Prelude.{
  ℕ, ◌+◌, ◌-◌, ◌%◌, ◌≤◌, ◌<◌, ◌≡◌, ap, ◌∙◌, Bool, Option, List, arith, ltb, leb, if◌then◌else◌,
  length, get_elem?,
}
use cppheaders.Prelude.Int.{ℤ, pos, negsuc}
use cppheaders.CircularQueue.{CircularQueue, size_max, read, next, prev, jmp}
use cppheaders.CircularQueue.Holds.{Holds, jmp-spot, read-spot}

module _ {ℓ} {A : Type ℓ} where
  -- `begin()` and `end()`
  abbrev pub begin_at : CircularQueue A → ℕ
  begin_at q = q.tail

  abbrev pub end_at : CircularQueue A → ℕ
  end_at q = q.head

  -- `operator*` of a forward iterator
  unfoldable pub deref : CircularQueue A → ℕ → Option A
  deref q i = read q i

  unfoldable pub increment : CircularQueue A → ℕ → ℕ
  increment q i = next q i

  unfoldable pub decrement : CircularQueue A → ℕ → ℕ
  decrement q i = prev q i

  -- `operator+=`
  unfoldable pub advance : CircularQueue A → ℕ → ℤ → ℕ
  advance q i n = jmp q i n

  -- `_idx_linear`
  unfoldable pub idx_linear : CircularQueue A → ℕ → ℕ
  idx_linear q i =
      if leb q.tail q.head
      then i
      else if leb q.tail i
      then (i + size_max - q.tail) % size_max
      else (i + (q.capacity + size_max - q.tail)) % size_max

  unfoldable pub less : CircularQueue A → ℕ → ℕ → Bool
  unfolding idx_linear
  less q i j = ltb (idx_linear q i) (idx_linear q j)

  -- `operator-` of two iterators
  unfoldable pub difference : CircularQueue A → ℕ → ℕ → ℕ
  unfolding idx_linear
  difference q i j = (idx_linear q i + size_max - idx_linear q j) % size_max

  -- `operator*` of a reverse iterator, `_r_at`
  unfoldable pub reverse_deref : CircularQueue A → ℕ → Option A
  unfolding idx_linear deref advance
  reverse_deref q i = deref q (advance q (end_at q) (negsuc (idx_linear q i)))

  module _ {c : ℕ} {q : CircularQueue A} {xs : List A} (h : Holds c q xs) where
    -- For `i` below the number of elements, `begin() + i` refers to the element `i` places after
    -- the oldest.
    pub deref-advance :
        (i : ℕ) → i < length xs → deref q (advance q (begin_at q) (pos i)) ≡ get_elem? xs i
    unfolding deref advance
    deref-advance i p = ap (read q) (jmp-spot h i (omega (arith, h.fits))) ∙ read-spot h i p

    -- For `j` at most `i` and `i` at most the number of elements, the difference of `begin() +
    -- i` and `begin() + j` is `i - j`, and they are compared as `i` and `j`.
    pub difference-advance :
        (i j : ℕ)
        → j ≤ i
        → i ≤ length xs
        → (difference q (advance q (begin_at q) (pos i)) (advance q (begin_at q) (pos j)) ≡ i - j)
          × (less q (advance q (begin_at q) (pos j)) (advance q (begin_at q) (pos i)) ≡ ltb j i)
    unfolding difference less idx_linear advance
    difference-advance i j le inside =
        let at_i = jmp-spot h i (omega (arith, h.fits)) in
        let at_j = jmp-spot h j (omega (arith, h.fits)) in
        rw (at_i, at_j)
          (
            ground (arith, h.slots, h.small, h.head_at, h.tail_in, h.fits),
            ground (arith, h.slots, h.small, h.head_at, h.tail_in, h.fits),
          )
