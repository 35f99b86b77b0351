-- ===== src/RingAllocator/Allocate.antt =====
-- include/cpph/memory/ring_allocator.hxx: `_allocate_ring` gives out blocks that nobody holds.
use cppheaders.Prelude.{
  ℕ, ◌+◌, ◌-◌, ◌%◌, ◌^◌, ◌≤◌, ◌<◌, ◌≡◌, ◌⊎◌, refl, ◌∙◌, ap, ap₂, sym, true, false, Option, none,
  some, List, [], ◌∷◌, ◌++◌, arith, ltb, leb, ◌==◌, Bool-cases, inl, inr, subst, dec_lt, lt→ltb,
  leb→le, leb→lt,
}
use mathlib.Core.List.{append-nil}
use native.Mathlib.Nat.{mod-eq_of_lt}
use cppheaders.RingAllocator.{
  Ring, update, place, fill, allocate_behind, allocate_above, allocate_first, allocate_at,
  allocate_ring, node_size_ceil,
}
use cppheaders.RingAllocator.Shape.{
  Block, node_of, Run, live, live-append, Shape, idle, straight, split, Settled, Holds, Holds-nil,
}
use cppheaders.RingAllocator.Place.{
  block, Run-snoc, place_idle, place_straight, place_split, Answers,
}

behind_split :
    (r : Ring) (t h n : ℕ) (xs ys : List Block)
    → r.capacity < 2 ^ 60
    → r.head ≡ some h
    → r.tail ≡ some t
    → h < t
    → t < r.capacity
    → Run r.node t xs r.capacity
    → Run r.node 0 ys h
    → Settled xs
    → let (out, q) = allocate_behind r h t n in Answers (live (xs ++ ys)) n out q
unfolding allocate_behind
behind_split r t h n xs ys small eh et below lt run low settled =
    elim (Bool-cases (ltb (t - h - 1) n)) [
      | inl full ↦ rw full (
        xs,
        ys,
        record {
          small = small;
          shape = split t h eh et (omega arith) lt run low;
          settled = settled;
        },
        refl,
      )
      | inr space ↦ rw space (
        omega arith,
        subst (λ k. Holds (place r h n) (live (xs ++ ys) ++ block k n ∷ [])) (omega arith)
            (place_split r t h n xs ys small et (ground arith) lt run low settled),
      )
    ]

-- A dummy node up to the end of the memory is dead from the start.
abbrev dummy : Ring → ℕ → Block
dummy r h = record { at = h; extent = r.capacity - (h + 1); pending = true }

live-dummy : (r : Ring) (h : ℕ) (xs : List Block) → live ((xs ++ dummy r h ∷ []) ++ []) ≡ live xs
unfolding live
live-dummy r h xs =
    ap live (append-nil (xs ++ dummy r h ∷ []))
    ∙ live-append xs (dummy r h ∷ [])
    ∙ append-nil (live xs)

fill_fields :
    (r : Ring) (h : ℕ)
    → r.capacity < 2 ^ 60
    → fill r h (r.capacity - (h + 1))
      ≡ record r { node = update r.node h (node_of (dummy r h)); head = some 0 }
unfolding fill
fill_fields r h small =
    let e : (r.capacity - (h + 1)) % 2 ^ 60 ≡ r.capacity - (h + 1) = mod-eq_of_lt (omega arith) in
    rw e refl

Settled-dummy :
    (r : Ring) (t h : ℕ) (xs : List Block)
    → t < h
    → Run r.node t xs h
    → Settled xs
    → Settled (xs ++ dummy r h ∷ [])
Settled-dummy r t h [] lt run e = absurd (omega (arith, run))
Settled-dummy r t h (b ∷ xs) lt run e = e

-- The retry after the jump to the start of the memory.
behind_filled :
    (r : Ring) (t h n : ℕ) (xs : List Block)
    → r.capacity < 2 ^ 60
    → r.tail ≡ some t
    → 0 < t
    → t < h
    → h < r.capacity
    → Run r.node t xs h
    → Settled xs
    → let (out, q) = allocate_behind (fill r h (r.capacity - (h + 1))) 0 t n in
      Answers (live xs) n out q
behind_filled r t h n xs small et pos lt top run settled =
    let f : Ring = record r { node = update r.node h (node_of (dummy r h)); head = some 0 } in
    let full = Run-snoc r.node t xs h (dummy r h) r.capacity run refl (omega arith) in
    let answer =
      behind_split f t 0 n (xs ++ dummy r h ∷ []) [] small refl et pos (omega arith) full refl
        (Settled-dummy r t h xs lt run settled) in
    subst (λ g. let (out, q) = allocate_behind g 0 t n in Answers (live xs) n out q)
      (sym (fill_fields r h small))
      (subst (λ l. let (out, q) = allocate_behind f 0 t n in Answers l n out q) (live-dummy r h xs)
        answer)

above_straight :
    (r : Ring) (t h n : ℕ) (xs : List Block)
    → r.capacity < 2 ^ 60
    → r.head ≡ some h
    → r.tail ≡ some t
    → t < h
    → h < r.capacity
    → Run r.node t xs h
    → Settled xs
    → let (out, q) = allocate_above r h t n in Answers (live xs) n out q
unfolding allocate_above
above_straight r t h n xs small eh et lt top run settled =
    elim (Bool-cases (leb n (r.capacity - (h + 1)))) [
      | inl space ↦ rw space (
        omega arith,
        subst (λ k. Holds (place r h n) (live xs ++ block k n ∷ [])) (omega arith)
            (place_straight r t h n xs small et lt (ground arith) run settled),
      )
      | inr full ↦ elim (Bool-cases (t == 0)) [
        | inl first ↦
            rw (full, first)
              (
                xs,
                [],
                record { small = small; shape = straight t h eh et lt top run; settled = settled },
                ap live (append-nil xs),
              )
        | inr later ↦
            rw (full, later) (behind_filled r t h n xs small et (ground arith) lt top run settled)
      ]
    ]

module _ (r : Ring) (n : ℕ) where
  run_first : r.head ≡ none → allocate_ring r n ≡ some (allocate_first r (node_size_ceil n))
  unfolding allocate_ring
  run_first eh = ap (λ x. allocate_at x r.tail r (node_size_ceil n)) eh

  module _ (t h : ℕ) (eh : r.head ≡ some h) (et : r.tail ≡ some t) where
    run_both : allocate_ring r n ≡ allocate_at (some h) (some t) r (node_size_ceil n)
    unfolding allocate_ring
    run_both = ap₂ (λ x y. allocate_at x y r (node_size_ceil n)) eh et

    run_above : t < h → allocate_ring r n ≡ some (allocate_above r h t (node_size_ceil n))
    unfolding allocate_at
    run_above lt = run_both ∙ rw (lt→ltb t h lt) refl

    run_behind : h < t → allocate_ring r n ≡ some (allocate_behind r h t (node_size_ceil n))
    unfolding allocate_at
    run_behind lt =
        let up : ltb t h ≡ false = ground arith in run_both ∙ rw (up, lt→ltb h t lt) refl

    run_full : h ≡ t → allocate_ring r n ≡ some (none, r)
    unfolding allocate_at
    run_full e =
        let up : ltb t h ≡ false = ground arith in
        let down : ltb h t ≡ false = ground arith in run_both ∙ rw (up, down) refl

first_idle :
    (r : Ring) (n : ℕ)
    → r.capacity < 2 ^ 60
    → r.head ≡ none
    → r.tail ≡ none
    → let (out, q) = allocate_first r n in Answers [] n out q
unfolding allocate_first live
first_idle r n small eh et = elim (Bool-cases (leb r.capacity n)) [
  | inl big ↦ rw big ([], [], record { small = small; shape = idle eh et; settled = tt }, refl)
  | inr fits ↦ rw fits (omega arith, place_idle r n small (leb→lt r.capacity n fits))
]

-- What is to be shown of the result of `_allocate_ring`.
abbrev pub Answered : List Block → ℕ → Option (Option ℕ × Ring) → Type 0
Answered held n result =
    (out : Option ℕ) × (q : Ring) × (result ≡ some (out, q)) × Answers held n out q

allocate_shape :
    (r : Ring) (xs ys : List Block) (n : ℕ)
    → r.capacity < 2 ^ 60
    → Settled xs
    → Shape r xs ys
    → Answered (live (xs ++ ys)) (node_size_ceil n) (allocate_ring r n)
unfolding live
allocate_shape r xs ys n small settled (idle eh et) =
    (_, _, run_first r n eh, first_idle r (node_size_ceil n) small eh et)
allocate_shape r xs ys n small settled (straight t h eh et lt top run) = (
  _,
  _,
  run_above r n t h eh et lt,
  subst
      (λ l.
        let (out, q) = allocate_above r h t (node_size_ceil n) in
        Answers l (node_size_ceil n) out q)
      (ap live (sym (append-nil xs)))
      (above_straight r t h (node_size_ceil n) xs small eh et lt top run settled),
)
allocate_shape r xs ys n small settled (split t h eh et le lt run low) = elim (dec_lt h t) [
  | yes below ↦ (
    _,
    _,
    run_behind r n t h eh et below,
    behind_split r t h (node_size_ceil n) xs ys small eh et below lt run low settled,
  )
  | no level ↦ (
    none,
    r,
    run_full r n t h eh et (omega arith),
    (
      xs,
      ys,
      record { small = small; shape = split t h eh et le lt run low; settled = settled },
      refl,
    ),
  )
]

-- `_allocate_ring` always returns. It answers with a null pointer and the client holds what it
-- held, or with the address of a block of the blocks asked for, which joins what the client holds.
pub allocate_ring-Holds :
    (r : Ring) (held : List Block) (n : ℕ)
    → Holds r held
    → Answered held (node_size_ceil n) (allocate_ring r n)
allocate_ring-Holds r held n (xs, ys, inv, e) =
    subst (λ l. Answered l (node_size_ceil n) (allocate_ring r n)) e
      (allocate_shape r xs ys n inv.small inv.settled inv.shape)

-- A ring of which nothing is held gives a block exactly when the request and a header fit its
-- capacity.
pub allocate_ring_first :
    (r : Ring) (n : ℕ)
    → Holds r []
    → ((allocate_ring r n ≡ some (none, r)) × (r.capacity ≤ node_size_ceil n))
      ⊎ ((q : Ring) × (allocate_ring r n ≡ some (some 1, q)) × (node_size_ceil n < r.capacity))
unfolding allocate_first
allocate_ring_first r n h = elim (Bool-cases (leb r.capacity (node_size_ceil n))) [
  | inl big ↦
      inl (run_first r n (Holds-nil r h) ∙ rw big refl, leb→le r.capacity (node_size_ceil n) big)
  | inr fits ↦ inr (
    place (record r { tail = some 0 }) 0 (node_size_ceil n),
    run_first r n (Holds-nil r h) ∙ rw fits refl,
    leb→lt r.capacity (node_size_ceil n) fits,
  )
]
