-- ===== src/StaticVector/Laws.antt =====
-- include/cpph/container/static_vector.hxx: the vector against the list of its elements, and the moves
-- that lose elements.
use cppheaders.Prelude.{
  ℕ, zero, suc, ◌+◌, ◌-◌, ◌≤◌, ◌<◌, ◌≡◌, refl, ap, sym, subst, ◌∙◌, true, false, ◌&&◌, none, some,
  List, [], ◌∷◌, ◌++◌, arith, ltb, leb, ◌==◌, if◌then◌else◌, length, get_elem?, get_elem?-eq-none,
  drop_cons, length-append, Bool-cases, inl, inr, ◌⊎◌, fun_ext,
}
use cppheaders.StaticVector.{
  verify_iterator_range, out_of_range, bad_alloc, undefined, StaticVector, Attempt, done, failed,
  next, put_slot, construct_at, destruct_at, move_one, move_down, move_range, emplace_back,
  destruct_all, erase_range, erase, pop_back, clear, at,
}

module _ {A : Type 0} where
  -- The vector has the elements of the list in its first slots, and no other objects.
  abbrev pub Holds : ℕ → StaticVector A → List A → Type 0
  Holds n v xs = (v.size ≡ length xs) × (length xs ≤ n) × ((i : ℕ) → v.slots i ≡ get_elem? xs i)

  get_elem?-snoc :
      (xs : List A) (x : A) (i : ℕ)
      → get_elem? (xs ++ x ∷ []) i ≡ (if i == length xs then some x else get_elem? xs i)
  get_elem?-snoc [] x zero = refl
  get_elem?-snoc [] x (suc i) = ground arith
  get_elem?-snoc (y ∷ xs) x zero = ground arith
  get_elem?-snoc (y ∷ xs) x (suc i) =
      get_elem?-snoc xs x i
      ∙ ap (λ b. if b then some x else get_elem? xs i) {x = i == length xs}
          {y = suc i == suc (length xs)} (ground arith)

  next-done :
      (m : Attempt A) (f : StaticVector A → Attempt A) {v : StaticVector A} {r : Attempt A}
      → m ≡ done v
      → f v ≡ r
      → next m f ≡ r
  next-done m f e e' = ap (λ a. next a f) e ∙ e'

  -- `emplace_back` appends where there is room, and else throws and changes nothing.
  pub emplace_back-Holds :
      (n : ℕ) (v : StaticVector A) (xs : List A) (x : A)
      → Holds n v xs
      → ((v' : StaticVector A) × (emplace_back n x v ≡ done v')
          × Holds n v' (xs ++ x ∷ [])
          × (length xs < n))
        ⊎ ((emplace_back n x v ≡ failed bad_alloc v) × (length xs ≡ n))
  unfolding emplace_back construct_at put_slot
  emplace_back-Holds n v xs x (size, fits, slots) = elim (Bool-cases (ltb n (v.size + 1))) [
    | inl full ↦ inr (rw full refl, ground (arith, full, size, fits))
    | inr room ↦
        let inside : ltb v.size n ≡ true = ground (arith, room) in
        inl (
          record v { size = suc v.size; slots = λ j. if j == v.size then some x else v.slots j },
          rw (room, inside) refl,
          (
            omega (arith, size, length-append xs (x ∷ [])),
            ground (arith, room, size, length-append xs (x ∷ [])),
            λ i.
                ap (λ k. if i == k then some x else v.slots i) size
                ∙ ap (λ o. if i == length xs then some x else o) (slots i)
                ∙ sym (get_elem?-snoc xs x i),
          ),
          ground (arith, room, size),
        )
  ]

  destruct_all-clears :
      (n k b : ℕ) (v : StaticVector A)
      → ((j : ℕ) → j < k → (x : A) × (v.slots (b + j) ≡ some x))
      → (v' : StaticVector A) × (destruct_all n k b v ≡ done v')
        × (v'.size ≡ v.size)
        × ((i : ℕ) → v'.slots i ≡ (if leb b i && ltb i (b + k) then none else v.slots i))
  unfolding destruct_all destruct_at put_slot
  destruct_all-clears n zero b v lives =
      (v, refl, refl, λ i. let e : (leb b i && ltb i (b + 0)) ≡ false = ground arith in rw e refl)
  destruct_all-clears n (suc k) b v lives =
      let (x, at_b) = lives 0 (omega arith) in
      let first : v.slots b ≡ some x = ap v.slots {x = b} {y = b + 0} (omega arith) ∙ at_b in
      let w : StaticVector A = put_slot n b none v in
      let (v', gives, size, slots) = destruct_all-clears n k (suc b) w λ j lt.
        let (y, at_j) = lives (suc j) (omega arith) in
        let other : (suc b + j == b) ≡ false = ground arith in
        (y, rw other (ap v.slots {x = suc b + j} {y = b + suc j} (omega arith) ∙ at_j)) in
      (
        v',
        next-done (destruct_at n b v) (λ w. destruct_all n k (suc b) w)
            (ap (λ o. elim o as (λ x. Attempt A) [ none ↦ failed undefined v | some x ↦ done w ])
              first)
            gives,
        size,
        λ i. slots i ∙ elim (Bool-cases (i == b)) [
          | inl e ↦
              let inside : (leb b i && ltb i (b + suc k)) ≡ true = ground (arith, e) in
              let outside : (leb (suc b) i && ltb i (suc b + k)) ≡ false = ground (arith, e) in
              rw (inside, outside, e) refl
          | inr e ↦
              let same : (leb (suc b) i && ltb i (suc b + k)) ≡ (leb b i && ltb i (b + suc k)) =
                ground (arith, e) in
              rw (same, e) refl
        ],
      )

  verify-done :
      (n b e : ℕ) (v : StaticVector A) → b ≤ e → e < n → verify_iterator_range n b e v ≡ done v
  verify-done n b e v le lt =
      let ordered : ltb e b ≡ false = ground (arith, le) in
      let start : ltb b n ≡ true = ground (arith, le, lt) in
      let end : ltb e n ≡ true = ground (arith, lt) in rw (ordered, start, end) refl

  -- No element is moved from the end to the start.
  move_range-none : (n k : ℕ) (v : StaticVector A) → k < n → move_range n k k 0 v ≡ done v
  unfolding move_range move_down
  move_range-none n k v lt = elim (Bool-cases (0 == k)) [
    | inl e ↦ rw (move_range, e) refl
    | inr e ↦
        let down : ltb 0 k ≡ true = ground (arith, e) in
        rw (move_range, e)
          (next-done (verify_iterator_range n k k v) _ (verify-done n k k v (omega arith) lt)
            (rw down (ap (λ c. move_down n c k 0 v) {x = k - k} {y = 0} (omega arith))))
  ]

  -- `clear` empties a vector that is not full.
  pub clear-Holds :
      (n : ℕ) (v : StaticVector A) (xs : List A)
      → Holds n v xs
      → length xs < n
      → (v' : StaticVector A) × (clear n v ≡ done v') × Holds n v' []
  unfolding clear erase_range move_down
  clear-Holds n v xs (size, fits, slots) room =
      let k : ℕ = v.size in
      let (w, gives, same, cleared) = destruct_all-clears n (k - 0) 0 v λ j lt.
        let (x, at_j, rest) = drop_cons j xs (omega (arith, lt, size)) in
        (x, ap v.slots {x = 0 + j} {y = j} (omega arith) ∙ slots j ∙ at_j) in
      let none_left : (i : ℕ) → w.slots i ≡ none = λ i.
        cleared i ∙ elim (Bool-cases (leb 0 i && ltb i (0 + (k - 0)))) [
          | inl e ↦ rw e refl
          | inr e ↦ rw e (slots i ∙ get_elem?-eq-none xs i (ground (arith, e, size)))
        ] in
      (
        record w { size = w.size - (k - 0) },
        next-done (verify_iterator_range n 0 k v) _
            (verify-done n 0 k v (omega arith) (omega (arith, room, size)))
            (next-done (destruct_all n (k - 0) 0 v) _ gives (
              next-done (move_range n k w.size 0 w)
                (λ t. done (record t { size = t.size - (k - 0) }))
                (ap (λ c. move_range n k c 0 w) same
                  ∙ move_range-none n k w (omega (arith, room, size)))
                refl)),
        (omega (arith, same), omega arith, λ i. none_left i),
      )

  verify-failed :
      (n b e : ℕ) (v : StaticVector A) (f : StaticVector A → Attempt A)
      → b ≤ e
      → n ≤ e
      → next (verify_iterator_range n b e v) f ≡ failed out_of_range v
  verify-failed n b e v f le past =
      let ordered : ltb e b ≡ false = ground (arith, le) in
      let out : ltb e n ≡ false = ground (arith, past) in
      rw ordered (elim (Bool-cases (ltb b n)) [ inl i ↦ rw (i, out) refl | inr i ↦ rw i refl ])

  erase_past : (n k : ℕ) (v : StaticVector A) → n ≤ suc k → erase n k v ≡ failed out_of_range v
  unfolding erase erase_range
  erase_past n k v past = verify-failed n k (suc k) v _ (omega arith) past

  clear_past : (n : ℕ) (v : StaticVector A) → n ≤ v.size → clear n v ≡ failed out_of_range v
  unfolding clear erase_range
  clear_past n v past = verify-failed n 0 v.size v _ (omega arith) past

  pop_back_past :
      (n k : ℕ) (v : StaticVector A) → v.size ≡ k → n ≤ k → pop_back n v ≡ failed out_of_range v
  unfolding pop_back
  pop_back_past n zero v size past =
      ap (λ k. elim k as (λ x. Attempt A) [ zero ↦ failed out_of_range v | suc k ↦ erase n k v ])
        size
  pop_back_past n (suc k) v size past =
      ap (λ k. elim k as (λ x. Attempt A) [ zero ↦ failed out_of_range v | suc k ↦ erase n k v ])
        size
      ∙ erase_past n k v past

  -- From a full vector nothing is removed: `pop_back` and `clear` throw `out_of_range`, since the checks
  -- do not take its end, and change nothing.
  pub full_keeps_all :
      (n : ℕ) (v : StaticVector A)
      → v.size ≡ n
      → (pop_back n v ≡ failed out_of_range v) × (clear n v ≡ failed out_of_range v)
  full_keeps_all n v size =
      (pop_back_past n v.size v refl (omega (arith, size)), clear_past n v (omega (arith, size)))

  abbrev three : A → A → A → StaticVector A
  three x y z = record { slots = λ i. get_elem? (x ∷ (y ∷ (z ∷ []))) i; size = 3 }

  construct-done :
      (n i : ℕ) (x : A) (v : StaticVector A)
      → i < n
      → construct_at n i x v ≡ done (put_slot n i (some x) v)
  unfolding construct_at
  construct-done n i x v lt = let inside : ltb i n ≡ true = ground (arith, lt) in rw inside refl

  erase-three :
      (n : ℕ) (x y z : A)
      → 3 < n
      → (v' : StaticVector A) × (erase n 0 (three x y z) ≡ done v')
        × (v'.size ≡ 2)
        × (at n 0 v' ≡ some z)
        × (at n 1 v' ≡ none)
  unfolding erase erase_range destruct_all destruct_at move_range move_down move_one put_slot at
  erase-three n x y z lt =
      let v₁ : StaticVector A = put_slot n 0 none (three x y z) in
      let v₂ : StaticVector A = put_slot n 2 none (put_slot n 1 (some z) v₁) in
      let v₃ : StaticVector A = put_slot n 1 none (put_slot n 0 (some z) v₂) in
      let first : move_one n 2 1 v₁ ≡ done v₂ =
        next-done (construct_at n 1 z v₁) (λ w. destruct_at n 2 w)
          (construct-done n 1 z v₁ (omega (arith, lt))) refl in
      let second : move_one n 1 0 v₂ ≡ done v₃ =
        next-done (construct_at n 0 z v₂) (λ w. destruct_at n 1 w)
          (construct-done n 0 z v₂ (omega (arith, lt))) refl in
      let moved : move_range n 1 3 0 v₁ ≡ done v₃ =
        next-done (verify_iterator_range n 1 3 v₁) _ (verify-done n 1 3 v₁ (omega arith) lt) (
          next-done (move_one n 2 1 v₁) _ first
            (next-done (move_one n 1 0 v₂) (λ w. done w) second refl)) in
      (
        record v₃ { size = 2 },
        next-done (verify_iterator_range n 0 1 (three x y z)) _
            (verify-done n 0 1 (three x y z) (omega arith) (omega (arith, lt)))
            (next-done (move_range n 1 3 0 v₁) (λ t. done (record t { size = t.size - 1 })) moved
              refl),
        refl,
        refl,
        refl,
      )

  -- From three elements in a vector of more than three slots, `erase` of the first leaves the last in its
  -- place and no object in the second slot, which still counts as an element: the second is lost.
  pub erase_first_loses :
      (n : ℕ) (v : StaticVector A) (x y z : A)
      → Holds n v (x ∷ (y ∷ (z ∷ [])))
      → 3 < n
      → (v' : StaticVector A) × (erase n 0 v ≡ done v')
        × (v'.size ≡ 2)
        × (at n 0 v' ≡ some z)
        × (at n 1 v' ≡ none)
  erase_first_loses n v x y z (size, le, slots) lt =
      let same : v ≡ three x y z = λ i. record { slots = fun_ext slots i; size = size i } in
      subst
        (λ u.
          (v' : StaticVector A) × (erase n 0 u ≡ done v')
          × (v'.size ≡ 2)
          × (at n 0 v' ≡ some z)
          × (at n 1 v' ≡ none))
        (sym same) (erase-three n x y z lt)
