-- ===== src/CircularQueue/Refine.antt =====
-- include/cpph/container/circular_queue.hxx against a bounded sequence: calls of the writing end.
use cppheaders.Prelude.{
  ℕ, suc, ◌+◌, ◌-◌, ◌≤◌, ◌<◌, ◌≡◌, refl, ◌∙◌, true, false, none, some, List, [], ◌∷◌, ◌++◌, arith,
  ◌==◌, if◌then◌else◌, length, get_elem?, drop, length-append, Bool-cases, inl, inr, sym, >>=-some,
  ==_iff, subst,
}
use mathlib.Core.List.{append_assoc, append-nil}
use cppheaders.CircularQueue.{CircularQueue, is_full, is_empty, push, pop, back, rotate}
use cppheaders.CircularQueue.Copy.{rotate_all}
use cppheaders.CircularQueue.Holds.{Holds, is_full-eq, is_empty-eq, read-spot, prev_head}
use cppheaders.CircularQueue.Ends.{push-Holds, pop-Holds, pop_empty}

-- The specification of a write to a full sequence: the oldest element makes place.
unfoldable pub bounded_append {ℓ} : {A : Type ℓ} → ℕ → List A → A → List A
bounded_append c xs x = if length xs == c then drop 1 xs ++ x ∷ [] else xs ++ x ∷ []

module _ {ℓ} {A : Type ℓ} where
  module _ {c : ℕ} where
    rotate_room-Holds :
        (q : CircularQueue A) (xs : List A) (x : A)
        → Holds c q xs
        → length xs < c
        → (q' : CircularQueue A) × (rotate q x ≡ some q') × Holds c q' (xs ++ x ∷ [])
    unfolding rotate
    rotate_room-Holds q xs x h p =
        let (q', run, h') = push-Holds h x p in
        let open_end : is_full q ≡ false = is_full-eq h ∙ ground arith in (q', rw open_end run, h')

    rotate_full-Holds :
        (q : CircularQueue A) (y : A) (xs : List A) (x : A)
        → Holds c q (y ∷ xs)
        → suc (length xs) ≡ c
        → (q' : CircularQueue A) × (rotate q x ≡ some q') × Holds c q' (xs ++ x ∷ [])
    unfolding rotate
    rotate_full-Holds q y xs x h e =
        let (p, popped, h') = pop-Holds h in
        let (q', run, h'') = push-Holds h' x (omega arith) in
        let full : is_full q ≡ true = is_full-eq h ∙ ground arith in
        (q', rw full (>>=-some (pop q) (λ r. push r x) popped run), h'')

    -- `rotate` never fails on a queue of capacity at least 1: it appends the element, and drops the
    -- oldest one if the queue was full.
    pub rotate-Holds :
        (q : CircularQueue A) (xs : List A) (x : A)
        → Holds c q xs
        → 0 < c
        → (q' : CircularQueue A) × (rotate q x ≡ some q') × Holds c q' (bounded_append c xs x)
    unfolding bounded_append
    rotate-Holds q [] x h p =
        let (q', run, h') = rotate_room-Holds q [] x h p in
        let space : (0 == c) ≡ false = ground arith in (q', run, rw space h')
    rotate-Holds q (y ∷ xs) x h p = elim (Bool-cases (length (y ∷ xs) == c)) [
      | inl full ↦
          let (q', run, h') = rotate_full-Holds q y xs x h ((==_iff _ _).0 full) in
          (q', run, rw full h')
      | inr space ↦
          let (q', run, h') = rotate_room-Holds q (y ∷ xs) x h (ground (arith, h.fits)) in
          (q', run, rw space h')
    ]

    pub rotate_all-Holds :
        (ys : List A) (q : CircularQueue A) (xs : List A)
        → Holds c q xs
        → length xs + length ys ≤ c
        → (q' : CircularQueue A) × (rotate_all q ys ≡ some q') × Holds c q' (xs ++ ys)
    unfolding rotate_all
    rotate_all-Holds [] q xs h p = (q, refl, subst (Holds c q) (sym (append-nil xs)) h)
    rotate_all-Holds (y ∷ ys) q xs h p =
        let (q', run, h') = rotate_room-Holds q xs y h (omega arith) in
        let (q'', rest, h'') =
          rotate_all-Holds ys q' (xs ++ y ∷ []) h' (omega (arith, length-append xs (y ∷ []))) in
        (
          q'',
          >>=-some (rotate q y) (λ r. rotate_all r ys) run rest,
          subst (Holds c q'') (append_assoc xs (y ∷ []) ys) h'',
        )

    -- The newest element stands at `back`.
    pub back-Holds :
        (q : CircularQueue A) (xs : List A)
        → Holds c q xs
        → 0 < length xs
        → back q ≡ get_elem? xs (length xs - 1)
    unfolding back
    back-Holds q xs h p =
        let some_left : is_empty q ≡ false = is_empty-eq h ∙ ground arith in
        rw (some_left, prev_head h p) (read-spot h (length xs - 1) (omega arith))

    -- A queue of capacity 0 takes nothing: the `pop` that makes place asserts.
    pub rotate-none :
        (q : CircularQueue A) (xs : List A) (x : A) → Holds c q xs → c ≡ 0 → rotate q x ≡ none
    unfolding rotate
    rotate-none q [] x h e =
        let full : is_full q ≡ true = is_full-eq h ∙ ground arith in rw (full, pop_empty h) refl
    rotate-none q (y ∷ xs) x h e = absurd (omega (arith, h.fits))
