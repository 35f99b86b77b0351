-- ===== src/StaticVector/Tests.antt =====
-- include/cpph/container/static_vector.hxx on vectors of numbers.
use cppheaders.Prelude.{
  ℕ, ◌<◌, ◌≤◌, ◌≡◌, refl, none, some, List, [], ◌∷◌, arith, length, get_elem?, ◌⊎◌,
}
use cppheaders.StaticVector.{
  out_of_range, bad_alloc, StaticVector, done, failed, emplace_back, pop_back, clear, erase, at,
}
use cppheaders.StaticVector.Laws.{Holds, emplace_back-Holds, full_keeps_all, erase_first_loses}

-- The elements of a list in the first slots.
abbrev of : List ℕ → StaticVector ℕ
of xs = record { slots = λ i. get_elem? xs i; size = length xs }

of-Holds : (n : ℕ) (xs : List ℕ) → length xs ≤ n → Holds n (of xs) xs
of-Holds n xs fits = (refl, fits, λ i. refl)

emplace_back-Holds_example :
    ((v' : StaticVector ℕ) × (emplace_back 4 9 (of (7 ∷ 8 ∷ [])) ≡ done v')
      × Holds 4 v' (7 ∷ 8 ∷ 9 ∷ [])
      × (2 < 4))
    ⊎ ((emplace_back 4 9 (of (7 ∷ 8 ∷ [])) ≡ failed bad_alloc (of (7 ∷ 8 ∷ [])))
        × (length {A = ℕ} (7 ∷ 8 ∷ []) ≡ 4))
emplace_back-Holds_example =
    emplace_back-Holds 4 (of (7 ∷ 8 ∷ [])) (7 ∷ 8 ∷ []) 9 (of-Holds 4 (7 ∷ 8 ∷ []) (omega arith))

full_keeps_all_example :
    (pop_back 2 (of (7 ∷ 8 ∷ [])) ≡ failed out_of_range (of (7 ∷ 8 ∷ [])))
    × (clear 2 (of (7 ∷ 8 ∷ [])) ≡ failed out_of_range (of (7 ∷ 8 ∷ [])))
full_keeps_all_example = full_keeps_all 2 (of (7 ∷ 8 ∷ [])) refl

erase_first_loses_example :
    (v' : StaticVector ℕ) × (erase 4 0 (of (7 ∷ 8 ∷ 9 ∷ [])) ≡ done v')
    × (v'.size ≡ 2)
    × (at 4 0 v' ≡ some 9)
    × (at 4 1 v' ≡ none)
erase_first_loses_example =
    erase_first_loses 4 (of (7 ∷ 8 ∷ 9 ∷ [])) 7 8 9 (of-Holds 4 (7 ∷ 8 ∷ 9 ∷ []) (omega arith))
      (omega arith)
