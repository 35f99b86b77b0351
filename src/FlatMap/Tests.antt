-- ===== src/FlatMap/Tests.antt =====
-- include/cpph/container/flat_map.hxx on concrete maps and sets.
use cppheaders.Prelude.{ℕ, ◌≡◌, ◌==◌, if◌then◌else◌, refl, none, some, List, [], ◌∷◌, arith}
use cppheaders.FlatMap.{lower_bound, at, try_emplace, erase, insert_at, back}
use cppheaders.FlatMap.Laws.{Above, Sorted, or_else, try_emplace-at, erase-at, operations-Sorted}
use cppheaders.FlatMap.Set.{set_insert, set_erase, set_erase-set_insert}

abbrev sample : List (ℕ × ℕ)
sample = (2, 20) ∷ (5, 50) ∷ (9, 90) ∷ []

sample-Sorted : Sorted sample
unfolding Above
sample-Sorted = (omega arith, (omega arith, (omega arith, tt)))

emplace_middle : (try_emplace sample 7 70).0 ≡ (2, 20) ∷ (5, 50) ∷ (7, 70) ∷ (9, 90) ∷ []
unfolding try_emplace insert_at lower_bound
emplace_middle = refl

-- `back` returns the first element.
back_is_front : back sample ≡ some (2, 20)
unfolding back
back_is_front = refl

try_emplace-at_example :
    at (try_emplace sample 5 51).0 9 ≡ (if 9 == 5 then or_else 51 (at sample 5) else at sample 9)
try_emplace-at_example = try_emplace-at sample 5 9 51 sample-Sorted

erase-at_example : at (erase sample 5).0 5 ≡ (if 5 == 5 then none else at sample 5)
erase-at_example = erase-at sample 5 5 sample-Sorted

operations-Sorted_example : Sorted (try_emplace sample 7 70).0 × Sorted (erase sample 7).0
operations-Sorted_example = operations-Sorted sample 7 70 sample-Sorted

set_erase-set_insert_example :
    set_erase (set_insert (1 ∷ 4 ∷ []) 3) 3 ≡ (set_insert (1 ∷ 4 ∷ []) 3, 0)
set_erase-set_insert_example = set_erase-set_insert (1 ∷ 4 ∷ []) 3
