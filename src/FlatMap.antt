-- ===== src/FlatMap.antt =====
-- include/cpph/container/flat_map.hxx: `flat_map` with keys that `std::less` orders as numbers. An
-- iterator is an index of the vector, and the size of the vector for `end()`.
pub mod Set
pub mod Lookup
pub mod Laws
pub mod Tests
use cppheaders.Prelude.{
  ℕ, zero, suc, ◌+◌, Bool, true, false, not, ◌&&◌, Option, none, some, List, [], ◌∷◌, ltb, ◌==◌,
  if◌then◌else◌, length, get_elem?,
}

module _ {ℓ} {A : Type ℓ} where
  -- `_vector.insert`
  unfoldable pub insert_at : ℕ → A → List A → List A
  insert_at zero e xs = e ∷ xs
  insert_at (suc i) e [] = e ∷ []
  insert_at (suc i) e (x ∷ xs) = x ∷ insert_at i e xs

  -- `_vector.erase`, also `erase(const_iterator)`
  unfoldable pub erase_at : ℕ → List A → List A
  erase_at i [] = []
  erase_at zero (x ∷ xs) = xs
  erase_at (suc i) (x ∷ xs) = x ∷ erase_at i xs

module _ {ℓ} {V : Type ℓ} where
  -- `_lower_bound`: the first position whose key is not less than `key`. `std::lower_bound` finds it by
  -- halving, where the keys are in order.
  unfoldable pub lower_bound : List (ℕ × V) → ℕ → ℕ
  lower_bound [] key = 0
  lower_bound ((k, v) ∷ rest) key = if ltb k key then suc (lower_bound rest key) else 0

  abbrev pub is_before : ℕ → Option (ℕ × V) → Bool
  is_before key none = false
  is_before key (some (k, v)) = ltb key k

  unfoldable pub find : List (ℕ × V) → ℕ → ℕ
  unfolding lower_bound
  find xs key =
      let i = lower_bound xs key in
      if not (i == length xs) && is_before key (get_elem? xs i) then length xs else i

  -- `at`, which throws where it answers `none`.
  unfoldable pub at : List (ℕ × V) → ℕ → Option V
  unfolding find
  at xs key =
      let i = find xs key in
      if i == length xs then none else elim (get_elem? xs i) [ none ↦ none | some (k, v) ↦ some v ]

  -- The map afterwards, the position, and whether the element is new.
  unfoldable pub try_emplace : List (ℕ × V) → ℕ → V → List (ℕ × V) × ℕ × Bool
  unfolding lower_bound insert_at
  try_emplace xs key v =
      let i = lower_bound xs key in
      if not (i == length xs) && not (is_before key (get_elem? xs i))
      then (xs, i, false)
      else (insert_at i (key, v) xs, i, true)

  -- `erase(key_type)`: the map afterwards and the number of elements erased.
  unfoldable pub erase : List (ℕ × V) → ℕ → List (ℕ × V) × ℕ
  unfolding find erase_at
  erase xs key = let i = find xs key in if i == length xs then (xs, 0) else (erase_at i xs, 1)

  -- `operator[]` with `fresh` the value made by default: the map afterwards and the value referred to.
  unfoldable pub subscript : V → List (ℕ × V) → ℕ → List (ℕ × V) × Option V
  unfolding try_emplace
  subscript fresh xs key =
      let (ys, i, new) = try_emplace xs key fresh in
      (ys, elim (get_elem? ys i) [ none ↦ none | some (k, v) ↦ some v ])

  unfoldable pub front : List (ℕ × V) → Option (ℕ × V)
  front xs = get_elem? xs 0

  -- `back`, which returns `_vector.front()`
  unfoldable pub back : List (ℕ × V) → Option (ℕ × V)
  back xs = get_elem? xs 0

  unfoldable pub map_size : List (ℕ × V) → ℕ
  map_size xs = length xs

  unfoldable pub map_clear : List (ℕ × V) → List (ℕ × V)
  map_clear xs = []
