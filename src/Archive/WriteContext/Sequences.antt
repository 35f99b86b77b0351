-- ===== src/Archive/WriteContext/Sequences.antt =====
-- include/cpph/refl/archive/detail/context_helper.hxx: the calls that write one whole value, as a
-- writer makes them: an array or an object announces its elements, writes each and is closed.
use cppheaders.Prelude.{
  ℕ, suc, ◌+◌, ◌*◌, ◌%◌, ◌^◌, ◌≤◌, ◌<◌, ◌≡◌, refl, ap, ◌∙◌, true, false, [], ◌∷◌, arith, leb, ltb,
  ◌==◌, le→leb,
}
use cppheaders.Archive.Run.{returned, Run, ◌>>=◌, ◌>>◌, pure, >>=-returned}
use cppheaders.Archive.WriteContext.{
  ScopeType, object, array, binary, is_object, Scope, Scopes, is_key_next, top, write_key_next,
  write_next, write_next_in, directive, assert_value_context, is_key_current, push_array,
  push_object, pop_array, pop_object,
}
use cppheaders.Archive.WriteContext.Laws.{
  Ready, ReadyIn, one_more, after_value, write_next-Ready, pop_array_done, pop_object_done,
}

-- The shape of a value: the key of a field is itself a value without parts.
mutual
  pub data Shape : Type 0 where
    leaf : Shape
    array_of : Shapes → Shape
    object_of : Shapes → Shape

  pub data Shapes : Type 0 where
    nothing : Shapes
    also : Shape → Shapes → Shapes

unfoldable pub count : Shapes → ℕ
count nothing = 0
count (also v vs) = suc (count vs)

abbrev pub discard : {A : Type 0} → Run Scopes A → Run Scopes (Unit {0})
discard m = m >>= λ _. pure tt

abbrev pub write_key : Run Scopes (Unit {0})
write_key = do write_key_next; write_next; pure tt

unfoldable mutual
  pub write_shape : Shape → Run Scopes (Unit {0})
  write_shape leaf = discard write_next
  write_shape (array_of vs) = do
    write_next
    push_array (count vs)
    write_elements vs
    discard pop_array
  write_shape (object_of vs) = do
    write_next
    push_object (count vs)
    write_fields vs
    discard pop_object

  pub write_elements : Shapes → Run Scopes (Unit {0})
  write_elements nothing = pure tt
  write_elements (also v vs) = do write_shape v; write_elements vs

  pub write_fields : Shapes → Run Scopes (Unit {0})
  write_fields nothing = pure tt
  write_fields (also v vs) = do write_key; write_shape v; write_fields vs

-- Every count fits, doubled, in 64 bits.
unfoldable mutual
  pub Fits : Shape → Type 0
  Fits leaf = Unit {0}
  Fits (array_of vs) = (count vs < 2 ^ 63) × FitsAll vs
  Fits (object_of vs) = (count vs < 2 ^ 63) × FitsAll vs

  pub FitsAll : Shapes → Type 0
  FitsAll nothing = Unit {0}
  FitsAll (also v vs) = Fits v × FitsAll vs

-- A scope in which the next call is not between a key and its value.
abbrev pub at : ScopeType → ℕ → ℕ → Scope
at t i n = record { type = t; key_ready = false; size = i; capacity = n }

pub assert_value_context-Ready :
    (s : Scopes) → Ready s → assert_value_context (after_value s) ≡ returned tt (after_value s)
unfolding assert_value_context is_key_current Ready ReadyIn
assert_value_context-Ready [] r = refl
assert_value_context-Ready (e ∷ rest) (r, room, fits) = kinds e.type refl r
  where
    kinds :
        (t : ScopeType)
        → e.type ≡ t
        → ReadyIn t e
        → assert_value_context (one_more e ∷ rest) ≡ returned tt (one_more e ∷ rest)
    kinds object h (k, odd) =
        let even : ((e.size + 1) % 2 == 1) ≡ false = ground arith in rw (ap is_object h, even) refl
    kinds array h r = rw (ap is_object h) refl
    kinds binary h r = rw (ap is_object h) refl

pub write_key_next-at :
    (i n : ℕ) (rest : Scopes)
    → i % 2 ≡ 0
    → i < n
    → n < 2 ^ 64
    → write_key_next (at object i n ∷ rest)
      ≡ returned
          (ltb 0 i)
          (record { type = object; key_ready = true; size = i + 1; capacity = n } ∷ rest)
unfolding write_key_next is_key_next top
write_key_next-at i n rest even room fits =
    let e : (i % 2 == 0) ≡ true = ground arith in
    let m : (i + 1) % 2 ^ 64 ≡ i + 1 = omega arith in
    let ok : leb (i + 1) n ≡ true = le→leb _ _ (omega arith) in rw (e, m, ok) refl

pub write_next-key :
    (i n : ℕ) (rest : Scopes)
    → i % 2 ≡ 1
    → write_next (record { type = object; key_ready = true; size = i; capacity = n } ∷ rest)
      ≡ returned (directive true (ltb 2 i) true) (at object i n ∷ rest)
unfolding write_next write_next_in is_key_current
write_next-key i n rest odd = let o : (i % 2 == 1) ≡ true = ground arith in rw o refl

write_key-at :
    (i n : ℕ) (rest : Scopes)
    → i % 2 ≡ 0
    → i < n
    → n < 2 ^ 64
    → write_key (at object i n ∷ rest) ≡ returned tt (at object (i + 1) n ∷ rest)
write_key-at i n rest even room fits =
    >>=-returned write_key_next _ _ (write_key_next-at i n rest even room fits)
      (>>=-returned write_next _ _ (write_next-key (i + 1) n rest (omega arith)) refl)

mutual
  unfolding write_shape Fits push_array push_object count Ready ReadyIn

  shape-Ready :
      (v : Shape) (s : Scopes) → Fits v → Ready s → write_shape v s ≡ returned tt (after_value s)
  shape-Ready leaf s f r = >>=-returned write_next _ s (write_next-Ready s r).1 refl
  shape-Ready (array_of vs) s (small, f) r = >>=-returned write_next _ s (write_next-Ready s r).1 (
      >>=-returned (push_array (count vs)) _ (after_value s)
        (>>=-returned assert_value_context _ (after_value s) (assert_value_context-Ready s r) refl)
        (>>=-returned (write_elements vs) _ _
          (write_elements-at vs 0 (count vs) (after_value s) f (omega arith) (omega arith))
          (>>=-returned pop_array _ _
            (pop_array_done (at array (0 + count vs) (count vs)) (after_value s) (omega arith))
            refl)))
  shape-Ready (object_of vs) s (small, f) r = >>=-returned write_next _ s (write_next-Ready s r).1 (
      >>=-returned (push_object (count vs)) _ (after_value s)
        (>>=-returned assert_value_context _ (after_value s) (assert_value_context-Ready s r) (
          ap (λ n. returned tt (at object 0 n ∷ after_value s)) {x = count vs * 2 % 2 ^ 64}
            {y = 2 * count vs} (omega arith)))
        (>>=-returned (write_fields vs) _ _
          (write_fields-at vs 0 (2 * count vs) (after_value s) f (omega arith) (omega arith)
            (omega arith))
          (>>=-returned pop_object _ _
            (pop_object_done (at object (0 + 2 * count vs) (2 * count vs)) (after_value s)
              (omega arith))
            refl)))

  write_elements-at :
      (vs : Shapes) (i n : ℕ) (rest : Scopes)
      → FitsAll vs
      → i + count vs ≤ n
      → n < 2 ^ 64
      → write_elements vs (at array i n ∷ rest) ≡ returned tt (at array (i + count vs) n ∷ rest)
  write_elements-at nothing i n rest f room fits =
      ap (λ j. returned tt (at array j n ∷ rest)) {x = i} {y = i + 0} (omega arith)
  write_elements-at (also v vs) i n rest (f, fs) room fits =
      >>=-returned (write_shape v) _ _
        (shape-Ready v (at array i n ∷ rest) f (tt, omega arith, fits))
        (write_elements-at vs (i + 1) n rest fs (omega arith) fits
          ∙ ap (λ j. returned tt (at array j n ∷ rest)) {x = i + 1 + count vs}
              {y = i + suc (count vs)} (omega arith))

  write_fields-at :
      (vs : Shapes) (i n : ℕ) (rest : Scopes)
      → FitsAll vs
      → i % 2 ≡ 0
      → i + 2 * count vs ≤ n
      → n < 2 ^ 64
      → write_fields vs (at object i n ∷ rest) ≡ returned tt (at object (i + 2 * count vs) n ∷ rest)
  write_fields-at nothing i n rest f even room fits =
      ap (λ j. returned tt (at object j n ∷ rest)) {x = i} {y = i + 2 * 0} (omega arith)
  write_fields-at (also v vs) i n rest (f, fs) even room fits =
      >>=-returned write_key _ _ (write_key-at i n rest even (omega arith) fits) (
        >>=-returned (write_shape v) _ _
          (shape-Ready v (at object (i + 1) n ∷ rest) f ((refl, omega arith), omega arith, fits))
          (write_fields-at vs (i + 1 + 1) n rest fs (omega arith) (omega arith) fits
            ∙ ap (λ j. returned tt (at object j n ∷ rest)) {x = i + 1 + 1 + 2 * count vs}
                {y = i + 2 * suc (count vs)} (omega arith)))

-- Writing a value where a value is next never throws, leaves the enclosing scopes as they were, and
-- counts one element more in the innermost: each array and object takes exactly the elements that it
-- announced, and is closed. The arrays and objects have fewer than `2 ^ 63` elements each.
pub write_shape-Ready :
    (v : Shape) (s : Scopes) → Fits v → Ready s → write_shape v s ≡ returned tt (after_value s)
write_shape-Ready = shape-Ready
