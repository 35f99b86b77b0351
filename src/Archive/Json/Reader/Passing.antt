-- ===== src/Archive/Json/Reader/Passing.antt =====
-- include/cpph/refl/archive/json-reader.hxx: `read(nullptr)` passes over a value as reading it does.
use cppheaders.Prelude.{
  ℕ, suc, ◌+◌, ◌≡◌, refl, ap, ◌∙◌, true, false, ◌||◌, some, List, ◌∷◌, ◌++◌, arith, if◌then◌else◌,
  length, drop,
}
use cppheaders.Archive.Run.{returned, pure}
use cppheaders.Archive.Json.Reader.{Token, JsonScope, Impl, is_object, is_array, step, step_over}
use cppheaders.Archive.Json.Reader.Prepare.{Jsmn, prepare}
use cppheaders.Archive.Json.Reader.Values.{read_null}
use cppheaders.Archive.Json.Reader.Trees.{
  Tree, primitive, string, array_of, object_of, flatten, flatten_all, flatten_pairs, texts, Laid,
  visit, Below, From,
}
use cppheaders.Archive.Json.Reader.Steps.{
  here, with_left, place, at_drop, step-at, step_over-exact, place-Rests,
}
use cppheaders.Archive.Json.Reader.Visits.{Visited}
use cppheaders.Archive.Json.Reader.Reads.{visit-on}

module _ (st : Impl) (s : JsonScope) (ss : List JsonScope) (gen n i : ℕ) where
  sequence-step :
      (t : Token) (ts post : List Token)
      → drop i st.tokens ≡ t ∷ (ts ++ post)
      → (is_object t.kind || is_array t.kind) ≡ true
      → Below t.end (t ∷ ts)
      → From t.end post
      → step (here st (some i) (with_left s (suc n) false ∷ ss) gen)
        ≡ returned tt
            (here st (place st.tokens (i + suc (length ts))) (with_left s n false ∷ ss) gen)
  sequence-step t ts post e nested below from =
      let w : Impl = here st (some i) (with_left s (suc n) false ∷ ss) gen in
      step-at st s ss gen i t n (i + suc (length ts)) false (at_drop i st.tokens t (ts ++ post) e)
        refl
        (ap (λ c. (if c then step_over i else pure (suc i)) w) nested
          ∙ step_over-exact st (with_left s (suc n) false ∷ ss) (some i) gen i t ts post e below
              from)

  token-step :
      (t : Token) (post : List Token)
      → drop i st.tokens ≡ t ∷ post
      → (is_object t.kind || is_array t.kind) ≡ false
      → step (here st (some i) (with_left s (suc n) false ∷ ss) gen)
        ≡ returned tt (here st (place st.tokens (i + 1)) (with_left s n false ∷ ss) gen)
  token-step t post e flat =
      let w : Impl = here st (some i) (with_left s (suc n) false ∷ ss) gen in
      step-at st s ss gen i t n (i + 1) false (at_drop i st.tokens t post e) refl (
        ap (λ c. (if c then step_over i else pure (suc i)) w) flat
        ∙ ap (λ j. returned j w) {x = suc i} {y = i + 1} (omega arith))

  tree-step :
      (x : Tree) (post : List Token)
      → drop i st.tokens ≡ flatten x ++ post
      → Laid st.buffer x post
      → step (here st (some i) (with_left s (suc n) false ∷ ss) gen)
        ≡ returned tt
            (here st (place st.tokens (i + length (flatten x))) (with_left s n false ∷ ss) gen)
  unfolding Laid flatten
  tree-step (primitive t) post e kind =
      token-step t post e (ap (λ k. is_object k || is_array k) kind)
  tree-step (string t) post e (kind, le) =
      token-step t post e (ap (λ k. is_object k || is_array k) kind)
  tree-step (array_of t xs) post e (kind, size, below, from, laid) =
      sequence-step t (flatten_all xs) post e (ap (λ k. is_object k || is_array k) kind) below from
  tree-step (object_of t ps) post e (kind, size, below, from, laid) =
      sequence-step t (flatten_pairs ps) post e (ap (λ k. is_object k || is_array k) kind) below
        from

-- In a scope that has an element left and no key announced, before the tokens of a value, whatever
-- is in it and whatever follows: reading the value from end to end, each array and object entered and
-- left and each string read, gets its strings in their order; `read(nullptr)` passes over it; and both
-- end behind its tokens, or know that there are no more, with one element less in the scope and the
-- scopes around it as they were. No tokenizer is called.
pub visit-read_null :
    (jsmn : Jsmn) (st : Impl) (s : JsonScope) (ss : List JsonScope) (gen n i : ℕ) (x : Tree)
    (post : List Token)
    → drop i st.tokens ≡ flatten x ++ post
    → Laid st.buffer x post
    → Visited st
        (visit jsmn x)
        (some i)
        (with_left s (suc n) false ∷ ss)
        gen
        (texts st.buffer x)
        (i + length (flatten x))
        (with_left s n false ∷ ss)
      × Visited st
          (read_null jsmn)
          (some i)
          (with_left s (suc n) false ∷ ss)
          gen
          tt
          (i + length (flatten x))
          (with_left s n false ∷ ss)
unfolding read_null prepare
visit-read_null jsmn st s ss gen n i x post e laid =
    let j : ℕ = i + length (flatten x) in
    (
      visit-on jsmn st x post s ss gen i n e laid,
      (place st.tokens j, gen, place-Rests st.tokens j, tree-step st s ss gen n i x post e laid),
    )
