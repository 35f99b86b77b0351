-- ===== src/Archive/Json/Reader/Steps.antt =====
-- include/cpph/refl/archive/json-reader.hxx: single steps of the reader, inside a scope.
use cppheaders.Prelude.{
  ℕ, zero, suc, ◌+◌, ◌<◌, ◌≡◌, refl, ap, sym, ◌∙◌, Bool, true, false, not, ◌&&◌, ◌||◌, Option, none,
  some, List, [], ◌∷◌, ◌++◌, arith, ◌==◌, if◌then◌else◌, length, get_elem?, drop, length-drop,
  drop-drop, drop-append_exact, Bool-cases, inl, inr, ◌⊎◌, ltb,
}
use cppheaders.Prelude.Int.{pos}
use cppheaders.Archive.Run.{
  Error, Outcome, thrown, index_out_of_range, returned, pure, require, >>=-returned,
  reader_invalid_context, reader_parse_failed,
}
use cppheaders.Archive.Json.Reader.{
  Token, ScopeType, JsonScope, Impl, is_object, is_array, is_string, token_at, next,
  starting_before, step_over, step_to, step, step_in, has_type, elements, find_scope, step_out,
}
use cppheaders.Archive.Json.Reader.Trees.{Below, From}

-- The reader at a place.
abbrev pub here : Impl → Option ℕ → List JsonScope → ℕ → Impl
here st p scopes gen = record st { pos_next = p; scopes = scopes; context_keygen = gen }

-- The scope with so many elements left.
abbrev pub with_left : JsonScope → ℕ → Bool → JsonScope
with_left s n b = record s { elem_left = pos n; is_key_next = b }

-- The reader stands before the token at `j`, or there is none and it knows.
abbrev pub Rests : List Token → Option ℕ → ℕ → Type 0
Rests ts p j = (p ≡ some j) ⊎ ((p ≡ none) × (j ≡ length ts))

abbrev pub place : List Token → ℕ → Option ℕ
place ts j = if j == length ts then none else some j

pub place-Rests : (ts : List Token) (j : ℕ) → Rests ts (place ts j) j
place-Rests ts j = elim (Bool-cases (j == length ts)) [
  | inl e ↦ rw e (inr (refl, ground (arith, e)))
  | inr e ↦ rw e (inl refl)
]

module _ {A : Type 0} where
  pub at_drop :
      (i : ℕ) (xs : List A) (x : A) (ys : List A) → drop i xs ≡ x ∷ ys → get_elem? xs i ≡ some x
  at_drop zero [] x ys e = absurd (ground (arith, e))
  at_drop zero (z ∷ xs) x ys e = ap (λ l. get_elem? l 0) e
  at_drop (suc i) [] x ys e = absurd (ground (arith, e))
  at_drop (suc i) (z ∷ xs) x ys e = at_drop i xs x ys e

  pub drop_behind :
      (i : ℕ) (xs ys zs : List A) → drop i xs ≡ ys ++ zs → drop (i + length ys) xs ≡ zs
  drop_behind i xs ys zs e =
      sym (drop-drop (length ys) i xs) ∙ ap (drop (length ys)) e ∙ drop-append_exact ys zs

  pub within : (i : ℕ) (xs : List A) (y : A) (ys : List A) → drop i xs ≡ y ∷ ys → i < length xs
  within i xs y ys e = omega (arith, length-drop i xs, ap length e)

-- Where a token follows, the reader stands before it.
pub Rests-some :
    (ts : List Token) (p : Option ℕ) (j : ℕ) (t : Token) (rest : List Token)
    → Rests ts p j
    → drop j ts ≡ t ∷ rest
    → p ≡ some j
Rests-some ts p j t rest (inl e) more = e
Rests-some ts p j t rest (inr (e, past)) more = absurd (omega (arith, within j ts t rest more))

pub starting-exact :
    (end : ℕ) (xs post : List Token)
    → Below end xs
    → From end post
    → starting_before end (xs ++ post) ≡ length xs
unfolding starting_before Below From
starting-exact end [] [] b f = refl
starting-exact end [] (t ∷ post) b f =
    let e : ltb t.start end ≡ false = ground (arith, f) in rw e refl
starting-exact end (x ∷ xs) post (lt, b) f =
    let e : ltb x.start end ≡ true = ground (arith, lt) in
    rw e (ap suc (starting-exact end xs post b f))

pub require-returned : (b : Bool) (x : Error) (w : Impl) → b ≡ true → require b x w ≡ returned tt w
require-returned b x w e = ap (λ c. require c x w) e

pub token_at-returned :
    (i : ℕ) (t : Token) (w : Impl) → get_elem? w.tokens i ≡ some t → token_at i w ≡ returned t w
token_at-returned i t w e =
    ap
      (λ o. elim o as (λ x. Outcome Impl Token) [
        | none ↦ thrown index_out_of_range w
        | some t ↦ returned t w
      ])
      e

module _ (st : Impl) where
  pub next-at :
      (i : ℕ) (scopes : List JsonScope) (gen : ℕ) (t : Token)
      → get_elem? st.tokens i ≡ some t
      → next (here st (some i) scopes gen) ≡ returned (i, t) (here st (some i) scopes gen)
  unfolding next
  next-at i scopes gen t e =
      >>=-returned (token_at i) _ (here st (some i) scopes gen)
        (token_at-returned i t (here st (some i) scopes gen) e) refl

  pub step-at :
      (s : JsonScope) (ss : List JsonScope) (gen i : ℕ) (t : Token) (n j : ℕ) (b : Bool)
      → get_elem? st.tokens i ≡ some t
      → (b && not (is_string t.kind)) ≡ false
      → ((if is_object t.kind || is_array t.kind then step_over i else pure (suc i))
            (here st (some i) (with_left s (suc n) b ∷ ss) gen)
          ≡ returned j (here st (some i) (with_left s (suc n) b ∷ ss) gen))
      → step (here st (some i) (with_left s (suc n) b ∷ ss) gen)
        ≡ returned tt (here st (place st.tokens j) (with_left s n false ∷ ss) gen)
  unfolding step step_to
  step-at s ss gen i t n j b e guard over =
      let w : Impl = here st (some i) (with_left s (suc n) b ∷ ss) gen in
      >>=-returned next _ w (next-at i (with_left s (suc n) b ∷ ss) gen t e) (
        >>=-returned (require (not (b && not (is_string t.kind))) reader_invalid_context) _ w
          (require-returned _ reader_invalid_context w (ap not guard))
          (>>=-returned (if is_object t.kind || is_array t.kind then step_over i else pure (suc i))
            _ w over refl))

  pub step_over-exact :
      (scopes : List JsonScope) (p : Option ℕ) (gen i : ℕ) (t : Token) (ts post : List Token)
      → drop i st.tokens ≡ t ∷ (ts ++ post)
      → Below t.end (t ∷ ts)
      → From t.end post
      → step_over i (here st p scopes gen) ≡ returned (i + suc (length ts)) (here st p scopes gen)
  unfolding step_over
  step_over-exact scopes p gen i t ts post laid b f =
      >>=-returned (token_at i) _ (here st p scopes gen)
        (token_at-returned i t (here st p scopes gen) (at_drop i st.tokens t (ts ++ post) laid))
        (ap (λ n. returned (i + n) (here st p scopes gen))
          (ap (starting_before t.end) laid ∙ starting-exact t.end (t ∷ ts) post b f))

  pub step_in-at :
      (type : ScopeType) (scopes : List JsonScope) (gen i : ℕ) (t : Token)
      → get_elem? st.tokens i ≡ some t
      → has_type type t.kind ≡ true
      → step_in type (here st (some i) scopes gen)
        ≡ returned (suc gen) (
            here st
              (some (suc i))
              (record {
                type = type;
                context = suc gen;
                token_pos = i;
                is_key_next = false;
                elem_left = pos (elements type t.size);
              }
                ∷ scopes)
              (suc gen))
  unfolding step_in
  step_in-at type scopes gen i t e ok =
      let w : Impl = here st (some i) scopes gen in
      >>=-returned next _ w (next-at i scopes gen t e) (
        >>=-returned (require (has_type type t.kind) reader_parse_failed) _ w
          (require-returned _ reader_parse_failed w ok) refl)

  -- `step_out` of the innermost scope, in another.
  pub step_out-innermost :
      (s o : JsonScope) (ss : List JsonScope) (p : Option ℕ) (gen n m : ℕ) (t : Token)
      (ts post : List Token)
      → drop s.token_pos st.tokens ≡ t ∷ (ts ++ post)
      → Below t.end (t ∷ ts)
      → From t.end post
      → step_out s.context (here st p (with_left s n false ∷ with_left o (suc m) false ∷ ss) gen)
        ≡ returned tt
            (here st (some (s.token_pos + suc (length ts))) (with_left o m false ∷ ss) gen)
  unfolding step_out find_scope
  step_out-innermost s o ss p gen n m t ts post laid b f =
      let scopes : List JsonScope = with_left s n false ∷ with_left o (suc m) false ∷ ss in
      let same : (s.context == s.context) ≡ true = ground arith in
      rw (step_out, find_scope, same)
        (>>=-returned (step_over s.token_pos) _ (here st p scopes gen)
          (step_over-exact scopes p gen s.token_pos t ts post laid b f) refl)
