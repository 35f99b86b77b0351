-- ===== src/Archive/Json/Reader/Visits.antt =====
-- include/cpph/refl/archive/json-reader.hxx: runs from place to place, inside a scope.
use cppheaders.Prelude.{
  ℕ, suc, ◌+◌, ◌-◌, ◌≤◌, ◌≡◌, refl, ap, ◌∙◌, Bool, true, false, not, ◌&&◌, ◌||◌, Option, some, List,
  [], ◌∷◌, ◌++◌, arith, if◌then◌else◌, length, get_elem?, drop, take, ltb, inl,
}
use cppheaders.Prelude.Int.{pos}
use cppheaders.Archive.Run.{
  Run, returned, ◌>>=◌, ◌>>◌, pure, require, >>=-returned, reader_parse_failed,
}
use cppheaders.Archive.Json.Reader.{
  jsmn_string, Token, ScopeType, type_object, JsonScope, Impl, is_object, is_array, is_string, next,
  tokstr, step_over, step, step_in, has_type, elements, step_out,
}
use cppheaders.Archive.Json.Reader.Prepare.{Jsmn, prepare}
use cppheaders.Archive.Json.Reader.Values.{read_str, read_key_next, is_object_scope}
use cppheaders.Archive.Json.Reader.Trees.{
  Tree, primitive, string, array_of, object_of, flatten, flatten_all, flatten_pairs, text_of, Below,
  From,
}
use cppheaders.Archive.Json.Reader.Steps.{
  here, with_left, Rests, place, place-Rests, require-returned, next-at, step-at, step_in-at,
  step_out-innermost,
}

-- A run from a place to before the token at `j`, in these scopes.
abbrev pub Visited :
    {A : Type 0}
    → Impl
    → Run Impl A
    → Option ℕ
    → List JsonScope
    → ℕ
    → A
    → ℕ
    → List JsonScope
    → Type 0
Visited st m p scopes gen a j scopes' =
    (p' : Option ℕ) × (gen' : ℕ) × Rests st.tokens p' j
    × (m (here st p scopes gen) ≡ returned a (here st p' scopes' gen'))

pub flatten_cons : (x : Tree) → (t : Token) × (rest : List Token) × (flatten x ≡ t ∷ rest)
unfolding flatten
flatten_cons (primitive t) = (t, [], refl)
flatten_cons (string t) = (t, [], refl)
flatten_cons (array_of t xs) = (t, flatten_all xs, refl)
flatten_cons (object_of t ps) = (t, flatten_pairs ps, refl)

pub tokstr-returned :
    (t : Token) (w : Impl)
    → t.start ≤ length w.buffer
    → tokstr t w ≡ returned (take (t.end - t.start) (drop t.start w.buffer)) w
unfolding tokstr
tokstr-returned t w le =
    let e : ltb (length w.buffer) t.start ≡ false = ground (arith, le) in rw (tokstr, e) refl

-- The scope that opens at the token at `i`.
abbrev pub opened : ScopeType → ℕ → ℕ → JsonScope
opened type gen i = record {
  type = type;
  context = suc gen;
  token_pos = i;
  is_key_next = false;
  elem_left = pos 0;
}

module _ (jsmn : Jsmn) (st : Impl) where
  pub leaf-step :
      (s : JsonScope) (ss : List JsonScope) (gen i : ℕ) (t : Token) (n : ℕ) (b : Bool)
      → get_elem? st.tokens i ≡ some t
      → (is_object t.kind || is_array t.kind) ≡ false
      → (b && not (is_string t.kind)) ≡ false
      → step (here st (some i) (with_left s (suc n) b ∷ ss) gen)
        ≡ returned tt (here st (place st.tokens (suc i)) (with_left s n false ∷ ss) gen)
  leaf-step s ss gen i t n b e flat guard = step-at st s ss gen i t n (suc i) b e guard (
      ap
        (λ c.
          (if c then step_over i else pure (suc i))
            (here st (some i) (with_left s (suc n) b ∷ ss) gen))
        flat)

  pub read_str-at :
      (s : JsonScope) (ss : List JsonScope) (gen i : ℕ) (t : Token) (n : ℕ) (b : Bool)
      → get_elem? st.tokens i ≡ some t
      → t.kind ≡ jsmn_string
      → t.start ≤ length st.buffer
      → read_str jsmn (here st (some i) (with_left s (suc n) b ∷ ss) gen)
        ≡ returned
            (text_of st.buffer t)
            (here st (place st.tokens (suc i)) (with_left s n false ∷ ss) gen)
  unfolding read_str prepare
  read_str-at s ss gen i t n b e kind le =
      let w : Impl = here st (some i) (with_left s (suc n) b ∷ ss) gen in
      let str : is_string t.kind ≡ true = ap is_string kind in
      >>=-returned next _ w (next-at st i (with_left s (suc n) b ∷ ss) gen t e) (
        >>=-returned (tokstr t) _ w (tokstr-returned t w le) (
          >>=-returned (require (is_string t.kind) reader_parse_failed) _ w
            (require-returned (is_string t.kind) reader_parse_failed w str)
            (>>=-returned step _ w
              (leaf-step s ss gen i t n b e (ap (λ k. is_object k || is_array k) kind)
                (ap (λ k. b && not (is_string k)) kind ∙ ground arith))
              refl)))

  pub enter-at :
      (type : ScopeType) (scopes : List JsonScope) (gen i k : ℕ) (t : Token)
      → get_elem? st.tokens i ≡ some t
      → has_type type t.kind ≡ true
      → elements type t.size ≡ k
      → step_in type (here st (some i) scopes gen)
        ≡ returned
            (suc gen)
            (here st (some (suc i)) (with_left (opened type gen i) k false ∷ scopes) (suc gen))
  enter-at type scopes gen i k t e ok size =
      step_in-at st type scopes gen i t e ok
      ∙ ap
          (λ m.
            returned (suc gen)
              (here st (some (suc i)) (with_left (opened type gen i) m false ∷ scopes) (suc gen)))
          size

  read_key_next-at :
      (s : JsonScope) (ss : List JsonScope) (p : Option ℕ) (gen n : ℕ)
      → s.type ≡ type_object
      → read_key_next (here st p (with_left s n false ∷ ss) gen)
        ≡ returned tt (here st p (with_left s n true ∷ ss) gen)
  unfolding read_key_next
  read_key_next-at s ss p gen n is_object =
      let w : Impl = here st p (with_left s n false ∷ ss) gen in
      >>=-returned (require (is_object_scope s.type) reader_parse_failed) _ w
        (require-returned (is_object_scope s.type) reader_parse_failed w
          (ap is_object_scope is_object))
        refl

  -- The rest of a tuple of runs: what was visited, and then the next.
  pub then-Visited :
      {A B : Type 0} (m : Run Impl A) (f : A → Run Impl B) (p : Option ℕ) (scopes : List JsonScope)
      (gen : ℕ) (a : A) (j : ℕ) (between : List JsonScope) (b : B) (k : ℕ) (after : List JsonScope)
      → Visited st m p scopes gen a j between
      → ((p' : Option ℕ) (gen' : ℕ)
          → Rests st.tokens p' j
          → Visited st (f a) p' between gen' b k after)
      → Visited st (m >>= f) p scopes gen b k after
  then-Visited m f p scopes gen a j between b k after (p', gen', rests, e) more =
      let (p'', gen'', rests', e') = more p' gen' rests in
      (p'', gen'', rests', >>=-returned m f (here st p scopes gen) e e')

  -- The end of a sequence, whose tokens are all read.
  pub close-Visited :
      {A : Type 0} (type : ScopeType) (out : A) (s : JsonScope) (ss : List JsonScope)
      (gen gen' i n : ℕ) (p : Option ℕ) (t : Token) (ts post : List Token)
      → drop i st.tokens ≡ t ∷ (ts ++ post)
      → Below t.end (t ∷ ts)
      → From t.end post
      → Visited st
          (step_out (suc gen) >> pure out)
          p
          (with_left (opened type gen i) 0 false ∷ with_left s (suc n) false ∷ ss)
          gen'
          out
          (i + suc (length ts))
          (with_left s n false ∷ ss)
  close-Visited type out s ss gen gen' i n p t ts post laid b f = (
    some (i + suc (length ts)),
    gen',
    inl refl,
    >>=-returned (step_out (suc gen)) _
        (here st p (with_left (opened type gen i) 0 false ∷ with_left s (suc n) false ∷ ss) gen')
        (step_out-innermost st (opened type gen i) s ss p gen' 0 n t ts post laid b f) refl,
  )

  -- A key is announced and read.
  pub key-Visited :
      {B : Type 0} (f : List ℕ → Run Impl B) (s : JsonScope) (ss : List JsonScope) (gen i m : ℕ)
      (k : Token) (b : B) (j : ℕ) (after : List JsonScope)
      → get_elem? st.tokens i ≡ some k
      → k.kind ≡ jsmn_string
      → k.start ≤ length st.buffer
      → s.type ≡ type_object
      → ((p' : Option ℕ) (gen' : ℕ)
          → Rests st.tokens p' (suc i)
          → Visited st (f (text_of st.buffer k)) p' (with_left s m false ∷ ss) gen' b j after)
      → Visited st
          (read_key_next >> (read_str jsmn >>= f))
          (some i)
          (with_left s (suc m) false ∷ ss)
          gen
          b
          j
          after
  key-Visited f s ss gen i m k b j after e kind le is_object more =
      let (p', gen', rests, e') =
        more (place st.tokens (suc i)) gen (place-Rests st.tokens (suc i)) in
      (
        p',
        gen',
        rests,
        >>=-returned read_key_next _ (here st (some i) (with_left s (suc m) false ∷ ss) gen)
            (read_key_next-at s ss (some i) gen (suc m) is_object)
            (>>=-returned (read_str jsmn) f (here st (some i) (with_left s (suc m) true ∷ ss) gen)
              (read_str-at s ss gen i k m true e kind le) e'),
      )
