-- ===== src/Archive/Json/Reader/Keys.antt =====
-- include/cpph/refl/archive/json-reader.hxx: `goto_key`, against a search of the object's keys.
use cppheaders.Prelude.{
  ℕ, suc, ◌+◌, ◌-◌, ◌*◌, ◌≤◌, ◌<◌, ◌≡◌, refl, ap, ◌∙◌, Bool, true, false, Option, none, some, List,
  [], ◌∷◌, ◌++◌, arith, if◌then◌else◌, length, get_elem?, drop, take, ltb, Bool-cases, inl, inr,
  ◌==◌,
}
use cppheaders.Prelude.Int.{pos}
use mathlib.Core.List.{append_assoc}
use cppheaders.Archive.Run.{
  Run, Outcome, returned, thrown, ◌>>=◌, require, >>=-returned, >>=-thrown, reader_check_failed,
  assertion_failed,
}
use cppheaders.Archive.Json.Reader.{
  jsmn_object, jsmn_string, Token, type_object, JsonScope, Impl, is_object, is_string, token_at,
  tokstr, starting_before, step_over,
}
use cppheaders.Archive.Json.Reader.Values.{
  same_text, is_object_scope, is_parent, seek_key, goto_found, goto_key,
}
use cppheaders.Archive.Json.Reader.Trees.{
  Tree, primitive, string, array_of, object_of, Pairs, no_pairs, pair, flatten, flatten_all,
  flatten_pairs, Laid, LaidPairs, Below, From, count_both,
}
use cppheaders.Archive.Json.Reader.Steps.{
  here, at_drop, drop_behind, require-returned, token_at-returned, step_over-exact,
}
use cppheaders.Archive.Json.Reader.Visits.{tokstr-returned}

unfoldable pub count_pairs : Pairs → ℕ
count_pairs no_pairs = 0
count_pairs (pair k v ps) = suc (count_pairs ps)

count_both-count_pairs : (ps : Pairs) → count_both ps ≡ count_pairs ps + count_pairs ps
unfolding count_both count_pairs
count_both-count_pairs no_pairs = refl
count_both-count_pairs (pair k v ps) = omega (arith, count_both-count_pairs ps)

abbrev pub raw : List ℕ → Token → List ℕ
raw buffer t = take (t.end - t.start) (drop t.start buffer)

-- The first key of this text, the first key standing at `j`: its position, and the keys behind it.
unfoldable pub lookup : List ℕ → List ℕ → Pairs → ℕ → Option (ℕ × ℕ)
unfolding count_pairs flatten
lookup buffer key no_pairs j = none
lookup buffer key (pair k v ps) j =
    if same_text (raw buffer k) key
    then some (j, count_pairs ps)
    else lookup buffer key ps (j + suc (length (flatten v)))

-- Each key has the token at `i` for its parent.
unfoldable pub KeysOf : ℕ → Pairs → Type 0
KeysOf i no_pairs = Unit {0}
KeysOf i (pair k v ps) = (k.parent ≡ some i) × KeysOf i ps

-- The token of a value without parts has a character, and what follows starts behind it.
unfoldable pub HasText : Tree → List Token → Type 0
unfolding From
HasText (primitive t) post = (t.start < t.end) × From t.end post
HasText (string t) post = (t.start < t.end) × From t.end post
HasText _ post = Unit {0}

unfoldable pub HaveText : Pairs → List Token → Type 0
unfolding HasText flatten_pairs
HaveText no_pairs post = Unit {0}
HaveText (pair k v ps) post = HasText v (flatten_pairs ps ++ post) × HaveText ps post

-- The assertions of a key of the object at `i`.
asserts-returned :
    {A : Type 0} (w : Impl) (i : ℕ) (k : Token)
    → k.kind ≡ jsmn_string
    → k.parent ≡ some i
    → (m : Run Impl A) {o : Outcome Impl A} → m w ≡ o
    → (require (is_string k.kind) assertion_failed >>= λ u.
          require (is_parent i k.parent) assertion_failed >>= λ u'. m)
        w
      ≡ o
asserts-returned w i k kind mine m e =
    let self : (i == i) ≡ true = ground arith in
    >>=-returned (require (is_string k.kind) assertion_failed) _ w
      (require-returned (is_string k.kind) assertion_failed w (ap is_string kind))
      (>>=-returned (require (is_parent i k.parent) assertion_failed) _ w
        (require-returned (is_parent i k.parent) assertion_failed w (ap (is_parent i) mine ∙ self))
        e)

module _ (st : Impl) (p : Option ℕ) (scopes : List JsonScope) (gen : ℕ) where
  step_over-tree :
      (x : Tree) (post : List Token) (i : ℕ)
      → drop i st.tokens ≡ flatten x ++ post
      → Laid st.buffer x post
      → HasText x post
      → step_over i (here st p scopes gen)
        ≡ returned (i + length (flatten x)) (here st p scopes gen)
  unfolding Laid flatten HasText Below
  step_over-tree (primitive t) post i e kind (lt, from) =
      step_over-exact st scopes p gen i t [] post e (lt, tt) from
  step_over-tree (string t) post i e kind (lt, from) =
      step_over-exact st scopes p gen i t [] post e (lt, tt) from
  step_over-tree (array_of t xs) post i e (kind, size, below, from, laid) text =
      step_over-exact st scopes p gen i t (flatten_all xs) post e below from
  step_over-tree (object_of t ps) post i e (kind, size, below, from, laid) text =
      step_over-exact st scopes p gen i t (flatten_pairs ps) post e below from

  seek_key-lookup :
      (i : ℕ) (key : List ℕ) (ps : Pairs) (post : List Token) (j : ℕ)
      → drop j st.tokens ≡ flatten_pairs ps ++ post
      → LaidPairs st.buffer ps post
      → HaveText ps post
      → KeysOf i ps
      → seek_key i key (count_pairs ps) j (here st p scopes gen)
        ≡ returned (lookup st.buffer key ps j) (here st p scopes gen)
  unfolding seek_key lookup count_pairs flatten LaidPairs HaveText KeysOf
  seek_key-lookup i key no_pairs post j e laid text own = refl
  seek_key-lookup i key (pair k v ps) post j e (kind, le, value, laid) (has, have) (mine, own) =
      let w : Impl = here st p scopes gen in
      let after : List Token = flatten_pairs ps ++ post in
      let e1 : drop j st.tokens ≡ k ∷ (flatten v ++ after) =
        e ∙ ap (λ l. k ∷ l) (append_assoc (flatten v) (flatten_pairs ps) post) in
      let e2 : drop (suc j) st.tokens ≡ flatten v ++ after =
        ap (λ n. drop n st.tokens) {x = suc j} {y = j + 1} (omega arith)
        ∙ drop_behind j st.tokens (k ∷ []) (flatten v ++ after) e1 in
      let e3 : drop (j + suc (length (flatten v))) st.tokens ≡ after =
        ap (λ n. drop n st.tokens) {x = j + suc (length (flatten v))}
          {y = suc j + length (flatten v)} (omega arith)
        ∙ drop_behind (suc j) st.tokens (flatten v) after e2 in
      >>=-returned (token_at j) _ w
        (token_at-returned j k w (at_drop j st.tokens k (flatten v ++ after) e1))
        (>>=-returned (tokstr k) _ w (tokstr-returned k w le) (
          asserts-returned w i k kind mine _ (elim (Bool-cases (same_text (raw st.buffer k) key)) [
            | inl same ↦ rw same refl
            | inr other ↦ rw other (
                >>=-returned (step_over (suc j)) (seek_key i key (count_pairs ps)) w
                  (step_over-tree v after (suc j) e2 value has)
                  (ap (λ n. seek_key i key (count_pairs ps) n w) {x = suc j + length (flatten v)}
                      {y = j + suc (length (flatten v))} (omega arith)
                    ∙ seek_key-lookup i key ps post (j + suc (length (flatten v))) e3 laid have
                        own))
          ])))

-- In the scope of an object whose keys and values have text, and whose keys have the object for their
-- parent, whatever was read of it, no assertion of `goto_key` fails and it finds
-- the first key of the text that it is given: the reader stands before its value then, and the scope
-- has left this value and the keys and values behind it. Where no key has the text, it returns false
-- and changes nothing.
pub goto_key-lookup :
    (st : Impl) (p : Option ℕ) (s : JsonScope) (ss : List JsonScope) (gen : ℕ) (t : Token)
    (ps : Pairs) (post : List Token) (key : List ℕ)
    → drop s.token_pos st.tokens ≡ flatten (object_of t ps) ++ post
    → s.type ≡ type_object
    → Laid st.buffer (object_of t ps) post
    → HaveText ps post
    → KeysOf s.token_pos ps
    → goto_key key (here st p (s ∷ ss) gen)
      ≡ elim (lookup st.buffer key ps (suc s.token_pos)) as (λ o. Outcome Impl Bool) [
        | none ↦ returned false (here st p (s ∷ ss) gen)
        | some (j, left) ↦ returned true (
            here st
              (some (suc j))
              (record s { elem_left = pos (left * 2 + 1); is_key_next = false } ∷ ss)
              gen)
      ]
unfolding goto_key flatten Laid
goto_key-lookup st p s ss gen t ps post key e in_object (kind, size, below, from, laid) text own =
    let w : Impl = here st p (s ∷ ss) gen in
    let first : ℕ = suc s.token_pos in
    let inside : drop first st.tokens ≡ flatten_pairs ps ++ post =
      ap (λ n. drop n st.tokens) {x = first} {y = s.token_pos + 1} (omega arith)
      ∙ drop_behind s.token_pos st.tokens (t ∷ []) (flatten_pairs ps ++ post) e in
    let keys : t.size ≡ count_pairs ps = omega (arith, size, count_both-count_pairs ps) in
    >>=-returned (require (is_object_scope s.type) reader_check_failed) _ w
      (require-returned (is_object_scope s.type) reader_check_failed w
        (ap is_object_scope in_object))
      (>>=-returned (token_at s.token_pos) _ w
        (token_at-returned s.token_pos t w
          (at_drop s.token_pos st.tokens t (flatten_pairs ps ++ post) e))
        (>>=-returned (require (is_object t.kind) assertion_failed) _ w
          (require-returned (is_object t.kind) assertion_failed w (ap is_object kind))
          (>>=-returned (seek_key s.token_pos key t.size first) (goto_found s) w
            (ap (λ n. seek_key s.token_pos key n first w) keys
              ∙ seek_key-lookup st p (s ∷ ss) gen s.token_pos key ps post first inside laid text
                  own)
            (found_at (lookup st.buffer key ps first)))))
  where
    found_at :
        (o : Option (ℕ × ℕ))
        → goto_found s o (here st p (s ∷ ss) gen) ≡ elim o as (λ o. Outcome Impl Bool) [
          | none ↦ returned false (here st p (s ∷ ss) gen)
          | some (j, left) ↦ returned true (
              here st
                (some (suc j))
                (record s { elem_left = pos (left * 2 + 1); is_key_next = false } ∷ ss)
                gen)
        ]
    found_at none = refl
    found_at (some (j, left)) = refl

step_over-some :
    (i : ℕ) (t : Token) (w : Impl)
    → get_elem? w.tokens i ≡ some t
    → step_over i w ≡ returned (i + starting_before t.end (drop i w.tokens)) w
unfolding step_over
step_over-some i t w at_i = >>=-returned (token_at i) _ w (token_at-returned i t w at_i) refl

-- The step past an empty string.
step_over-empty :
    (i : ℕ) (t : Token) (w : Impl)
    → get_elem? w.tokens i ≡ some t
    → (rest : List Token) → drop i w.tokens ≡ t ∷ rest
    → t.end ≤ t.start
    → step_over i w ≡ returned i w
unfolding starting_before
step_over-empty i t w at_i rest e le =
    let stays : ltb t.start t.end ≡ false = ground (arith, le) in
    step_over-some i t w at_i
    ∙ (ap (λ n. returned n w)
        (ap (λ l. i + starting_before t.end l) e
          ∙ ap (λ b. i + (if b then suc (starting_before t.end rest) else 0)) stays
          ∙ omega arith))

-- In the scope of an object of two keys, the first of which has the empty string for its value,
-- `goto_key` of a text that is not the first key fails the assertion that the next key has the object
-- for its parent, since it takes the empty string for that key.
pub goto_key_after_empty :
    (st : Impl) (p : Option ℕ) (s : JsonScope) (ss : List JsonScope) (gen : ℕ) (t k v k' : Token)
    (rest : List Token) (key : List ℕ)
    → drop s.token_pos st.tokens ≡ t ∷ (k ∷ (v ∷ (k' ∷ rest)))
    → s.type ≡ type_object
    → t.kind ≡ jsmn_object
    → t.size ≡ 2
    → k.kind ≡ jsmn_string
    → k.parent ≡ some s.token_pos
    → k.start ≤ length st.buffer
    → v.kind ≡ jsmn_string
    → v.parent ≡ some (suc s.token_pos)
    → v.start ≤ length st.buffer
    → v.end ≡ v.start
    → same_text (raw st.buffer k) key ≡ false
    → goto_key key (here st p (s ∷ ss) gen) ≡ thrown assertion_failed (here st p (s ∷ ss) gen)
unfolding goto_key seek_key step_over
goto_key_after_empty st p s ss gen t k v k' rest key e in_object kind_t two kind_k own le kind_v
      apart le' empty other =
    let w : Impl = here st p (s ∷ ss) gen in
    let i : ℕ = s.token_pos in
    let e1 : drop (suc i) st.tokens ≡ k ∷ (v ∷ (k' ∷ rest)) =
      ap (λ n. drop n st.tokens) {x = suc i} {y = i + 1} (omega arith)
      ∙ drop_behind i st.tokens (t ∷ []) (k ∷ (v ∷ (k' ∷ rest))) e in
    let e2 : drop (suc (suc i)) st.tokens ≡ v ∷ (k' ∷ rest) =
      ap (λ n. drop n st.tokens) {x = suc (suc i)} {y = suc i + 1} (omega arith)
      ∙ drop_behind (suc i) st.tokens (k ∷ []) (v ∷ (k' ∷ rest)) e1 in
    let v_there = at_drop (suc (suc i)) st.tokens v (k' ∷ rest) e2 in
    let not_own : is_parent i v.parent ≡ false =
      ap (is_parent i) apart ∙ (let ne : (suc i == i) ≡ false = ground arith in ne) in
    >>=-returned (require (is_object_scope s.type) reader_check_failed) _ w
      (require-returned (is_object_scope s.type) reader_check_failed w
        (ap is_object_scope in_object))
      (>>=-returned (token_at i) _ w (token_at-returned i t w (at_drop i st.tokens t _ e)) (
        >>=-returned (require (is_object t.kind) assertion_failed) _ w
          (require-returned (is_object t.kind) assertion_failed w (ap is_object kind_t))
          (>>=-thrown (seek_key i key t.size (suc i)) (goto_found s) w (
            ap (λ n. seek_key i key n (suc i) w) two
            ∙ >>=-returned (token_at (suc i)) _ w
                (token_at-returned (suc i) k w (at_drop (suc i) st.tokens k _ e1))
                (>>=-returned (tokstr k) _ w (tokstr-returned k w le) (
                  asserts-returned w i k kind_k own _ (
                    rw other (
                      >>=-returned (step_over (suc (suc i))) _ w
                        (step_over-empty (suc (suc i)) v w v_there (k' ∷ rest) e2
                          (omega (arith, empty)))
                        (>>=-returned (token_at (suc (suc i))) _ w
                          (token_at-returned (suc (suc i)) v w v_there)
                          (>>=-returned (tokstr v) _ w (tokstr-returned v w le') (
                            >>=-returned (require (is_string v.kind) assertion_failed) _ w
                              (require-returned (is_string v.kind) assertion_failed w
                                (ap is_string kind_v))
                              (>>=-thrown (require (is_parent i v.parent) assertion_failed) _ w
                                (ap (λ b. require b assertion_failed w) not_own)))))))))))))
