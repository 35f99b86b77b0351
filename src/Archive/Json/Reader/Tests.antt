-- ===== src/Archive/Json/Reader/Tests.antt =====
-- include/cpph/refl/archive/json-reader.hxx on concrete documents.
use cppheaders.Prelude.{
  ℕ, suc, ◌+◌, ◌*◌, ◌≡◌, ◌≢◌, refl, Bool, true, false, Option, none, some, List, [], ◌∷◌, ◌++◌,
  arith, length, ltb, if◌then◌else◌, set, length-set, ◌⊎◌, Bool-cases, inl, inr,
}
use cppheaders.Prelude.Int.{pos}
use cppheaders.Archive.Run.{Outcome, returned, thrown, assertion_failed}
use cppheaders.Archive.Run.Ends.{Ends}
use cppheaders.Archive.Json.Writer.{Writer, write_int, digits, to_chars}
use cppheaders.Archive.Json.Reader.{
  TokenKind, ScopeType, Token, jsmn_object, jsmn_array, jsmn_string, jsmn_primitive, type_array,
  type_object, JsonScope, Impl,
}
use cppheaders.Archive.Json.Reader.Prepare.{Jsmn, parsed, error_nomem, error_part, prepare}
use cppheaders.Archive.Json.Reader.Ready.{Works, prepare-Ends}
use cppheaders.Archive.Json.Reader.Values.{read_null, read_int, goto_key}
use cppheaders.Archive.Json.Reader.Trees.{
  Tree, primitive, array_of, object_of, no_trees, tree, Pairs, no_pairs, pair, flatten, count_trees,
  count_both, texts, Laid, visit, Below, From,
}
use cppheaders.Archive.Json.Reader.Steps.{here, with_left, place}
use cppheaders.Archive.Json.Reader.Visits.{Visited}
use cppheaders.Archive.Json.Reader.Passing.{visit-read_null}
use cppheaders.Archive.WriteContext.Laws.{Ready, after_value}
use cppheaders.Archive.Json.Printing.{prefix, after}
use cppheaders.Archive.Json.Reader.Printed.{write_int-read_int}
use cppheaders.Archive.Json.Reader.Keys.{
  HaveText, HasText, KeysOf, count_pairs, lookup, goto_key-lookup, goto_key_after_empty,
}

-- A tokenizer of empty arrays, which are closed by the last character of two or more.
abbrev brackets : Jsmn
brackets = record {
  Parser = ℕ;
  init = 0;
  toknext = λ p. p;
  parse = λ p text ts. if ltb (length ts) (length text) then (error_nomem, p, ts) else (
    if ltb 1 (length text) then parsed 1 else error_part,
    1,
    set ts 0 (record { kind = jsmn_array; start = 0; end = length text; size = 0; parent = none }),
  );
}

brackets-Works : Works brackets
brackets-Works = record {
  keeps = λ p text ts. elim (Bool-cases (ltb (length ts) (length text))) [
    | inl e ↦ rw e refl
    | inr e ↦ rw e (
        length-set ts 0
          (record { kind = jsmn_array; start = 0; end = length text; size = 0; parent = none }))
  ];
  enough = λ p text ts left. elim (Bool-cases (ltb (length ts) (length text))) [
    | inl e ↦ ground (arith, e)
    | inr e ↦ elim (Bool-cases (ltb 1 (length text))) [
      | inl e' ↦ absurd (ground (arith, rw (e, e') at left))
      | inr e' ↦ absurd (ground (arith, rw (e, e') at left))
    ]
  ];
}

-- The reader of a stream from which nothing was read yet.
abbrev fresh : List ℕ → Impl
fresh input = record {
  input = input;
  tokens = [];
  buffer = [];
  pos_next = none;
  scopes = [];
  context_keygen = 0;
  base64 = record { ibuf = []; left = []; source = [] };
}

-- More text than the first tokens suffice for.
abbrev padded : Impl
padded = fresh (91 ∷ 32 ∷ 32 ∷ 32 ∷ 32 ∷ 32 ∷ 32 ∷ 32 ∷ 32 ∷ 32 ∷ 93 ∷ [])

prepare-Ends_example :
    Ends
      (λ u t. ((t ≡ padded) × (padded.pos_next ≢ none)) ⊎ ((t.pos_next ≡ some 0) × (t.scopes ≡ [])))
      (prepare brackets padded)
prepare-Ends_example = prepare-Ends brackets padded brackets-Works

abbrev token : TokenKind → ℕ → ℕ → ℕ → Option ℕ → Token
token kind start end size parent = record {
  kind = kind;
  start = start;
  end = end;
  size = size;
  parent = parent;
}

-- The text `["ab",[1]]`.
abbrev nested : Impl
nested = record (fresh []) {
  buffer = (91 ∷ 34 ∷ 97 ∷ 98 ∷ 34 ∷ 44 ∷ 91 ∷ 49 ∷ 93 ∷ 93 ∷ []);
  tokens =
      token jsmn_array 0 10 2 none
      ∷ token jsmn_string 2 4 0 (some 0)
      ∷ token jsmn_array 6 9 1 (some 0)
      ∷ token jsmn_primitive 7 8 0 (some 2)
      ∷ [];
}

abbrev scope : ScopeType → JsonScope
scope type = record {
  type = type;
  context = 1;
  token_pos = 0;
  is_key_next = false;
  elem_left = pos 1;
}

abbrev inner : Tree
inner =
    array_of (token jsmn_array 6 9 1 (some 0))
      (tree (primitive (token jsmn_primitive 7 8 0 (some 2))) no_trees)

inner-Laid : Laid nested.buffer inner []
unfolding Laid Below From flatten count_trees
inner-Laid = (refl, refl, (omega arith, (omega arith, tt)), tt, (refl, tt))

visit-read_null_example :
    Visited nested
      (visit brackets inner)
      (some 2)
      (with_left (scope type_array) 1 false ∷ [])
      1
      (texts nested.buffer inner)
      (2 + length (flatten inner))
      (with_left (scope type_array) 0 false ∷ [])
    × Visited nested
        (read_null brackets)
        (some 2)
        (with_left (scope type_array) 1 false ∷ [])
        1
        tt
        (2 + length (flatten inner))
        (with_left (scope type_array) 0 false ∷ [])
unfolding flatten
visit-read_null_example =
    visit-read_null brackets nested (scope type_array) [] 1 0 2 inner [] refl inner-Laid

-- The text `[-42]`.
abbrev printed : Impl
printed = record (fresh []) {
  buffer = 91 ∷ 45 ∷ 52 ∷ 50 ∷ 93 ∷ [];
  tokens = token jsmn_array 0 5 1 none ∷ token jsmn_primitive 1 4 0 (some 0) ∷ [];
}

abbrev writer : Writer
writer = record { ctx = []; out = []; indent = none; obuf = []; has_source = true }

write_int-read_int_example :
    (write_int 18446744073709551574 writer
      ≡ returned tt
          (after writer (after_value []) (prefix none [] ++ to_chars 18446744073709551574)))
    × (read_int brackets 7 (here printed (some 1) (with_left (scope type_array) 1 false ∷ []) 1)
        ≡ returned 18446744073709551574
            (here printed (place printed.tokens 2) (with_left (scope type_array) 0 false ∷ []) 1))
unfolding to_chars digits Ready
write_int-read_int_example =
    write_int-read_int 18446744073709551574 7 writer brackets printed (scope type_array) [] 1 1 0
      (token jsmn_primitive 1 4 0 (some 0)) (91 ∷ []) (93 ∷ []) (omega arith) tt refl refl refl refl
      refl

minus_42 : to_chars 18446744073709551574 ≡ (45 ∷ 52 ∷ 50 ∷ [])
unfolding to_chars digits
minus_42 = refl

-- The text `{"a":1,"b":[2]}`.
abbrev keyed : Impl
keyed = record (fresh []) {
  buffer = (123 ∷ 34 ∷ 97 ∷ 34 ∷ 58 ∷ 49 ∷ 44 ∷ 34 ∷ 98 ∷ 34 ∷ 58 ∷ 91 ∷ 50 ∷ 93 ∷ 125 ∷ []);
  tokens =
      token jsmn_object 0 15 2 none
      ∷ token jsmn_string 2 3 1 (some 0)
      ∷ token jsmn_primitive 5 6 0 (some 1)
      ∷ token jsmn_string 8 9 1 (some 0)
      ∷ token jsmn_array 11 14 1 (some 3)
      ∷ token jsmn_primitive 12 13 0 (some 4)
      ∷ [];
}

abbrev fields : Pairs
fields = pair (token jsmn_string 2 3 1 (some 0)) (primitive (token jsmn_primitive 5 6 0 (some 1))) (
    pair (token jsmn_string 8 9 1 (some 0))
      (array_of (token jsmn_array 11 14 1 (some 3))
        (tree (primitive (token jsmn_primitive 12 13 0 (some 4))) no_trees))
      no_pairs)

fields-Laid : Laid keyed.buffer (object_of (token jsmn_object 0 15 2 none) fields) []
unfolding Laid Below From flatten count_trees count_both
fields-Laid = (
  refl,
  refl,
  (omega arith, (omega arith, (omega arith, (omega arith, (omega arith, (omega arith, tt)))))),
  tt,
  (
    refl,
    omega arith,
    refl,
    (refl, omega arith, (refl, refl, (omega arith, (omega arith, tt)), tt, (refl, tt)), tt),
  ),
)

fields-HaveText : HaveText fields []
unfolding HaveText HasText From flatten
fields-HaveText = ((omega arith, omega arith), (tt, tt))

fields-KeysOf : KeysOf 0 fields
unfolding KeysOf
fields-KeysOf = (refl, (refl, tt))

abbrev key_b : List ℕ
key_b = 98 ∷ []

goto_key-lookup_example :
    goto_key key_b (here keyed (some 1) (scope type_object ∷ []) 1)
    ≡ elim (lookup keyed.buffer key_b fields 1) as (λ o. Outcome Impl Bool) [
      | none ↦ returned false (here keyed (some 1) (scope type_object ∷ []) 1)
      | some (j, left) ↦ returned true (
          here keyed
            (some (suc j))
            (record (scope type_object) { elem_left = pos (left * 2 + 1); is_key_next = false }
              ∷ [])
            1)
    ]
unfolding flatten
goto_key-lookup_example =
    goto_key-lookup keyed (some 1) (scope type_object) [] 1 (token jsmn_object 0 15 2 none) fields
      [] key_b refl refl fields-Laid fields-HaveText fields-KeysOf

b_is_there : lookup keyed.buffer key_b fields 1 ≡ some (3, 0)
unfolding lookup count_pairs flatten
b_is_there = refl

-- The text `{"a":"","b":1}`.
abbrev emptied : Impl
emptied = record (fresh []) {
  buffer = (123 ∷ 34 ∷ 97 ∷ 34 ∷ 58 ∷ 34 ∷ 34 ∷ 44 ∷ 34 ∷ 98 ∷ 34 ∷ 58 ∷ 49 ∷ 125 ∷ []);
  tokens =
      token jsmn_object 0 14 2 none
      ∷ token jsmn_string 2 3 1 (some 0)
      ∷ token jsmn_string 6 6 0 (some 1)
      ∷ token jsmn_string 9 10 1 (some 0)
      ∷ token jsmn_primitive 12 13 0 (some 3)
      ∷ [];
}

goto_key_after_empty_example :
    goto_key key_b (here emptied (some 1) (scope type_object ∷ []) 1)
    ≡ thrown assertion_failed (here emptied (some 1) (scope type_object ∷ []) 1)
goto_key_after_empty_example =
    goto_key_after_empty emptied (some 1) (scope type_object) [] 1 (token jsmn_object 0 14 2 none)
      (token jsmn_string 2 3 1 (some 0)) (token jsmn_string 6 6 0 (some 1))
      (token jsmn_string 9 10 1 (some 0)) (token jsmn_primitive 12 13 0 (some 3) ∷ []) key_b refl
      refl refl refl refl refl (omega arith) refl refl (omega arith) refl refl
