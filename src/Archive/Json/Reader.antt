-- ===== src/Archive/Json/Reader.antt =====
-- include/cpph/refl/archive/json-reader.hxx: the state of `reader`, and the steps from token to token.
-- A token is one of the vendored tokenizer's; `pos_next` is `none` where it is `~size_t{}`.
-- `std::lower_bound` is the first position that is not less.
pub mod Prepare
pub mod Values
pub mod Ready
pub mod Trees
pub mod Steps
pub mod Visits
pub mod Reads
pub mod Passing
pub mod Integers
pub mod Printed
pub mod Keys
mod Tests
use cppheaders.Prelude.{
  ℕ, zero, suc, ◌+◌, ◌-◌, Bool, true, false, not, ◌&&◌, ◌||◌, Option, none, some, List, [], ◌∷◌,
  ltb, ◌==◌, if◌then◌else◌, length, get_elem?, take, drop,
}
use cppheaders.Prelude.Int.{ℤ, pos, negsuc}
use cppheaders.Archive.Run.{
  Run, returned, thrown, ◌>>=◌, pure, throw, require, index_out_of_range, reader_invalid_context,
  reader_parse_failed,
}
use cppheaders.Streambuf.Base64.{Getting}

pub data TokenKind : Type 0 where
  jsmn_undefined jsmn_object jsmn_array jsmn_string jsmn_primitive : TokenKind

-- The text of a token is from `start` to before `end`; an object's `size` is the number of its keys; `parent`
-- is the position of the token around it, of a value behind a key that of the key.
pub record Token : Type 0 where
  pub kind : TokenKind
  pub start : ℕ
  pub end : ℕ
  pub size : ℕ
  pub parent : Option ℕ

-- `reader_scope_type`
pub data ScopeType : Type 0 where
  type_array type_object : ScopeType

-- `reader_scope_context_t`
pub record JsonScope : Type 0 where
  pub type : ScopeType
  pub context : ℕ
  pub token_pos : ℕ
  pub is_key_next : Bool
  pub elem_left : ℤ

-- `reader::impl`, with what the stream holds; the innermost scope comes first.
pub record Impl : Type 0 where
  pub input : List ℕ
  pub tokens : List Token
  pub buffer : List ℕ
  pub pos_next : Option ℕ
  pub scopes : List JsonScope
  pub context_keygen : ℕ
  pub base64 : Getting

abbrev pub is_object : TokenKind → Bool
is_object jsmn_object = true
is_object _ = false

abbrev pub is_array : TokenKind → Bool
is_array jsmn_array = true
is_array _ = false

abbrev pub is_string : TokenKind → Bool
is_string jsmn_string = true
is_string _ = false

abbrev pub is_primitive : TokenKind → Bool
is_primitive jsmn_primitive = true
is_primitive _ = false

abbrev pub minus_one : ℤ → ℤ
minus_one (pos zero) = negsuc 0
minus_one (pos (suc n)) = pos n
minus_one (negsuc n) = negsuc (suc n)

abbrev pub is_positive : ℤ → Bool
is_positive (pos (suc n)) = true
is_positive _ = false

-- `tokens.at(i)`
abbrev pub token_at : ℕ → Run Impl Token
token_at i s = elim (get_elem? s.tokens i) [
  | none ↦ thrown index_out_of_range s
  | some t ↦ returned t s
]

-- `next`: the position and the token.
unfoldable pub next : Run Impl (ℕ × Token)
next s = elim s.pos_next [
  | none ↦ thrown index_out_of_range s
  | some i ↦ (token_at i >>= λ t. pure (i, t)) s
]

unfoldable pub tokstr : Token → Run Impl (List ℕ)
tokstr t s =
    if ltb (length s.buffer) t.start
    then thrown index_out_of_range s
    else returned (take (t.end - t.start) (drop t.start s.buffer)) s

-- How many tokens start before `end`, up to the first that does not.
unfoldable pub starting_before : ℕ → List Token → ℕ
starting_before end [] = 0
starting_before end (t ∷ ts) = if ltb t.start end then suc (starting_before end ts) else 0

unfoldable pub step_over : ℕ → Run Impl ℕ
unfolding starting_before
step_over i = token_at i >>= λ t s. returned (i + starting_before t.end (drop i s.tokens)) s

abbrev pub has_type : ScopeType → TokenKind → Bool
has_type type_array kind = is_array kind
has_type type_object kind = is_object kind

abbrev pub elements : ScopeType → ℕ → ℕ
elements type_array size = size
elements type_object size = size + size

-- `step_in`: the key of the new scope.
unfoldable pub step_in : ScopeType → Run Impl ℕ
unfolding next
step_in type = next >>= λ (i, t). require (has_type type t.kind) reader_parse_failed >>= λ u s.
    let key = suc s.context_keygen in
    let scope : JsonScope = record {
      type = type;
      context = key;
      token_pos = i;
      is_key_next = false;
      elem_left = pos (elements type t.size);
    } in
    returned key
      (record s { context_keygen = key; pos_next = some (suc i); scopes = scope ∷ s.scopes })

-- `step` once it knows the position behind the token.
unfoldable pub step_to : JsonScope → List JsonScope → ℕ → Run Impl (Unit {0})
step_to scope outer i s =
    let left : JsonScope = record scope { elem_left = minus_one scope.elem_left } in
    let moved : Impl = record s { pos_next = if i == length s.tokens then none else some i } in
    if is_positive scope.elem_left
    then returned tt (record moved { scopes = record left { is_key_next = false } ∷ outer })
    else thrown reader_invalid_context (record moved { scopes = left ∷ outer })

unfoldable pub step : Run Impl (Unit {0})
unfolding next step_over step_to
step s = elim s.scopes [
  | [] ↦ returned tt s
  | scope ∷ outer ↦
      (next >>= λ (i, t).
      require (not (scope.is_key_next && not (is_string t.kind))) reader_invalid_context >>= λ u.
      (if is_object t.kind || is_array t.kind then step_over i else pure (suc i))
      >>= step_to scope outer)
        s
]

-- The innermost scope of the key, and those around it.
unfoldable pub find_scope : ℕ → List JsonScope → Option (JsonScope × List JsonScope)
find_scope key [] = none
find_scope key (scope ∷ outer) =
    if key == scope.context then some (scope, outer) else find_scope key outer

-- `step_out` once it knows the position behind the token.
abbrev pub leave_to : List JsonScope → ℕ → Run Impl (Unit {0})
leave_to [] i s = returned tt (record s { pos_next = none; scopes = [] })
leave_to (scope ∷ outer) i s = returned tt (record s {
  pos_next = some i;
  scopes = record scope { elem_left = minus_one scope.elem_left; is_key_next = false } ∷ outer;
})

unfoldable pub step_out : ℕ → Run Impl (Unit {0})
unfolding step_over find_scope
step_out key s = elim (find_scope key s.scopes) [
  | none ↦ thrown reader_invalid_context s
  | some (scope, outer) ↦
      (require (not scope.is_key_next) reader_invalid_context >>= λ u.
      step_over scope.token_pos >>= leave_to outer)
        s
]
