-- ===== src/Archive/Json/Reader/Values.antt =====
-- include/cpph/refl/archive/json-reader.hxx: the methods of `reader`, for a tokenizer.
use cppheaders.Prelude.{
  ℕ, zero, suc, ◌+◌, ◌-◌, ◌*◌, ◌%◌, ◌^◌, Bool, true, false, not, ◌&&◌, ◌||◌, Option, none, some,
  List, [], ◌∷◌, ltb, leb, ◌==◌, if◌then◌else◌, take, drop,
}
use cppheaders.Prelude.Int.{ℤ, pos}
use cppheaders.Base64.{decoded_size}
use cppheaders.Streambuf.Base64
use cppheaders.Strutil.{json_unescape}
use cppheaders.Archive.Run.{
  Run, returned, thrown, ◌>>=◌, ◌>>◌, pure, throw, require, index_out_of_range, source_not_set,
  reader_check_failed, reader_invalid_context, reader_parse_failed, assertion_failed,
}
use cppheaders.Archive.Msgpack.Reader.Types.{
  EntityType, floating_point, integer, boolean, string_type, array_type, null, object_type,
}
use cppheaders.Archive.Json.Reader.{
  TokenKind, jsmn_undefined, jsmn_object, jsmn_array, jsmn_string, jsmn_primitive, ScopeType,
  type_array, type_object, JsonScope, Impl, is_object, is_string, is_primitive, next, tokstr,
  token_at, step_over, step_in, step, step_out,
}
use cppheaders.Archive.Json.Reader.Prepare.{Jsmn, prepare}

abbrev pub same_text : List ℕ → List ℕ → Bool
same_text [] [] = true
same_text (c ∷ cs) (d ∷ ds) = (c == d) && same_text cs ds
same_text _ _ = false

abbrev pub is_digit : ℕ → Bool
is_digit c = leb b'0' c && leb c b'9'

-- The decimal number that the digits, all of them, continue.
unfoldable pub digits_from : ℕ → List ℕ → Option ℕ
digits_from n [] = some n
digits_from n (c ∷ cs) = if is_digit c then digits_from (n * 10 + (c - b'0')) cs else none

-- A number of this size, where it fits, and else the value before.
abbrev pub plain : ℕ → Option ℕ → Option ℕ
plain v none = none
plain v (some n) = some (if ltb n (2 ^ 63) then n else v)

abbrev pub negated : ℕ → Option ℕ → Option ℕ
negated v none = none
negated v (some n) = some (if leb n (2 ^ 63) then (2 ^ 64 - n) % 2 ^ 64 else v)

-- Behind a minus sign.
unfoldable pub negative : ℕ → List ℕ → Option ℕ
unfolding digits_from
negative v [] = none
negative v (d ∷ ds) = negated v (digits_from 0 (d ∷ ds))

-- `std::from_chars` for `int64_t`, where it takes the whole text: the value afterwards, which is the
-- one before where the number does not fit or there is no text.
unfoldable pub from_chars : ℕ → List ℕ → Option ℕ
unfolding negative digits_from
from_chars v [] = some v
from_chars v (c ∷ cs) = if c == b'-' then negative v cs else plain v (digits_from 0 (c ∷ cs))

abbrev pub is_text_number : TokenKind → Bool
is_text_number kind = is_string kind || is_primitive kind

-- A value that was parsed from the whole text.
abbrev pub whole : Option ℕ → Run Impl ℕ
whole none s = thrown reader_parse_failed s
whole (some v) s = returned v s

abbrev pub is_true : List ℕ → Bool
is_true = same_text (b't' ∷ b'r' ∷ b'u' ∷ b'e' ∷ [])

abbrev pub is_false : List ℕ → Bool
is_false = same_text (b'f' ∷ b'a' ∷ b'l' ∷ b's' ∷ b'e' ∷ [])

abbrev pub is_null : List ℕ → Bool
is_null = same_text (b'n' ∷ b'u' ∷ b'l' ∷ b'l' ∷ [])

-- Whether one of these characters is in the text.
abbrev pub has_point : List ℕ → Bool
has_point [] = false
has_point (c ∷ cs) = (c == b'e') || (c == b'E') || (c == b'.') || has_point cs

abbrev pub starts_with : ℕ → List ℕ → Bool
starts_with c [] = false
starts_with c (d ∷ ds) = d == c

abbrev pub primitive_type : List ℕ → EntityType
primitive_type tok =
    if is_null tok
    then null
    else if starts_with b't' tok || starts_with b'f' tok
    then boolean
    else if has_point tok
    then floating_point
    else integer

-- The innermost scope, of no scopes an access outside the vector.
abbrev pub innermost : Run Impl JsonScope
innermost s = elim s.scopes [ [] ↦ thrown index_out_of_range s | scope ∷ outer ↦ returned scope s ]

abbrev pub set_innermost : JsonScope → Run Impl (Unit {0})
set_innermost scope s = returned tt (record s { scopes = scope ∷ drop 1 s.scopes })

module _ (jsmn : Jsmn) where
  -- `read(nullptr_t)`
  unfoldable pub read_null : Run Impl (Unit {0})
  unfolding prepare step
  read_null = do prepare jsmn; step

  unfoldable pub read_bool : Run Impl Bool
  unfolding prepare next tokstr step
  read_bool = do
    prepare jsmn
    (i, t) ← next
    tok ← tokstr t
    require (is_primitive t.kind) reader_parse_failed
    require (is_true tok || is_false tok) reader_parse_failed
    step
    pure (is_true tok)

  unfoldable pub type_next : Run Impl EntityType
  unfolding prepare next tokstr
  type_next = do
    prepare jsmn
    (i, t) ← next
    elim t.kind [
      | jsmn_string ↦ pure string_type
      | jsmn_primitive ↦ (tokstr t >>= λ tok. pure (primitive_type tok))
      | jsmn_array ↦ pure array_type
      | jsmn_object ↦ pure object_type
      | jsmn_undefined ↦ throw reader_invalid_context
    ]

  -- What `v` is afterwards, from what it was.
  unfoldable pub read_int : ℕ → Run Impl ℕ
  unfolding prepare next tokstr from_chars step
  read_int v = do
    prepare jsmn
    (i, t) ← next
    tok ← tokstr t
    require (is_text_number t.kind) reader_parse_failed
    n ← whole (from_chars v tok)
    step
    pure n

  -- `strtod` is the host's, on a text that it takes as a whole.
  unfoldable pub read_double : (List ℕ → Option ℕ) → Run Impl ℕ
  unfolding prepare next tokstr step
  read_double strtod = do
    prepare jsmn
    (i, t) ← next
    tok ← tokstr t
    require (is_text_number t.kind) reader_parse_failed
    n ← whole (strtod tok)
    step
    pure n

  unfoldable pub read_str : Run Impl (List ℕ)
  unfolding prepare next tokstr step json_unescape
  read_str = do
    prepare jsmn
    (i, t) ← next
    tok ← tokstr t
    require (is_string t.kind) reader_parse_failed
    step
    pure (json_unescape tok)

  unfoldable pub begin_binary : Run Impl ℕ
  unfolding prepare next decoded_size
  begin_binary = do
    prepare jsmn
    (i, t) ← next
    require (is_string t.kind) reader_parse_failed
    require ((t.end - t.start) % 4 == 0) reader_parse_failed
    λ s.
        let text = take (t.end - t.start) (drop t.start s.buffer) in
        returned (decoded_size text) (record s { base64 = record s.base64 { source = text } })

  unfoldable pub begin_object : Run Impl ℕ
  unfolding prepare step_in
  begin_object = do prepare jsmn; step_in type_object

  unfoldable pub begin_array : Run Impl ℕ
  unfolding prepare step_in
  begin_array = do prepare jsmn; step_in type_array

unfoldable pub binary_read_some : ℕ → Run Impl (List ℕ)
unfolding next Base64.sgetn
binary_read_some n = next >>= λ (i, t). require (is_string t.kind) reader_parse_failed >>= λ u s.
    elim (Base64.sgetn 16 n s.base64) [
      | none ↦ thrown source_not_set s
      | some (bytes, b) ↦ returned bytes (record s { base64 = b })
    ]

unfoldable pub end_binary : Run Impl (Unit {0})
unfolding step
end_binary = step

unfoldable pub elem_left : Run Impl ℤ
elem_left = do scope ← innermost; pure scope.elem_left

abbrev pub is_zero : ℤ → Bool
is_zero (pos zero) = true
is_zero _ = false

unfoldable pub should_break : ℕ → Run Impl Bool
should_break key = do top ← innermost; pure ((top.context == key) && is_zero top.elem_left)

unfoldable pub end_object : ℕ → Run Impl (Unit {0})
unfolding step_out
end_object key = step_out key

unfoldable pub end_array : ℕ → Run Impl (Unit {0})
unfolding step_out
end_array key = step_out key

abbrev pub is_object_scope : ScopeType → Bool
is_object_scope type_object = true
is_object_scope type_array = false

unfoldable pub read_key_next : Run Impl (Unit {0})
read_key_next = do
  top ← innermost
  require (not top.is_key_next) reader_invalid_context
  require (is_object_scope top.type) reader_parse_failed
  set_innermost (record top { is_key_next = true })

unfoldable pub reset : Run Impl (Unit {0})
reset s = returned tt (record s { pos_next = none })

abbrev pub is_parent : ℕ → Option ℕ → Bool
is_parent i none = false
is_parent i (some j) = j == i

-- The loop of `goto_key`, with its assertions: the position of the key and the keys behind it.
unfoldable pub seek_key : ℕ → List ℕ → ℕ → ℕ → Run Impl (Option (ℕ × ℕ))
unfolding tokstr step_over
seek_key parent_pos key zero cursor = pure none
seek_key parent_pos key (suc key_left) cursor = token_at cursor >>= λ t. tokstr t >>= λ content.
    require (is_string t.kind) assertion_failed >>= λ u.
    require (is_parent parent_pos t.parent) assertion_failed >>= λ u'.
    if same_text content key
    then pure (some (cursor, key_left))
    else (step_over (suc cursor) >>= seek_key parent_pos key key_left)

abbrev pub goto_found : JsonScope → Option (ℕ × ℕ) → Run Impl Bool
goto_found scope none s = returned false s
goto_found scope (some (cursor, key_left)) s = returned true (record s {
  pos_next = some (suc cursor);
  scopes =
      record scope { elem_left = pos (key_left * 2 + 1); is_key_next = false } ∷ drop 1 s.scopes;
})

unfoldable pub goto_key : List ℕ → Run Impl Bool
unfolding seek_key
goto_key key s = elim s.scopes [
  | [] ↦ thrown reader_check_failed s
  | scope ∷ outer ↦
      (require (is_object_scope scope.type) reader_check_failed >>= λ u.
      token_at scope.token_pos >>= λ parent.
      require (is_object parent.kind) assertion_failed >>= λ u'.
      seek_key scope.token_pos key parent.size (suc scope.token_pos) >>= goto_found scope)
        s
]
