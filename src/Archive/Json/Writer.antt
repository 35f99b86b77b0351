-- ===== src/Archive/Json/Writer.antt =====
-- include/cpph/refl/archive/json-writer.hxx: `writer`. The stream buffer is the list of the characters
-- put so far; an integer is its pattern of 64 bits, and a floating number too.
use cppheaders.Prelude.{
  ℕ, zero, suc, ◌+◌, ◌-◌, ◌*◌, ◌/◌, ◌%◌, ◌^◌, Bool, true, false, Option, none, some, List, [], ◌∷◌,
  ◌++◌, ltb, ◌==◌, if◌then◌else◌, length, replicate,
}
use cppheaders.Archive.Run.{
  writer_value_error, invalid_key_type, source_not_set, returned, thrown, Run, ◌>>=◌, ◌>>◌, pure,
  require,
}
use cppheaders.Archive.WriteContext
use cppheaders.Archive.WriteContext.{Scopes, write_next, WriteDirective, depth, is_key_context}
use cppheaders.Strutil.{json_escape}
use cppheaders.Streambuf.Base64
use cppheaders.Streambuf.Base64.{Putting}

-- `indent` is `none` for a number that is negative. The put area of `_base64` is `obuf`; it stands
-- before the stream buffer of the writer, or before none.
pub record Writer : Type 0 where
  pub ctx : Scopes
  pub out : List ℕ
  pub indent : Option ℕ
  pub obuf : List ℕ
  pub has_source : Bool

-- A call of `_ctx`.
abbrev pub on_ctx : {A : Type 0} → Run Scopes A → Run Writer A
on_ctx m w = elim (m w.ctx) [
  | returned a t ↦ returned a (record w { ctx = t })
  | thrown e t ↦ thrown e (record w { ctx = t })
]

abbrev pub sputn : List ℕ → Run Writer (Unit {0})
sputn cs w = returned tt (record w { out = w.out ++ cs })

-- A call of `_base64`, which puts what it encodes in the same stream buffer.
unfoldable pub on_base64 : (Putting → Option Putting) → Run Writer (Unit {0})
on_base64 call w =
    elim (call (record { obuf = w.obuf; src = if w.has_source then some w.out else none })) [
      | none ↦ thrown source_not_set w
      | some t ↦ elim t.src [
        | none ↦ returned tt (record w { obuf = t.obuf })
        | some out ↦ returned tt (record w { obuf = t.obuf; out = out })
      ]
    ]

-- `std::to_chars` of an integer without a sign, of at most `fuel` digits.
unfoldable pub digits : ℕ → ℕ → List ℕ
digits zero v = []
digits (suc fuel) v =
    let high = digits fuel (v / 10) in
    if ltb v 10 then (b'0' + v) ∷ [] else high ++ (b'0' + v % 10) ∷ []

-- `std::to_chars` of an `int64_t`, which has at most 19 digits
unfoldable pub to_chars : ℕ → List ℕ
unfolding digits
to_chars v = if ltb v (2 ^ 63) then digits 20 v else b'-' ∷ digits 20 (2 ^ 64 - v)

-- `_append_comma`
abbrev pub append_comma : Run Writer (Unit {0})
append_comma = sputn (b',' ∷ [])

-- `_brk_indent`
unfoldable pub brk_indent : Run Writer (Unit {0})
brk_indent w = elim w.indent [
  | none ↦ returned tt w
  | some k ↦ sputn (10 ∷ replicate (k * depth w.ctx) b' ') w
]

-- What stands before a value or a key.
unfoldable pub begin_value : WriteDirective → Run Writer (Unit {0})
unfolding brk_indent
begin_value d = do
  if d.need_comma then append_comma else pure tt
  if d.need_indent then brk_indent else pure tt

-- `_on_write_value_only`
unfoldable pub on_write_value_only : Run Writer (Unit {0})
unfolding begin_value
on_write_value_only = do
  d ← on_ctx write_next
  require (if d.is_key then false else true) invalid_key_type
  begin_value d

-- What stands behind a key.
unfoldable pub end_key : Run Writer (Unit {0})
end_key w = sputn (b':' ∷ elim w.indent [ none ↦ [] | some k ↦ b' ' ∷ [] ]) w

unfoldable pub write_null : Run Writer (Unit {0})
unfolding on_write_value_only
write_null = do on_write_value_only; sputn (b'n' ∷ b'u' ∷ b'l' ∷ b'l' ∷ [])

unfoldable pub write_int : ℕ → Run Writer (Unit {0})
unfolding begin_value to_chars end_key
write_int v = do
  d ← on_ctx write_next
  begin_value d
  let key = do sputn (b'"' ∷ []); sputn (to_chars v); sputn (b'"' ∷ []); end_key
  if d.is_key then key else sputn (to_chars v)

-- `text` is what `snprintf` makes of a number that is finite.
unfoldable pub write_double : (ℕ → List ℕ) → ℕ → Run Writer (Unit {0})
unfolding on_write_value_only
write_double text v = do
  require (if v / 2 ^ 52 % 2 ^ 11 == 2047 then false else true) writer_value_error
  on_write_value_only
  sputn (text v)

unfoldable pub write_bool : Bool → Run Writer (Unit {0})
unfolding on_write_value_only
write_bool v = do
  on_write_value_only
  sputn (if v then b't' ∷ b'r' ∷ b'u' ∷ b'e' ∷ [] else b'f' ∷ b'a' ∷ b'l' ∷ b's' ∷ b'e' ∷ [])

unfoldable pub write_str : List ℕ → Run Writer (Unit {0})
unfolding begin_value end_key
write_str v = do
  d ← on_ctx write_next
  begin_value d
  sputn (b'"' ∷ [])
  sputn (json_escape v)
  sputn (b'"' ∷ [])
  if d.is_key then end_key else pure tt

-- The number of words of `_base64`
abbrev pub words : ℕ
words = 16

-- `reset(_buf)`: the area is synchronized where there is a source.
abbrev pub reset_base64 : (ℕ → ℕ) → Run Writer (Unit {0})
reset_base64 beyond = do
  λ w. (if w.has_source then on_base64 (Base64.sync words beyond) else pure tt) w
  λ w. returned tt (record w { obuf = []; has_source = true })

unfoldable pub binary_push : (ℕ → ℕ) → ℕ → Run Writer (Unit {0})
unfolding begin_value on_base64
binary_push beyond total = do
  d ← on_ctx write_next
  begin_value d
  on_ctx (WriteContext.push_binary total)
  sputn (b'"' ∷ [])
  reset_base64 beyond

-- `_base64.sputn`, whose result is not looked at.
abbrev pub put_base64 : (ℕ → ℕ) → List ℕ → Putting → Option Putting
put_base64 beyond view s = elim (Base64.sputn words beyond view s) [
  | none ↦ none
  | some (n, t) ↦ some t
]

unfoldable pub binary_write_some : (ℕ → ℕ) → List ℕ → Run Writer (Unit {0})
unfolding on_base64
binary_write_some beyond view = do
  on_ctx (WriteContext.binary_write_some (length view))
  on_base64 (put_base64 beyond view)

unfoldable pub binary_pop : (ℕ → ℕ) → Run Writer (Unit {0})
unfolding on_base64 end_key
binary_pop beyond = do
  on_ctx WriteContext.pop_binary
  on_base64 (Base64.sync words beyond)
  sputn (b'"' ∷ [])
  λ w. (if is_key_context w.ctx then end_key else pure tt) w

unfoldable pub object_push : ℕ → Run Writer (Unit {0})
unfolding on_write_value_only
object_push num_elems = do
  on_write_value_only
  on_ctx (WriteContext.push_object num_elems)
  sputn (b'{' ∷ [])

unfoldable pub object_pop : Run Writer (Unit {0})
unfolding brk_indent
object_pop = do
  n ← on_ctx WriteContext.pop_object
  if ltb 0 n then brk_indent else pure tt
  sputn (b'}' ∷ [])

unfoldable pub array_push : ℕ → Run Writer (Unit {0})
unfolding on_write_value_only
array_push num_elems = do
  on_write_value_only
  on_ctx (WriteContext.push_array num_elems)
  sputn (b'[' ∷ [])

unfoldable pub array_pop : Run Writer (Unit {0})
unfolding brk_indent
array_pop = do
  n ← on_ctx WriteContext.pop_array
  if ltb 0 n then brk_indent else pure tt
  sputn (b']' ∷ [])

unfoldable pub write_key_next : Run Writer (Unit {0})
write_key_next = do on_ctx WriteContext.write_key_next; pure tt

unfoldable pub clear : Run Writer (Unit {0})
clear = do on_ctx WriteContext.clear; λ w. returned tt (record w { obuf = []; has_source = false })
