-- ===== src/Archive/Json/Tests.antt =====
-- include/cpph/refl/archive/json-writer.hxx on concrete documents.
use cppheaders.Prelude.{ℕ, ◌-◌, ◌*◌, ◌^◌, ◌≡◌, refl, true, Option, none, some, [], ◌∷◌, ◌++◌, arith}
use cppheaders.Archive.Run.{returned, thrown, writer_value_error}
use cppheaders.Archive.WriteContext.Laws.{Ready, ReadyIn}
use cppheaders.Archive.WriteContext.Sequences.{at}
use cppheaders.Archive.WriteContext.{array}
use cppheaders.Strutil.{json_escape}
use cppheaders.Archive.Json.Writer.{Writer, write_double, to_chars}
use cppheaders.Archive.Json.Text.{
  Json, integer, array_of, object_of, no_items, item, no_fields, field, write_json, Fits, render,
  count_items, count_fields,
}
use cppheaders.Archive.Json.Printing.{prefix}
use cppheaders.Archive.Json.Rendering.{write_json-render}

abbrev fresh : Option ℕ → Writer
fresh indent = record { ctx = []; out = []; indent = indent; obuf = []; has_source = true }

-- `{"a": [1, -2], "b": {}}`
abbrev sample : Json
sample = object_of (
    field (b'a' ∷ []) (array_of (item (integer 1) (item (integer (2 ^ 64 - 2)) no_items)))
      (field (b'b' ∷ []) (object_of no_fields) no_fields))

sample_text :
    render none 0 sample
    ≡ b'{' ∷ b'"' ∷ b'a' ∷ b'"' ∷ b':' ∷ b'[' ∷ b'1' ∷ b',' ∷ b'-' ∷ b'2' ∷ b']' ∷ b',' ∷ b'"'
      ∷ b'b' ∷ b'"' ∷ b':' ∷ b'{' ∷ b'}' ∷ b'}' ∷ []
unfolding render to_chars json_escape
sample_text = refl

sample-Fits : Fits sample
unfolding Fits count_items count_fields
sample-Fits = (omega arith, ((omega arith, (tt, (tt, tt))), ((omega arith, tt), tt)))

-- In an array of two, behind its first element.
abbrev second : Writer
second = record (fresh (some 2)) { ctx = at array 1 2 ∷ [] }

write_json-render_example :
    write_json sample second
    ≡ returned tt (record second {
      ctx = at array 2 2 ∷ [];
      out = [] ++ (prefix (some 2) (at array 1 2 ∷ []) ++ render (some 2) 1 sample);
    })
write_json-render_example = write_json-render sample second sample-Fits ready
  where
    ready : Ready (at array 1 2 ∷ [])
    ready = unfold Ready in unfold ReadyIn in (tt, omega arith, omega arith)

-- The pattern of an infinity is refused before anything is put out.
infinity : write_double (λ v. []) (2047 * 2 ^ 52) second ≡ thrown writer_value_error second
unfolding write_double
infinity = refl
