-- ===== src/Archive/Json/Text.antt =====
-- include/cpph/refl/archive/json-writer.hxx: documents, the calls that write one, and the text that
-- stands for it, with each line indented by its depth.
use cppheaders.Prelude.{
  ℕ, suc, ◌*◌, ◌^◌, ◌<◌, Bool, true, false, Option, none, some, List, [], ◌∷◌, ◌++◌, if◌then◌else◌,
  replicate,
}
use cppheaders.Archive.Run.{Run, ◌>>◌, pure}
use cppheaders.Strutil.{json_escape}
use cppheaders.Archive.Json.Writer.{
  Writer, to_chars, write_null, write_bool, write_int, write_str, write_key_next, array_push,
  array_pop, object_push, object_pop,
}

mutual
  pub data Json : Type 0 where
    null : Json
    boolean : Bool → Json
    integer : ℕ → Json
    text : List ℕ → Json
    array_of : Items → Json
    object_of : Fields → Json

  pub data Items : Type 0 where
    no_items : Items
    item : Json → Items → Items

  pub data Fields : Type 0 where
    no_fields : Fields
    field : List ℕ → Json → Fields → Fields

unfoldable pub count_items : Items → ℕ
count_items no_items = 0
count_items (item v vs) = suc (count_items vs)

unfoldable pub count_fields : Fields → ℕ
count_fields no_fields = 0
count_fields (field k v fs) = suc (count_fields fs)

unfoldable mutual
  pub write_json : Json → Run Writer (Unit {0})
  write_json null = write_null
  write_json (boolean b) = write_bool b
  write_json (integer v) = write_int v
  write_json (text v) = write_str v
  write_json (array_of vs) = array_push (count_items vs) >> (write_items vs >> array_pop)
  write_json (object_of fs) = object_push (count_fields fs) >> (write_fields fs >> object_pop)

  pub write_items : Items → Run Writer (Unit {0})
  write_items no_items = pure tt
  write_items (item v vs) = write_json v >> write_items vs

  pub write_fields : Fields → Run Writer (Unit {0})
  write_fields no_fields = pure tt
  write_fields (field k v fs) = write_key_next >> (write_str k >> (write_json v >> write_fields fs))

-- Every array and object has fewer than `2 ^ 63` elements.
unfoldable mutual
  pub Fits : Json → Type 0
  Fits (array_of vs) = (count_items vs < 2 ^ 63) × FitsItems vs
  Fits (object_of fs) = (count_fields fs < 2 ^ 63) × FitsFields fs
  Fits _ = Unit {0}

  pub FitsItems : Items → Type 0
  FitsItems no_items = Unit {0}
  FitsItems (item v vs) = Fits v × FitsItems vs

  pub FitsFields : Fields → Type 0
  FitsFields no_fields = Unit {0}
  FitsFields (field k v fs) = Fits v × FitsFields fs

-- A new line at a depth, where lines are indented.
unfoldable pub new_line : Option ℕ → ℕ → List ℕ
new_line none depth = []
new_line (some k) depth = 10 ∷ replicate (k * depth) b' '

unfoldable pub quoted : List ℕ → List ℕ
quoted s = b'"' ∷ (json_escape s ++ b'"' ∷ [])

abbrev pub key_end : Option ℕ → List ℕ
key_end none = b':' ∷ []
key_end (some k) = b':' ∷ b' ' ∷ []

abbrev pub comma : Bool → List ℕ
comma first = if first then [] else b',' ∷ []

unfoldable mutual
  unfolding new_line quoted

  -- The text of a value that stands at a depth.
  pub render : Option ℕ → ℕ → Json → List ℕ
  render indent depth null = b'n' ∷ b'u' ∷ b'l' ∷ b'l' ∷ []
  render indent depth (boolean true) = b't' ∷ b'r' ∷ b'u' ∷ b'e' ∷ []
  render indent depth (boolean false) = b'f' ∷ b'a' ∷ b'l' ∷ b's' ∷ b'e' ∷ []
  render indent depth (integer v) = to_chars v
  render indent depth (text s) = quoted s
  render indent depth (array_of no_items) = b'[' ∷ b']' ∷ []
  render indent depth (array_of (item v vs)) =
      b'['
      ∷ (render_items indent (suc depth) true (item v vs) ++ (new_line indent depth ++ b']' ∷ []))
  render indent depth (object_of no_fields) = b'{' ∷ b'}' ∷ []
  render indent depth (object_of (field k v fs)) =
      b'{'
      ∷ (render_fields indent (suc depth) true (field k v fs)
          ++ (new_line indent depth ++ b'}' ∷ []))

  pub render_items : Option ℕ → ℕ → Bool → Items → List ℕ
  render_items indent depth first no_items = []
  render_items indent depth first (item v vs) =
      comma first
      ++ (new_line indent depth ++ (render indent depth v ++ render_items indent depth false vs))

  pub render_fields : Option ℕ → ℕ → Bool → Fields → List ℕ
  render_fields indent depth first no_fields = []
  render_fields indent depth first (field k v fs) =
      comma first
      ++ (new_line indent depth
          ++ (quoted k
              ++ (key_end indent
                  ++ (render indent depth v ++ render_fields indent depth false fs))))
