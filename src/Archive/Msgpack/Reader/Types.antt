-- ===== src/Archive/Msgpack/Reader/Types.antt =====
-- include/cpph/refl/archive/msgpack-reader.hxx: `type_next`, which tells the kind of the next value,
-- and the search for the scopes that `end_object` and `end_array` close.
use cppheaders.Prelude.{ℕ, ◌+◌, Bool, ◌&&◌, ◌||◌, List, [], ◌∷◌, leb, ◌==◌, if◌then◌else◌}
use cppheaders.Archive.Run.{
  reader_check_failed, reader_invalid_context, reader_parse_failed, Run, ◌>>=◌, ◌>>◌, pure, throw,
  require,
}
use cppheaders.Archive.Msgpack.Codes.{
  positive_fixint, negative_fixint, fixmap, fixarray, fixstr, nil, bool_false, bool_true, bin8,
  float32, float64, uint8, int8, str8, array16, array32, map16, map32,
}
use cppheaders.Archive.Msgpack.Reader.{
  ScopeKind, Key, ReadScope, Reader, same_kind, next_header, typecode,
}

-- `entity_type`, of which the readers return these
pub data EntityType : Type 0 where
  floating_point integer boolean string_type binary_type array_type dictionary null : EntityType
  object_type : EntityType

-- A typecode between two others.
abbrev pub between : ℕ → ℕ → ℕ → Bool
between low high t = leb low t && leb t high

-- The cases of `type_next`; `uint8` to `int64`, `str8` to `str32` and `bin8` to `bin32` are
-- consecutive.
unfoldable pub entity_of : ℕ → Run Reader EntityType
entity_of t =
    if (t == float32) || (t == float64)
    then pure floating_point
    else if (t == positive_fixint) || (t == negative_fixint) || between uint8 (int8 + 3) t
    then pure integer
    else if (t == bool_false) || (t == bool_true)
    then pure boolean
    else if (t == fixstr) || between str8 (str8 + 2) t
    then pure string_type
    else if between bin8 (bin8 + 2) t
    then pure binary_type
    else if (t == fixarray) || (t == array16) || (t == array32)
    then pure array_type
    else if (t == fixmap) || (t == map16) || (t == map32)
    then pure dictionary
    else if t == nil
    then pure null
    else throw reader_parse_failed

unfoldable pub type_next : Run Reader EntityType
unfolding typecode entity_of
type_next = do header ← next_header; entity_of (typecode header)

abbrev pub same_key : Key → Key → Bool
same_key a b = (a.id == b.id) && (a.index == b.index)

-- `should_break` of the innermost scope
unfoldable pub should_break : Key → ReadScope → Bool
should_break key s = same_key key s.ctxkey && (s.elems_left == 0)

-- `_calc_num_break_scope`, which looks at the innermost scope first: how many scopes are closed.
unfoldable pub calc_in : List ReadScope → ScopeKind → Key → Run Reader ℕ
calc_in [] kind key = throw reader_invalid_context
calc_in (s ∷ rest) kind key =
    if same_key s.ctxkey key
    then (require (same_kind s.kind kind) reader_check_failed >> pure 1)
    else (calc_in rest kind key >>= λ n. pure (n + 1))

unfoldable pub calc_num_break_scope : ScopeKind → Key → Run Reader ℕ
unfolding calc_in
calc_num_break_scope kind key r = calc_in r.scope kind key r
