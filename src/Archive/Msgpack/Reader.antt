-- ===== src/Archive/Msgpack/Reader.antt =====
-- include/cpph/refl/archive/msgpack-reader.hxx: `reader`. The stream buffer is the list of the bytes
-- that are left. A `uint32_t` wraps round at `2 ^ 32`.
pub mod Scopes
pub mod Types
pub mod Skip
pub mod Consumes
pub mod Counts
pub mod Skips
pub mod Closes
use cppheaders.Prelude.{
  ℕ, zero, suc, ◌+◌, ◌-◌, ◌*◌, ◌/◌, ◌%◌, ◌^◌, min, Bool, true, false, not, ◌&&◌, ◌||◌, List, [],
  ◌∷◌, ◌++◌, ltb, leb, ◌==◌, if◌then◌else◌, length, take, drop,
}
use Prim.Native.Nat.{bit_and}
use cppheaders.Archive.Run.{
  Error, reader_check_failed, reader_invalid_context, reader_parse_failed,
  reader_unexpected_end_of_file, type_mismatch, Outcome, returned, thrown, Run, ◌>>=◌, ◌>>◌, pure,
  throw, require,
}
use cppheaders.Archive.Msgpack.Codes.{
  positive_fixint, negative_fixint, fixmap, fixarray, fixstr, code_error, bool_false, bool_true,
  bin8, float32, float64, uint8, uint16, uint32, uint64, int8, int16, int32, int64, str8, array16,
  map16,
}

pub data ScopeKind : Type 0 where
  type_object type_array type_binary : ScopeKind

-- `context_key`
pub record Key : Type 0 where
  pub id : ℕ
  pub index : ℕ

-- `scope_t`
pub record ReadScope : Type 0 where
  pub ctxkey : Key
  pub kind : ScopeKind
  pub elems_left : ℕ
  pub reading_key : Bool

-- The innermost scope is the first of the list, the last of the vector.
pub record Reader : Type 0 where
  pub scope : List ReadScope
  pub scope_key_gen : ℕ
  pub input : List ℕ

abbrev pub same_kind : ScopeKind → ScopeKind → Bool
same_kind type_object type_object = true
same_kind type_array type_array = true
same_kind type_binary type_binary = true
same_kind _ _ = false

-- `_verify_eof(_buf->sgetc())`
abbrev pub next_header : Run Reader ℕ
next_header r = elim r.input [ [] ↦ thrown reader_unexpected_end_of_file r | c ∷ cs ↦ returned c r ]

-- `_buf->sbumpc()`, cast to a byte: at the end of the stream `eof()` is `-1`.
abbrev pub sbumpc : Run Reader ℕ
sbumpc r = elim r.input [ [] ↦ returned 255 r | c ∷ cs ↦ returned c (record r { input = cs }) ]

-- `_buf->sgetn`, which stops at the end of the stream.
abbrev pub sgetn : ℕ → Run Reader (List ℕ)
sgetn n r = returned (take n r.input) (record r { input = drop n r.input })

-- `_get_n_bigE` of a type of `w` bytes
unfoldable pub get_n_big_e : ℕ → Run Reader ℕ
get_n_big_e zero = pure 0
get_n_big_e (suc w) = do c ← sbumpc; v ← get_n_big_e w; pure (c * 256 ^ w + v)

-- `_bump_n_bigE`
unfoldable pub bump_n_big_e : ℕ → Run Reader ℕ
unfolding get_n_big_e
bump_n_big_e w = do sbumpc; get_n_big_e w

-- A value of `from` bits that is signed, as a value of `to` bits.
abbrev pub sign_extend : ℕ → ℕ → ℕ → ℕ
sign_extend from to v =
    if ltb v (2 ^ (from - 1)) then v % 2 ^ to else ((v + (2 ^ 64 - 2 ^ from)) % 2 ^ to)

-- `_typecode` of the high digit of a byte, and of a byte
abbrev pub typecode_high : ℕ → ℕ → ℕ
typecode_high h v =
    if (h == 12) || (h == 13)
    then v
    else if h == 9
    then fixarray
    else if h == 8
    then fixmap
    else if (h == 14) || (h == 15)
    then negative_fixint
    else if (h == 10) || (h == 11)
    then fixstr
    else positive_fixint

unfoldable pub typecode : ℕ → ℕ
typecode v = typecode_high (bit_and v 240 / 16) v

-- The sizes of the numbers by their typecodes: bytes, and whether the number is signed.
pub data Number : Type 0 where
  fixed flag floating unsigned signed other : Number

unfoldable pub number_of : ℕ → Number
number_of t =
    if (t == positive_fixint) || (t == negative_fixint)
    then fixed
    else if (t == bool_false) || (t == bool_true)
    then flag
    else if (t == float32) || (t == float64)
    then floating
    else if (t == uint8) || (t == uint16) || (t == uint32) || (t == uint64)
    then unsigned
    else if (t == int8) || (t == int16) || (t == int32) || (t == int64)
    then signed
    else other

-- `_read_number<T>` where `T` is an integer of `bits` bits; `from_float w v` is the cast to `T` of the
-- floating number of `w` bytes whose pattern is `v`.
unfoldable pub read_number : (ℕ → ℕ → ℕ) → ℕ → ℕ → Run Reader ℕ
unfolding number_of typecode bump_n_big_e
read_number from_float bits header =
    let t = typecode header in
    elim (number_of t) [
      | fixed ↦ (sbumpc >> pure (sign_extend 8 bits header))
      | flag ↦ (sbumpc >> pure (t - bool_false))
      | floating ↦ (bump_n_big_e (4 * (t - 201)) >>= λ v. pure (from_float (4 * (t - 201)) v))
      | unsigned ↦ (bump_n_big_e (2 ^ (t - uint8)) >>= λ v. pure (v % 2 ^ bits))
      | signed ↦
          (bump_n_big_e (2 ^ (t - int8)) >>= λ v. pure (sign_extend (8 * 2 ^ (t - int8)) bits v))
      | other ↦ throw type_mismatch
    ]

-- `_read_elem_count<Base, Ofst, Fix, FixMask>`, with `base` the sum of `Base` and `Ofst`
unfoldable pub read_elem_count : ℕ → ℕ → ℕ → ℕ → Run Reader ℕ
unfolding typecode bump_n_big_e
read_elem_count base fix mask header =
    let t = typecode header in
    if t == fix
    then (sbumpc >> pure (bit_and header mask))
    else if t == base
    then bump_n_big_e 1
    else if t == base + 1
    then bump_n_big_e 2
    else if t == base + 2
    then bump_n_big_e 4
    else throw type_mismatch

abbrev pub read_elem_count_str : ℕ → Run Reader ℕ
read_elem_count_str = read_elem_count str8 fixstr 31

abbrev pub read_elem_count_bin : ℕ → Run Reader ℕ
read_elem_count_bin = read_elem_count bin8 code_error 0

abbrev pub read_elem_count_map : ℕ → Run Reader ℕ
read_elem_count_map = read_elem_count (map16 - 1) fixmap 15

abbrev pub read_elem_count_array : ℕ → Run Reader ℕ
read_elem_count_array = read_elem_count (array16 - 1) fixarray 15
