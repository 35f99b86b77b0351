-- ===== src/Archive/Msgpack/Writer.antt =====
-- include/cpph/refl/archive/msgpack-writer.hxx: `writer`. The stream buffer is the list of the bytes
-- put so far; an integer is its pattern of 64 bits, so that a pattern below `2 ^ 63` is an `int64_t`
-- that is not negative.
use cppheaders.Prelude.{
  ℕ, zero, suc, ◌+◌, ◌-◌, ◌/◌, ◌%◌, ◌^◌, Bool, not, List, [], ◌∷◌, ◌++◌, ltb, leb, ◌==◌,
  if◌then◌else◌, length,
}
use Prim.Native.Nat.{bit_and, bit_or}
use cppheaders.Archive.Run.{writer_out_of_range, returned, thrown, Run, ◌>>=◌, ◌>>◌, pure, require}
use cppheaders.Archive.WriteContext
use cppheaders.Archive.WriteContext.{Scopes, write_next, WriteDirective}
use cppheaders.Archive.Msgpack.Codes.{
  positive_fixint, negative_fixint, fixmap, fixarray, fixstr, nil, bool_false, bool_true, bin8,
  float32, float64, uint16, uint32, uint64, int16, int32, int64, str8, array16, array32, map16,
  map32,
}

pub record Writer : Type 0 where
  pub ctx : Scopes
  pub out : List ℕ

-- A call of `_ctx`.
abbrev pub on_ctx : {A : Type 0} → Run Scopes A → Run Writer A
on_ctx m w = elim (m w.ctx) [
  | returned a t ↦ returned a (record w { ctx = t })
  | thrown e t ↦ thrown e (record w { ctx = t })
]

abbrev pub sputn : List ℕ → Run Writer (Unit {0})
sputn bytes w = returned tt (record w { out = w.out ++ bytes })

abbrev pub sputc : ℕ → Run Writer (Unit {0})
sputc c = sputn (c % 256 ∷ [])

-- The bytes of a value of `w` bytes, the highest first.
unfoldable pub big_endian : ℕ → ℕ → List ℕ
big_endian zero v = []
big_endian (suc w) v = v / 256 ^ w % 256 ∷ big_endian w v

-- `_putbin<T>` with `w` the size of `T`
abbrev pub putbin : ℕ → ℕ → Run Writer (Unit {0})
putbin w v = sputn (big_endian w v)

-- `_ap`
abbrev pub ap_code : ℕ → Run Writer (Unit {0})
ap_code code = sputc code

-- `_apoff`
abbrev pub apoff : ℕ → ℕ → Run Writer (Unit {0})
apoff code offset = sputc (code + offset)

-- `_apsize_1`, whose `size` is a `uint32_t`.
unfoldable pub apsize_1 : ℕ → ℕ → Run Writer (Unit {0})
apsize_1 code size =
    if not (bit_and size 4294901760 == 0)
    then (do apoff code 2; putbin 4 size)
    else if not (bit_and size 65280 == 0)
    then (do apoff code 1; putbin 2 size)
    else (do apoff code 0; putbin 1 size)

-- `_apm<MaskBits_>`, whose `value` is a `uint8_t`.
abbrev pub apm : ℕ → ℕ → ℕ → Run Writer (Unit {0})
apm bits code value = sputc (bit_or code (bit_and (value % 256) (2 ^ bits - 1)))

unfoldable pub put_int : ℕ → Run Writer (Unit {0})
put_int v =
    if ltb v (2 ^ 63)
    then (if ltb v 128
        then apm 7 positive_fixint v
        else if ltb v 32768
        then (ap_code int16 >> putbin 2 v)
        else if ltb v 2147483648
        then (ap_code int32 >> putbin 4 v)
        else (ap_code int64 >> putbin 8 v))
    else (if leb (2 ^ 64 - 32) v
        then apm 5 negative_fixint v
        else if leb (2 ^ 64 - 32768) v
        then (ap_code int16 >> putbin 2 v)
        else if leb (2 ^ 64 - 2147483648) v
        then (ap_code int32 >> putbin 4 v)
        else (ap_code int64 >> putbin 8 v))

-- `_write_int`
unfoldable pub write_int : ℕ → Run Writer (Unit {0})
unfolding put_int
write_int v = do on_ctx write_next; put_int v

unfoldable pub put_uint : ℕ → Run Writer (Unit {0})
put_uint v =
    if ltb v 128
    then apm 7 positive_fixint v
    else if ltb v 32768
    then (ap_code uint16 >> putbin 2 v)
    else if ltb v 2147483648
    then (ap_code uint32 >> putbin 4 v)
    else (ap_code uint64 >> putbin 8 v)

-- `_write_uint`
unfoldable pub write_uint : ℕ → Run Writer (Unit {0})
unfolding put_uint
write_uint v = do on_ctx write_next; put_uint v

-- `_assert_32bitsize`
abbrev pub assert_32bitsize : ℕ → Run Writer (Unit {0})
assert_32bitsize n = require (ltb n 4294967295) writer_out_of_range

unfoldable pub write_nil : Run Writer (Unit {0})
write_nil = do on_ctx write_next; ap_code nil

unfoldable pub write_bool : Bool → Run Writer (Unit {0})
write_bool v = do on_ctx write_next; ap_code (if v then bool_true else bool_false)

unfoldable pub write_float : ℕ → Run Writer (Unit {0})
write_float v = do on_ctx write_next; ap_code float32; putbin 4 v

unfoldable pub write_double : ℕ → Run Writer (Unit {0})
write_double v = do on_ctx write_next; ap_code float64; putbin 8 v

unfoldable pub put_str_size : ℕ → Run Writer (Unit {0})
unfolding apsize_1
put_str_size n = if ltb n 32 then apm 5 fixstr n else apsize_1 str8 n

unfoldable pub write_str : List ℕ → Run Writer (Unit {0})
unfolding put_str_size
write_str v = do assert_32bitsize (length v); on_ctx write_next; put_str_size (length v); sputn v

unfoldable pub binary_push : ℕ → Run Writer (Unit {0})
unfolding apsize_1
binary_push total = do
  assert_32bitsize total
  on_ctx write_next
  on_ctx (WriteContext.push_binary total)
  apsize_1 bin8 total

unfoldable pub binary_write_some : List ℕ → Run Writer (Unit {0})
binary_write_some view = do on_ctx (WriteContext.binary_write_some (length view)); sputn view

abbrev pub discard : {A : Type 0} → Run Writer A → Run Writer (Unit {0})
discard m = m >>= λ _. pure tt

unfoldable pub binary_pop : Run Writer (Unit {0})
binary_pop = discard (on_ctx WriteContext.pop_binary)

-- The header of an object or of an array.
unfoldable pub put_count : ℕ → ℕ → ℕ → ℕ → Run Writer (Unit {0})
put_count fix code16 code32 n =
    if ltb n 16
    then apm 4 fix n
    else if ltb n 32768
    then (ap_code code16 >> putbin 2 n)
    else (ap_code code32 >> putbin 4 n)

unfoldable pub object_push : ℕ → Run Writer (Unit {0})
unfolding put_count
object_push n = do
  assert_32bitsize n
  on_ctx write_next
  on_ctx (WriteContext.push_object n)
  put_count fixmap map16 map32 n

unfoldable pub object_pop : Run Writer (Unit {0})
object_pop = discard (on_ctx WriteContext.pop_object)

unfoldable pub array_push : ℕ → Run Writer (Unit {0})
unfolding put_count
array_push n = do
  assert_32bitsize n
  on_ctx write_next
  on_ctx (WriteContext.push_array n)
  put_count fixarray array16 array32 n

unfoldable pub array_pop : Run Writer (Unit {0})
array_pop = discard (on_ctx WriteContext.pop_array)

unfoldable pub write_key_next : Run Writer (Unit {0})
write_key_next = discard (on_ctx WriteContext.write_key_next)

unfoldable pub clear : Run Writer (Unit {0})
clear = on_ctx WriteContext.clear
