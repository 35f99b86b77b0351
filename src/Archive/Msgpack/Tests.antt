-- ===== src/Archive/Msgpack/Tests.antt =====
-- include/cpph/refl/archive/msgpack-writer.hxx, msgpack-reader.hxx on concrete values.
use cppheaders.Prelude.{ℕ, ◌-◌, ◌^◌, ◌≡◌, refl, List, [], ◌∷◌, ◌++◌, arith}
use cppheaders.Archive.Run.{returned, ◌>>◌}
use cppheaders.Archive.WriteContext.{array}
use cppheaders.Archive.WriteContext.Laws.{Ready, ReadyIn}
use cppheaders.Archive.WriteContext.Sequences.{at}
use cppheaders.Archive.Msgpack.Writer.{
  Writer, write_int, write_str, array_push, array_pop, put_int, big_endian,
}
use cppheaders.Archive.Msgpack.Reader.{Key, type_array}
use cppheaders.Archive.Msgpack.Reader.Scopes.{read_str, begin_array}
use cppheaders.Archive.Msgpack.Numbers.{with_input, Reads}
use cppheaders.Archive.Msgpack.Integers.{write_int-read}
use cppheaders.Archive.Msgpack.RoundTrip.{opened, next_gen, write_str-read}
use cppheaders.Archive.Msgpack.Arrays.{AllFit, write_ints, read_ints, write_array-read_array}

abbrev fresh : Writer
fresh = record { ctx = at array 1 3 ∷ []; out = 147 ∷ 5 ∷ [] }

fresh-Ready : Ready fresh.ctx
unfolding Ready ReadyIn
fresh-Ready = (tt, omega arith, omega arith)

abbrev after : List ℕ → Writer
after bytes = record { ctx = at array 2 3 ∷ []; out = 147 ∷ 5 ∷ bytes }

no_float : ℕ → ℕ → ℕ
no_float w v = 0

-- -1000 is the int16 `d1 fc 18`.
put_int-minus_1000 :
    put_int (2 ^ 64 - 1000) fresh
    ≡ returned tt (record { ctx = fresh.ctx; out = 147 ∷ 5 ∷ 209 ∷ 252 ∷ 24 ∷ [] })
unfolding put_int big_endian
put_int-minus_1000 = refl

write_int-read_example :
    (bytes : List ℕ) × (write_int (2 ^ 64 - 1000) fresh ≡ returned tt (after bytes))
    × Reads (2 ^ 64 - 1000) bytes
write_int-read_example = write_int-read (2 ^ 64 - 1000) fresh (omega arith) fresh-Ready

write_str-read_example :
    (bytes : List ℕ) × (write_str (104 ∷ 105 ∷ []) fresh ≡ returned tt (after bytes))
    × ((old : List ℕ) (gen : ℕ) (rest : List ℕ)
        → read_str old (with_input [] gen (bytes ++ rest))
          ≡ returned (104 ∷ 105 ∷ []) (with_input [] gen rest))
write_str-read_example = write_str-read (104 ∷ 105 ∷ []) fresh (omega arith) fresh-Ready

abbrev numbers : List ℕ
numbers = 7 ∷ 18446744073709551615 ∷ 40000 ∷ []

numbers-AllFit : AllFit numbers
unfolding AllFit
numbers-AllFit = (omega arith, (omega arith, (omega arith, tt)))

write_array-read_array_example :
    (bytes : List ℕ) × ((array_push 3 >> (write_ints numbers >> array_pop)) fresh
      ≡ returned tt (after bytes))
    × ((f : ℕ → ℕ → ℕ) (gen : ℕ) (rest : List ℕ)
        → (begin_array >> read_ints f 3) (with_input [] gen (bytes ++ rest))
          ≡ returned numbers (with_input (opened type_array gen 0 ∷ []) (next_gen gen) rest))
write_array-read_array_example =
    write_array-read_array numbers fresh numbers-AllFit (omega arith) fresh-Ready

abbrev outer : Key
outer = record { id = 1; index = 0 }
