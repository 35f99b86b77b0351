-- ===== src/Archive/Msgpack/Edges.antt =====
-- include/cpph/refl/archive/msgpack-reader.hxx: input that ends early or has another format, and
-- reads past the end of an array.
use cppheaders.Prelude.{ℕ, ◌+◌, ◌-◌, ◌*◌, ◌%◌, ◌^◌, ◌<◌, ◌≡◌, refl, ap, false, List, [], ◌∷◌, arith}
use cppheaders.Archive.Run.{reader_check_failed, reader_unexpected_end_of_file, returned, thrown}
use cppheaders.Archive.Msgpack.Reader.{
  ReadScope, Key, type_array, type_object, get_n_big_e, bump_n_big_e, read_number, number_of,
  typecode, read_elem_count,
}
use cppheaders.Archive.Msgpack.Reader.Scopes.{
  quick_get_num, begin_object, step_context, step_in, new_scope, verify_not_key_type,
}
use cppheaders.Archive.Msgpack.Numbers.{with_input}
use cppheaders.Archive.Msgpack.RoundTrip.{opened, next_gen}

-- A `uint16` (`0xcd`) whose second byte the stream does not hold is read without an error: the
-- byte at the end of the stream counts as 255.
pub quick_get_num_truncated :
    (f : ℕ → ℕ → ℕ) (gen x : ℕ)
    → x < 256
    → quick_get_num f 64 (with_input [] gen (205 ∷ x ∷ []))
      ≡ returned (x * 256 + 255) (with_input [] gen [])
unfolding quick_get_num read_number number_of typecode bump_n_big_e get_n_big_e step_context step_in
quick_get_num_truncated f gen x fits =
    ap (λ v. returned v (with_input [] gen [])) {x = (x * 256 ^ 1 + (255 * 256 ^ 0 + 0)) % 2 ^ 64}
      {y = x * 256 + 255} (omega arith)

-- The header of an array with a count of 32 bits, `0xdd`, opens an object: its first byte is taken
-- for the number of pairs.
pub begin_object_array32 :
    (gen n : ℕ) (rest : List ℕ)
    → n < 256
    → begin_object (with_input [] gen (221 ∷ n ∷ rest))
      ≡ returned
          (opened type_object gen (n * 2)).ctxkey
          (with_input (opened type_object gen (n * 2) ∷ []) (next_gen gen) rest)
unfolding begin_object read_elem_count typecode bump_n_big_e get_n_big_e step_context step_in
    new_scope verify_not_key_type
begin_object_array32 gen n rest fits =
    ap
      (λ c.
        returned (opened type_object gen c).ctxkey
          (with_input (opened type_object gen c ∷ []) (next_gen gen) rest))
      {x = (n * 256 ^ 0 + 0) * 2 % 2 ^ 32} {y = n * 2} (omega arith)

abbrev pub in_array : Key → ℕ → ReadScope
in_array k n = record { ctxkey = k; kind = type_array; elems_left = n; reading_key = false }

-- Counting one element more in an array of which none is left throws, but the count of the
-- elements left wraps round, so that the next element is counted without a throw.
pub step_context_past_end :
    (k : Key) (scopes : List ReadScope) (gen : ℕ) (xs : List ℕ)
    → (step_context (with_input (in_array k 0 ∷ scopes) gen xs)
        ≡ thrown reader_check_failed (with_input (in_array k (2 ^ 32 - 1) ∷ scopes) gen xs))
      × (step_context (with_input (in_array k (2 ^ 32 - 1) ∷ scopes) gen xs)
          ≡ returned tt (with_input (in_array k (2 ^ 32 - 2) ∷ scopes) gen xs))
unfolding step_context step_in
step_context_past_end k scopes gen xs = (refl, refl)

-- At the end of the stream the read of a number and of an object throws, and nothing changes.
pub reads_at_end :
    (f : ℕ → ℕ → ℕ) (bits gen : ℕ)
    → (quick_get_num f bits (with_input [] gen [])
        ≡ thrown reader_unexpected_end_of_file (with_input [] gen []))
      × (begin_object (with_input [] gen [])
          ≡ thrown reader_unexpected_end_of_file (with_input [] gen []))
unfolding quick_get_num begin_object verify_not_key_type
reads_at_end f bits gen = (refl, refl)
