-- ===== src/Archive/Msgpack/Nested.antt =====
-- include/cpph/refl/archive/msgpack-reader.hxx: `_skip_once` on an object that has an array for a value.
use cppheaders.Prelude.{
  ℕ, suc, ◌+◌, ◌-◌, ◌*◌, ◌≡◌, ap, ◌∙◌, true, false, List, [], ◌∷◌, ◌++◌, arith, length,
  length-append,
}
use cppheaders.Archive.Run.{thrown, reader_check_failed, Run, pure, >>=-returned, >>=-thrown}
use cppheaders.Archive.Msgpack.Reader.{
  Reader, ReadScope, type_object, typecode, number_of, read_elem_count,
}
use cppheaders.Archive.Msgpack.Reader.Scopes.{
  begin_array, begin_object, verify_not_key_type, scope_ref, step_context, step_in, new_scope,
}
use cppheaders.Archive.Msgpack.Reader.Types.{calc_num_break_scope}
use cppheaders.Archive.Msgpack.Reader.Skip.{
  skip, skip_once, break_scope, skip_item, grown, skip_inside, end_scope, times,
}
use cppheaders.Archive.Msgpack.Numbers.{with_input}
use cppheaders.Archive.Msgpack.RoundTrip.{opened, next_gen}
use cppheaders.Archive.Msgpack.Headers.{is_array}
use cppheaders.Archive.Msgpack.Leaves.{Leaf}
use cppheaders.Archive.Msgpack.Documents.{skip_item-array, calc_num-exact}

-- The scope of the object, of whose pair the key is next, and after the key.
abbrev pub at_key : ℕ → ReadScope
at_key gen = record (opened type_object gen 2) { reading_key = true }

abbrev pub at_value : ℕ → ReadScope
at_value gen = record (at_key gen) { elems_left = 1 }

value-thrown :
    (grow : ℕ → ℕ) (cap f c gen : ℕ) (rest : List ℕ)
    → is_array (typecode c) ≡ true
    → break_scope grow (suc (suc f)) cap (with_input (at_value gen ∷ []) (next_gen gen) (c ∷ rest))
      ≡ thrown reader_check_failed (with_input (at_value gen ∷ []) (next_gen gen) (c ∷ rest))
unfolding skip_once scope_ref begin_array verify_not_key_type
value-thrown grow cap f c gen rest h =
    >>=-thrown (skip_once grow (suc f) true cap) (λ _. break_scope grow (suc f) cap)
      (with_input (at_value gen ∷ []) (next_gen gen) (c ∷ rest))
      (skip_item-array grow (break_scope grow f) true cap c
        (with_input (at_value gen ∷ []) (next_gen gen) (c ∷ rest)) h)

object-thrown :
    (grow : ℕ → ℕ) (cap f c gen : ℕ) (key rest : List ℕ)
    → Leaf key
    → is_array (typecode c) ≡ true
    → break_scope grow
        (suc (suc (suc f)))
        cap
        (with_input (opened type_object gen 2 ∷ []) (next_gen gen) (key ++ c ∷ rest))
      ≡ thrown reader_check_failed (with_input (at_value gen ∷ []) (next_gen gen) (c ∷ rest))
unfolding skip_once scope_ref Leaf
object-thrown grow cap f c gen key rest leaf h =
    let (n, e) =
      leaf grow (break_scope grow (suc f)) true cap (at_key gen ∷ []) (next_gen gen) (c ∷ rest)
        (omega arith) in
    >>=-returned (skip_once grow (suc (suc f)) true cap) (λ _. break_scope grow (suc (suc f)) cap)
      (with_input (at_key gen ∷ []) (next_gen gen) (key ++ c ∷ rest)) e
      (value-thrown grow cap f c gen rest h)

once-thrown :
    (grow : ℕ → ℕ) (cap f c gen : ℕ) (key rest : List ℕ)
    → Leaf key
    → is_array (typecode c) ≡ true
    → skip_once grow (suc (suc (suc (suc f)))) false cap (with_input [] gen (129 ∷ key ++ c ∷ rest))
      ≡ thrown reader_check_failed (with_input (at_value gen ∷ []) (next_gen gen) (c ∷ rest))
unfolding skip_once skip_item skip_inside begin_object number_of typecode read_elem_count
    step_context step_in new_scope verify_not_key_type end_scope times
once-thrown grow cap f c gen key rest leaf h =
    let s : ReadScope = opened type_object gen 2 in
    let r : Reader = with_input (s ∷ []) (next_gen gen) (key ++ c ∷ rest) in
    let cap' : ℕ = grown grow cap 1 in
    let brk : Run Reader (Unit {0}) = break_scope grow (suc (suc (suc f))) cap' in
    >>=-thrown (end_scope brk type_object s.ctxkey) _ r (
      >>=-returned (calc_num_break_scope type_object s.ctxkey) (λ n. times n brk) r
        (calc_num-exact s [] (next_gen gen) (key ++ c ∷ rest))
        (>>=-thrown brk (λ _. pure tt) r (object-thrown grow cap' f c gen key rest leaf h)))

-- An object of one pair whose value is an array is not skipped, whatever the capacity of the vector of
-- the scopes and its growth: outside every scope,
-- `read(nullptr)` skips the key and then throws `reader_check_failed` at the array, since it still
-- counts a key as announced.
pub skip_object_of_array :
    (grow : ℕ → ℕ) (cap c gen : ℕ) (key rest : List ℕ)
    → Leaf key
    → is_array (typecode c) ≡ true
    → skip grow cap (with_input [] gen (129 ∷ key ++ c ∷ rest))
      ≡ thrown reader_check_failed (with_input (at_value gen ∷ []) (next_gen gen) (c ∷ rest))
unfolding skip
skip_object_of_array grow cap c gen key rest leaf h =
    let n : ℕ = length (129 ∷ key ++ c ∷ rest) in
    ap (λ f. skip_once grow f false cap (with_input [] gen (129 ∷ key ++ c ∷ rest))) {x = 2 * n + 2}
      {y = suc (suc (suc (suc (2 * n - 2))))} (omega (arith, length-append key (c ∷ rest)))
    ∙ once-thrown grow cap (2 * n - 2) c gen key rest leaf h
