-- ===== src/Archive/Msgpack/SkipTests.antt =====
-- include/cpph/refl/archive/msgpack-reader.hxx: values that are skipped, on concrete streams.
use cppheaders.Prelude.{ℕ, ◌*◌, ◌≡◌, refl, List, [], ◌∷◌, ◌++◌, arith}
use cppheaders.Archive.Run.{returned, thrown, reader_check_failed, dangling_pointer}
use cppheaders.Archive.Run.Ends.{Ends}
use cppheaders.Archive.WriteContext.Laws.{Ready}
use cppheaders.Archive.Msgpack.Writer.{Writer}
use cppheaders.Archive.Msgpack.Reader.{
  ReadScope, Reader, type_array, type_object, typecode, number_of, read_number, read_elem_count,
}
use cppheaders.Archive.Msgpack.Reader.Scopes.{
  begin_array, verify_not_key_type, step_context, step_in, new_scope, scope_ref,
  step_context_on_skip, discard_n_bytes,
}
use cppheaders.Archive.Msgpack.Reader.Types.{calc_num_break_scope}
use cppheaders.Archive.Msgpack.Reader.Skip.{
  skip, skip_once, skip_item, skip_inside, end_scope, times, finish_skip, end_array, end_object,
}
use cppheaders.Archive.Msgpack.Reader.Counts.{Skipped}
use cppheaders.Archive.Msgpack.Reader.Skips.{skip-Skipped}
use cppheaders.Archive.Msgpack.Reader.Closes.{Splits, end_array-Closes}
use cppheaders.Archive.Msgpack.Numbers.{with_input, low-Reads}
use cppheaders.Archive.Msgpack.RoundTrip.{opened, next_gen}
use cppheaders.Archive.Msgpack.Leaves.{Reads-Leaf}
use cppheaders.Archive.Msgpack.Documents.{
  Document, integer, text, null, list_of, nothing, also, count, write_document, Fits, depth,
}
use cppheaders.Archive.Msgpack.Skipping.{write_document-skip}
use cppheaders.Archive.Msgpack.Nested.{skip_object_of_array, at_value}

-- A vector that doubles its capacity.
abbrev doubled : ℕ → ℕ
doubled n = 2 * n

-- `[1, ["ab", nil]]`
abbrev sample : Document
sample =
    list_of
      (also (integer 1) (also (list_of (also (text (97 ∷ 98 ∷ [])) (also null nothing))) nothing))

abbrev fresh : Writer
fresh = record { ctx = []; out = [] }

sample-Fits : Fits sample
unfolding Fits count
sample-Fits = (omega arith, (omega arith, (((omega arith, (omega arith, (tt, tt))), tt))))

write_document-skip_example :
    (bytes : List ℕ) × (write_document sample fresh
      ≡ returned tt (record { ctx = []; out = bytes }))
    × ((gen : ℕ) (rest : List ℕ)
        → (n : ℕ) × (gen' : ℕ) × (skip doubled 2 (with_input [] gen (bytes ++ rest))
            ≡ returned n (with_input [] gen' rest)))
unfolding Ready depth
write_document-skip_example =
    write_document-skip sample fresh doubled 2 sample-Fits tt (omega arith)

-- An array of two elements inside an array of which three are left.
abbrev nested : Reader
nested = with_input (opened type_array 0 3 ∷ []) 1 (146 ∷ 7 ∷ 161 ∷ 97 ∷ 5 ∷ [])

skip-Skipped_example : Ends (λ n t. Skipped nested t) (skip doubled 6 nested)
skip-Skipped_example = skip-Skipped doubled 6 nested (omega arith)

end_array-Closes_example :
    Ends
      (λ u t.
        (inner : List ReadScope) × Splits type_array
          (opened type_array 0 3).ctxkey
          nested.scope
          inner
          t.scope)
      (end_array doubled 6 (opened type_array 0 3).ctxkey nested)
    × Ends
        (λ u t.
          (inner : List ReadScope) × Splits type_object
            (opened type_array 0 3).ctxkey
            nested.scope
            inner
            t.scope)
        (end_object doubled 6 (opened type_array 0 3).ctxkey nested)
end_array-Closes_example =
    end_array-Closes doubled 6 (opened type_array 0 3).ctxkey nested (omega arith)

-- `{1: []}`
skip_object_of_array_example :
    skip doubled 0 (with_input [] 0 (129 ∷ 1 ∷ 144 ∷ []))
    ≡ thrown reader_check_failed (with_input (at_value 0 ∷ []) (next_gen 0) (144 ∷ []))
unfolding typecode
skip_object_of_array_example =
    skip_object_of_array doubled 0 144 0 (1 ∷ []) []
      (Reads-Leaf 1 (1 ∷ []) (low-Reads 1 (omega arith))) refl

-- `[[7]]` with no depth reserved: the second scope does not fit, the pointer to the first dangles.
nested_dangles :
    skip doubled 0 (with_input [] 0 (145 ∷ 145 ∷ 7 ∷ []))
    ≡ thrown dangling_pointer
        (with_input (record (opened type_array 0 1) { elems_left = 0 } ∷ []) 2 [])
unfolding skip skip_once skip_item skip_inside begin_array verify_not_key_type read_elem_count
    step_context step_in new_scope end_scope times calc_num_break_scope scope_ref typecode number_of
    read_number finish_skip step_context_on_skip discard_n_bytes
nested_dangles = refl
