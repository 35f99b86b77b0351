-- ===== src/Archive/Msgpack/Reader/Skip.antt =====
-- include/cpph/refl/archive/msgpack-reader.hxx: `_skip_once`, `_break_scope` and the methods that end
-- a scope. The two call each other on what is left of the stream, so that each call costs a unit of
-- fuel. `_break_scope` keeps a pointer to the innermost scope while it skips what is left in it, so that
-- the capacity of the vector `_scope` counts: where a scope is pushed beyond it, the elements move and
-- the pointer dangles. `grow` is the capacity that the vector takes then, for the one before; the
-- vector never takes less than it needs.
use cppheaders.Prelude.{
  ℕ, zero, suc, ◌+◌, ◌-◌, ◌*◌, ◌%◌, ◌^◌, max, Bool, true, false, not, ◌||◌, leb, ◌==◌,
  if◌then◌else◌, length,
}
use cppheaders.Archive.Run.{
  reader_parse_failed, out_of_fuel, dangling_pointer, Run, ◌>>=◌, ◌>>◌, pure, throw, require,
}
use cppheaders.Archive.Msgpack.Codes.{
  fixmap, fixarray, fixstr, code_error, nil, bin8, ext8, fixext1, str8, array16, array32, map16,
  map32,
}
use cppheaders.Archive.Msgpack.Reader.{
  ScopeKind, type_object, type_array, Key, ReadScope, Reader, next_header, typecode, number_of,
  other, read_number, read_elem_count, read_elem_count_str, read_elem_count_bin,
}
use cppheaders.Archive.Msgpack.Reader.Scopes.{
  is_key_order, step_context_on_skip, scope_ref, set_innermost, pop_back, discard_n_bytes,
  begin_object, begin_array,
}
use cppheaders.Archive.Msgpack.Reader.Types.{between, calc_num_break_scope}

-- `while (nbrk--) { _break_scope(); }`
unfoldable pub times : ℕ → Run Reader (Unit {0}) → Run Reader (Unit {0})
times zero m = pure tt
times (suc n) m = do m; times n m

-- `end_object` and `end_array`, with `break_scope` given
unfoldable pub end_scope : Run Reader (Unit {0}) → ScopeKind → Key → Run Reader (Unit {0})
unfolding calc_num_break_scope times
end_scope break_scope kind key = do n ← calc_num_break_scope kind key; times n break_scope

-- What `_skip_once` does after its `switch`.
unfoldable pub finish_skip : ℕ → Run Reader ℕ
unfolding step_context_on_skip discard_n_bytes
finish_skip skip_bytes = do step_context_on_skip; discard_n_bytes skip_bytes; pure skip_bytes

abbrev pub is_number : ℕ → Bool
is_number t = elim (number_of t) [ other ↦ false | _ ↦ true ]

-- The capacity after a scope was pushed in a vector that holds `size` scopes with it.
abbrev pub grown : (ℕ → ℕ) → ℕ → ℕ → ℕ
grown grow cap size = if leb size cap then cap else max size (grow cap)

-- A scope was pushed in a vector of capacity `cap`, and what is left in it is skipped. `held` says that
-- the caller's loop goes on with its pointer to the scope around it.
unfoldable pub skip_inside :
    (ℕ → Run Reader (Unit {0})) → (ℕ → ℕ) → Bool → ℕ → ScopeKind → Key → Run Reader ℕ
unfolding end_scope
skip_inside break_scope grow held cap kind key r =
    let size : ℕ = length r.scope in
    (end_scope (break_scope (grown grow cap size)) kind key
        >> (require (not held || leb size cap) dangling_pointer >> pure 0))
      r

-- The `switch` of `_skip_once`; the number that is read is dropped.
unfoldable pub skip_item : (ℕ → ℕ) → (ℕ → Run Reader (Unit {0})) → Bool → ℕ → ℕ → Run Reader ℕ
unfolding typecode number_of read_number read_elem_count begin_array begin_object skip_inside
    finish_skip
skip_item grow break_scope held cap header =
    let t = typecode header in
    if is_number t
    then (read_number (λ w v. 0) 64 header >>= λ _. finish_skip 0)
    else if (t == fixstr) || between str8 (str8 + 2) t
    then (read_elem_count_str header >>= finish_skip)
    else if between bin8 (bin8 + 2) t
    then (read_elem_count_bin header >>= finish_skip)
    else if (t == fixarray) || (t == array16) || (t == array32)
    then (begin_array >>= skip_inside break_scope grow held cap type_array)
    else if (t == fixmap) || (t == map16) || (t == map32)
    then (begin_object >>= skip_inside break_scope grow held cap type_object)
    else if t == nil
    then finish_skip 1
    else if between fixext1 (fixext1 + 4) t
    then finish_skip (2 + 2 ^ (t - fixext1))
    else if between ext8 (ext8 + 2) t
    then (read_elem_count ext8 code_error 0 header >>= λ n. finish_skip ((n + 1) % 2 ^ 32))
    else throw reader_parse_failed

-- Before a key is skipped it counts as announced.
abbrev pub mark_key : ReadScope → Run Reader (Unit {0})
mark_key s = if is_key_order s then set_innermost (record s { reading_key = true }) else pure tt

-- Enough for every call: each call consumes a byte of the stream before it calls another.
abbrev pub fuel_for : Reader → ℕ
fuel_for r = 2 * length r.input + 2

-- While the pointer that `_break_scope` keeps is valid, it is to the innermost scope whenever the loop
-- tests it, since the scopes that `_skip_once` pushes are closed again. `cap` is the capacity of
-- `_scope`, at least the depth reserved.
module _ (grow : ℕ → ℕ) where
  unfoldable mutual
    unfolding skip_item scope_ref

    pub skip_once : ℕ → Bool → ℕ → Run Reader ℕ
    skip_once zero held cap = throw out_of_fuel
    skip_once (suc fuel) held cap = next_header >>= skip_item grow (break_scope fuel) held cap

    pub break_scope : ℕ → ℕ → Run Reader (Unit {0})
    break_scope zero cap = throw out_of_fuel
    break_scope (suc fuel) cap = do
      s ← scope_ref
      elim (s.elems_left == 0) [
        | true ↦ pop_back
        | false ↦ (do mark_key s; skip_once fuel true cap; break_scope fuel cap)
      ]

  -- `read(nullptr_t)`
  unfoldable pub skip : ℕ → Run Reader ℕ
  unfolding skip_once
  skip cap r = skip_once (fuel_for r) false cap r

  unfoldable pub end_object : ℕ → Key → Run Reader (Unit {0})
  unfolding end_scope break_scope
  end_object cap key r = end_scope (break_scope (fuel_for r) cap) type_object key r

  unfoldable pub end_array : ℕ → Key → Run Reader (Unit {0})
  unfolding end_scope break_scope
  end_array cap key r = end_scope (break_scope (fuel_for r) cap) type_array key r
