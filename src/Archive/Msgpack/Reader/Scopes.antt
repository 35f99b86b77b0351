-- ===== src/Archive/Msgpack/Reader/Scopes.antt =====
-- include/cpph/refl/archive/msgpack-reader.hxx: the scopes of a `reader`, and the methods that read a
-- value and count it in the innermost scope.
use cppheaders.Prelude.{
  ℕ, zero, suc, ◌+◌, ◌-◌, ◌*◌, ◌%◌, ◌^◌, min, Bool, true, false, not, ◌&&◌, ◌||◌, List, [], ◌∷◌,
  ◌++◌, ◌==◌, if◌then◌else◌, length, take, drop, replicate,
}
use cppheaders.Archive.Run.{
  reader_check_failed, reader_invalid_context, reader_unexpected_end_of_file, returned, thrown, Run,
  ◌>>=◌, ◌>>◌, pure, require,
}
use cppheaders.Archive.Msgpack.Reader.{
  ScopeKind, type_object, type_array, type_binary, Key, ReadScope, Reader, same_kind, next_header,
  sgetn, read_number, read_elem_count_str, read_elem_count_bin, read_elem_count_map,
  read_elem_count_array,
}

abbrev pub is_object : ReadScope → Bool
is_object s = same_kind s.kind type_object

-- An object of which a key is next.
abbrev pub is_key_order : ReadScope → Bool
is_key_order s = is_object s && (s.elems_left % 2 == 0)

abbrev pub set_scopes : List ReadScope → Run Reader (Unit {0})
set_scopes scopes r = returned tt (record r { scope = scopes })

-- `elems_left--` of a `uint32_t`
abbrev pub decrement : ℕ → ℕ
decrement n = if n == 0 then 4294967295 else n - 1

-- `_step_context` with the scopes given
unfoldable pub step_in : List ReadScope → Run Reader (Unit {0})
step_in [] = pure tt
step_in (s ∷ rest) = do
  require (not (same_kind s.kind type_binary)) reader_check_failed
  require (not (is_key_order s) || s.reading_key) reader_check_failed
  set_scopes (
      record s {
        reading_key = if is_key_order s then false else s.reading_key;
        elems_left = decrement s.elems_left;
      }
      ∷ rest)
  require (not (s.elems_left == 0)) reader_check_failed

unfoldable pub step_context : Run Reader (Unit {0})
unfolding step_in
step_context r = step_in r.scope r

-- `_step_context_on_skip`
unfoldable pub step_context_on_skip : Run Reader (Unit {0})
step_context_on_skip r = elim r.scope [
  | [] ↦ returned tt r
  | s ∷ rest ↦
      (set_scopes (record s { elems_left = decrement s.elems_left } ∷ rest)
          >> require (not (s.elems_left == 0)) reader_check_failed)
        r
]

-- `_verify_not_key_type`
unfoldable pub verify_not_key_type : Run Reader (Unit {0})
verify_not_key_type r = elim r.scope [
  | [] ↦ returned tt r
  | s ∷ rest ↦
      (require (not (is_key_order s)) reader_check_failed
          >> require (not (is_object s) || not s.reading_key) reader_check_failed)
        r
]

-- Without what the base class clears.
unfoldable pub clear : Run Reader (Unit {0})
clear r = returned tt (record r { scope = []; scope_key_gen = 0 })

-- `_scope_ref`
unfoldable pub scope_ref : Run Reader ReadScope
scope_ref r = elim r.scope [ [] ↦ thrown reader_check_failed r | s ∷ rest ↦ returned s r ]

-- `_verify_scope`
unfoldable pub verify_scope : ScopeKind → Run Reader ReadScope
unfolding scope_ref
verify_scope kind = do s ← scope_ref; require (same_kind s.kind kind) reader_check_failed; pure s

-- `_new_scope`
unfoldable pub new_scope : ScopeKind → ℕ → Run Reader Key
new_scope kind n r =
    let gen : ℕ = (r.scope_key_gen + 1) % 2 ^ 32 in
    let key : Key = record { id = gen; index = length r.scope % 2 ^ 32 } in
    let left : ℕ = if same_kind kind type_object then n * 2 % 2 ^ 32 else n in
    let s : ReadScope = record {
      ctxkey = key;
      kind = kind;
      elems_left = left;
      reading_key = false;
    } in
    returned key (record r { scope = s ∷ r.scope; scope_key_gen = gen })

-- The innermost scope is replaced.
abbrev pub set_innermost : ReadScope → Run Reader (Unit {0})
set_innermost s r = elim r.scope [
  | [] ↦ returned tt r
  | old ∷ rest ↦ returned tt (record r { scope = s ∷ rest })
]

abbrev pub pop_back : Run Reader (Unit {0})
pop_back r = elim r.scope [
  | [] ↦ returned tt r
  | s ∷ rest ↦ returned tt (record r { scope = rest })
]

-- `_discard_n_bytes` reads at most 256 bytes at a time, so `bytes` rounds are enough.
unfoldable pub discard_rounds : ℕ → ℕ → Run Reader (Unit {0})
discard_rounds zero bytes = pure tt
discard_rounds (suc fuel) bytes = if bytes == 0 then pure tt else (do
  buf ← sgetn (min 256 bytes)
  require (length buf == min 256 bytes) reader_unexpected_end_of_file
  discard_rounds fuel (bytes - min 256 bytes))

unfoldable pub discard_n_bytes : ℕ → Run Reader (Unit {0})
unfolding discard_rounds
discard_n_bytes bytes = discard_rounds bytes bytes

-- `_quick_get_num` of an integer of `bits` bits
unfoldable pub quick_get_num : (ℕ → ℕ → ℕ) → ℕ → Run Reader ℕ
unfolding read_number step_context
quick_get_num from_float bits = do
  header ← next_header
  v ← read_number from_float bits header
  step_context
  pure v

-- `read(bool&)`: whether the number is not zero; `from_float` is 0 of a zero.
unfoldable pub read_bool : (ℕ → ℕ → ℕ) → Run Reader Bool
unfolding read_number step_context
read_bool from_float = do
  header ← next_header
  v ← read_number from_float 64 header
  step_context
  pure (not (v == 0))

-- `v` is the content of the string before: `resize` keeps its bytes, or adds zeros, and `sgetn`
-- overwrites as many as the stream holds.
unfoldable pub read_str : List ℕ → Run Reader (List ℕ)
unfolding step_context
read_str v = do
  header ← next_header
  buflen ← read_elem_count_str header
  step_context
  got ← sgetn buflen
  pure (got ++ drop (length got) (take buflen v ++ replicate (buflen - length v) 0))

unfoldable pub begin_object : Run Reader Key
unfolding verify_not_key_type step_context new_scope
begin_object = do
  verify_not_key_type
  header ← next_header
  n_elem ← read_elem_count_map header
  step_context
  new_scope type_object n_elem

unfoldable pub begin_array : Run Reader Key
unfolding verify_not_key_type step_context new_scope
begin_array = do
  verify_not_key_type
  header ← next_header
  n_elem ← read_elem_count_array header
  step_context
  new_scope type_array n_elem

unfoldable pub begin_binary : Run Reader ℕ
unfolding step_context new_scope
begin_binary = do
  header ← next_header
  buflen ← read_elem_count_bin header
  step_context
  new_scope type_binary buflen
  pure buflen

unfoldable pub binary_read_some : ℕ → Run Reader (List ℕ)
unfolding verify_scope
binary_read_some size = do
  s ← verify_scope type_binary
  let n_read = min (size % 2 ^ 32) s.elems_left
  got ← sgetn n_read
  require (length got == n_read) reader_unexpected_end_of_file
  set_innermost (record s { elems_left = s.elems_left - n_read })
  pure got

unfoldable pub end_binary : Run Reader (Unit {0})
unfolding verify_scope discard_n_bytes
end_binary = do s ← verify_scope type_binary; discard_n_bytes s.elems_left; pop_back

unfoldable pub read_key_next : Run Reader (Unit {0})
unfolding verify_scope
read_key_next = do
  s ← verify_scope type_object
  require (s.elems_left % 2 == 0) reader_invalid_context
  require (not s.reading_key) reader_invalid_context
  set_innermost (record s { reading_key = true })

unfoldable pub elem_left : Run Reader ℕ
unfolding scope_ref
elem_left = do s ← scope_ref; pure s.elems_left
