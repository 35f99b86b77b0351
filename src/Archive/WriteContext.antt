-- ===== src/Archive/WriteContext.antt =====
-- include/cpph/refl/archive/detail/context_helper.hxx: `write_context_helper`, which checks that
-- the calls of a writer form nested objects, arrays and binaries of the sizes announced. `size` and
-- `capacity` are `size_t`.
pub mod Laws
pub mod Sequences
pub mod Tests
use cppheaders.Prelude.{
  ℕ, zero, suc, ◌+◌, ◌-◌, ◌*◌, ◌/◌, ◌%◌, ◌^◌, Bool, true, false, not, ◌&&◌, Option, none, some,
  List, [], ◌∷◌, ltb, leb, ◌==◌, if◌then◌else◌, length,
}
use cppheaders.Archive.Run.{
  Error, writer_invalid_state, writer_out_of_range, Outcome, returned, thrown, Run, ◌>>=◌, ◌>>◌,
  pure, put, throw, require,
}

pub data ScopeType : Type 0 where
  object array binary : ScopeType

-- `scoped_context_t`
pub record Scope : Type 0 where
  pub type : ScopeType
  pub key_ready : Bool
  pub size : ℕ
  pub capacity : ℕ

-- The innermost scope is the first of the list, the last of the vector.
abbrev pub Scopes : Type 0
Scopes = List Scope

abbrev pub is_object : ScopeType → Bool
is_object object = true
is_object _ = false

unfoldable pub is_key_next : Scope → Bool
is_key_next s = if is_object s.type then s.size % 2 == 0 else false

unfoldable pub is_key_current : Scope → Bool
is_key_current s = if is_object s.type then s.size % 2 == 1 else false

-- `++elem->size` on 64 bits
abbrev pub add_size : ℕ → ℕ → ℕ
add_size n m = (n + m) % 2 ^ 64

-- `_scopes.back()`, where the vector is not empty.
unfoldable pub top : Run Scopes Scope
top [] = thrown writer_invalid_state []
top (s ∷ rest) = returned s (s ∷ rest)

abbrev pub set_top : Scope → Run Scopes (Unit {0})
set_top t [] = returned tt []
set_top t (s ∷ rest) = returned tt (t ∷ rest)

abbrev pub push_scope : Scope → Run Scopes (Unit {0})
push_scope t scopes = returned tt (t ∷ scopes)

abbrev pub pop_scope : Run Scopes (Unit {0})
pop_scope [] = returned tt []
pop_scope (s ∷ rest) = returned tt rest

unfoldable pub no_scope : Scopes → Bool
no_scope [] = true
no_scope (s ∷ rest) = false

unfoldable pub depth : Scopes → ℕ
depth scopes = length scopes

unfoldable pub clear : Run Scopes (Unit {0})
clear = put []

-- `_assert_scope_size_valid`
abbrev pub assert_size_valid : Scope → Run Scopes (Unit {0})
assert_size_valid s = require (leb s.size s.capacity) writer_out_of_range

-- The result says whether a comma is required.
unfoldable pub write_key_next : Run Scopes Bool
unfolding top is_key_next
write_key_next = do
  elem ← top
  require (is_key_next elem) writer_invalid_state
  let elem' = record elem { size = add_size elem.size 1; key_ready = true }
  set_top elem'
  assert_size_valid elem'
  pure (ltb 0 elem.size)

-- `_write_value_next`
unfoldable pub write_value_next : Run Scopes Bool
write_value_next [] = returned false []
write_value_next (elem ∷ rest) =
    (do
      let elem' = record elem { size = add_size elem.size 1 }
      set_top elem'
      assert_size_valid elem'
      pure (if is_object elem.type then false else ltb 0 elem.size))
      (elem ∷ rest)

pub record WriteDirective : Type 0 where
  pub is_key : Bool
  pub need_comma : Bool
  pub need_indent : Bool

abbrev pub directive : Bool → Bool → Bool → WriteDirective
directive k c i = record { is_key = k; need_comma = c; need_indent = i }

-- `write_next` with `elem` the innermost scope.
unfoldable pub write_next_in : Scope → Run Scopes WriteDirective
unfolding write_value_next is_key_current
write_next_in elem =
    if not (is_object elem.type)
    then (do comma ← write_value_next; pure (directive false comma true))
    else if is_key_current elem
    then (if elem.key_ready
        then (do
          set_top (record elem { key_ready = false })
          pure (directive true (ltb 2 elem.size) true))
        else (do write_value_next; pure (directive false false false)))
    else throw writer_invalid_state

unfoldable pub write_next : Run Scopes WriteDirective
unfolding write_next_in
write_next [] = returned (directive false false false) []
write_next (elem ∷ rest) = write_next_in elem (elem ∷ rest)

unfoldable pub is_key_context : Scopes → Bool
unfolding is_key_current
is_key_context [] = false
is_key_context (elem ∷ rest) = if not (is_object elem.type) then false else is_key_current elem

-- `_assert_value_context`
unfoldable pub assert_value_context : Run Scopes (Unit {0})
unfolding is_key_current
assert_value_context [] = returned tt []
assert_value_context (elem ∷ rest) =
    require (not (is_key_current elem)) writer_invalid_state (elem ∷ rest)

abbrev pub fresh_scope : ScopeType → ℕ → Scope
fresh_scope t n = record { type = t; key_ready = false; size = 0; capacity = n }

unfoldable pub push_array : ℕ → Run Scopes (Unit {0})
unfolding assert_value_context
push_array n = do assert_value_context; push_scope (fresh_scope array n)

unfoldable pub push_object : ℕ → Run Scopes (Unit {0})
unfolding assert_value_context
push_object n = do assert_value_context; push_scope (fresh_scope object (n * 2 % 2 ^ 64))

unfoldable pub push_binary : ℕ → Run Scopes (Unit {0})
push_binary n = push_scope (fresh_scope binary n)

unfoldable pub binary_write_some : ℕ → Run Scopes (Unit {0})
unfolding top
binary_write_some n = do
  elem ← top
  let elem' = record elem { size = add_size elem.size n }
  set_top elem'
  assert_size_valid elem'

-- `_assert_top_scope_finished` does not look at the type that it is given.
unfoldable pub assert_top_finished : ScopeType → Run Scopes (Unit {0})
unfolding top
assert_top_finished t = do
  elem ← top
  assert_size_valid elem
  require (not (ltb elem.size elem.capacity)) writer_invalid_state

unfoldable pub pop_array : Run Scopes ℕ
unfolding assert_top_finished top
pop_array = do assert_top_finished array; elem ← top; pop_scope; pure elem.size

unfoldable pub pop_object : Run Scopes ℕ
unfolding assert_top_finished top
pop_object = do assert_top_finished object; elem ← top; pop_scope; pure (elem.size / 2)

unfoldable pub pop_binary : Run Scopes ℕ
unfolding assert_top_finished top
pop_binary = do assert_top_finished binary; elem ← top; pop_scope; pure elem.size
