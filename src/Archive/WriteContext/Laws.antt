-- ===== src/Archive/WriteContext/Laws.antt =====
-- include/cpph/refl/archive/detail/context_helper.hxx: where a value can be written, and what a
-- scope has taken when it is closed.
use cppheaders.Prelude.{
  ◌∙◌, ℕ, ◌+◌, ◌/◌, ◌%◌, ◌^◌, ◌<◌, ◌≡◌, refl, ap, Bool, true, false, not, [], ◌∷◌, arith, ltb, leb,
  ◌==◌, le→leb, if◌then◌else◌,
}
use cppheaders.Archive.Run.{
  writer_invalid_state, writer_out_of_range, returned, thrown, ◌>>◌, pure, >>=-returned, >>=-thrown,
}
use cppheaders.Archive.WriteContext.{
  ScopeType, object, array, binary, is_object, set_top, Scope, Scopes, is_key_current, top,
  write_value_next, write_next_in, write_next, WriteDirective, directive, assert_top_finished,
  pop_array, pop_object, pop_binary,
}

-- A scope in which a value is next: an object that has a key without its value, an array, or a
-- binary; and there is room for the value.
unfoldable pub ReadyIn : ScopeType → Scope → Type 0
ReadyIn object e = (e.key_ready ≡ false) × (e.size % 2 ≡ 1)
ReadyIn array e = Unit {0}
ReadyIn binary e = Unit {0}

unfoldable pub Ready : Scopes → Type 0
Ready [] = Unit {0}
Ready (e ∷ rest) = ReadyIn e.type e × (e.size < e.capacity) × (e.capacity < 2 ^ 64)

-- The scope after one more value.
abbrev pub one_more : Scope → Scope
one_more e = record e { size = e.size + 1 }

abbrev pub after_value : Scopes → Scopes
after_value [] = []
after_value (e ∷ rest) = one_more e ∷ rest

abbrev pub comma_of : Scope → Bool
comma_of e = if is_object e.type then false else ltb 0 e.size

write_value_next-ready :
    (e : Scope) (rest : Scopes)
    → e.size < e.capacity
    → e.capacity < 2 ^ 64
    → write_value_next (e ∷ rest) ≡ returned (comma_of e) (one_more e ∷ rest)
unfolding write_value_next
write_value_next-ready e rest room fits =
    let n : (e.size + 1) % 2 ^ 64 ≡ e.size + 1 = omega arith in
    let ok : leb (e.size + 1) e.capacity ≡ true = le→leb _ _ (omega arith) in rw (n, ok) refl

write_next_in-element :
    (e : Scope) (rest : Scopes)
    → is_object e.type ≡ false
    → e.size < e.capacity
    → e.capacity < 2 ^ 64
    → write_next_in e (e ∷ rest)
      ≡ returned (directive false (comma_of e) (not (is_object e.type))) (one_more e ∷ rest)
unfolding write_next_in
write_next_in-element e rest h room fits =
    let step : write_value_next (e ∷ rest) ≡ returned (ltb 0 e.size) (one_more e ∷ rest) =
      write_value_next-ready e rest room fits
      ∙ ap (λ b. returned (if b then false else ltb 0 e.size) (one_more e ∷ rest)) h in
    rw h (
      >>=-returned write_value_next (λ comma. pure (directive false comma true)) (e ∷ rest) step
        refl)

write_next_in-ready :
    (t : ScopeType) (e : Scope) (rest : Scopes)
    → e.type ≡ t
    → ReadyIn t e
    → e.size < e.capacity
    → e.capacity < 2 ^ 64
    → write_next_in e (e ∷ rest)
      ≡ returned (directive false (comma_of e) (not (is_object e.type))) (one_more e ∷ rest)
unfolding write_next_in is_key_current ReadyIn
write_next_in-ready object e rest h (not_ready, odd) room fits =
    let o : (e.size % 2 == 1) ≡ true = ground arith in
    rw (ap is_object h, o)
      (ap
          (λ b.
            (if b
                then (set_top (record e { key_ready = false })
                    >> pure (directive true (ltb 2 e.size) true))
                else (write_value_next >> pure (directive false false false)))
              (e ∷ rest))
          not_ready
        ∙ >>=-returned write_value_next _ (e ∷ rest) (write_value_next-ready e rest room fits) refl)
write_next_in-ready array e rest h r room fits =
    write_next_in-element e rest (ap is_object h) room fits
write_next_in-ready binary e rest h r room fits =
    write_next_in-element e rest (ap is_object h) room fits

abbrev pub needs_comma : Scopes → Bool
needs_comma [] = false
needs_comma (e ∷ rest) = comma_of e

abbrev pub needs_indent : Scopes → Bool
needs_indent [] = false
needs_indent (e ∷ rest) = not (is_object e.type)

-- Where a value is next, `write_next` asks for a comma behind another element of an array or of a
-- binary, and for a line of its own in them.
pub write_next-value :
    (s : Scopes)
    → Ready s
    → write_next s ≡ returned (directive false (needs_comma s) (needs_indent s)) (after_value s)
unfolding write_next Ready
write_next-value [] r = refl
write_next-value (e ∷ rest) (r, room, fits) = write_next_in-ready e.type e rest refl r room fits

-- Where a value is next, `write_next` writes it: it counts one element more, no other scope changes,
-- and it does not say that a key was written.
pub write_next-Ready :
    (s : Scopes)
    → Ready s
    → (d : WriteDirective) × (write_next s ≡ returned d (after_value s)) × (d.is_key ≡ false)
write_next-Ready s r = (_, write_next-value s r, refl)

-- A call of `pop_array` that returns `n` closes a scope that was announced with `n` elements and took
-- `n`, and leaves the scopes around it.
pub pop_array_exact :
    (s t : Scopes) (n : ℕ)
    → pop_array s ≡ returned n t
    → (e : Scope) × (s ≡ e ∷ t) × (e.size ≡ n) × (e.capacity ≡ n)
unfolding pop_array assert_top_finished top
pop_array_exact [] t n h = ground arith
pop_array_exact (e ∷ rest) t n h =
    (e, ap (λ t. e ∷ t) {x = rest} {y = t} (ground arith), ground arith, ground arith)

-- A call of `pop_object` that returns `n` closes a scope whose size is its capacity, and `n` is half
-- of it.
pub pop_object_exact :
    (s t : Scopes) (n : ℕ)
    → pop_object s ≡ returned n t
    → (e : Scope) × (s ≡ e ∷ t) × (e.size / 2 ≡ n) × (e.capacity ≡ e.size)
unfolding pop_object assert_top_finished top
pop_object_exact [] t n h = ground arith
pop_object_exact (e ∷ rest) t n h =
    (e, ap (λ t. e ∷ t) {x = rest} {y = t} (ground arith), ground arith, ground arith)

pub pop_array_done :
    (e : Scope) (rest : Scopes) → e.size ≡ e.capacity → pop_array (e ∷ rest) ≡ returned e.size rest
unfolding pop_array assert_top_finished top
pop_array_done e rest h = ground arith

pub pop_object_done :
    (e : Scope) (rest : Scopes)
    → e.size ≡ e.capacity
    → pop_object (e ∷ rest) ≡ returned (e.size / 2) rest
unfolding pop_object assert_top_finished top
pop_object_done e rest h = ground arith

-- A scope that still has room for elements is closed by none of the three calls: each throws
-- `writer_invalid_state` and changes nothing.
pub pop_array_unfinished :
    (e : Scope) (rest : Scopes)
    → e.size < e.capacity
    → (pop_array (e ∷ rest) ≡ thrown writer_invalid_state (e ∷ rest))
      × (pop_object (e ∷ rest) ≡ thrown writer_invalid_state (e ∷ rest))
      × (pop_binary (e ∷ rest) ≡ thrown writer_invalid_state (e ∷ rest))
unfolding pop_array pop_object pop_binary assert_top_finished top
pop_array_unfinished e rest h = (ground arith, ground arith, ground arith)

-- Where an array has taken as many elements as it announced, fewer than `2 ^ 64 - 1`,
-- `write_next` throws `writer_out_of_range` with the count already increased, and then
-- `pop_array` throws the same.
pub write_next_full :
    (e : Scope) (rest : Scopes)
    → e.type ≡ array
    → e.size ≡ e.capacity
    → e.capacity + 1 < 2 ^ 64
    → (write_next (e ∷ rest) ≡ thrown writer_out_of_range (one_more e ∷ rest))
      × (pop_array (one_more e ∷ rest) ≡ thrown writer_out_of_range (one_more e ∷ rest))
unfolding write_next write_next_in write_value_next pop_array assert_top_finished top
write_next_full e rest h full fits =
    let n : (e.size + 1) % 2 ^ 64 ≡ e.size + 1 = omega arith in
    let no : leb (e.size + 1) e.capacity ≡ false = ground arith in
    let value : write_value_next (e ∷ rest) ≡ thrown writer_out_of_range (one_more e ∷ rest) =
      rw (n, no) refl in
    (rw (ap is_object h) (>>=-thrown write_value_next _ (e ∷ rest) value), ground arith)
