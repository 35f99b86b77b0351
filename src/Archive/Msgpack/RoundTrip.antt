-- ===== src/Archive/Msgpack/RoundTrip.antt =====
-- include/cpph/refl/archive/msgpack-writer.hxx, msgpack-reader.hxx: strings, arrays, objects and
-- binaries as the writer writes them, against the reader.
use cppheaders.Prelude.{
  ℕ, ◌+◌, ◌-◌, ◌*◌, ◌%◌, ◌^◌, ◌≤◌, ◌<◌, ◌≡◌, refl, ap, ap₂, ◌∙◌, true, false, List, [], ◌∷◌, ◌++◌,
  arith, ltb, lt→ltb, length, take, drop, replicate, length-append, length-take, length-replicate,
  drop_all, take-append_exact, drop-append_exact,
}
use mathlib.Core.List.{append_assoc, append-nil}
use cppheaders.Archive.Run.{
  returned, Run, ◌>>=◌, ◌>>◌, require, writer_out_of_range, >>=-returned, >>=-assoc,
}
use cppheaders.Archive.WriteContext.{
  Scope, Scopes, array, object, binary, push_array, push_object, push_binary, write_next,
  assert_value_context,
}
use cppheaders.Archive.WriteContext.Laws.{Ready, after_value, write_next-Ready}
use cppheaders.Archive.WriteContext.Sequences.{at, assert_value_context-Ready}
use cppheaders.Archive.Msgpack.Writer.{
  Writer, on_ctx, sputn, assert_32bitsize, put_str_size, write_str, array_push, object_push,
  binary_push,
}
use cppheaders.Archive.Msgpack.Reader.{
  ReadScope, ScopeKind, type_object, type_array, type_binary, next_header, read_elem_count_str,
  read_elem_count_bin, read_elem_count_map, read_elem_count_array,
}
use cppheaders.Archive.Msgpack.Reader.Scopes.{
  read_str, begin_array, begin_object, begin_binary, step_context, step_in, new_scope,
  verify_not_key_type,
}
use cppheaders.Archive.Msgpack.Numbers.{with_input}
use cppheaders.Archive.Msgpack.Integers.{on_ctx-returned}
use cppheaders.Archive.Msgpack.Headers.{
  Counts, Counted, array-Counted, object-Counted, str-Counted, bin-Counted,
}

-- What `resize` and `sgetn` make of the old content, when the stream holds the whole string.
overwritten :
    (v old : List ℕ)
    → v ++ drop (length v) (take (length v) old ++ replicate (length v - length old) 0) ≡ v
overwritten v old =
    let few : length (take (length v) old ++ replicate (length v - length old) 0) ≤ length v =
      omega (
        arith,
        length-append (take (length v) old) (replicate (length v - length old) 0),
        length-take (length v) old,
        length-replicate {A = ℕ} (length v - length old) 0,
      ) in
    ap (λ t. v ++ t) (drop_all (length v) _ few) ∙ append-nil v

-- A string is written as a header that gives its size, then its bytes.
pub write_str-Written :
    (v : List ℕ) (w : Writer)
    → length v < 2 ^ 32 - 1
    → Ready w.ctx
    → (header : List ℕ) × (write_str v w
        ≡ returned tt (record { ctx = after_value w.ctx; out = w.out ++ (header ++ v) }))
      × Counts read_elem_count_str (length v) header
unfolding write_str Counted
write_str-Written v w fits r =
    let (header, puts, counts) = str-Counted (length v) (omega arith) in
    let ok : ltb (length v) 4294967295 ≡ true = lt→ltb _ _ (omega arith) in
    (
      header,
      >>=-returned (assert_32bitsize (length v)) _ w (ap (λ b. require b writer_out_of_range w) ok)
          (>>=-returned (on_ctx write_next) _ w
            (on_ctx-returned write_next w (write_next-Ready w.ctx r).1)
            (>>=-returned (put_str_size (length v)) (λ u. sputn v)
              (record w { ctx = after_value w.ctx }) (puts (record w { ctx = after_value w.ctx }))
              (ap (λ o. returned tt (record { ctx = after_value w.ctx; out = o }))
                (append_assoc w.out header v)))),
      counts,
    )

-- Where a value is next, a string of fewer than `2 ^ 32 - 1` bytes is written as bytes from
-- which a reader outside every scope reads back the string, whatever `std::string` it reads into
-- and whatever follows.
pub write_str-read :
    (v : List ℕ) (w : Writer)
    → length v < 2 ^ 32 - 1
    → Ready w.ctx
    → (bytes : List ℕ) × (write_str v w
        ≡ returned tt (record { ctx = after_value w.ctx; out = w.out ++ bytes }))
      × ((old : List ℕ) (gen : ℕ) (rest : List ℕ)
          → read_str old (with_input [] gen (bytes ++ rest)) ≡ returned v (with_input [] gen rest))
unfolding read_str Counts step_context step_in
write_str-read v w fits r =
    let (bytes, wrote, counts) = write_str-Written v w fits r in
    (
      bytes ++ v,
      wrote,
      λ old gen rest.
          >>=-assoc read_elem_count_str _ next_header _
          ∙ >>=-returned (next_header >>= read_elem_count_str) _ _
              (ap (λ xs. (next_header >>= read_elem_count_str) (with_input [] gen xs))
                  (append_assoc bytes v rest)
                ∙ counts [] gen (v ++ rest))
              (ap₂
                  (λ got left.
                    returned
                      (got
                        ++ drop (length got)
                            (take (length v) old ++ replicate (length v - length old) 0))
                      (with_input [] gen left))
                  (take-append_exact v rest) (drop-append_exact v rest)
                ∙ ap (λ t. returned t (with_input [] gen rest)) (overwritten v old)),
    )

-- The scope that a reader outside every scope opens.
abbrev pub opened : ScopeKind → ℕ → ℕ → ReadScope
opened kind gen left = record {
  ctxkey = record { id = (gen + 1) % 2 ^ 32; index = 0 };
  kind = kind;
  elems_left = left;
  reading_key = false;
}

abbrev pub next_gen : ℕ → ℕ
next_gen gen = (gen + 1) % 2 ^ 32

pub push_put :
    (push : Run Scopes (Unit {0})) (put : Run Writer (Unit {0})) (n : ℕ) (s : Scope) (w : Writer)
    → n < 2 ^ 32 - 1
    → Ready w.ctx
    → push (after_value w.ctx) ≡ returned tt (s ∷ after_value w.ctx)
    → {bytes : List ℕ} → ((x : Writer) → put x ≡ returned tt (record x { out = x.out ++ bytes }))
    → (assert_32bitsize n >> (on_ctx write_next >> (on_ctx push >> put))) w
      ≡ returned tt (record { ctx = s ∷ after_value w.ctx; out = w.out ++ bytes })
push_put push put n s w fits r opens puts =
    let ok : ltb n 4294967295 ≡ true = lt→ltb _ _ (omega arith) in
    let after : Writer = record w { ctx = after_value w.ctx } in
    >>=-returned (assert_32bitsize n) _ w (ap (λ b. require b writer_out_of_range w) ok) (
      >>=-returned (on_ctx write_next) _ w
        (on_ctx-returned write_next w (write_next-Ready w.ctx r).1)
        (>>=-returned (on_ctx push) _ after (on_ctx-returned push after opens)
          (puts (record w { ctx = s ∷ after_value w.ctx }))))

-- Where a value is next, the header of an array of `n` elements, `n` below `2 ^ 32 - 1`, opens a
-- scope that takes `n` elements, and a reader outside every scope that meets it opens a scope
-- with `n` elements left.
pub array_push-begin_array :
    (n : ℕ) (w : Writer)
    → n < 2 ^ 32 - 1
    → Ready w.ctx
    → (bytes : List ℕ) × (array_push n w
        ≡ returned tt (record { ctx = at array 0 n ∷ after_value w.ctx; out = w.out ++ bytes }))
      × ((gen : ℕ) (rest : List ℕ)
          → begin_array (with_input [] gen (bytes ++ rest))
            ≡ returned
                (opened type_array gen n).ctxkey
                (with_input (opened type_array gen n ∷ []) (next_gen gen) rest))
unfolding array_push begin_array Counted Counts step_context step_in new_scope verify_not_key_type
    push_array
array_push-begin_array n w fits r =
    let (bytes, puts, counts) = array-Counted n (omega arith) in
    (
      bytes,
      push_put (push_array n) _ n (at array 0 n) w fits r
          (>>=-returned assert_value_context _ (after_value w.ctx)
            (assert_value_context-Ready w.ctx r) refl)
          puts,
      λ gen rest.
          >>=-assoc read_elem_count_array _ next_header _
          ∙ >>=-returned (next_header >>= read_elem_count_array) _ _ (counts [] gen rest) refl,
    )

-- Where a value is next, the header of an object of `n` pairs, `n` below `2 ^ 31`, opens a scope
-- that takes `n` keys and `n` values, and a reader outside every scope that meets it opens a
-- scope with twice `n` elements left.
pub object_push-begin_object :
    (n : ℕ) (w : Writer)
    → n < 2 ^ 31
    → Ready w.ctx
    → (bytes : List ℕ) × (object_push n w
        ≡ returned tt
            (record { ctx = at object 0 (n * 2) ∷ after_value w.ctx; out = w.out ++ bytes }))
      × ((gen : ℕ) (rest : List ℕ)
          → begin_object (with_input [] gen (bytes ++ rest))
            ≡ returned
                (opened type_object gen (n * 2)).ctxkey
                (with_input (opened type_object gen (n * 2) ∷ []) (next_gen gen) rest))
unfolding object_push begin_object Counted Counts step_context step_in new_scope verify_not_key_type
    push_object
object_push-begin_object n w fits r =
    let (bytes, puts, counts) = object-Counted n (omega arith) in
    (
      bytes,
      push_put (push_object n) _ n (at object 0 (n * 2)) w (omega arith) r
          (>>=-returned assert_value_context _ (after_value w.ctx)
            (assert_value_context-Ready w.ctx r)
            (ap (λ c. returned tt (at object 0 c ∷ after_value w.ctx)) {x = n * 2 % 2 ^ 64}
              {y = n * 2} (omega arith)))
          puts,
      λ gen rest.
          >>=-assoc read_elem_count_map _ next_header _
          ∙ >>=-returned (next_header >>= read_elem_count_map) _ _ (counts [] gen rest) (
              ap
                (λ c.
                  returned (opened type_object gen c).ctxkey
                    (with_input (opened type_object gen c ∷ []) (next_gen gen) rest))
                {x = n * 2 % 2 ^ 32} {y = n * 2} (omega arith)),
    )

-- Where a value is next, the header of a binary of `n` bytes, `n` below `2 ^ 32 - 1`, opens a
-- scope that takes `n` bytes, and a reader outside every scope that meets it opens a scope with
-- `n` bytes left.
pub binary_push-begin_binary :
    (n : ℕ) (w : Writer)
    → n < 2 ^ 32 - 1
    → Ready w.ctx
    → (bytes : List ℕ) × (binary_push n w
        ≡ returned tt (record { ctx = at binary 0 n ∷ after_value w.ctx; out = w.out ++ bytes }))
      × ((gen : ℕ) (rest : List ℕ)
          → begin_binary (with_input [] gen (bytes ++ rest))
            ≡ returned n (with_input (opened type_binary gen n ∷ []) (next_gen gen) rest))
unfolding binary_push begin_binary Counted Counts step_context step_in new_scope push_binary
binary_push-begin_binary n w fits r =
    let (bytes, puts, counts) = bin-Counted n (omega arith) in
    (
      bytes,
      push_put (push_binary n) _ n (at binary 0 n) w fits r refl puts,
      λ gen rest.
          >>=-assoc read_elem_count_bin _ next_header _
          ∙ >>=-returned (next_header >>= read_elem_count_bin) _ _ (counts [] gen rest) refl,
    )
