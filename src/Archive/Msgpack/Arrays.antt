-- ===== src/Archive/Msgpack/Arrays.antt =====
-- include/cpph/refl/archive/msgpack-writer.hxx, msgpack-reader.hxx: a whole array of integers, from
-- its header to its end.
use cppheaders.Prelude.{
  ℕ, zero, suc, ◌+◌, ◌-◌, ◌^◌, ◌≤◌, ◌<◌, ◌≡◌, refl, ap, ap₂, sym, ◌∙◌, false, List, [], ◌∷◌, ◌++◌,
  arith, ◌==◌, length,
}
use mathlib.Core.List.{append_assoc, append-nil}
use cppheaders.Archive.Run.{returned, Run, ◌>>=◌, ◌>>◌, pure, >>=-returned, >>=-assoc}
use cppheaders.Archive.WriteContext.{Scopes, array, pop_array}
use cppheaders.Archive.WriteContext.Laws.{Ready, ReadyIn, after_value, pop_array_done}
use cppheaders.Archive.WriteContext.Sequences.{at}
use cppheaders.Archive.Msgpack.Writer.{Writer, on_ctx, write_int, array_push, array_pop}
use cppheaders.Archive.Msgpack.Reader.{Reader, ReadScope, Key, type_array, next_header, read_number}
use cppheaders.Archive.Msgpack.Reader.Scopes.{quick_get_num, begin_array, step_context, step_in}
use cppheaders.Archive.Msgpack.Numbers.{with_input, Reads}
use cppheaders.Archive.Msgpack.Integers.{write_int-read, on_ctx-returned}
use cppheaders.Archive.Msgpack.RoundTrip.{array_push-begin_array, opened, next_gen}

unfoldable pub write_ints : List ℕ → Run Writer (Unit {0})
write_ints [] = pure tt
write_ints (v ∷ vs) = do write_int v; write_ints vs

-- `n` calls of `read(int64_t&)`
unfoldable pub read_ints : (ℕ → ℕ → ℕ) → ℕ → Run Reader (List ℕ)
read_ints f zero = pure []
read_ints f (suc n) = do v ← quick_get_num f 64; vs ← read_ints f n; pure (v ∷ vs)

unfoldable pub AllFit : List ℕ → Type 0
AllFit [] = Unit {0}
AllFit (v ∷ vs) = (v < 2 ^ 64) × AllFit vs

abbrev in_array : Key → ℕ → ReadScope
in_array k n = record { ctxkey = k; kind = type_array; elems_left = n; reading_key = false }

step_context-array :
    (k : Key) (n : ℕ) (scopes : List ReadScope) (gen : ℕ) (rest : List ℕ)
    → step_context (with_input (in_array k (suc n) ∷ scopes) gen rest)
      ≡ returned tt (with_input (in_array k n ∷ scopes) gen rest)
unfolding step_context step_in
step_context-array k n scopes gen rest =
    let no : (suc n == 0) ≡ false = ground arith in
    let one : suc n - 1 ≡ n = omega arith in rw (no, one) refl

quick_get_num-array :
    (f : ℕ → ℕ → ℕ) (v : ℕ) (bytes : List ℕ) (k : Key) (n : ℕ) (scopes : List ReadScope) (gen : ℕ)
    (rest : List ℕ)
    → Reads v bytes
    → quick_get_num f 64 (with_input (in_array k (suc n) ∷ scopes) gen (bytes ++ rest))
      ≡ returned v (with_input (in_array k n ∷ scopes) gen rest)
unfolding quick_get_num Reads
quick_get_num-array f v bytes k n scopes gen rest reads =
    let before : Reader = with_input (in_array k (suc n) ∷ scopes) gen (bytes ++ rest) in
    let counted : ℕ → Run Reader ℕ = λ x. step_context >> pure x in
    >>=-assoc (read_number f 64) counted next_header before
    ∙ >>=-returned (next_header >>= read_number f 64) counted before
        (reads f (in_array k (suc n) ∷ scopes) gen rest)
        (>>=-returned step_context (λ u. pure v) (with_input (in_array k (suc n) ∷ scopes) gen rest)
          (step_context-array k n scopes gen rest) refl)

-- Inside an array with room for them, integers are written one after another, and are read back in
-- that order where as many elements are left.
write_ints-read_ints :
    (vs : List ℕ) (i n : ℕ) (cs : Scopes) (out : List ℕ)
    → AllFit vs
    → i + length vs ≤ n
    → n < 2 ^ 64
    → (bytes : List ℕ) × (write_ints vs (record { ctx = at array i n ∷ cs; out = out })
        ≡ returned tt (record { ctx = at array (i + length vs) n ∷ cs; out = out ++ bytes }))
      × ((f : ℕ → ℕ → ℕ) (k : Key) (scopes : List ReadScope) (gen : ℕ) (rest : List ℕ)
          → read_ints f
              (length vs)
              (with_input (in_array k (length vs) ∷ scopes) gen (bytes ++ rest))
            ≡ returned vs (with_input (in_array k 0 ∷ scopes) gen rest))
unfolding write_ints read_ints AllFit Ready ReadyIn
write_ints-read_ints [] i n cs out fit room small = (
  [],
  ap₂ (λ j o. returned tt (record { ctx = at array j n ∷ cs; out = o })) {x = i} {y = i + 0}
      (omega arith) (sym (append-nil out)),
  λ f k scopes gen rest. refl,
)
write_ints-read_ints (v ∷ vs) i n cs out (fit, fits) room small =
    let (bytes, wrote, reads) =
      write_int-read v (record { ctx = at array i n ∷ cs; out = out }) fit
        (tt, omega arith, small) in
    let (more, wrote_more, reads_more) =
      write_ints-read_ints vs (i + 1) n cs (out ++ bytes) fits (omega arith) small in
    (
      bytes ++ more,
      >>=-returned (write_int v) _ _ wrote (
          wrote_more
          ∙ ap₂ (λ j o. returned tt (record { ctx = at array j n ∷ cs; out = o }))
              {x = i + 1 + length vs} {y = i + suc (length vs)} (omega arith)
              (append_assoc out bytes more)),
      λ f k scopes gen rest.
          ap
            (λ xs.
              read_ints f (suc (length vs))
                (with_input (in_array k (suc (length vs)) ∷ scopes) gen xs))
            (append_assoc bytes more rest)
          ∙ >>=-returned (quick_get_num f 64) _ _
              (quick_get_num-array f v bytes k (length vs) scopes gen (more ++ rest) reads)
              (>>=-returned (read_ints f (length vs)) _ _ (reads_more f k scopes gen rest) refl),
    )

-- Where a value is next, an array of fewer than `2 ^ 32 - 1` integers of 64 bits is written
-- without a throw and closed, it counts as one element of the enclosing scope, and a reader
-- outside every scope reads the same integers from its bytes, in the same order, whatever
-- follows them; then no element is left.
pub write_array-read_array :
    (vs : List ℕ) (w : Writer)
    → AllFit vs
    → length vs < 2 ^ 32 - 1
    → Ready w.ctx
    → (bytes : List ℕ) × ((array_push (length vs) >> (write_ints vs >> array_pop)) w
        ≡ returned tt (record { ctx = after_value w.ctx; out = w.out ++ bytes }))
      × ((f : ℕ → ℕ → ℕ) (gen : ℕ) (rest : List ℕ)
          → (begin_array >> read_ints f (length vs)) (with_input [] gen (bytes ++ rest))
            ≡ returned vs (with_input (opened type_array gen 0 ∷ []) (next_gen gen) rest))
unfolding array_pop
write_array-read_array vs w fit small r =
    let (header, pushed, began) = array_push-begin_array (length vs) w small r in
    let (bytes, wrote, reads) =
      write_ints-read_ints vs 0 (length vs) (after_value w.ctx) (w.out ++ header) fit (omega arith)
        (omega arith) in
    let done : pop_array (at array (0 + length vs) (length vs) ∷ after_value w.ctx)
        ≡ returned (0 + length vs) (after_value w.ctx) =
      pop_array_done (at array (0 + length vs) (length vs)) (after_value w.ctx) (omega arith) in
    let closing : Writer = record {
      ctx = at array (0 + length vs) (length vs) ∷ after_value w.ctx;
      out = w.out ++ header ++ bytes;
    } in
    (
      header ++ bytes,
      >>=-returned (array_push (length vs)) _ w pushed (
          >>=-returned (write_ints vs) _ _ wrote (
            >>=-returned (on_ctx pop_array) _ closing (on_ctx-returned pop_array closing done) (
              ap (λ o. returned tt (record { ctx = after_value w.ctx; out = o }))
                (append_assoc w.out header bytes)))),
      λ f gen rest.
          ap (λ xs. (begin_array >> read_ints f (length vs)) (with_input [] gen xs))
            (append_assoc header bytes rest)
          ∙ >>=-returned begin_array _ _ (began gen (bytes ++ rest))
              (reads f (opened type_array gen 0).ctxkey [] (next_gen gen) rest),
    )
