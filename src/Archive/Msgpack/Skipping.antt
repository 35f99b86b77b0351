-- ===== src/Archive/Msgpack/Skipping.antt =====
-- include/cpph/refl/archive/msgpack-writer.hxx, msgpack-reader.hxx: a document that the writer wrote is
-- skipped as a whole.
use cppheaders.Prelude.{
  false, true, max, ℕ, suc, ◌+◌, ◌-◌, ◌*◌, ◌^◌, ◌≤◌, ◌<◌, ◌≡◌, refl, ap, ap₂, sym, ◌∙◌, List, [],
  ◌∷◌, ◌++◌, arith, length,
}
use mathlib.Core.List.{append_assoc, append-nil}
use cppheaders.Archive.Run.{returned, >>=-returned}
use cppheaders.Archive.WriteContext.{
  Scopes, array, write_next, push_array, pop_array, assert_value_context,
}
use cppheaders.Archive.WriteContext.Laws.{
  Ready, ReadyIn, after_value, write_next-Ready, pop_array_done,
}
use cppheaders.Archive.WriteContext.Sequences.{at, assert_value_context-Ready}
use cppheaders.Archive.Msgpack.Writer.{Writer, on_ctx, write_nil, array_push, array_pop}
use cppheaders.Archive.Msgpack.Codes.{nil}
use cppheaders.Archive.Msgpack.Reader.Skip.{skip, skip_once}
use cppheaders.Archive.Msgpack.Numbers.{with_input}
use cppheaders.Archive.Msgpack.Integers.{write_int-read, on_ctx-returned}
use cppheaders.Archive.Msgpack.RoundTrip.{push_put, write_str-Written}
use cppheaders.Archive.Msgpack.Headers.{array-Headed}
use cppheaders.Archive.Msgpack.Leaves.{Reads-Leaf, str-Leaf, nil-Leaf}
use cppheaders.Archive.Msgpack.Documents.{
  Document, Documents, integer, text, null, list_of, nothing, also, count, write_document,
  write_documents, Fits, FitsAll, SkippedAs, Leaf-SkippedAs, ClosesAs, nothing-ClosesAs,
  also-ClosesAs, array-SkippedAs, depth, depth_all,
}

SkippedAs-pos : (k : ℕ) (bytes : List ℕ) → SkippedAs k bytes → 0 < length bytes
unfolding skip_once
SkippedAs-pos k [] skips =
    let (n, gen, e) =
      skips (λ n. n) 1 true k [] 0 [] tt (λ _. omega arith, omega arith) (omega arith) in
    ground arith
SkippedAs-pos k (c ∷ cs) skips = omega arith

text-Written :
    (v : List ℕ) (w : Writer)
    → length v < 2 ^ 32 - 1
    → Ready w.ctx
    → (bytes : List ℕ) × (write_document (text v) w
        ≡ returned tt (record { ctx = after_value w.ctx; out = w.out ++ bytes }))
      × SkippedAs 0 bytes
unfolding write_document
text-Written v w f r =
    let (header, wrote, counts) = write_str-Written v w f r in
    (header ++ v, wrote, Leaf-SkippedAs 0 (header ++ v) (str-Leaf header v counts))

mutual
  unfolding write_document Fits depth count Ready ReadyIn write_nil array_push array_pop push_array

  document-Written :
      (d : Document) (w : Writer)
      → Fits d
      → Ready w.ctx
      → (bytes : List ℕ) × (write_document d w
          ≡ returned tt (record { ctx = after_value w.ctx; out = w.out ++ bytes }))
        × SkippedAs (depth d) bytes
  document-Written (integer v) w f r =
      let (bytes, wrote, reads) = write_int-read v w f r in
      (bytes, wrote, Leaf-SkippedAs 0 bytes (Reads-Leaf v bytes reads))
  document-Written (text v) w f r = text-Written v w f r
  document-Written null w f r = (
    nil ∷ [],
    >>=-returned (on_ctx write_next) _ w (on_ctx-returned write_next w (write_next-Ready w.ctx r).1)
        refl,
    Leaf-SkippedAs 0 (nil ∷ []) nil-Leaf,
  )
  document-Written (list_of ds) w (small, f) r =
      let n : ℕ = count ds in
      let (header, puts, counts, head) = array-Headed n (omega arith) in
      let (bytes, wrote, closes) =
        documents-Written ds 0 n (after_value w.ctx) (w.out ++ header) f (omega arith)
          (omega arith) in
      let opened : array_push n w
          ≡ returned tt (record { ctx = at array 0 n ∷ after_value w.ctx; out = w.out ++ header }) =
        push_put (push_array n) _ n (at array 0 n) w small r
          (>>=-returned assert_value_context _ (after_value w.ctx)
            (assert_value_context-Ready w.ctx r) refl)
          puts in
      let closing : pop_array (at array (0 + n) n ∷ after_value w.ctx)
          ≡ returned (0 + n) (after_value w.ctx) =
        pop_array_done (at array (0 + n) n) (after_value w.ctx) (omega arith) in
      (
        header ++ bytes,
        >>=-returned (array_push n) _ w opened (
            >>=-returned (write_documents ds) _ _ wrote (
              >>=-returned (on_ctx pop_array) _ _ (on_ctx-returned pop_array _ closing) (
                ap (λ o. returned tt (record { ctx = after_value w.ctx; out = o }))
                  (append_assoc w.out header bytes)))),
        array-SkippedAs (depth_all ds) n header bytes counts head closes,
      )

  documents-Written :
      (ds : Documents) (i n : ℕ) (cs : Scopes) (out : List ℕ)
      → FitsAll ds
      → i + count ds ≤ n
      → n < 2 ^ 64
      → (bytes : List ℕ) × (write_documents ds (record { ctx = at array i n ∷ cs; out = out })
          ≡ returned tt (record { ctx = at array (i + count ds) n ∷ cs; out = out ++ bytes }))
        × ClosesAs (depth_all ds) (count ds) bytes
  documents-Written nothing i n cs out f room fits = (
    [],
    ap₂ (λ j o. returned tt (record { ctx = at array j n ∷ cs; out = o })) {x = i} {y = i + 0}
        (omega arith) (sym (append-nil out)),
    nothing-ClosesAs,
  )
  documents-Written (also d ds) i n cs out (f, fs) room fits =
      let (bytes, wrote, skips) =
        document-Written d (record { ctx = at array i n ∷ cs; out = out }) f
          (tt, omega arith, fits) in
      let (more, wrote_more, closes) =
        documents-Written ds (i + 1) n cs (out ++ bytes) fs (omega arith) fits in
      (
        bytes ++ more,
        >>=-returned (write_document d) _ _ wrote (
            wrote_more
            ∙ ap₂ (λ j o. returned tt (record { ctx = at array j n ∷ cs; out = o }))
                {x = i + 1 + count ds} {y = i + suc (count ds)} (omega arith)
                (append_assoc out bytes more)),
        also-ClosesAs (depth d) (depth_all ds) (count ds) bytes more skips
            (SkippedAs-pos (depth d) bytes skips) closes,
      )

-- Where a value is next, a document of integers, strings, nils and arrays in arrays is written and
-- counts as one element of the enclosing scope, and a reader outside every scope that meets its
-- bytes, and whose vector of scopes has a capacity of at least the document's depth, or any where no
-- array stands in another, skips them with one `read(nullptr)`, whatever follows them. The integers have 64 bits, and the strings and arrays
-- fewer than `2 ^ 32 - 1` elements each.
pub write_document-skip :
    (d : Document) (w : Writer) (grow : ℕ → ℕ) (cap : ℕ)
    → Fits d
    → Ready w.ctx
    → depth d ≤ max 1 cap
    → (bytes : List ℕ) × (write_document d w
        ≡ returned tt (record { ctx = after_value w.ctx; out = w.out ++ bytes }))
      × ((gen : ℕ) (rest : List ℕ)
          → (n : ℕ) × (gen' : ℕ) × (skip grow cap (with_input [] gen (bytes ++ rest))
              ≡ returned n (with_input [] gen' rest)))
unfolding skip
write_document-skip d w grow cap f r deep =
    let (bytes, wrote, skips) = document-Written d w f r in
    (
      bytes,
      wrote,
      λ gen rest.
          skips grow (2 * length (bytes ++ rest) + 2) false cap [] gen rest tt
            ((λ h. absurd (ground (arith, h))), omega (arith, deep)) (omega arith),
    )
