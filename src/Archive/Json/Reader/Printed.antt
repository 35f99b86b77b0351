-- ===== src/Archive/Json/Reader/Printed.antt =====
-- include/cpph/refl/archive/json-reader.hxx, json-writer.hxx: the reader's `operator>>` of an integer, on
-- what the writer's `operator<<` put out.
use cppheaders.Prelude.{
  ℕ, suc, ◌+◌, ◌-◌, ◌≤◌, ◌<◌, ◌^◌, ◌≡◌, refl, ap, ◌∙◌, false, some, List, ◌∷◌, ◌++◌, ◌||◌, arith,
  length, get_elem?, drop, take, take-append_exact, drop-append_exact, length-append,
}
use cppheaders.Archive.Run.{returned, require, >>=-returned, reader_parse_failed}
use cppheaders.Archive.WriteContext.Laws.{Ready, after_value}
use cppheaders.Archive.Json.Writer.{Writer, write_int, to_chars}
use cppheaders.Archive.Json.Printing.{prefix, write_int-Writes, outcome, after}
use cppheaders.Archive.Json.Reader.{
  jsmn_primitive, Token, JsonScope, Impl, is_object, is_array, next, tokstr, step,
}
use cppheaders.Archive.Json.Reader.Prepare.{Jsmn, prepare}
use cppheaders.Archive.Json.Reader.Values.{from_chars, is_text_number, whole, read_int}
use cppheaders.Archive.Json.Reader.Steps.{here, with_left, place, require-returned, next-at}
use cppheaders.Archive.Json.Reader.Visits.{tokstr-returned, leaf-step}
use cppheaders.Archive.Json.Reader.Integers.{from_chars-to_chars}

module _ (jsmn : Jsmn) (st : Impl) where
  -- A value that is no string stands where no key is announced.
  read_int-at :
      (s : JsonScope) (ss : List JsonScope) (gen i : ℕ) (t : Token) (n old v : ℕ)
      → get_elem? st.tokens i ≡ some t
      → t.kind ≡ jsmn_primitive
      → t.start ≤ length st.buffer
      → from_chars old (take (t.end - t.start) (drop t.start st.buffer)) ≡ some v
      → read_int jsmn old (here st (some i) (with_left s (suc n) false ∷ ss) gen)
        ≡ returned v (here st (place st.tokens (suc i)) (with_left s n false ∷ ss) gen)
  unfolding read_int prepare
  read_int-at s ss gen i t n old v e kind le parsed =
      let w : Impl = here st (some i) (with_left s (suc n) false ∷ ss) gen in
      let text : List ℕ = take (t.end - t.start) (drop t.start st.buffer) in
      >>=-returned next _ w (next-at st i (with_left s (suc n) false ∷ ss) gen t e) (
        >>=-returned (tokstr t) _ w (tokstr-returned t w le) (
          >>=-returned (require (is_text_number t.kind) reader_parse_failed) _ w
            (require-returned (is_text_number t.kind) reader_parse_failed w
              (ap is_text_number kind))
            (>>=-returned (whole (from_chars old text)) _ w (ap (λ o. whole o w) parsed) (
              >>=-returned step _ w
                (leaf-step jsmn st s ss gen i t n false e (ap (λ k. is_object k || is_array k) kind)
                  refl)
                refl))))

-- Where a value is next, a 64-bit signed integer, given as its pattern, is put out as `to_chars v`, behind
-- the comma and the new line that the place asks for, and counted. A reader whose buffer has these
-- characters somewhere, which stands before the token of them, in a scope with an element left and no
-- key announced, takes them for the same integer, whatever the variable held before, and goes on
-- behind the token with one element less.
pub write_int-read_int :
    (v old : ℕ) (w : Writer) (jsmn : Jsmn) (st : Impl) (s : JsonScope) (ss : List JsonScope)
    (gen i n : ℕ) (t : Token) (before behind : List ℕ)
    → v < 2 ^ 64
    → Ready w.ctx
    → st.buffer ≡ before ++ (to_chars v ++ behind)
    → get_elem? st.tokens i ≡ some t
    → t.kind ≡ jsmn_primitive
    → t.start ≡ length before
    → t.end ≡ length before + length (to_chars v)
    → (write_int v w
        ≡ returned tt (after w (after_value w.ctx) (prefix w.indent w.ctx ++ to_chars v)))
      × (read_int jsmn old (here st (some i) (with_left s (suc n) false ∷ ss) gen)
          ≡ returned v (here st (place st.tokens (suc i)) (with_left s n false ∷ ss) gen))
write_int-read_int v old w jsmn st s ss gen i n t before behind fits ready laid e kind starts ends =
    let text : take (t.end - t.start) (drop t.start st.buffer) ≡ to_chars v =
      ap (λ b. take (t.end - t.start) (drop t.start b)) laid
      ∙ ap (λ k. take (t.end - t.start) (drop k (before ++ (to_chars v ++ behind)))) starts
      ∙ ap (take (t.end - t.start)) (drop-append_exact before (to_chars v ++ behind))
      ∙ ap (λ k. take k (to_chars v ++ behind)) {x = t.end - t.start} {y = length (to_chars v)}
          (omega (arith, starts, ends))
      ∙ take-append_exact (to_chars v) behind in
    (
      outcome (write_int-Writes v w ready),
      read_int-at jsmn st s ss gen i t n old v e kind
          (omega (arith, starts, ap length laid, length-append before (to_chars v ++ behind)))
          (ap (from_chars old) text ∙ from_chars-to_chars old v fits),
    )
