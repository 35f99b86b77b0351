-- ===== src/Archive/Json/Rendering.antt =====
-- include/cpph/refl/archive/json-writer.hxx: the writer, against the text of a document.
use cppheaders.Prelude.{
  ℕ, suc, ◌+◌, ◌*◌, ◌/◌, ◌%◌, ◌^◌, ◌≤◌, ◌<◌, ◌≡◌, refl, ap, subst, ◌∙◌, true, false, List, [], ◌∷◌,
  ◌++◌, arith, if◌then◌else◌, length, ltb, ◌==◌,
}
use mathlib.Core.List.{append_assoc}
use cppheaders.Archive.Run.{returned, ◌>>◌, pure, >>=-returned}
use cppheaders.Archive.WriteContext.{
  Scopes, object, array, push_array, push_object, pop_array, pop_object, assert_value_context,
}
use cppheaders.Archive.WriteContext.Laws.{
  Ready, ReadyIn, after_value, pop_array_done, pop_object_done,
}
use cppheaders.Archive.WriteContext.Sequences.{at, assert_value_context-Ready}
use cppheaders.Archive.Json.Writer.{
  Writer, write_null, write_bool, array_push, array_pop, object_push, object_pop,
}
use cppheaders.Archive.Json.Text.{
  Json, Items, Fields, null, boolean, integer, text, array_of, object_of, no_items, item, no_fields,
  field, count_items, count_fields, write_json, write_items, write_fields, Fits, FitsItems,
  FitsFields, new_line, quoted, key_end, render, render_items, render_fields,
}
use cppheaders.Archive.Json.Printing.{
  after, Writes, outcome, then-Writes, same-Writes, nothing-Writes, prefix, literal-Writes,
  write_int-Writes, write_str-Writes, length-after_value,
}
use cppheaders.Archive.Json.Documents.{
  inside, push-Writes, pop-Writes, key-Writes, closing, array-text, object-text, comma-first,
  comma-key, assoc_item, assoc_field,
}

mutual
  unfolding write_json render Fits count_items count_fields Ready ReadyIn write_null write_bool
      array_push array_pop object_push object_pop push_array push_object

  json-Writes :
      (v : Json) (w : Writer)
      → Fits v
      → Ready w.ctx
      → Writes
          (write_json v)
          w
          (after_value w.ctx)
          (prefix w.indent w.ctx ++ render w.indent (length w.ctx) v)
  json-Writes null w f r = literal-Writes w _ r
  json-Writes (boolean true) w f r = literal-Writes w _ r
  json-Writes (boolean false) w f r = literal-Writes w _ r
  json-Writes (integer v) w f r = write_int-Writes v w r
  json-Writes (text v) w f r = write_str-Writes v w r
  json-Writes (array_of vs) w (small, f) r =
      let n : ℕ = count_items vs in
      let p : List ℕ = prefix w.indent w.ctx in
      let d : ℕ = length w.ctx in
      let s : Scopes = after_value w.ctx in
      let u : Writer = after w s (p ++ b'[' ∷ []) in
      let opens : push_array n s ≡ returned tt (at array 0 n ∷ s) =
        >>=-returned assert_value_context _ s (assert_value_context-Ready w.ctx r) refl in
      let inner : Writes (write_items vs) (inside u (at array 0 n)) (at array n n ∷ s)
          (render_items w.indent (suc d) true vs) =
        subst
          (λ e.
            Writes (write_items vs) (inside u (at array 0 n)) (at array n n ∷ s)
              (render_items w.indent (suc e) true vs))
          (length-after_value w.ctx)
          (subst
            (λ j.
              Writes (write_items vs) (inside u (at array 0 n)) (at array j n ∷ s)
                (render_items w.indent (suc (length s)) true vs))
            {x = 0 + n} {y = n} (omega arith)
            (items-Writes vs 0 (n) u f (omega arith) (omega arith))) in
      let closes : Writes array_pop
          (inside (after u s (render_items w.indent (suc d) true vs)) (at array n n)) s
          (closing w.indent d n (b']' ∷ [])) =
        subst
          (λ e.
            Writes array_pop
              (inside (after u s (render_items w.indent (suc d) true vs)) (at array n n)) s
              (closing w.indent e n (b']' ∷ [])))
          (length-after_value w.ctx)
          (pop-Writes pop_array n (b']' ∷ []) (at array n n)
            (after u s (render_items w.indent (suc d) true vs))
            (pop_array_done (at array n n) s refl)) in
      same-Writes
        (then-Writes (array_push n) (write_items vs >> array_pop) w
          (push-Writes (push_array n) (at array 0 n) (b'[' ∷ []) w r opens)
          (then-Writes (write_items vs) array_pop (inside u (at array 0 n)) inner closes))
        (append_assoc p (b'[' ∷ [])
            (render_items w.indent (suc d) true vs ++ closing w.indent d n (b']' ∷ []))
          ∙ ap (λ t. p ++ t) (array-text w.indent d vs))
  json-Writes (object_of fs) w (small, f) r =
      let n : ℕ = count_fields fs in
      let p : List ℕ = prefix w.indent w.ctx in
      let d : ℕ = length w.ctx in
      let s : Scopes = after_value w.ctx in
      let u : Writer = after w s (p ++ b'{' ∷ []) in
      let opens : push_object n s ≡ returned tt (at object 0 (2 * n) ∷ s) =
        >>=-returned assert_value_context _ s (assert_value_context-Ready w.ctx r) (
          ap (λ c. returned tt (at object 0 c ∷ s)) {x = n * 2 % 2 ^ 64} {y = 2 * n}
            (omega arith)) in
      let inner : Writes (write_fields fs) (inside u (at object 0 (2 * n)))
          (at object (2 * n) (2 * n) ∷ s) (render_fields w.indent (suc d) true fs) =
        subst
          (λ e.
            Writes (write_fields fs) (inside u (at object 0 (2 * n)))
              (at object (2 * n) (2 * n) ∷ s) (render_fields w.indent (suc e) true fs))
          (length-after_value w.ctx)
          (subst
            (λ j.
              Writes (write_fields fs) (inside u (at object 0 (2 * n))) (at object j (2 * n) ∷ s)
                (render_fields w.indent (suc (length s)) true fs))
            {x = 0 + (2 * n)} {y = (2 * n)} (omega arith)
            (fields-Writes fs 0 ((2 * n)) u f (omega arith) (omega arith) (omega arith))) in
      let closes : Writes object_pop
          (inside (after u s (render_fields w.indent (suc d) true fs)) (at object (2 * n) (2 * n)))
          s (closing w.indent d n (b'}' ∷ [])) =
        subst
          (λ e.
            Writes object_pop
              (inside (after u s (render_fields w.indent (suc d) true fs))
                (at object (2 * n) (2 * n)))
              s (closing w.indent e n (b'}' ∷ [])))
          (length-after_value w.ctx)
          (pop-Writes pop_object n (b'}' ∷ []) (at object (2 * n) (2 * n))
            (after u s (render_fields w.indent (suc d) true fs))
            (pop_object_done (at object (2 * n) (2 * n)) s refl
              ∙ ap (λ c. returned c s) {x = 2 * n / 2} {y = n} (omega arith))) in
      same-Writes
        (then-Writes (object_push n) (write_fields fs >> object_pop) w
          (push-Writes (push_object n) (at object 0 (2 * n)) (b'{' ∷ []) w r opens)
          (then-Writes (write_fields fs) object_pop (inside u (at object 0 (2 * n))) inner closes))
        (append_assoc p (b'{' ∷ [])
            (render_fields w.indent (suc d) true fs ++ closing w.indent d n (b'}' ∷ []))
          ∙ ap (λ t. p ++ t) (object-text w.indent d fs))

  items-Writes :
      (vs : Items) (i n : ℕ) (w : Writer)
      → FitsItems vs
      → i + count_items vs ≤ n
      → n < 2 ^ 64
      → Writes
          (write_items vs)
          (inside w (at array i n))
          (at array (i + count_items vs) n ∷ w.ctx)
          (render_items w.indent (suc (length w.ctx)) (i == 0) vs)
  items-Writes no_items i n w f room fits =
      subst (λ j. Writes (pure tt) (inside w (at array i n)) (at array j n ∷ w.ctx) []) {x = i}
        {y = i + 0} (omega arith) (nothing-Writes (inside w (at array i n)))
  items-Writes (item v vs) i n w (f, fs) room fits =
      let here : Writer = inside w (at array i n) in
      let d : ℕ = suc (length w.ctx) in
      let lead : List ℕ = if ltb 0 i then b',' ∷ [] else [] in
      let line : List ℕ = new_line w.indent d in
      let value : List ℕ = render w.indent d v in
      let rest : List ℕ = render_items w.indent d false vs in
      let u : Writer = record w { out = w.out ++ (lead ++ line ++ value) } in
      let first : (i + 1 == 0) ≡ false = ground arith in
      let more : Writes (write_items vs) (inside u (at array (i + 1) n))
          (at array (i + suc (count_items vs)) n ∷ w.ctx) rest =
        subst
          (λ j. Writes (write_items vs) (inside u (at array (i + 1) n)) (at array j n ∷ w.ctx) rest)
          {x = i + 1 + count_items vs} {y = i + suc (count_items vs)} (omega arith)
          (subst
            (λ b.
              Writes (write_items vs) (inside u (at array (i + 1) n))
                (at array (i + 1 + count_items vs) n ∷ w.ctx) (render_items w.indent d b vs))
            first (items-Writes vs (i + 1) n u fs (omega arith) fits)) in
      same-Writes
        (then-Writes (write_json v) (write_items vs) here
          (json-Writes v here f (tt, omega arith, fits)) more)
        (assoc_item lead line value rest ∙ ap (λ c. c ++ (line ++ (value ++ rest))) (comma-first i))

  fields-Writes :
      (fs : Fields) (i n : ℕ) (w : Writer)
      → FitsFields fs
      → i % 2 ≡ 0
      → i + 2 * count_fields fs ≤ n
      → n < 2 ^ 64
      → Writes
          (write_fields fs)
          (inside w (at object i n))
          (at object (i + 2 * count_fields fs) n ∷ w.ctx)
          (render_fields w.indent (suc (length w.ctx)) (i == 0) fs)
  fields-Writes no_fields i n w f even room fits =
      subst (λ j. Writes (pure tt) (inside w (at object i n)) (at object j n ∷ w.ctx) []) {x = i}
        {y = i + 2 * 0} (omega arith) (nothing-Writes (inside w (at object i n)))
  fields-Writes (field k v fs) i n w (f, fs') even room fits =
      let d : ℕ = suc (length w.ctx) in
      let lead : List ℕ = if ltb 2 (i + 1) then b',' ∷ [] else [] in
      let line : List ℕ = new_line w.indent d in
      let key : List ℕ = lead ++ line ++ (quoted k ++ key_end w.indent) in
      let value : List ℕ = render w.indent d v in
      let rest : List ℕ = render_fields w.indent d false fs in
      let here : Writer =
        after (inside w (at object (i + 1) n)) (at object (i + 1) n ∷ w.ctx) key in
      let u : Writer = record w { out = w.out ++ key ++ value } in
      let first : (i + 1 + 1 == 0) ≡ false = ground arith in
      let more : Writes (write_fields fs) (inside u (at object (i + 1 + 1) n))
          (at object (i + 2 * suc (count_fields fs)) n ∷ w.ctx) rest =
        subst
          (λ j.
            Writes (write_fields fs) (inside u (at object (i + 1 + 1) n)) (at object j n ∷ w.ctx)
              rest)
          {x = i + 1 + 1 + 2 * count_fields fs} {y = i + 2 * suc (count_fields fs)} (omega arith)
          (subst
            (λ b.
              Writes (write_fields fs) (inside u (at object (i + 1 + 1) n))
                (at object (i + 1 + 1 + 2 * count_fields fs) n ∷ w.ctx)
                (render_fields w.indent d b fs))
            first (fields-Writes fs (i + 1 + 1) n u fs' (omega arith) (omega arith) fits)) in
      same-Writes
        (key-Writes k (write_json v >> write_fields fs) i n w even (omega arith) fits (
          then-Writes (write_json v) (write_fields fs) here
            (json-Writes v here f ((refl, omega arith), omega arith, fits)) more))
        (assoc_field lead line (quoted k) (key_end w.indent) (value ++ rest)
          ∙ ap (λ c. c ++ (line ++ (quoted k ++ (key_end w.indent ++ (value ++ rest)))))
              (comma-key i even))

-- Where a value is next, the calls that write a document never throw: what they put out is the text
-- of the document, behind the comma and the new line that the place asks for, and the document
-- counts as one element of the innermost scope. Arrays and objects have fewer than `2 ^ 63` elements
-- each; lines are indented by the depth, or there are none where `indent` is negative.
pub write_json-render :
    (v : Json) (w : Writer)
    → Fits v
    → Ready w.ctx
    → write_json v w
      ≡ returned tt (record w {
        ctx = after_value w.ctx;
        out = w.out ++ (prefix w.indent w.ctx ++ render w.indent (length w.ctx) v);
      })
write_json-render v w f r = outcome (json-Writes v w f r)
