-- ===== src/Archive/Json/Documents.antt =====
-- include/cpph/refl/archive/json-writer.hxx: the calls that write a document put out its text.
use cppheaders.Prelude.{
  ℕ, zero, suc, ◌+◌, ◌%◌, ◌^◌, ◌<◌, ◌≡◌, refl, ap, ◌∙◌, true, false, Option, List, [], ◌∷◌, ◌++◌,
  arith, if◌then◌else◌, length, ltb, ◌==◌,
}
use mathlib.Core.List.{append_assoc}
use cppheaders.Archive.Run.{returned, Run, ◌>>=◌, ◌>>◌, pure, >>=-returned}
use cppheaders.Archive.WriteContext
use cppheaders.Archive.WriteContext.{
  Scope, Scopes, object, array, write_next, WriteDirective, directive, push_array, push_object,
  pop_array, pop_object, assert_value_context,
}
use cppheaders.Archive.WriteContext.Laws.{Ready, after_value}
use cppheaders.Archive.WriteContext.Sequences.{at, write_key_next-at, write_next-key}
use cppheaders.Archive.Json.Writer.{
  Writer, on_ctx, sputn, brk_indent, begin_value, on_write_value_only, write_str, write_key_next,
}
use cppheaders.Strutil.{json_escape}
use cppheaders.Archive.Json.Text.{
  Items, Fields, array_of, object_of, no_items, item, no_fields, field, count_items, count_fields,
  new_line, quoted, key_end, comma, render, render_items, render_fields,
}
use cppheaders.Archive.Json.Printing.{
  after, Writes, writes, outcome, on_ctx-returned, then-Writes, sputn-Writes, nothing-Writes,
  if-Writes, brk_indent-Writes, begin_value-Writes, quoted-Writes, prefix, value_only-Writes,
  lead_in, end_of,
}

-- A call of `_ctx` that leaves the scopes `s`, before what else is put out.
on_ctx-Writes :
    {A : Type 0} (m : Run Scopes A) (k : A → Run Writer (Unit {0})) (w : Writer) {a : A}
    {s t : Scopes} {cs : List ℕ}
    → m w.ctx ≡ returned a s
    → Writes (k a) (record w { ctx = s }) t cs
    → Writes (on_ctx m >>= k) w t cs
on_ctx-Writes m k w e (writes next) =
    writes (>>=-returned (on_ctx m) k w (on_ctx-returned m w e) next)

abbrev pub inside : Writer → Scope → Writer
inside w e = record w { ctx = e ∷ w.ctx }

pub push-Writes :
    (push : Run Scopes (Unit {0})) (e : Scope) (bracket : List ℕ) (w : Writer)
    → Ready w.ctx
    → push (after_value w.ctx) ≡ returned tt (e ∷ after_value w.ctx)
    → Writes
        (on_write_value_only >> (on_ctx push >> sputn bracket))
        w
        (e ∷ after_value w.ctx)
        (prefix w.indent w.ctx ++ bracket)
push-Writes push e bracket w r opens =
    then-Writes on_write_value_only (on_ctx push >> sputn bracket) w (value_only-Writes w r)
      (on_ctx-Writes push (λ u. sputn bracket) _ opens (sputn-Writes bracket _))

pub pop-Writes :
    (pop : Run Scopes ℕ) (n : ℕ) (bracket : List ℕ) (e : Scope) (w : Writer)
    → pop (e ∷ w.ctx) ≡ returned n w.ctx
    → Writes
        (on_ctx pop >>= λ n. (if ltb 0 n then brk_indent else pure tt) >> sputn bracket)
        (inside w e)
        w.ctx
        ((if ltb 0 n then new_line w.indent (length w.ctx) else []) ++ bracket)
pop-Writes pop n bracket e w closes =
    on_ctx-Writes pop (λ n. (if ltb 0 n then brk_indent else pure tt) >> sputn bracket) (inside w e)
      closes
      (then-Writes (if ltb 0 n then brk_indent else pure tt) (sputn bracket) w
        (if-Writes (ltb 0 n) brk_indent (pure tt) w (brk_indent-Writes w) (nothing-Writes w))
        (sputn-Writes bracket _))

-- A key, of which the scope of the object is next.
pub key-Writes :
    (k : List ℕ) (m : Run Writer (Unit {0})) (i n : ℕ) (w : Writer) {t : Scopes} {cs : List ℕ}
    → i % 2 ≡ 0
    → i < n
    → n < 2 ^ 64
    → Writes m
        (after (inside w (at object (i + 1) n)) (at object (i + 1) n ∷ w.ctx) (
          lead_in w.indent (suc (length w.ctx)) (directive true (ltb 2 (i + 1)) true)
          ++ (quoted k ++ key_end w.indent)))
        t
        cs
    → Writes (write_key_next >> (write_str k >> m)) (inside w (at object i n)) t (
        (lead_in w.indent (suc (length w.ctx)) (directive true (ltb 2 (i + 1)) true)
          ++ (quoted k ++ key_end w.indent))
        ++ cs)
unfolding write_key_next write_str
key-Writes k m i n w even room fits next =
    let ready : Scope = record (at object (i + 1) n) { key_ready = true } in
    let dir : WriteDirective = directive true (ltb 2 (i + 1)) true in
    let q : List ℕ = b'"' ∷ [] in
    let chars : Run Writer (Unit {0}) =
      sputn q >> (sputn (json_escape k) >> (sputn q >> end_of true)) in
    let announced : write_key_next (inside w (at object i n)) ≡ returned tt (inside w ready) =
      >>=-returned (on_ctx WriteContext.write_key_next) (λ _. pure tt) (inside w (at object i n))
        (on_ctx-returned WriteContext.write_key_next (inside w (at object i n))
          (write_key_next-at i n w.ctx even room fits))
        refl in
    let key : Writes (write_str k) (inside w ready) (at object (i + 1) n ∷ w.ctx)
        (lead_in w.indent (suc (length w.ctx)) dir ++ (quoted k ++ key_end w.indent)) =
      on_ctx-Writes write_next _ (inside w ready) (write_next-key (i + 1) n w.ctx (omega arith)) (
        then-Writes (begin_value dir) chars (inside w (at object (i + 1) n))
          (begin_value-Writes dir (inside w (at object (i + 1) n))) (quoted-Writes k true _)) in
    writes (
      >>=-returned write_key_next (λ _. write_str k >> m) (inside w (at object i n)) announced
        (outcome (then-Writes (write_str k) m (inside w ready) key next)))

-- What closes an array or an object: a line of its own, unless nothing stands in it.
abbrev pub closing : Option ℕ → ℕ → ℕ → List ℕ → List ℕ
closing indent depth n bracket = (if ltb 0 n then new_line indent depth else []) ++ bracket

pub array-text :
    (indent : Option ℕ) (depth : ℕ) (vs : Items)
    → b'['
        ∷ (render_items indent (suc depth) true vs
            ++ closing indent depth (count_items vs) (b']' ∷ []))
      ≡ render indent depth (array_of vs)
unfolding render count_items
array-text indent depth no_items = refl
array-text indent depth (item v vs) =
    let more : ltb 0 (suc (count_items vs)) ≡ true = ground arith in rw more refl

pub object-text :
    (indent : Option ℕ) (depth : ℕ) (fs : Fields)
    → b'{'
        ∷ (render_fields indent (suc depth) true fs
            ++ closing indent depth (count_fields fs) (b'}' ∷ []))
      ≡ render indent depth (object_of fs)
unfolding render count_fields
object-text indent depth no_fields = refl
object-text indent depth (field k v fs) =
    let more : ltb 0 (suc (count_fields fs)) ≡ true = ground arith in rw more refl

-- A comma stands before every element but the first.
pub comma-first : (i : ℕ) → (if ltb 0 i then b',' ∷ [] else []) ≡ comma (i == 0)
comma-first zero = refl
comma-first (suc i) =
    let more : ltb 0 (suc i) ≡ true = ground arith in
    let no : (suc i == 0) ≡ false = ground arith in rw (more, no) refl

pub comma-key : (i : ℕ) → i % 2 ≡ 0 → (if ltb 2 (i + 1) then b',' ∷ [] else []) ≡ comma (i == 0)
comma-key zero e = refl
comma-key (suc i) e =
    let more : ltb 2 (suc i + 1) ≡ true = ground arith in
    let no : (suc i == 0) ≡ false = ground arith in rw (more, no) refl

-- The parts of an item, bracketed to the right.
pub assoc_item : (a b c d : List ℕ) → a ++ b ++ c ++ d ≡ a ++ (b ++ (c ++ d))
assoc_item a b c d = append_assoc (a ++ b) c d ∙ append_assoc a b (c ++ d)

pub assoc_field : (a b c d e : List ℕ) → a ++ b ++ (c ++ d) ++ e ≡ a ++ (b ++ (c ++ (d ++ e)))
assoc_field a b c d e =
    append_assoc (a ++ b) (c ++ d) e
    ∙ append_assoc a b (c ++ d ++ e)
    ∙ ap (λ t. a ++ (b ++ t)) (append_assoc c d e)
