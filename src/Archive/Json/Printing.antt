-- ===== src/Archive/Json/Printing.antt =====
-- include/cpph/refl/archive/json-writer.hxx: a document is written as its text.
use cppheaders.Prelude.{
  ℕ, ◌≡◌, refl, ap, subst, sym, ◌∙◌, Bool, true, false, Option, none, some, List, [], ◌∷◌, ◌++◌,
  if◌then◌else◌, length,
}
use mathlib.Core.List.{append_assoc, append-nil}
use cppheaders.Archive.Run.{returned, thrown, Run, ◌>>=◌, ◌>>◌, pure, >>=-returned}
use cppheaders.Archive.WriteContext.{Scopes, write_next, WriteDirective, directive, depth}
use cppheaders.Archive.WriteContext.Laws.{
  Ready, after_value, needs_comma, needs_indent, write_next-value,
}
use cppheaders.Archive.Json.Writer.{
  Writer, on_ctx, sputn, append_comma, brk_indent, begin_value, on_write_value_only, to_chars,
  end_key, write_int, write_str,
}
use cppheaders.Strutil.{json_escape}
use cppheaders.Archive.Json.Text.{new_line, quoted, key_end}

abbrev pub after : Writer → Scopes → List ℕ → Writer
after w s cs = record w { ctx = s; out = w.out ++ cs }

-- `m` leaves the scopes `s`, and puts `cs` out.
pub data Writes (m : Run Writer (Unit {0})) (w : Writer) (s : Scopes) (cs : List ℕ) : Type 0 where
  writes : m w ≡ returned tt (after w s cs) → Writes m w s cs

pub outcome :
    {m : Run Writer (Unit {0})} {w : Writer} {s : Scopes} {cs : List ℕ}
    → Writes m w s cs
    → m w ≡ returned tt (after w s cs)
outcome (writes e) = e

pub on_ctx-returned :
    {A : Type 0} (m : Run Scopes A) (w : Writer) {a : A} {t : Scopes}
    → m w.ctx ≡ returned a t
    → on_ctx m w ≡ returned a (record w { ctx = t })
on_ctx-returned m w e =
    ap
      (λ o. elim o [
        | returned a t ↦ returned a (record w { ctx = t })
        | thrown e t ↦ thrown e (record w { ctx = t })
      ])
      e

pub then-Writes :
    (m k : Run Writer (Unit {0})) (w : Writer) {s t : Scopes} {cs ds : List ℕ}
    → Writes m w s cs
    → Writes k (after w s cs) t ds
    → Writes (m >> k) w t (cs ++ ds)
then-Writes m k w {s} {t} {cs} {ds} (writes first) (writes next) = writes (
    >>=-returned m (λ _. k) w first
      (next ∙ ap (λ o. returned tt (record w { ctx = t; out = o })) (append_assoc w.out cs ds)))

pub same-Writes :
    {m : Run Writer (Unit {0})} {w : Writer} {s : Scopes} {cs ds : List ℕ}
    → Writes m w s cs
    → cs ≡ ds
    → Writes m w s ds
same-Writes {m} {w} {s} h e = subst (Writes m w s) e h

pub sputn-Writes : (cs : List ℕ) (w : Writer) → Writes (sputn cs) w w.ctx cs
sputn-Writes cs w = writes refl

pub nothing-Writes : (w : Writer) → Writes (pure tt) w w.ctx []
nothing-Writes w = writes (ap (λ o. returned tt (record w { out = o })) (sym (append-nil w.out)))

-- What a test decides between is put out by either branch.
pub if-Writes :
    (b : Bool) (m k : Run Writer (Unit {0})) (w : Writer) {s : Scopes} {cs ds : List ℕ}
    → Writes m w s cs
    → Writes k w s ds
    → Writes (λ v. (if b then m else k) v) w s (if b then cs else ds)
if-Writes true m k w h h' = h
if-Writes false m k w h h' = h'

pub brk_indent-Writes : (w : Writer) → Writes brk_indent w w.ctx (new_line w.indent (length w.ctx))
unfolding brk_indent new_line depth
brk_indent-Writes w = on w.indent
  where
    on :
        (i : Option ℕ)
        → Writes brk_indent (record w { indent = i }) w.ctx (new_line i (length w.ctx))
    on none = writes (outcome (nothing-Writes (record w { indent = none })))
    on (some k) = writes refl

-- What stands before a value or a key.
abbrev pub lead_in : Option ℕ → ℕ → WriteDirective → List ℕ
lead_in indent d dir =
    (if dir.need_comma then b',' ∷ [] else [])
    ++ (if dir.need_indent then new_line indent d else [])

pub begin_value-Writes :
    (d : WriteDirective) (w : Writer)
    → Writes (begin_value d) w w.ctx (lead_in w.indent (length w.ctx) d)
unfolding begin_value
begin_value-Writes d w =
    let cs : List ℕ = if d.need_comma then b',' ∷ [] else [] in
    then-Writes (if d.need_comma then append_comma else pure tt)
      (if d.need_indent then brk_indent else pure tt) w
      (if-Writes d.need_comma append_comma (pure tt) w (sputn-Writes (b',' ∷ []) w)
        (nothing-Writes w))
      (if-Writes d.need_indent brk_indent (pure tt) (after w w.ctx cs)
        (brk_indent-Writes (after w w.ctx cs)) (nothing-Writes (after w w.ctx cs)))

-- What stands before a value that is next.
abbrev pub prefix : Option ℕ → Scopes → List ℕ
prefix indent s = lead_in indent (length s) (directive false (needs_comma s) (needs_indent s))

pub length-after_value : (s : Scopes) → length (after_value s) ≡ length s
length-after_value [] = refl
length-after_value (e ∷ rest) = refl

-- Where a value is next, a run that asks for what stands before it goes on as for a value.
pub next-Writes :
    (f : WriteDirective → Run Writer (Unit {0})) (w : Writer) {s : Scopes} {cs : List ℕ}
    → Ready w.ctx
    → Writes
        (f (directive false (needs_comma w.ctx) (needs_indent w.ctx)))
        (record w { ctx = after_value w.ctx })
        s
        cs
    → Writes (on_ctx write_next >>= f) w s cs
next-Writes f w r (writes e) = writes (
    >>=-returned (on_ctx write_next) f w (on_ctx-returned write_next w (write_next-value w.ctx r))
      e)

-- What stands before a value is put out.
begin-Writes :
    (w : Writer)
    → Writes
        (begin_value (directive false (needs_comma w.ctx) (needs_indent w.ctx)))
        (record w { ctx = after_value w.ctx })
        (after_value w.ctx)
        (prefix w.indent w.ctx)
begin-Writes w =
    let dir : WriteDirective = directive false (needs_comma w.ctx) (needs_indent w.ctx) in
    let v : Writer = record w { ctx = after_value w.ctx } in
    subst (λ d. Writes (begin_value dir) v (after_value w.ctx) (lead_in w.indent d dir))
      (length-after_value w.ctx) (begin_value-Writes dir v)

pub value_only-Writes :
    (w : Writer)
    → Ready w.ctx
    → Writes on_write_value_only w (after_value w.ctx) (prefix w.indent w.ctx)
unfolding on_write_value_only
value_only-Writes w r = next-Writes _ w r (begin-Writes w)

-- A value that is put out as `cs`.
pub literal-Writes :
    (w : Writer) (cs : List ℕ)
    → Ready w.ctx
    → Writes (on_write_value_only >> sputn cs) w (after_value w.ctx) (prefix w.indent w.ctx ++ cs)
literal-Writes w cs r =
    then-Writes on_write_value_only (sputn cs) w (value_only-Writes w r) (sputn-Writes cs _)

pub write_int-Writes :
    (v : ℕ) (w : Writer)
    → Ready w.ctx
    → Writes (write_int v) w (after_value w.ctx) (prefix w.indent w.ctx ++ to_chars v)
unfolding write_int
write_int-Writes v w r = next-Writes _ w r (
    then-Writes (begin_value (directive false (needs_comma w.ctx) (needs_indent w.ctx)))
      (sputn (to_chars v)) (record w { ctx = after_value w.ctx }) (begin-Writes w)
      (sputn-Writes (to_chars v) _))

end_key-Writes : (w : Writer) → Writes end_key w w.ctx (key_end w.indent)
unfolding end_key
end_key-Writes w = on w.indent
  where
    on : (i : Option ℕ) → Writes end_key (record w { indent = i }) w.ctx (key_end i)
    on none = writes refl
    on (some k) = writes refl

abbrev pub end_of : Bool → Run Writer (Unit {0})
end_of key = if key then end_key else pure tt

-- A string in quotes, as a key or as a value.
pub quoted-Writes :
    (v : List ℕ) (key : Bool) (w : Writer)
    → Writes
        (sputn (b'"' ∷ []) >> (sputn (json_escape v) >> (sputn (b'"' ∷ []) >> end_of key)))
        w
        w.ctx
        (quoted v ++ (if key then key_end w.indent else []))
unfolding quoted
quoted-Writes v key w =
    let q : List ℕ = b'"' ∷ [] in
    let w1 : Writer = after w w.ctx q in
    let w2 : Writer = after w1 w.ctx (json_escape v) in
    let w3 : Writer = after w2 w.ctx q in
    let end : List ℕ = if key then key_end w.indent else [] in
    same-Writes
      (then-Writes (sputn q) (sputn (json_escape v) >> (sputn q >> end_of key)) w (sputn-Writes q w)
        (then-Writes (sputn (json_escape v)) (sputn q >> end_of key) w1
          (sputn-Writes (json_escape v) w1)
          (then-Writes (sputn q) (end_of key) w2 (sputn-Writes q w2)
            (if-Writes key end_key (pure tt) w3 (end_key-Writes w3) (nothing-Writes w3)))))
      (ap (λ xs. b'"' ∷ xs) (sym (append_assoc (json_escape v) q end)))

pub write_str-Writes :
    (v : List ℕ) (w : Writer)
    → Ready w.ctx
    → Writes (write_str v) w (after_value w.ctx) (prefix w.indent w.ctx ++ quoted v)
unfolding write_str
write_str-Writes v w r =
    let q : List ℕ = b'"' ∷ [] in
    next-Writes _ w r (
      then-Writes (begin_value (directive false (needs_comma w.ctx) (needs_indent w.ctx)))
        (sputn q >> (sputn (json_escape v) >> (sputn q >> end_of false)))
        (record w { ctx = after_value w.ctx }) (begin-Writes w)
        (same-Writes (quoted-Writes v false (after w (after_value w.ctx) (prefix w.indent w.ctx)))
          (append-nil (quoted v))))
