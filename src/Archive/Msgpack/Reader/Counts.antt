-- ===== src/Archive/Msgpack/Reader/Counts.antt =====
-- include/cpph/refl/archive/msgpack-reader.hxx: how the steps of the reader count an element in the
-- innermost scope.
use cppheaders.Prelude.{
  ℕ, ◌+◌, ◌-◌, ◌*◌, ◌%◌, ◌^◌, ◌<◌, ◌≡◌, refl, ap, sym, subst, ◌∙◌, false, not, ◌||◌, List, [], ◌∷◌,
  arith, ◌==◌, if◌then◌else◌, length, Bool-cases, inl, inr,
}
use cppheaders.Archive.Run.{Run, ◌>>=◌, ◌>>◌}
use cppheaders.Archive.Run.Ends
use cppheaders.Archive.Run.Ends.{Ends, returns, throws}
use cppheaders.Archive.Msgpack.Reader.{
  ScopeKind, type_object, type_array, type_binary, same_kind, Key, ReadScope, Reader, next_header,
  read_elem_count_array, read_elem_count_map,
}
use cppheaders.Archive.Msgpack.Reader.Scopes.{
  is_key_order, is_object, step_in, step_context, step_context_on_skip, discard_n_bytes,
  begin_object, begin_array, verify_not_key_type, new_scope,
}
use cppheaders.Archive.Msgpack.Reader.Skip.{finish_skip}
use cppheaders.Archive.Msgpack.Reader.Consumes.{
  Shorter, next_header-Ends, read_elem_count-Ends, discard_rounds-Ends,
}

-- The scopes after one more element of the innermost.
abbrev pub one_less : List ReadScope → List ReadScope
one_less [] = []
one_less (s ∷ rest) = record s { elems_left = s.elems_left - 1 } ∷ rest

abbrev pub HasRoom : List ReadScope → Type 0
HasRoom [] = Unit {0}
HasRoom (s ∷ rest) = 0 < s.elems_left

-- One element of the innermost scope is gone, with at least one byte of the stream.
abbrev pub Skipped : Reader → Reader → Type 0
Skipped r t = HasRoom r.scope × (t.scope ≡ one_less r.scope) × (length t.input < length r.input)

abbrev pub Counted : Reader → Reader → Type 0
Counted r t = HasRoom r.scope × (t.scope ≡ one_less r.scope) × (t.input ≡ r.input)

pub step_context_on_skip-Ends : (r : Reader) → Ends (λ u t. Counted r t) (step_context_on_skip r)
unfolding step_context_on_skip
step_context_on_skip-Ends r = on r.scope
  where
    on :
        (scopes : List ReadScope)
        → Ends
            (λ u t. Counted (record r { scope = scopes }) t)
            (step_context_on_skip (record r { scope = scopes }))
    on [] = returns (tt, refl, refl)
    on (s ∷ rest) = elim (Bool-cases (s.elems_left == 0)) [
      | inl e ↦ rw e (throws refl)
      | inr e ↦ rw e (returns (ground arith, refl, refl))
    ]

pub finish_skip-short :
    (n : ℕ) (r t : Reader) → Shorter r t → Ends (λ x u. Skipped r u) (finish_skip n t)
unfolding finish_skip discard_n_bytes
finish_skip-short n r t (s, l) =
    Ends.bind step_context_on_skip _ t (step_context_on_skip-Ends t) λ x u (room, counted, same).
      Ends.bind (discard_n_bytes n) _ u (discard_rounds-Ends n n u) λ y v ((s', l'), k).
        returns (subst HasRoom s room, s' ∙ counted ∙ ap one_less s, omega (arith, ap length same))

pub finish_skip-long : (n : ℕ) (r : Reader) → 0 < n → Ends (λ x u. Skipped r u) (finish_skip n r)
unfolding finish_skip discard_n_bytes
finish_skip-long n r h =
    Ends.bind step_context_on_skip _ r (step_context_on_skip-Ends r) λ x u (room, counted, same).
      Ends.bind (discard_n_bytes n) _ u (discard_rounds-Ends n n u)
        λ y v ((s', l'), k). returns (room, s' ∙ counted, omega (arith, ap length same, k h h))

abbrev pub NotKey : List ReadScope → Type 0
NotKey [] = Unit {0}
NotKey (s ∷ rest) = is_key_order s ≡ false

pub verify_not_key_type-Ends :
    (r : Reader) → Ends (λ u t. (t ≡ r) × NotKey r.scope) (verify_not_key_type r)
unfolding verify_not_key_type
verify_not_key_type-Ends r = on r.scope
  where
    on :
        (scopes : List ReadScope)
        → Ends
            (λ u t. (t ≡ record r { scope = scopes }) × NotKey scopes)
            (verify_not_key_type (record r { scope = scopes }))
    on [] = returns (refl, tt)
    on (s ∷ rest) = elim (Bool-cases (is_key_order s)) [
      | inl e ↦ rw e (throws refl)
      | inr e ↦ elim (Bool-cases (not (is_object s) || not s.reading_key)) [
        | inl q ↦ rw (e, q) (returns (refl, refl))
        | inr q ↦ rw (e, q) (throws refl)
      ]
    ]

pub step_context-Ends : (r : Reader) → NotKey r.scope → Ends (λ u t. Counted r t) (step_context r)
unfolding step_context step_in
step_context-Ends r h = on r.scope h
  where
    on :
        (scopes : List ReadScope)
        → NotKey scopes
        → Ends
            (λ u t. Counted (record r { scope = scopes }) t)
            (step_context (record r { scope = scopes }))
    on [] h = returns (tt, refl, refl)
    on (s ∷ rest) h = elim (Bool-cases (same_kind s.kind type_binary)) [
      | inl b ↦ rw b (throws refl)
      | inr b ↦ elim (Bool-cases (s.elems_left == 0)) [
        | inl e ↦ rw (b, h, e) (throws refl)
        | inr e ↦ rw (b, h, e) (returns (ground arith, refl, refl))
      ]
    ]

-- A scope of the kind is opened inside the scopes of `r`, which count it as an element.
abbrev pub Opened : ScopeKind → Reader → Key → Reader → Type 0
Opened kind r key t =
    HasRoom r.scope
    × (s : ReadScope) × (t.scope ≡ s ∷ one_less r.scope)
    × (s.ctxkey ≡ key)
    × (s.kind ≡ kind)
    × (length t.input < length r.input)

pub new_scope-Ends :
    (kind : ScopeKind) (n : ℕ) (r t : Reader)
    → HasRoom r.scope
    → t.scope ≡ one_less r.scope
    → length t.input < length r.input
    → Ends (λ key u. Opened kind r key u) (new_scope kind n t)
unfolding new_scope
new_scope-Ends kind n r t room counted l =
    let key : Key = record {
      id = (t.scope_key_gen + 1) % 2 ^ 32;
      index = length t.scope % 2 ^ 32;
    } in
    let s : ReadScope = record {
      ctxkey = key;
      kind = kind;
      elems_left = if same_kind kind type_object then n * 2 % 2 ^ 32 else n;
      reading_key = false;
    } in
    returns {a = key} {t = record t { scope = s ∷ t.scope; scope_key_gen = key.id }}
      (room, s, ap (λ rest. s ∷ rest) counted, refl, refl, l)

pub begin-Ends :
    (kind : ScopeKind) (count : ℕ → Run Reader ℕ) (r : Reader)
    → ((c : ℕ) (t : Reader) → 0 < length t.input → Ends (λ n u. Shorter t u) (count c t))
    → Ends
        (λ key t. Opened kind r key t)
        ((do
          verify_not_key_type
          header ← next_header
          n ← count header
          step_context
          new_scope kind n)
          r)
begin-Ends kind count r counts =
    Ends.bind verify_not_key_type _ r (verify_not_key_type-Ends r) λ x t (e, not_key).
      Ends.bind next_header _ t (next_header-Ends t) λ c u (e', some).
        Ends.bind (count c) _ u (counts c u (omega (arith, some, ap (λ r. length r.input) e')))
          λ n v (s, l).
            let scopes : v.scope ≡ r.scope = s ∙ ap (λ r. r.scope) (e' ∙ e) in
            Ends.bind step_context _ v (step_context-Ends v (subst NotKey (sym scopes) not_key))
              λ y w (room, counted, same).
                new_scope-Ends kind n r w (subst HasRoom scopes room) (counted ∙ ap one_less scopes)
                  (omega (arith, ap length same, ap (λ r. length r.input) (e' ∙ e)))

pub begin_array-Ends : (r : Reader) → Ends (λ key t. Opened type_array r key t) (begin_array r)
unfolding begin_array
begin_array-Ends r =
    begin-Ends type_array read_elem_count_array r λ c t h. read_elem_count-Ends _ _ _ c t h

pub begin_object-Ends : (r : Reader) → Ends (λ key t. Opened type_object r key t) (begin_object r)
unfolding begin_object
begin_object-Ends r =
    begin-Ends type_object read_elem_count_map r λ c t h. read_elem_count-Ends _ _ _ c t h
