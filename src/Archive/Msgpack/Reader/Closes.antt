-- ===== src/Archive/Msgpack/Reader/Closes.antt =====
-- include/cpph/refl/archive/msgpack-reader.hxx: which scopes `end_object` and `end_array` close.
use cppheaders.Prelude.{
  ℕ, suc, ◌+◌, ◌*◌, ◌≤◌, ◌<◌, ◌≡◌, refl, ap, sym, subst, ◌∙◌, true, false, List, [], ◌∷◌, ◌++◌,
  arith, length, Bool-cases, inl, inr,
}
use cppheaders.Archive.Run.Ends
use cppheaders.Archive.Run.Ends.{Ends, returns, throws}
use cppheaders.Archive.Msgpack.Reader.{
  ScopeKind, type_object, type_array, type_binary, Key, ReadScope, Reader, same_kind,
}
use cppheaders.Archive.Msgpack.Reader.Types.{same_key, calc_in, calc_num_break_scope}
use cppheaders.Archive.Msgpack.Reader.Skip.{
  times, end_scope, break_scope, end_object, end_array, fuel_for,
}
use cppheaders.Archive.Msgpack.Reader.Skips.{Roomy, break-on}

same_kind-eq : (a b : ScopeKind) → same_kind a b ≡ true → a ≡ b
same_kind-eq type_object type_object h = refl
same_kind-eq type_array type_array h = refl
same_kind-eq type_binary type_binary h = refl
same_kind-eq type_object type_array h = ground arith
same_kind-eq type_object type_binary h = ground arith
same_kind-eq type_array type_object h = ground arith
same_kind-eq type_array type_binary h = ground arith
same_kind-eq type_binary type_object h = ground arith
same_kind-eq type_binary type_array h = ground arith

-- Of `inner` no scope has the key.
abbrev pub NoneHas : Key → List ReadScope → Type 0
NoneHas key [] = Unit {0}
NoneHas key (s ∷ rest) = (same_key s.ctxkey key ≡ false) × NoneHas key rest

-- The innermost scope of the key, which has the kind, stands between `inner` and `outer`.
abbrev pub Splits : ScopeKind → Key → List ReadScope → List ReadScope → List ReadScope → Type 0
Splits kind key scopes inner outer =
    (s : ReadScope) × (scopes ≡ inner ++ s ∷ outer)
    × (same_key s.ctxkey key ≡ true)
    × (s.kind ≡ kind)
    × NoneHas key inner

calc_in-Ends :
    (scopes : List ReadScope) (kind : ScopeKind) (key : Key) (r : Reader)
    → Ends
        (λ n t.
          (t ≡ r)
          × (inner : List ReadScope) × (outer : List ReadScope) × Splits kind key scopes inner outer
          × (n ≡ suc (length inner)))
        (calc_in scopes kind key r)
unfolding calc_in
calc_in-Ends [] kind key r = throws refl
calc_in-Ends (s ∷ rest) kind key r =
    Ends.either (same_key s.ctxkey key) _ _ r
      (λ e. elim (Bool-cases (same_kind s.kind kind)) [
        | inl k ↦
            rw k (returns (refl, [], rest, (s, refl, e, same_kind-eq s.kind kind k, tt), refl))
        | inr k ↦ rw k (throws refl)
      ])
      λ e.
        Ends.bind (calc_in rest kind key) _ r (calc_in-Ends rest kind key r)
          λ n t (same, inner, outer, (x, split, k, kd, none), count).
            returns (
              same,
              s ∷ inner,
              outer,
              (x, ap (◌∷◌ s) split, k, kd, (e, none)),
              omega (arith, count),
            )

module _ (grow : ℕ → ℕ) (cap : ℕ) where
  times-Ends :
      (f : ℕ) (inner : List ReadScope) (s : ReadScope) (outer : List ReadScope) (r : Reader)
      → r.scope ≡ inner ++ s ∷ outer
      → Roomy cap r
      → 2 * length r.input + 1 < f
      → Ends
          (λ u t. (t.scope ≡ outer) × (length t.input ≤ length r.input))
          (times (suc (length inner)) (break_scope grow f cap) r)
  unfolding times
  times-Ends f [] s outer r e roomy h =
      Ends.bind (break_scope grow f cap) _ r (break-on grow cap f r s outer e roomy h)
        λ u t (left, l). returns (left, l)
  times-Ends f (x ∷ inner) s outer r e roomy h =
      Ends.bind (break_scope grow f cap) _ r
        (break-on grow cap f r x (inner ++ s ∷ outer) e roomy h)
        λ u t (left, l).
          Ends.mono
            (times-Ends f inner s outer t left
              (omega (arith, roomy, l, ap length e, ap length left)) (omega (arith, h, l)))
            λ y v (left', l'). (left', omega (arith, l, l'))

  end_scope-Closes :
      (kind : ScopeKind) (key : Key) (r : Reader)
      → Roomy cap r
      → Ends
          (λ u t. (inner : List ReadScope) × Splits kind key r.scope inner t.scope)
          (end_scope (break_scope grow (fuel_for r) cap) kind key r)
  unfolding end_scope calc_num_break_scope
  end_scope-Closes kind key r roomy =
      Ends.bind (calc_num_break_scope kind key) _ r (calc_in-Ends r.scope kind key r)
        λ n t (same, inner, outer, (s, split, k, kd, none), count).
          Ends.mono
            (subst
              (λ n.
                Ends (λ u v. (v.scope ≡ outer) × (length v.input ≤ length t.input))
                  (times n (break_scope grow (fuel_for r) cap) t))
              (sym count)
              (times-Ends (fuel_for r) inner s outer t (ap (λ r. r.scope) same ∙ split)
                (omega (arith, roomy, ap (λ r. length r.scope) same, ap (λ r. length r.input) same))
                (omega (arith, ap (λ r. length r.input) same))))
            λ u v (left, l). (inner, (s, split ∙ ap (λ o. inner ++ s ∷ o) (sym left), k, kd, none))

  -- Whatever is left unread in them, if as many scopes as there are scopes and bytes fit in the
  -- capacity of the vector of the scopes, `end_array` and `end_object` come to an end for every key
  -- and use no pointer that dangles; where they return, a scope of the kind has the key, and the
  -- innermost scope with that key and the scopes inside it are closed, and no others.
  pub end_array-Closes :
      (key : Key) (r : Reader)
      → Roomy cap r
      → Ends
          (λ u t. (inner : List ReadScope) × Splits type_array key r.scope inner t.scope)
          (end_array grow cap key r)
        × Ends
            (λ u t. (inner : List ReadScope) × Splits type_object key r.scope inner t.scope)
            (end_object grow cap key r)
  unfolding end_array end_object
  end_array-Closes key r roomy =
      (end_scope-Closes type_array key r roomy, end_scope-Closes type_object key r roomy)
