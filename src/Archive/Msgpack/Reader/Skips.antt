-- ===== src/Archive/Msgpack/Reader/Skips.antt =====
-- include/cpph/refl/archive/msgpack-reader.hxx: what `_skip_once` leaves, whatever the stream holds.
use cppheaders.Prelude.{
  [], max, if◌then◌else◌, ℕ, zero, suc, ◌+◌, ◌-◌, ◌*◌, ◌%◌, ◌^◌, ◌≤◌, ◌<◌, ◌≡◌, refl, ap, sym,
  subst, ◌∙◌, Bool, true, false, leb, ◌||◌, List, ◌∷◌, arith, ◌==◌, length, Bool-cases, inl, inr,
}
use cppheaders.Archive.Run.{Run, ◌>>=◌, ◌>>◌, pure}
use cppheaders.Archive.Msgpack.Codes.{
  fixmap, fixarray, fixstr, code_error, nil, bin8, ext8, fixext1, str8, array16, array32, map16,
  map32,
}
use cppheaders.Archive.Run.Ends
use cppheaders.Archive.Run.Ends.{Ends, returns, throws}
use cppheaders.Archive.Msgpack.Reader.{
  ScopeKind, type_object, type_array, type_binary, same_kind, Key, ReadScope, Reader, next_header,
  typecode, read_number, read_elem_count, read_elem_count_str, read_elem_count_bin,
}
use cppheaders.Archive.Msgpack.Reader.Scopes.{
  is_key_order, scope_ref, pop_back, begin_object, begin_array,
}
use cppheaders.Archive.Msgpack.Reader.Types.{between, calc_num_break_scope, same_key}
use cppheaders.Archive.Msgpack.Reader.Skip.{
  times, end_scope, grown, skip_inside, skip_item, is_number, skip_once, skip, mark_key,
  break_scope,
}
use cppheaders.Archive.Msgpack.Reader.Consumes.{
  next_header-Ends, read_number-Ends, read_elem_count-Ends,
}
use cppheaders.Archive.Msgpack.Reader.Counts.{
  one_less, Skipped, finish_skip-short, finish_skip-long, Opened, begin_array-Ends,
  begin_object-Ends,
}

-- The capacity suffices for a scope for every byte that is left.
abbrev pub Roomy : ℕ → Reader → Type 0
Roomy cap r = length r.scope + length r.input ≤ cap

-- `break_scope` closes the innermost scope of a stream shorter than `n`.
abbrev Breaks : ℕ → ℕ → Run Reader (Unit {0}) → Type 0
Breaks cap n break_scope =
    (r : Reader) (s : ReadScope) (rest : List ReadScope)
    → r.scope ≡ s ∷ rest
    → Roomy cap r
    → length r.input < n
    → Ends (λ u t. (t.scope ≡ rest) × (length t.input ≤ length r.input)) (break_scope r)

pub length-one_less : (scopes : List ReadScope) → length (one_less scopes) ≡ length scopes
length-one_less [] = refl
length-one_less (s ∷ rest) = refl

-- Where no pointer is held, a push moves the elements without harm.
pub skip_inside-free :
    (brk : ℕ → Run Reader (Unit {0})) (grow : ℕ → ℕ) (held : Bool) (cap : ℕ) (kind : ScopeKind)
    (key : Key) (r : Reader)
    → (held ≡ true → length r.scope ≤ cap)
    → skip_inside brk grow held cap kind key r
      ≡ (end_scope (brk (grown grow cap (length r.scope))) kind key >>= λ _. pure 0) r
unfolding skip_inside
skip_inside-free brk grow false cap kind key r fits = refl
skip_inside-free brk grow true cap kind key r fits =
    let e : leb (length r.scope) cap ≡ true = ground (arith, fits refl) in rw (skip_inside, e) refl

-- A push within the capacity leaves the pointers valid.
skip_inside-fits :
    (brk : ℕ → Run Reader (Unit {0})) (grow : ℕ → ℕ) (held : Bool) (cap : ℕ) (kind : ScopeKind)
    (key : Key) (r : Reader)
    → length r.scope ≤ cap
    → skip_inside brk grow held cap kind key r ≡ (end_scope (brk cap) kind key >>= λ _. pure 0) r
skip_inside-fits brk grow held cap kind key r le =
    let fits : leb (length r.scope) cap ≡ true = ground (arith, le) in
    skip_inside-free brk grow held cap kind key r (λ _. le)
    ∙ ap
        (λ b.
          (end_scope (brk (if b then cap else max (length r.scope) (grow cap))) kind key >>= λ _.
          pure 0)
            r)
        fits

pub same_kind_self : (k : ScopeKind) → same_kind k k ≡ true
same_kind_self type_object = refl
same_kind_self type_array = refl
same_kind_self type_binary = refl

pub same_key_self : (k : Key) → same_key k k ≡ true
same_key_self k = ground arith

calc-Ends :
    (t : Reader) (s : ReadScope) (rest : List ReadScope) {kind : ScopeKind} {key : Key}
    → t.scope ≡ s ∷ rest
    → s.kind ≡ kind
    → s.ctxkey ≡ key
    → Ends (λ n u. (n ≡ 1) × (u ≡ t)) (calc_num_break_scope kind key t)
unfolding calc_num_break_scope
calc-Ends t s rest scopes kd k =
    rw (scopes, sym kd, sym k, same_key_self s.ctxkey, same_kind_self s.kind) (returns (refl, refl))

end_scope-Ends :
    (brk : Run Reader (Unit {0})) (kind : ScopeKind) (cap n : ℕ) (r t : Reader) (key : Key)
    → Breaks cap n brk
    → Roomy cap r
    → length r.input ≤ n
    → Opened kind r key t
    → Ends {A = ℕ} (λ x u. Skipped r u) ((end_scope brk kind key >>= λ _. pure 0) t)
unfolding end_scope times
end_scope-Ends brk kind cap n r t key breaks roomy enough (room, s, scopes, k, kd, l) =
    let same_length = length-one_less r.scope in
    Ends.bind (end_scope brk kind key) _ t
      (Ends.bind {Q = λ x u. (u.scope ≡ one_less r.scope) × (length u.input ≤ length t.input)}
        (calc_num_break_scope kind key) _ t (calc-Ends t s (one_less r.scope) scopes kd k)
        λ m u (one, same).
          subst
            (λ m.
              Ends (λ x u. (u.scope ≡ one_less r.scope) × (length u.input ≤ length t.input))
                (times m brk u))
            (sym one)
            (Ends.bind brk _ u
              (breaks u s (one_less r.scope) (ap (λ r. r.scope) same ∙ scopes)
                (omega (
                  arith,
                  ap (λ r. length r.scope) same,
                  ap length scopes,
                  same_length,
                  ap (λ r. length r.input) same,
                ))
                (omega (arith, ap (λ r. length r.input) same)))
              λ x v (s', l'). returns (s', omega (arith, l', ap (λ r. length r.input) same))))
      λ x u (s', l'). returns (room, s', omega (arith, l', l))

skip_inside-Ends :
    (brk : ℕ → Run Reader (Unit {0})) (grow : ℕ → ℕ) (held : Bool) (cap : ℕ) (kind : ScopeKind)
    (r t : Reader) (key : Key)
    → Breaks cap (length r.input) (brk cap)
    → Roomy cap r
    → Opened kind r key t
    → Ends (λ x u. Skipped r u) (skip_inside brk grow held cap kind key t)
skip_inside-Ends brk grow held cap kind r t key breaks roomy o =
    let (room, s, scopes, k, kd, l) = o in
    subst (λ o. Ends (λ x u. Skipped r u) o)
      (sym (
        skip_inside-fits brk grow held cap kind key t
          (omega (arith, ap length scopes, length-one_less r.scope, l, roomy))))
      (end_scope-Ends (brk cap) kind cap (length r.input) r t key breaks roomy (omega arith) o)

skip_item-Ends :
    (grow : ℕ → ℕ) (brk : ℕ → Run Reader (Unit {0})) (held : Bool) (cap header : ℕ) (r : Reader)
    → 0 < length r.input
    → Roomy cap r
    → Breaks cap (length r.input) (brk cap)
    → Ends (λ n t. Skipped r t) (skip_item grow brk held cap header r)
unfolding skip_item
skip_item-Ends grow brk held cap header r some roomy breaks =
    let t : ℕ = typecode header in
    Ends.either (is_number t) _ _ r
      (λ e.
        Ends.bind (read_number (λ w v. 0) 64 header) _ r
          (read_number-Ends (λ w v. 0) 64 header r some) λ v u s. finish_skip-short 0 r u s)
      λ e.
        Ends.either ((t == fixstr) || between str8 (str8 + 2) t) _ _ r
          (λ e.
            Ends.bind (read_elem_count_str header) _ r (read_elem_count-Ends _ _ _ header r some)
              λ v u s. finish_skip-short v r u s)
          λ e.
            Ends.either (between bin8 (bin8 + 2) t) _ _ r
              (λ e.
                Ends.bind (read_elem_count_bin header) _ r
                  (read_elem_count-Ends _ _ _ header r some) λ v u s. finish_skip-short v r u s)
              λ e.
                Ends.either ((t == fixarray) || (t == array16) || (t == array32)) _ _ r
                  (λ e.
                    Ends.bind begin_array _ r (begin_array-Ends r) λ key u o.
                      skip_inside-Ends brk grow held cap type_array r u key breaks roomy o)
                  λ e.
                    Ends.either ((t == fixmap) || (t == map16) || (t == map32)) _ _ r
                      (λ e. Ends.bind begin_object _ r (begin_object-Ends r) λ key u o.
                        skip_inside-Ends brk grow held cap type_object r u key breaks roomy o)
                      λ e.
                        Ends.either (t == nil) _ _ r (λ e. finish_skip-long 1 r (omega arith))
                          λ e.
                            Ends.either (between fixext1 (fixext1 + 4) t) _ _ r
                              (λ e. finish_skip-long (2 + 2 ^ (t - fixext1)) r (omega arith))
                              λ e.
                                Ends.either (between ext8 (ext8 + 2) t) _ _ r
                                  (λ e.
                                    Ends.bind (read_elem_count ext8 code_error 0 header) _ r
                                      (read_elem_count-Ends _ _ _ header r some)
                                      λ v u s. finish_skip-short ((v + 1) % 2 ^ 32) r u s)
                                  λ e. throws refl

scope_ref-Ends :
    (r : Reader) (s : ReadScope) (rest : List ReadScope)
    → r.scope ≡ s ∷ rest
    → Ends (λ x t. (x ≡ s) × (t.scope ≡ s ∷ rest) × (t.input ≡ r.input)) (scope_ref r)
unfolding scope_ref
scope_ref-Ends r s rest e = rw e (returns (refl, refl, refl))

pop_back-Ends :
    (r : Reader) (s : ReadScope) (rest : List ReadScope)
    → r.scope ≡ s ∷ rest
    → Ends (λ u t. (t.scope ≡ rest) × (t.input ≡ r.input)) (pop_back r)
pop_back-Ends r s rest e = rw e (returns (refl, refl))

mark_key-Ends :
    (x : ReadScope) (r : Reader) (s : ReadScope) (rest : List ReadScope)
    → r.scope ≡ s ∷ rest
    → Ends (λ u t. (s' : ReadScope) × (t.scope ≡ s' ∷ rest) × (t.input ≡ r.input)) (mark_key x r)
mark_key-Ends x r s rest e = elim (Bool-cases (is_key_order x)) [
  | inl k ↦ rw (k, e) (returns (_, refl, refl))
  | inr k ↦ rw (k, e) (returns (_, refl, refl))
]

module _ (grow : ℕ → ℕ) (cap : ℕ) where
  mutual
    unfolding skip_once

    pub skip-on :
        (f : ℕ) (held : Bool) (r : Reader)
        → Roomy cap r
        → 2 * length r.input < f
        → Ends (λ n t. Skipped r t) (skip_once grow f held cap r)
    skip-on zero held r roomy h = absurd (omega arith)
    skip-on (suc f) held r roomy h = Ends.bind next_header _ r (next_header-Ends r) λ c t (e, some).
        subst (λ t. Ends (λ n u. Skipped r u) (skip_item grow (break_scope grow f) held cap c t))
          (sym e)
          (skip_item-Ends grow (break_scope grow f) held cap c r some roomy
            λ u s rest scopes roomy' l. break-on f u s rest scopes roomy' (omega (arith, h, l)))

    pub break-on :
        (f : ℕ) (r : Reader) (s : ReadScope) (rest : List ReadScope)
        → r.scope ≡ s ∷ rest
        → Roomy cap r
        → 2 * length r.input + 1 < f
        → Ends
            (λ u t. (t.scope ≡ rest) × (length t.input ≤ length r.input))
            (break_scope grow f cap r)
    break-on zero r s rest e roomy h = absurd (omega arith)
    break-on (suc f) r s rest e roomy h =
        Ends.bind scope_ref _ r (scope_ref-Ends r s rest e) λ x t (xs, scopes, same).
          elim (x.elems_left == 0)
            as (λ b.
              Ends (λ u v. (v.scope ≡ rest) × (length v.input ≤ length r.input))
                (elim b as (λ b. Run Reader (Unit {0})) [
                  | true ↦ pop_back
                  | false ↦ mark_key x >> (skip_once grow f true cap >> break_scope grow f cap)
                ]
                  t)) [
                    | true ↦
                        Ends.mono (pop_back-Ends t s rest scopes) λ u v (left, same').
                          (left, omega (arith, ap length same, ap length same'))
                    | false ↦
                        Ends.bind (mark_key x) _ t (mark_key-Ends x t s rest scopes)
                          λ u v (s', marked, same').
                            Ends.bind (skip_once grow f true cap) _ v
                              (skip-on f true v
                                (omega (
                                  arith,
                                  roomy,
                                  ap length e,
                                  ap length marked,
                                  ap length same,
                                  ap length same',
                                ))
                                (omega (arith, h, ap length same, ap length same')))
                              λ n w (room, counted, l).
                                Ends.mono
                                  (break-on f w _ rest (counted ∙ ap one_less marked)
                                    (omega (
                                      arith,
                                      roomy,
                                      ap length e,
                                      ap length marked,
                                      ap length counted,
                                      length-one_less v.scope,
                                      l,
                                      ap length same,
                                      ap length same',
                                    ))
                                    (omega (arith, h, l, ap length same, ap length same')))
                                  λ y z (left, l').
                                    (left, omega (arith, l, l', ap length same, ap length same'))
                  ]

  -- Whatever the stream holds and in whatever scopes, if as many scopes as there are scopes and bytes
  -- fit in the capacity of the vector of the scopes, `read(nullptr)` comes to an end and uses no
  -- pointer that dangles; where it returns, the innermost scope had an element left and has one less,
  -- no other scope changed, and at least one byte was read.
  pub skip-Skipped : (r : Reader) → Roomy cap r → Ends (λ n t. Skipped r t) (skip grow cap r)
  unfolding skip
  skip-Skipped r roomy = skip-on (2 * length r.input + 2) false r roomy (omega arith)
