-- ===== src/Archive/Msgpack/Reader/Consumes.antt =====
-- include/cpph/refl/archive/msgpack-reader.hxx: how much of the stream the reader's steps take.
use cppheaders.Prelude.{
  ℕ, zero, suc, ◌+◌, ◌-◌, ◌*◌, ◌%◌, ◌^◌, ◌≤◌, ◌<◌, min, ◌≡◌, refl, ap, ◌∙◌, true, List, [], ◌∷◌,
  arith, ◌==◌, length, take, drop, length-take, length-drop, Bool-cases, inl, inr,
}
use cppheaders.Archive.Run.{
  Outcome, reader_unexpected_end_of_file, type_mismatch, returned, thrown, Run, ◌>>=◌, ◌>>◌, pure,
  throw,
}
use cppheaders.Archive.Msgpack.Codes.{bool_false, uint8, int8}
use cppheaders.Archive.Run.Ends
use cppheaders.Archive.Run.Ends.{Ends, returns, throws}
use cppheaders.Archive.Msgpack.Reader.{
  Reader, next_header, typecode, number_of, other, sbumpc, sign_extend, get_n_big_e, bump_n_big_e,
  fixed, flag, floating, unsigned, signed, read_number, read_elem_count,
}
use cppheaders.Archive.Msgpack.Reader.Scopes.{discard_rounds}

-- At least one byte is read, and no scope changes.
abbrev pub Shorter : Reader → Reader → Type 0
Shorter r t = (t.scope ≡ r.scope) × (length t.input < length r.input)

abbrev pub NoLonger : Reader → Reader → Type 0
NoLonger r t = (t.scope ≡ r.scope) × (length t.input ≤ length r.input)

pub next_header-Ends : (r : Reader) → Ends (λ c t. (t ≡ r) × (0 < length r.input)) (next_header r)
next_header-Ends r = on r.input refl
  where
    on :
        (xs : List ℕ)
        → r.input ≡ xs
        → Ends
            (λ c t. (t ≡ r) × (0 < length r.input))
            (elim xs as (λ xs. Outcome Reader ℕ) [
              | [] ↦ thrown reader_unexpected_end_of_file r
              | c ∷ cs ↦ returned c r
            ])
    on [] e = throws refl
    on (c ∷ cs) e = returns (refl, omega (arith, ap length e))

pub sbumpc-Ends :
    (r : Reader) → Ends (λ c t. NoLonger r t × (0 < length r.input → Shorter r t)) (sbumpc r)
sbumpc-Ends r = on r.input refl
  where
    on :
        (xs : List ℕ)
        → r.input ≡ xs
        → Ends
            (λ c t. NoLonger r t × (0 < length r.input → Shorter r t))
            (elim xs as (λ xs. Outcome Reader ℕ) [
              | [] ↦ returned 255 r
              | c ∷ cs ↦ returned c (record r { input = cs })
            ])
    on [] e = returns ((refl, omega arith), λ h. absurd (omega (arith, ap length e)))
    on (c ∷ cs) e =
        returns ((refl, omega (arith, ap length e)), λ h. (refl, omega (arith, ap length e)))

pub get_n_big_e-Ends : (w : ℕ) (r : Reader) → Ends (λ v t. NoLonger r t) (get_n_big_e w r)
unfolding get_n_big_e
get_n_big_e-Ends zero r = returns (refl, omega arith)
get_n_big_e-Ends (suc w) r = Ends.bind sbumpc _ r (sbumpc-Ends r) λ c t ((s, l), h).
    Ends.bind (get_n_big_e w) _ t (get_n_big_e-Ends w t)
      λ v u (s', l'). returns (s' ∙ s, omega arith)

pub bump_n_big_e-Ends :
    (w : ℕ) (r : Reader) → 0 < length r.input → Ends (λ v t. Shorter r t) (bump_n_big_e w r)
unfolding bump_n_big_e
bump_n_big_e-Ends w r h = Ends.bind sbumpc _ r (sbumpc-Ends r) λ c t (g, k).
    let (s, l) = k h in Ends.mono (get_n_big_e-Ends w t) λ v u (s', l'). (s' ∙ s, omega arith)

pub sbumpc-Shorter : (r : Reader) → 0 < length r.input → Ends (λ c t. Shorter r t) (sbumpc r)
sbumpc-Shorter r h = Ends.mono (sbumpc-Ends r) λ c t (g, k). k h

pub read_number-Ends :
    (f : ℕ → ℕ → ℕ) (bits header : ℕ) (r : Reader)
    → 0 < length r.input
    → Ends (λ v t. Shorter r t) (read_number f bits header r)
unfolding read_number
read_number-Ends f bits header r h =
    let t : ℕ = typecode header in
    elim (number_of t)
      as (λ n.
        Ends (λ v t. Shorter r t)
          (elim n as (λ n. Run Reader ℕ) [
            | fixed ↦ (sbumpc >> pure (sign_extend 8 bits header))
            | flag ↦ (sbumpc >> pure (t - bool_false))
            | floating ↦ (bump_n_big_e (4 * (t - 201)) >>= λ v. pure (f (4 * (t - 201)) v))
            | unsigned ↦ (bump_n_big_e (2 ^ (t - uint8)) >>= λ v. pure (v % 2 ^ bits))
            | signed ↦
                (bump_n_big_e (2 ^ (t - int8)) >>= λ v.
                pure (sign_extend (8 * 2 ^ (t - int8)) bits v))
            | other ↦ throw type_mismatch
          ]
            r)) [
              | fixed ↦ Ends.bind sbumpc _ r (sbumpc-Shorter r h) λ c t s. returns s
              | flag ↦ Ends.bind sbumpc _ r (sbumpc-Shorter r h) λ c t s. returns s
              | floating ↦
                  Ends.bind (bump_n_big_e _) _ r (bump_n_big_e-Ends _ r h) λ c t s. returns s
              | unsigned ↦
                  Ends.bind (bump_n_big_e _) _ r (bump_n_big_e-Ends _ r h) λ c t s. returns s
              | signed ↦ Ends.bind (bump_n_big_e _) _ r (bump_n_big_e-Ends _ r h) λ c t s. returns s
              | other ↦ throws refl
            ]

pub read_elem_count-Ends :
    (base fix mask header : ℕ) (r : Reader)
    → 0 < length r.input
    → Ends (λ v t. Shorter r t) (read_elem_count base fix mask header r)
unfolding read_elem_count
read_elem_count-Ends base fix mask header r h =
    let t : ℕ = typecode header in
    Ends.either (t == fix) _ _ r (λ e. Ends.bind sbumpc _ r (sbumpc-Shorter r h) λ c u s. returns s)
      λ e.
        Ends.either (t == base) _ _ r (λ e. bump_n_big_e-Ends 1 r h)
          λ e.
            Ends.either (t == base + 1) _ _ r (λ e. bump_n_big_e-Ends 2 r h)
              λ e. Ends.either (t == base + 2) _ _ r (λ e. bump_n_big_e-Ends 4 r h) λ e. throws refl

-- As many bytes were there as were asked for.
pub taken : (n : ℕ) (xs : List ℕ) → (length (take n xs) == n) ≡ true → n ≤ length xs
taken n xs q = ground (arith, length-take n xs)

pub discard_rounds-Ends :
    (fuel bytes : ℕ) (r : Reader)
    → Ends
        (λ u t. NoLonger r t × (0 < bytes → 0 < fuel → length t.input < length r.input))
        (discard_rounds fuel bytes r)
unfolding discard_rounds
discard_rounds-Ends zero bytes r = returns ((refl, omega arith), λ h h'. absurd (omega arith))
discard_rounds-Ends (suc fuel) bytes r =
    Ends.either (bytes == 0) _ _ r (λ e. returns ((refl, omega arith), λ h h'. ground (arith, e)))
      λ e. elim (Bool-cases (length (take (min 256 bytes) r.input) == min 256 bytes)) [
        | inl q ↦ rw q (
            Ends.mono
              (discard_rounds-Ends fuel (bytes - min 256 bytes)
                (record r { input = drop (min 256 bytes) r.input }))
              λ u t ((s, l), k). (
                (s, omega (arith, l, length-drop (min 256 bytes) r.input)),
                λ h h'. omega (
                  arith,
                  l,
                  length-drop (min 256 bytes) r.input,
                  taken (min 256 bytes) r.input q,
                ),
              ))
        | inr q ↦ rw q (throws refl)
      ]
