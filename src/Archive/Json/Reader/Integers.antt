-- ===== src/Archive/Json/Reader/Integers.antt =====
-- include/cpph/refl/archive/json-reader.hxx, json-writer.hxx: the text of an integer, printed and parsed.
use cppheaders.Prelude.{
  ℕ, zero, suc, ◌+◌, ◌-◌, ◌*◌, ◌/◌, ◌%◌, ◌^◌, ◌≤◌, ◌<◌, ◌≡◌, refl, ap, sym, ◌∙◌, true, false, none,
  some, List, [], ◌∷◌, ◌++◌, arith, ltb, leb, ◌==◌, if◌then◌else◌, ◌>>=◌, >>=-some, Bool-cases, inl,
  inr, ltb→lt, ltb→le,
}
use cppheaders.Archive.Json.Writer.{digits, to_chars}
use cppheaders.Archive.Json.Reader.Values.{
  is_digit, digits_from, plain, negated, negative, from_chars,
}

digits_from-append :
    (n : ℕ) (xs ys : List ℕ)
    → digits_from n (xs ++ ys) ≡ (digits_from n xs >>= λ m. digits_from m ys)
unfolding digits_from
digits_from-append n [] ys = refl
digits_from-append n (x ∷ xs) ys = elim (Bool-cases (is_digit x)) [
  | inl e ↦ rw (digits_from, e) (digits_from-append (n * 10 + (x - b'0')) xs ys)
  | inr e ↦ rw (digits_from, e) refl
]

digit_of : (n d : ℕ) → d < 10 → digits_from n ((b'0' + d) ∷ []) ≡ some (n * 10 + d)
unfolding digits_from
digit_of n d h =
    let e : is_digit (b'0' + d) ≡ true = ground (arith, h) in
    rw (digits_from, e) (ap some {x = n * 10 + (b'0' + d - b'0')} {y = n * 10 + d} (omega arith))

digits_one : (fuel v : ℕ) → ltb v 10 ≡ true → digits (suc fuel) v ≡ (b'0' + v) ∷ []
unfolding digits
digits_one fuel v e =
    ap (λ b. if b then (b'0' + v) ∷ [] else digits fuel (v / 10) ++ (b'0' + v % 10) ∷ []) e

digits_more :
    (fuel v : ℕ)
    → ltb v 10 ≡ false
    → digits (suc fuel) v ≡ digits fuel (v / 10) ++ (b'0' + v % 10) ∷ []
unfolding digits
digits_more fuel v e =
    ap (λ b. if b then (b'0' + v) ∷ [] else digits fuel (v / 10) ++ (b'0' + v % 10) ∷ []) e

digits_from-digits : (fuel v : ℕ) → v < 10 ^ suc fuel → digits_from 0 (digits (suc fuel) v) ≡ some v
digits_from-digits zero v h =
    ap (digits_from 0) (digits_one 0 v (ground (arith, h)))
    ∙ digit_of 0 v (omega arith)
    ∙ ap some {x = 0 * 10 + v} {y = v} (omega arith)
digits_from-digits (suc fuel) v h = elim (Bool-cases (ltb v 10)) [
  | inl e ↦
      ap (digits_from 0) (digits_one (suc fuel) v e)
      ∙ digit_of 0 v (ltb→lt v 10 e)
      ∙ ap some {x = 0 * 10 + v} {y = v} (omega arith)
  | inr e ↦
      ap (digits_from 0) (digits_more (suc fuel) v e)
      ∙ digits_from-append 0 (digits (suc fuel) (v / 10)) ((b'0' + v % 10) ∷ [])
      ∙ >>=-some (digits_from 0 (digits (suc fuel) (v / 10)))
          (λ m. digits_from m ((b'0' + v % 10) ∷ []))
          (digits_from-digits fuel (v / 10) (omega arith))
          (digit_of (v / 10) (v % 10) (omega arith)
            ∙ ap some {x = v / 10 * 10 + v % 10} {y = v} (omega arith))
]

append_cons : (xs ys : List ℕ) (y : ℕ) → (c : ℕ) × (cs : List ℕ) × (xs ++ y ∷ ys ≡ c ∷ cs)
append_cons [] ys y = (y, ys, refl)
append_cons (x ∷ xs) ys y = (x, xs ++ y ∷ ys, refl)

digits_cons : (fuel v : ℕ) → (c : ℕ) × (cs : List ℕ) × (digits (suc fuel) v ≡ c ∷ cs)
digits_cons fuel v = elim (Bool-cases (ltb v 10)) [
  | inl e ↦ (b'0' + v, [], digits_one fuel v e)
  | inr e ↦
      let (c, cs, same) = append_cons (digits fuel (v / 10)) [] (b'0' + v % 10) in
      (c, cs, digits_more fuel v e ∙ same)
]

no_sign : (c n : ℕ) (cs : List ℕ) → digits_from 0 (c ∷ cs) ≡ some n → (c == b'-') ≡ false
unfolding digits_from
no_sign c n cs h = elim (Bool-cases (is_digit c)) [
  | inl e ↦ ground (arith, e)
  | inr e ↦ absurd (
      ground
        (arith, sym (ap (λ b. if b then digits_from (0 * 10 + (c - b'0')) cs else none) e) ∙ h))
]

from_chars_plain :
    (old n : ℕ) (cs : List ℕ)
    → (c : ℕ) × (ds : List ℕ) × (cs ≡ c ∷ ds)
    → digits_from 0 cs ≡ some n
    → n < 2 ^ 63
    → from_chars old cs ≡ some n
unfolding from_chars
from_chars_plain old n cs (c, ds, same) h fits =
    let h' : digits_from 0 (c ∷ ds) ≡ some n = sym (ap (digits_from 0) same) ∙ h in
    let e : ltb n (2 ^ 63) ≡ true = ground (arith, fits) in
    ap (from_chars old) same
    ∙ ap (λ b. if b then negative old ds else plain old (digits_from 0 (c ∷ ds)))
        (no_sign c n ds h')
    ∙ ap (plain old) h'
    ∙ ap (λ b. some (if b then n else old)) e

from_chars_negative :
    (old n : ℕ) (cs : List ℕ)
    → (c : ℕ) × (ds : List ℕ) × (cs ≡ c ∷ ds)
    → digits_from 0 cs ≡ some n
    → n ≤ 2 ^ 63
    → from_chars old (b'-' ∷ cs) ≡ some ((2 ^ 64 - n) % 2 ^ 64)
unfolding from_chars negative
from_chars_negative old n cs (c, ds, same) h fits =
    let h' : digits_from 0 (c ∷ ds) ≡ some n = sym (ap (digits_from 0) same) ∙ h in
    let e : leb n (2 ^ 63) ≡ true = ground (arith, fits) in
    ap (negative old) same
    ∙ ap (negated old) h'
    ∙ ap (λ b. some (if b then (2 ^ 64 - n) % 2 ^ 64 else old)) e

-- What the writer prints for a 64-bit signed integer, given as its pattern, the reader takes as a whole
-- for the same integer, whatever the variable held before.
pub from_chars-to_chars : (old v : ℕ) → v < 2 ^ 64 → from_chars old (to_chars v) ≡ some v
unfolding to_chars
from_chars-to_chars old v h = elim (Bool-cases (ltb v (2 ^ 63))) [
  | inl e ↦
      let small : v < 2 ^ 63 = ltb→lt v (2 ^ 63) e in
      ap (λ b. from_chars old (if b then digits 20 v else b'-' ∷ digits 20 (2 ^ 64 - v))) e
      ∙ from_chars_plain old v (digits 20 v) (digits_cons 19 v)
          (digits_from-digits 19 v (omega arith)) small
  | inr e ↦
      let big : 2 ^ 63 ≤ v = ltb→le v (2 ^ 63) e in
      let n : ℕ = 2 ^ 64 - v in
      ap (λ b. from_chars old (if b then digits 20 v else b'-' ∷ digits 20 (2 ^ 64 - v))) e
      ∙ from_chars_negative old n (digits 20 n) (digits_cons 19 n)
          (digits_from-digits 19 n (omega arith)) (omega arith)
      ∙ ap some {x = (2 ^ 64 - n) % 2 ^ 64} {y = v} (omega arith)
]
