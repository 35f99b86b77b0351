-- ===== src/Strutil/Unescape.antt =====
-- include/cpph/helper/strutil.hxx: `json_unescape` on what `json_escape` makes.
use cppheaders.Prelude.{
  ℕ, ◌<◌, ◌≡◌, refl, ap, ap₂, sym, ◌∙◌, Bool, true, false, not, ◌&&◌, ◌||◌, List, [], ◌∷◌, ◌++◌,
  arith, leb, ◌==◌, if◌then◌else◌,
}
use mathlib.Core.List.{append_assoc}
use cppheaders.Prelude.Bits.{passes, passes-below}
use cppheaders.Base64.RoundTrip.{AllBytes}
use cppheaders.Strutil.{
  is_print, short_escape, escape_ch, json_escape, Place, outside, behind, first_digit, second_digit,
  hexval, unescape_ch, unescape_from, json_unescape,
}

-- A character that no short escape stands for and that is not put as it is.
abbrev pub is_wide : ℕ → Bool
is_wide c =
    not (leb 128 c || (is_print c && not (c == 92) && not (c == 34))) && (short_escape c == 0)

-- Each such character with a zero before it.
abbrev pub widen : List ℕ → List ℕ
widen [] = []
widen (c ∷ cs) = (if is_wide c then 0 ∷ c ∷ [] else c ∷ []) ++ widen cs

abbrev same : List ℕ → List ℕ → Bool
same [] [] = true
same (x ∷ xs) (y ∷ ys) = (x == y) && same xs ys
same _ _ = false

same-eq : (xs ys : List ℕ) → same xs ys ≡ true → xs ≡ ys
same-eq [] [] h = refl
same-eq [] (y ∷ ys) h = ground arith
same-eq (x ∷ xs) [] h = ground arith
same-eq (x ∷ xs) (y ∷ ys) h = ap₂ (◌∷◌) (ground arith) (same-eq xs ys (ground arith))

abbrev is_outside : Place → Bool
is_outside outside = true
is_outside _ = false

is_outside-eq : (p : Place) → is_outside p ≡ true → p ≡ outside
is_outside-eq outside h = refl
is_outside-eq behind h = ground arith
is_outside-eq (first_digit b) h = ground arith
is_outside-eq (second_digit b d) h = ground arith

undone : ℕ → Bool
undone c =
    let (out, p) = unescape_from outside (escape_ch c) in same out (widen (c ∷ [])) && is_outside p

undone_table : passes undone 256 ≡ true
unfolding passes undone unescape_from escape_ch unescape_ch hexval
undone_table = refl

unescape_from-escape_ch :
    (c : ℕ) → c < 256 → unescape_from outside (escape_ch c) ≡ (widen (c ∷ []), outside)
unfolding undone
unescape_from-escape_ch c h =
    let all : undone c ≡ true = passes-below undone 256 undone_table c h in
    let r : List ℕ × Place = unescape_from outside (escape_ch c) in
    let put : r.0 ≡ widen (c ∷ []) = same-eq r.0 (widen (c ∷ [])) (ground arith) in
    let end : r.1 ≡ outside = is_outside-eq r.1 (ground arith) in λ i. (put i, end i)

unescape_from-append :
    (p : Place) (xs ys : List ℕ)
    → unescape_from p (xs ++ ys) ≡ (
      (unescape_from p xs).0 ++ (unescape_from (unescape_from p xs).1 ys).0,
      (unescape_from (unescape_from p xs).1 ys).1,
    )
unfolding unescape_from
unescape_from-append p [] ys = refl
unescape_from-append p (x ∷ xs) ys =
    let (out, q) = unescape_ch p x in
    ap (λ (more, end). (out ++ more, end)) (unescape_from-append q xs ys)
    ∙ ap (λ out. (out, (unescape_from (unescape_from q xs).1 ys).1))
        (sym (append_assoc out (unescape_from q xs).0 (unescape_from (unescape_from q xs).1 ys).0))

-- Of bytes that are escaped, `json_unescape` gives back each as it was, but a control character
-- without a short escape, and the character 127, as two bytes, the first of which is zero.
pub json_unescape-json_escape : (s : List ℕ) → AllBytes s → json_unescape (json_escape s) ≡ widen s
unfolding json_unescape json_escape unescape_from
json_unescape-json_escape [] h = refl
json_unescape-json_escape (c ∷ cs) (byte, h) =
    let w : List ℕ = if is_wide c then 0 ∷ c ∷ [] else c ∷ [] in
    let e : unescape_from outside (escape_ch c) ≡ (widen (c ∷ []), outside) =
      unescape_from-escape_ch c byte in
    ap (λ r. r.0) (unescape_from-append outside (escape_ch c) (json_escape cs))
    ∙ ap (λ r. r.0 ++ (unescape_from r.1 (json_escape cs)).0) e
    ∙ append_assoc w [] (json_unescape (json_escape cs))
    ∙ ap (λ xs. w ++ xs) (json_unescape-json_escape cs h)
