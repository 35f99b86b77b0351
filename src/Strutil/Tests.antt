-- ===== src/Strutil/Tests.antt =====
-- include/cpph/helper/strutil.hxx on concrete text.
use cppheaders.Prelude.{ℕ, ◌≡◌, refl, List, [], ◌∷◌, arith, length}
use cppheaders.Strutil.{json_escape, escape_ch, json_unescape, validate_utf8}
use cppheaders.Strutil.Unescape.{json_unescape-json_escape}
use cppheaders.Strutil.Utf8.{
  WellFormed, empty, single, several, AllContinue, validate_utf8-WellFormed, validate_utf8_whole,
}

-- A quote, a line feed, a letter and the character 1.
abbrev sample : List ℕ
sample = 34 ∷ 10 ∷ 97 ∷ 1 ∷ []

escape_sample :
    json_escape sample ≡ 92 ∷ 34 ∷ 92 ∷ b'n' ∷ b'a' ∷ 92 ∷ b'u' ∷ b'0' ∷ b'0' ∷ b'0' ∷ b'1' ∷ []
unfolding json_escape escape_ch
escape_sample = refl

json_unescape-json_escape_example : json_unescape (json_escape sample) ≡ 34 ∷ 10 ∷ 97 ∷ 0 ∷ 1 ∷ []
json_unescape-json_escape_example =
    json_unescape-json_escape sample (omega arith, (omega arith, (omega arith, (omega arith, tt))))

-- `aé`, then a first byte without its second.
abbrev text : List ℕ
text = 97 ∷ 195 ∷ 169 ∷ 195 ∷ []

validate_text : validate_utf8 text ≡ (97 ∷ 195 ∷ 169 ∷ [], 3)
unfolding validate_utf8
validate_text = refl

validate_utf8-WellFormed_example :
    WellFormed (validate_utf8 text).0 × ((validate_utf8 text).1 ≡ length (validate_utf8 text).0)
validate_utf8-WellFormed_example =
    validate_utf8-WellFormed text (omega arith, (omega arith, (omega arith, (omega arith, tt))))

text-WellFormed : WellFormed (97 ∷ 195 ∷ 169 ∷ [])
unfolding AllContinue
text-WellFormed = single 97 (195 ∷ 169 ∷ []) (omega arith) (
    several 195 0 (169 ∷ []) [] (omega arith, omega arith) refl (omega arith, omega arith, tt)
      empty)

validate_utf8_whole_example : validate_utf8 (97 ∷ 195 ∷ 169 ∷ []) ≡ (97 ∷ 195 ∷ 169 ∷ [], 3)
validate_utf8_whole_example = validate_utf8_whole (97 ∷ 195 ∷ 169 ∷ []) text-WellFormed
