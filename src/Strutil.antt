-- ===== src/Strutil.antt =====
-- include/cpph/helper/strutil.hxx: escapes in text, and the check of UTF-8. A `char` is a signed byte,
-- given here as a number below 256, so that one of 128 or more is negative.
pub mod Unescape
pub mod Utf8
mod Tests
use Prim.Native.Nat.{bit_and}
use cppheaders.Prelude.{
  ℕ, zero, suc, ◌+◌, ◌-◌, ◌*◌, ◌/◌, ◌%◌, ◌^◌, Bool, true, false, not, ◌&&◌, ◌||◌, List, [], ◌∷◌,
  ◌++◌, ltb, leb, ◌==◌, if◌then◌else◌, length,
}

-- `isprint` in the C locale
abbrev pub is_print : ℕ → Bool
is_print c = leb 32 c && leb c 126

-- `table[d]`
abbrev pub hex_digit : ℕ → ℕ
hex_digit d = if ltb d 10 then b'0' + d else b'a' + (d - 10)

-- The letter of a short escape, or 0.
abbrev pub short_escape : ℕ → ℕ
short_escape c =
    if c == 7
    then b'a'
    else if c == 8
    then b'b'
    else if c == 12
    then b'f'
    else if c == 10
    then b'n'
    else if c == 13
    then b'r'
    else if c == 9
    then b't'
    else if c == 11
    then b'v'
    else if c == 92
    then 92
    else if c == 39
    then 39
    else if c == 34
    then 34
    else if c == 63
    then 63
    else 0

-- `_escape_ch` of a `char`
unfoldable pub escape_ch : ℕ → List ℕ
escape_ch ch =
    if leb 128 ch || (is_print ch && not (ch == 92) && not (ch == 34))
    then ch ∷ []
    else if not (short_escape ch == 0)
    then 92 ∷ short_escape ch ∷ []
    else 92
      ∷ b'u'
      ∷ hex_digit (bit_and ch 0xf000 / 2 ^ 12)
      ∷ hex_digit (bit_and ch 0x0f00 / 2 ^ 8)
      ∷ hex_digit (bit_and ch 0x00f0 / 2 ^ 4)
      ∷ hex_digit (bit_and ch 0x000f)
      ∷ []

unfoldable pub json_escape : List ℕ → List ℕ
unfolding escape_ch
json_escape [] = []
json_escape (ch ∷ chs) = escape_ch ch ++ json_escape chs

-- One character of `hexval`, as a `char`.
abbrev pub hex_char : ℕ → ℕ
hex_char c = if leb b'a' c && ltb c 128 then c - b'a' + 10 else ((c + 208) % 256)

-- `hexval`, of which `*out++` keeps a byte.
unfoldable pub hexval : ℕ → ℕ → ℕ
hexval hi lo = (hex_char hi * 16 + hex_char lo) % 256

-- Where `json_unescape` reads its next character: outside an escape, behind the backslash, or the
-- first or second digit of a byte; `again` says that the digits of another byte follow.
pub data Place : Type 0 where
  outside behind : Place
  first_digit : Bool → Place
  second_digit : Bool → ℕ → Place

-- The character of a short escape, none for other letters.
abbrev pub short_unescape : ℕ → List ℕ
short_unescape c =
    if c == b'a'
    then 7 ∷ []
    else if c == b'b'
    then 8 ∷ []
    else if c == b'f'
    then 12 ∷ []
    else if c == b'n'
    then 10 ∷ []
    else if c == b'r'
    then 13 ∷ []
    else if c == b't'
    then 9 ∷ []
    else if c == b'v'
    then 11 ∷ []
    else if (c == 92) || (c == 39) || (c == 34) || (c == 63)
    then c ∷ []
    else []

-- One character of `json_unescape`: what is put out, and where the next one is read.
unfoldable pub unescape_ch : Place → ℕ → List ℕ × Place
unfolding hexval
unescape_ch outside ch = if ch == 92 then ([], behind) else (ch ∷ [], outside)
unescape_ch behind ch =
    if ch == b'u'
    then ([], first_digit true)
    else if ch == b'x'
    then ([], first_digit false)
    else (short_unescape ch, outside)
unescape_ch (first_digit again) ch = ([], second_digit again ch)
unescape_ch (second_digit again hi) ch =
    (hexval hi ch ∷ [], if again then first_digit false else outside)

-- What is put out from a place, and the place at the end.
unfoldable pub unescape_from : Place → List ℕ → List ℕ × Place
unfolding unescape_ch
unescape_from p [] = ([], p)
unescape_from p (ch ∷ chs) =
    let (out, q) = unescape_ch p ch in let (more, end) = unescape_from q chs in (out ++ more, end)

unfoldable pub json_unescape : List ℕ → List ℕ
unfolding unescape_from
json_unescape s = (unescape_from outside s).0

-- A byte of its own, or the first of a sequence, after which one and so many bytes more follow, or
-- neither.
pub data Lead : Type 0 where
  ascii no_lead : Lead
  lead : ℕ → Lead

unfoldable pub lead_of : ℕ → Lead
lead_of c =
    if leb c 0x7f
    then ascii
    else if bit_and c 0xe0 == 0xc0
    then lead 0
    else if bit_and c 0xf0 == 0xe0
    then lead 1
    else if bit_and c 0xf8 == 0xf0
    then lead 2
    else no_lead

unfoldable pub is_continuation : ℕ → Bool
is_continuation c = bit_and c 0xc0 == 0x80

-- `validate_utf8` between two bytes: outside a sequence, or with some bytes in `shelf`, and one and
-- `more` bytes to come.
pub data Sequence : Type 0 where
  idle : Sequence
  shelved : List ℕ → ℕ → Sequence

unfoldable pub utf8_byte : Sequence → ℕ → List ℕ × Sequence
unfolding lead_of is_continuation
utf8_byte idle c = elim (lead_of c) [
  | ascii ↦ (c ∷ [], idle)
  | lead more ↦ ([], shelved (c ∷ []) more)
  | no_lead ↦ ([], idle)
]
utf8_byte (shelved shelf more) c = elim (is_continuation c) [
  | false ↦ ([], idle)
  | true ↦ elim more [ zero ↦ (shelf ++ c ∷ [], idle) | suc m ↦ ([], shelved (shelf ++ c ∷ []) m) ]
]

-- The bytes put out, and their number.
unfoldable pub validate_from : Sequence → List ℕ → List ℕ × ℕ
unfolding utf8_byte
validate_from s [] = ([], 0)
validate_from s (c ∷ cs) =
    let (out, t) = utf8_byte s c in
    let (more, new_size) = validate_from t cs in (out ++ more, length out + new_size)

unfoldable pub validate_utf8 : List ℕ → List ℕ × ℕ
unfolding validate_from
validate_utf8 bytes = validate_from idle bytes
