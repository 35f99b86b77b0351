-- ===== src/Base64/Tables.antt =====
-- include/cpph/algorithm/base64.hxx: the two tables are inverse.
use Prim.Native.Nat.{bit_and}
use cppheaders.Prelude.{
  ℕ, ◌%◌, ◌<◌, ◌≡◌, refl, sym, ◌∙◌, ap, Bool, true, false, ◌&&◌, not, Option, none, some, arith,
  ◌==◌,
}
use cppheaders.Prelude.Bits.{passes, passes-below, bit_and_mask}
use cppheaders.Base64.{encode_at, decode_at}

-- At one digit: the character is ASCII, it is not the padding, and it is decoded to the digit.
digit_test : ℕ → Bool
digit_test i = elim (decode_at (encode_at i)) [
  | none ↦ false
  | some d ↦ (d == i) && not (encode_at i == b'=')
]

digits_table : passes digit_test 64 ≡ true
unfolding passes digit_test decode_at encode_at
digits_table = refl

-- `digit_test`, read off.
digit_test_sound :
    (i : ℕ) (o : Option ℕ)
    → (elim o [ none ↦ false | some d ↦ (d == i) && not (encode_at i == b'=') ]) ≡ true
    → (o ≡ some i) × ((encode_at i == b'=') ≡ false)
digit_test_sound i none h = absurd (ground (arith, h))
digit_test_sound i (some d) h = ground (arith, h)

digit : (i : ℕ) → i < 64 → (decode_at (encode_at i) ≡ some i) × ((encode_at i == b'=') ≡ false)
unfolding digit_test
digit i h =
    digit_test_sound i (decode_at (encode_at i)) (passes-below digit_test 64 digits_table i h)

encode_at-mod : (x : ℕ) → encode_at x ≡ encode_at (x % 64)
unfolding encode_at
encode_at-mod x =
    let e : bit_and x 63 ≡ bit_and (x % 64) 63 =
      bit_and_mask 6 x ∙ omega arith ∙ sym (bit_and_mask 6 (x % 64)) in
    rw (e, encode_at) refl

-- A digit's character is decoded to the six bits that were encoded, and is never the padding.
pub decode_at-encode_at : (x : ℕ) → decode_at (encode_at x) ≡ some (x % 64)
decode_at-encode_at x = ap decode_at (encode_at-mod x) ∙ (digit (x % 64) (omega arith)).0

pub encode_at-ne_pad : (x : ℕ) → (encode_at x == b'=') ≡ false
encode_at-ne_pad x = ap (λ c. c == b'=') (encode_at-mod x) ∙ (digit (x % 64) (omega arith)).1

pub decode_at_pad : decode_at b'=' ≡ some 0
unfolding decode_at
decode_at_pad = refl
