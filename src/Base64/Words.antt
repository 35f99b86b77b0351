-- ===== src/Base64/Words.antt =====
-- include/cpph/algorithm/base64.hxx: the words of 24 bits as numbers.
use Prim.Native.Nat.{bit_and, bit_or}
use cppheaders.Prelude.{ℕ, ◌+◌, ◌*◌, ◌/◌, ◌^◌, ◌<◌, ◌≡◌, ◌∙◌, ap, ap₂, arith}
use cppheaders.Prelude.Bits.{bit_and_mask, bit_and_window, bit_or_fields}
use cppheaders.Base64.{load32, swap24, u32}

pub swap24-eq :
    (a b c : ℕ)
    → a < 256
    → b < 256
    → c < 256
    → swap24 (a + b * 2 ^ 8 + c * 2 ^ 16) ≡ c + b * 2 ^ 8 + a * 2 ^ 16
unfolding swap24
swap24-eq a b c ha hb hc =
    let w = a + b * 2 ^ 8 + c * 2 ^ 16 in
    let low : bit_and w 0x0000ff ≡ a = bit_and_mask 8 w ∙ omega arith in
    let mid : bit_and w 0x00ff00 ≡ b * 2 ^ 8 = bit_and_window 8 8 w ∙ omega arith in
    let high : bit_and w 0xff0000 ≡ c * 2 ^ 16 = bit_and_window 16 8 w ∙ omega arith in
    let shifted : u32 (bit_and w 0x0000ff * 2 ^ 16) ≡ a * 2 ^ 16 = omega (arith, low) in
    let down : bit_and w 0xff0000 / 2 ^ 16 ≡ c = omega (arith, high) in
    let upper : bit_or (a * 2 ^ 16) (b * 2 ^ 8) ≡ (a * 2 ^ 8 + b) * 2 ^ 8 =
      bit_or_fields 16 a (b * 2 ^ 8) (omega arith) ∙ omega arith in
    ap₂ bit_or (ap₂ bit_or shifted mid) down
    ∙ ap (λ t. bit_or t c) upper
    ∙ bit_or_fields 8 (a * 2 ^ 8 + b) c (omega arith)
    ∙ omega arith

-- The bytes that the three masks keep of a loaded word.
pub load32_three :
    (a b c d : ℕ)
    → a < 256
    → b < 256
    → c < 256
    → bit_and (load32 a b c d) 0x00ffffff ≡ a + b * 2 ^ 8 + c * 2 ^ 16
load32_three a b c d ha hb hc = bit_and_mask 24 (load32 a b c d) ∙ omega arith

pub load32_two :
    (a b c d : ℕ)
    → a < 256
    → b < 256
    → bit_and (load32 a b c d) 0x0000ffff ≡ a + b * 2 ^ 8 + 0 * 2 ^ 16
load32_two a b c d ha hb = bit_and_mask 16 (load32 a b c d) ∙ omega arith

pub load32_one :
    (a b c d : ℕ) → a < 256 → bit_and (load32 a b c d) 0x000000ff ≡ a + 0 * 2 ^ 8 + 0 * 2 ^ 16
load32_one a b c d ha = bit_and_mask 8 (load32 a b c d) ∙ omega arith
