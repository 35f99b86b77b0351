-- ===== src/Base64/Frames.antt =====
-- include/cpph/algorithm/base64.hxx: a frame that was encoded is decoded to its bytes.
use Prim.Native.Nat.{bit_and}
use cppheaders.Prelude.{
  ℕ, ◌+◌, ◌-◌, ◌*◌, ◌/◌, ◌%◌, ◌^◌, ◌<◌, ◌≡◌, refl, ◌∙◌, ap, ap₂, arith, false, some, [], ◌∷◌, leb,
  ◌==◌, >>=-some, take,
}
use cppheaders.Prelude.Bits.{bit_and_mask}
use cppheaders.Base64.{
  Frame, swap24, u32, encode_at, encode_word, encode_single_frame, encode_padded_1, encode_padded_2,
  decode_at, decode_single, decode_single_frame, decode_last_frame, word_bytes,
}
use cppheaders.Base64.Tables.{decode_at-encode_at, encode_at-ne_pad, decode_at_pad}
use cppheaders.Base64.Words.{swap24-eq, load32_three, load32_two, load32_one}

module _ (f : Frame) (d0 d1 d2 d3 : ℕ) where
  abbrev sum : ℕ
  sum = d0 * 2 ^ 18 + d1 * 2 ^ 12 + d2 * 2 ^ 6 + d3

  -- Four digits make one word, and none of them is an error.
  decode_single-digits :
      decode_at f.c0 ≡ some d0
      → decode_at f.c1 ≡ some d1
      → decode_at f.c2 ≡ some d2
      → decode_at f.c3 ≡ some d3
      → d0 < 64
      → d1 < 64
      → d2 < 64
      → d3 < 64
      → decode_single f ≡ some (swap24 sum)
  unfolding decode_single
  decode_single-digits e0 e1 e2 e3 h0 h1 h2 h3 =
      let n0 : leb 128 d0 ≡ false = ground arith in
      let n1 : leb 128 d1 ≡ false = ground arith in
      let n2 : leb 128 d2 ≡ false = ground arith in
      let n3 : leb 128 d3 ≡ false = ground arith in
      let word : u32 sum ≡ sum = omega arith in rw (e0, e1, e2, e3, n0, n1, n2, n3, word) refl

-- The three bytes of a word.
word_bytes-eq :
    (a b c : ℕ)
    → a < 256
    → b < 256
    → c < 256
    → word_bytes (a + b * 2 ^ 8 + c * 2 ^ 16) ≡ a ∷ b ∷ c ∷ []
word_bytes-eq a b c ha hb hc =
    let w = a + b * 2 ^ 8 + c * 2 ^ 16 in
    let first : bit_and w 0xff ≡ a = bit_and_mask 8 w ∙ omega arith in
    let second : bit_and (w / 2 ^ 8) 0xff ≡ b = bit_and_mask 8 (w / 2 ^ 8) ∙ omega arith in
    let third : bit_and (w / 2 ^ 16) 0xff ≡ c = bit_and_mask 8 (w / 2 ^ 16) ∙ omega arith in
    rw (first, second, third) refl

-- Three bytes as one word, and the word that is cut into digits.
abbrev pub packed : ℕ → ℕ → ℕ → ℕ
packed a b c = a + b * 2 ^ 8 + c * 2 ^ 16

abbrev pub turned : ℕ → ℕ → ℕ → ℕ
turned a b c = c + b * 2 ^ 8 + a * 2 ^ 16

abbrev pub full : ℕ → ℕ → ℕ → Frame
full a b c = record {
  c0 = encode_at (turned a b c / 2 ^ 18);
  c1 = encode_at (turned a b c / 2 ^ 12);
  c2 = encode_at (turned a b c / 2 ^ 6);
  c3 = encode_at (turned a b c);
}

module _ (a b c : ℕ) (ha : a < 256) (hb : b < 256) (hc : c < 256) where
  there : swap24 (packed a b c) ≡ turned a b c
  there = swap24-eq a b c ha hb hc

  back : swap24 (turned a b c) ≡ packed a b c
  back = swap24-eq c b a hc hb ha

  -- A word that was encoded, with its last characters replaced by others.
  decode_single-frame :
      (f : Frame) (d2 d3 : ℕ)
      → f.c0 ≡ encode_at (turned a b c / 2 ^ 18)
      → f.c1 ≡ encode_at (turned a b c / 2 ^ 12)
      → decode_at f.c2 ≡ some d2
      → decode_at f.c3 ≡ some d3
      → d2 ≡ turned a b c / 2 ^ 6 % 64
      → d3 ≡ turned a b c % 64
      → decode_single f ≡ some (packed a b c)
  decode_single-frame f d2 d3 e0 e1 e2 e3 h2 h3 =
      let whole : sum f (turned a b c / 2 ^ 18 % 64) (turned a b c / 2 ^ 12 % 64) d2 d3
          ≡ turned a b c =
        omega arith in
      decode_single-digits f (turned a b c / 2 ^ 18 % 64) (turned a b c / 2 ^ 12 % 64) d2 d3
        (ap decode_at e0 ∙ decode_at-encode_at (turned a b c / 2 ^ 18))
        (ap decode_at e1 ∙ decode_at-encode_at (turned a b c / 2 ^ 12)) e2 e3 (omega arith)
        (omega arith) (omega arith) (omega arith)
      ∙ ap some (ap swap24 whole ∙ back)

  bytes_lt : packed a b c < 2 ^ 32 - 1
  bytes_lt = omega arith

  bytes_ok : (packed a b c == (2 ^ 32 - 1)) ≡ false
  bytes_ok = ground arith

  encode_word-eq : encode_word (packed a b c) ≡ full a b c
  unfolding encode_word
  encode_word-eq = rw there refl

  pub single-eq : (d : ℕ) → encode_single_frame a b c d ≡ full a b c
  unfolding encode_single_frame
  single-eq d = ap encode_word (load32_three a b c d ha hb hc) ∙ encode_word-eq

  decode_single-full : (d : ℕ) → decode_single (encode_single_frame a b c d) ≡ some (packed a b c)
  decode_single-full d =
      ap decode_single (single-eq d)
      ∙ decode_single-frame (full a b c) (turned a b c / 2 ^ 6 % 64) (turned a b c % 64) refl refl
          (decode_at-encode_at (turned a b c / 2 ^ 6)) (decode_at-encode_at (turned a b c)) refl
          refl

  -- A frame of three bytes before the last.
  pub decode_full :
      (d : ℕ) → decode_single_frame (encode_single_frame a b c d) ≡ some (false, a ∷ b ∷ c ∷ [])
  unfolding decode_single_frame
  decode_full d =
      >>=-some (decode_single (encode_single_frame a b c d)) _ (decode_single-full d)
        (ap₂ (λ x ys. some (x, ys)) bytes_ok (word_bytes-eq a b c ha hb hc))

  -- A last frame of three bytes.
  pub decode_last_full :
      (d : ℕ) → decode_last_frame (encode_single_frame a b c d) ≡ some (a ∷ b ∷ c ∷ [])
  unfolding decode_last_frame
  decode_last_full d =
      let second : ((encode_single_frame a b c d).c2 == b'=') ≡ false =
        ap (λ f. f.c2 == b'=') (single-eq d) ∙ encode_at-ne_pad (turned a b c / 2 ^ 6) in
      let first : ((encode_single_frame a b c d).c3 == b'=') ≡ false =
        ap (λ f. f.c3 == b'=') (single-eq d) ∙ encode_at-ne_pad (turned a b c) in
      >>=-some (decode_single (encode_single_frame a b c d)) _ (decode_single-full d)
        (rw (bytes_ok, first, second, word_bytes-eq a b c ha hb hc) refl)

-- Last frames of two bytes and of one, whatever the bytes `x`, `y` and `z` behind them.
module _ (a b : ℕ) (ha : a < 256) (hb : b < 256) (x y : ℕ) where
  pub two-eq : encode_padded_2 a b x y ≡ record (full a b 0) { c3 = b'=' }
  unfolding encode_padded_2
  two-eq =
      let pad : Frame → Frame = λ f. record f { c3 = b'=' } in
      ap pad (ap encode_word (load32_two a b x y ha hb) ∙ encode_word-eq a b 0 ha hb (omega arith))

  pub decode_last_two : decode_last_frame (encode_padded_2 a b x y) ≡ some (a ∷ b ∷ [])
  unfolding decode_last_frame
  decode_last_two =
      let word =
        decode_single-frame a b 0 ha hb (omega arith) (record (full a b 0) { c3 = b'=' })
          (turned a b 0 / 2 ^ 6 % 64) 0 refl refl (decode_at-encode_at (turned a b 0 / 2 ^ 6))
          decode_at_pad refl (omega arith) in
      ap decode_last_frame two-eq
      ∙ >>=-some (decode_single (record (full a b 0) { c3 = b'=' })) _ word (
          rw (bytes_ok a b 0 ha hb (omega arith), encode_at-ne_pad (turned a b 0 / 2 ^ 6))
            (ap (λ ys. some (take 2 ys)) (word_bytes-eq a b 0 ha hb (omega arith))))

module _ (a : ℕ) (ha : a < 256) (x y z : ℕ) where
  pub one-eq : encode_padded_1 a x y z ≡ record (full a 0 0) { c2 = b'='; c3 = b'=' }
  unfolding encode_padded_1
  one-eq =
      let pad : Frame → Frame = λ f. record f { c2 = b'='; c3 = b'=' } in
      ap pad (
        ap encode_word (load32_one a x y z ha)
        ∙ encode_word-eq a 0 0 ha (omega arith) (omega arith))

  pub decode_last_one : decode_last_frame (encode_padded_1 a x y z) ≡ some (a ∷ [])
  unfolding decode_last_frame
  decode_last_one =
      let word =
        decode_single-frame a 0 0 ha (omega arith) (omega arith)
          (record (full a 0 0) { c2 = b'='; c3 = b'=' }) 0 0 refl refl decode_at_pad decode_at_pad
          (omega arith) (omega arith) in
      ap decode_last_frame one-eq
      ∙ >>=-some (decode_single (record (full a 0 0) { c2 = b'='; c3 = b'=' })) _ word (
          rw (bytes_ok a 0 0 ha (omega arith) (omega arith))
            (ap (λ ys. some (take 1 ys)) (word_bytes-eq a 0 0 ha (omega arith) (omega arith))))
