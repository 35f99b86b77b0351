-- ===== src/Base64/RoundTrip.antt =====
-- include/cpph/algorithm/base64.hxx: `decode_bytes` undoes `encode_bytes`, and the two sizes.
use Prim.Native.Nat.{bit_and}
use cppheaders.Prelude.{
  ℕ, ◌+◌, ◌-◌, ◌/◌, ◌%◌, ◌^◌, ◌≤◌, ◌<◌, ◌≡◌, ◌≢◌, refl, ◌∙◌, ap, arith, sym, Bool, true, false,
  Option, none, some, List, [], ◌∷◌, ◌++◌, leb, ◌==◌, length, length-append, get_elem?,
  get_elem?-append_right, le→leb,
}
use cppheaders.Prelude.Bits.{bit_and_mask}
use cppheaders.Base64.{
  Frame, frame_chars, encode_single_frame, encode_padded_1, encode_padded_2, encode_bytes, is_pad,
  finished, logic_error, decode_last_frame, decode_single_frame, decode_frames, decode_bytes,
  encoded_size, decoded_size, from_end,
}
use cppheaders.Base64.Tables.{encode_at-ne_pad}
use cppheaders.Base64.Frames.{
  one-eq, two-eq, single-eq, turned, decode_full, decode_last_full, decode_last_two,
  decode_last_one,
}

-- Every element is a byte.
abbrev pub AllBytes : List ℕ → Type 0
AllBytes [] = Unit {0}
AllBytes (x ∷ xs) = (x < 256) × AllBytes xs

-- The encoder writes `encoded_size` characters, whatever follows the data in memory.
pub length-encode_bytes :
    (beyond : ℕ → ℕ) (data' : List ℕ)
    → length (encode_bytes beyond data') ≡ encoded_size (length data')
unfolding encode_bytes encoded_size
length-encode_bytes beyond [] = refl
length-encode_bytes beyond (a ∷ []) = refl
length-encode_bytes beyond (a ∷ b ∷ []) = refl
length-encode_bytes beyond (a ∷ b ∷ c ∷ rest) = omega (arith, length-encode_bytes beyond rest)

frames_last :
    (f : Frame) (out : List ℕ)
    → decode_last_frame f ≡ some out
    → decode_frames (frame_chars f) ≡ some (length out == 0, out)
unfolding decode_frames
frames_last f out e = rw e refl

frames_next :
    (f : Frame) (e : ℕ) (rest : List ℕ) (out more : List ℕ) (worse : Bool)
    → decode_single_frame f ≡ some (false, out)
    → decode_frames (e ∷ rest) ≡ some (worse, more)
    → decode_frames (frame_chars f ++ (e ∷ rest)) ≡ some (worse, out ++ more)
unfolding decode_frames
frames_next f e rest out more worse p q = rw (p, q) refl

-- What is encoded of a list that is not empty begins with some character.
encode_bytes_cons :
    (beyond : ℕ → ℕ) (x : ℕ) (xs : List ℕ)
    → (e : ℕ) × (rest : List ℕ) × (encode_bytes beyond (x ∷ xs) ≡ e ∷ rest)
unfolding encode_bytes
encode_bytes_cons beyond a [] = (_, _, refl)
encode_bytes_cons beyond a (b ∷ []) = (_, _, refl)
encode_bytes_cons beyond a (b ∷ c ∷ rest) = (_, _, refl)

decode_frames-encode_bytes :
    (beyond : ℕ → ℕ) (x : ℕ) (xs : List ℕ)
    → AllBytes (x ∷ xs)
    → decode_frames (encode_bytes beyond (x ∷ xs)) ≡ some (false, x ∷ xs)
unfolding encode_bytes
decode_frames-encode_bytes beyond a [] h =
    frames_last _ (a ∷ []) (decode_last_one a h.0 (beyond 0) (beyond 1) (beyond 2))
decode_frames-encode_bytes beyond a (b ∷ []) h =
    frames_last _ (a ∷ b ∷ []) (decode_last_two a b h.0 h.1.0 (beyond 0) (beyond 1))
decode_frames-encode_bytes beyond a (b ∷ c ∷ []) h =
    frames_last _ (a ∷ b ∷ c ∷ []) (decode_last_full a b c h.0 h.1.0 h.1.1.0 (beyond 0))
decode_frames-encode_bytes beyond a (b ∷ c ∷ d ∷ rest) h =
    let (e, more, split) = encode_bytes_cons beyond d rest in
    ap (λ l. decode_frames (frame_chars (encode_single_frame a b c d) ++ l)) split
    ∙ frames_next (encode_single_frame a b c d) e more (a ∷ b ∷ c ∷ []) (d ∷ rest) false
        (decode_full a b c h.0 h.1.0 h.1.1.0 d)
        (ap decode_frames (sym split) ∙ decode_frames-encode_bytes beyond d rest h.1.1.1)

-- Decoding what was encoded of at least one element, each a byte, gives the bytes back, without
-- an error and without a fault, whatever stood behind the data when the encoder read past its
-- end.
pub decode_bytes-encode_bytes :
    (beyond : ℕ → ℕ) (x : ℕ) (xs : List ℕ)
    → AllBytes (x ∷ xs)
    → decode_bytes (encode_bytes beyond (x ∷ xs)) ≡ some (finished true (x ∷ xs))
unfolding decode_bytes encoded_size
decode_bytes-encode_bytes beyond x xs h =
    let n = length (encode_bytes beyond (x ∷ xs)) in
    let whole : bit_and n 0b11 ≡ 0 =
      bit_and_mask 2 n ∙ omega (arith, length-encode_bytes beyond (x ∷ xs)) in
    rw (whole, decode_frames-encode_bytes beyond x xs h) refl

-- The data of no byte is encoded to no character, which the decoder reads a frame before: it
-- reads outside its input.
pub decode_bytes_empty : (beyond : ℕ → ℕ) → decode_bytes (encode_bytes beyond []) ≡ none
unfolding decode_bytes encode_bytes decode_frames
decode_bytes_empty beyond = refl

-- A size that is no multiple of four is refused by an exception.
pub decode_bytes_size :
    (chars : List ℕ) → length chars % 4 ≢ 0 → decode_bytes chars ≡ some logic_error
unfolding decode_bytes
decode_bytes_size chars h =
    let e : (bit_and (length chars) 0b11 == 0) ≡ false =
      ground (arith, bit_and_mask 2 (length chars)) in
    rw e refl

from_end_append :
    (xs ys : List ℕ) (k : ℕ) → 0 < k → k ≤ length ys → from_end (xs ++ ys) k ≡ from_end ys k
from_end_append xs ys k pos le =
    let n = length-append xs ys in
    let inside : leb k (length (xs ++ ys)) ≡ true = le→leb _ _ (omega (arith, n)) in
    let at : length (xs ++ ys) - k ≡ length xs + (length ys - k) = omega (arith, n) in
    rw (inside, le→leb k (length ys) le)
      (ap (get_elem? (xs ++ ys)) at ∙ get_elem?-append_right xs ys (length ys - k))

is_pad-le : (o : Option ℕ) → is_pad o ≤ 1
is_pad-le none = omega arith
is_pad-le (some c) = ground arith

decoded_size_frame :
    (f : Frame) (ys : List ℕ)
    → 4 ≤ length ys
    → decoded_size (frame_chars f ++ ys) ≡ 3 + decoded_size ys
unfolding decoded_size
decoded_size_frame f ys long =
    let last = from_end_append (frame_chars f) ys 1 (omega arith) (omega arith) in
    let before = from_end_append (frame_chars f) ys 2 (omega arith) (omega arith) in
    rw (last, before) (omega (arith, is_pad-le (from_end ys 1), is_pad-le (from_end ys 2)))

decoded_size_one :
    (a : ℕ) (h : a < 256) (x y z : ℕ) → decoded_size (frame_chars (encode_padded_1 a x y z)) ≡ 1
unfolding decoded_size
decoded_size_one a h x y z = ap (λ f. decoded_size (frame_chars f)) (one-eq a h x y z)

decoded_size_two :
    (a b : ℕ) (ha : a < 256) (hb : b < 256) (x y : ℕ)
    → decoded_size (frame_chars (encode_padded_2 a b x y)) ≡ 2
unfolding decoded_size
decoded_size_two a b ha hb x y =
    ap (λ f. decoded_size (frame_chars f)) (two-eq a b ha hb x y)
    ∙ rw (encode_at-ne_pad (turned a b 0 / 2 ^ 6)) refl

decoded_size_three :
    (a b c : ℕ) (ha : a < 256) (hb : b < 256) (hc : c < 256) (d : ℕ)
    → decoded_size (frame_chars (encode_single_frame a b c d)) ≡ 3
unfolding decoded_size
decoded_size_three a b c ha hb hc d =
    ap (λ f. decoded_size (frame_chars f)) (single-eq a b c ha hb hc d)
    ∙ rw (encode_at-ne_pad (turned a b c / 2 ^ 6), encode_at-ne_pad (turned a b c)) refl

-- `decoded_size` of what was encoded of at least one element, each a byte, is the number of
-- bytes.
pub decoded_size-encode_bytes :
    (beyond : ℕ → ℕ) (x : ℕ) (xs : List ℕ)
    → AllBytes (x ∷ xs)
    → decoded_size (encode_bytes beyond (x ∷ xs)) ≡ length (x ∷ xs)
unfolding encode_bytes encoded_size
decoded_size-encode_bytes beyond a [] h = decoded_size_one a h.0 (beyond 0) (beyond 1) (beyond 2)
decoded_size-encode_bytes beyond a (b ∷ []) h = decoded_size_two a b h.0 h.1.0 (beyond 0) (beyond 1)
decoded_size-encode_bytes beyond a (b ∷ c ∷ []) h =
    decoded_size_three a b c h.0 h.1.0 h.1.1.0 (beyond 0)
decoded_size-encode_bytes beyond a (b ∷ c ∷ d ∷ rest) h =
    let long : 4 ≤ length (encode_bytes beyond (d ∷ rest)) =
      rw (length-encode_bytes beyond (d ∷ rest)) (omega arith) in
    decoded_size_frame (encode_single_frame a b c d) (encode_bytes beyond (d ∷ rest)) long
    ∙ omega (arith, decoded_size-encode_bytes beyond d rest h.1.1.1)
