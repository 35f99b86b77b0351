-- ===== src/Base64.antt =====
-- include/cpph/algorithm/base64.hxx: encoding of bytes in frames of four characters, and back. A
-- byte or a character is a number below 256; `char` is signed, and the byte order little-endian, as
-- on the platforms the library is built for.
pub mod Tables
pub mod Words
pub mod Frames
pub mod RoundTrip
pub mod Tests
use Prim.Native.Nat.{bit_and, bit_or}
use Prim.Native.String.{String}
use Prim.Native.Char.{code}
use cppheaders.Prelude.{
  ℕ, zero, suc, ◌+◌, ◌-◌, ◌*◌, ◌/◌, ◌%◌, ◌^◌, Bool, true, false, not, ◌||◌, Option, none, some,
  List, [], ◌∷◌, ◌++◌, ltb, leb, ◌==◌, if◌then◌else◌, ◌>>=◌, ◌>>◌, assert, length, get_elem?, take,
}

abbrev codes : String → List ℕ
codes String.[] = []
codes (String.◌∷◌ c s) = code c ∷ codes s

unfoldable pub tb_encode : List ℕ
tb_encode = codes "ABCDEFGHIJKLMNOPQRSTUVWXYZabcdefghijklmnopqrstuvwxyz0123456789+/"

unfoldable pub tb_decode : List ℕ
tb_decode =
    0xff ∷ 0xff ∷ 0xff ∷ 0xff ∷ 0xff ∷ 0xff ∷ 0xff ∷ 0xff ∷ 0xff ∷ 0xff ∷ 0xff ∷ 0xff ∷ 0xff ∷ 0xff
    ∷ 0xff ∷ 0xff ∷ 0xff ∷ 0xff ∷ 0xff ∷ 0xff ∷ 0xff ∷ 0xff ∷ 0xff ∷ 0xff ∷ 0xff ∷ 0xff ∷ 0xff
    ∷ 0xff ∷ 0xff ∷ 0xff ∷ 0xff ∷ 0xff ∷ 0xff ∷ 0xff ∷ 0xff ∷ 0xff ∷ 0xff ∷ 0xff ∷ 0xff ∷ 0xff
    ∷ 0xff ∷ 0xff ∷ 0xff ∷ 0x3e ∷ 0xff ∷ 0xff ∷ 0xff ∷ 0x3f ∷ 0x34 ∷ 0x35 ∷ 0x36 ∷ 0x37 ∷ 0x38
    ∷ 0x39 ∷ 0x3a ∷ 0x3b ∷ 0x3c ∷ 0x3d ∷ 0xff ∷ 0xff ∷ 0xff ∷ 0x00 ∷ 0xff ∷ 0xff ∷ 0xff ∷ 0x00
    ∷ 0x01 ∷ 0x02 ∷ 0x03 ∷ 0x04 ∷ 0x05 ∷ 0x06 ∷ 0x07 ∷ 0x08 ∷ 0x09 ∷ 0x0a ∷ 0x0b ∷ 0x0c ∷ 0x0d
    ∷ 0x0e ∷ 0x0f ∷ 0x10 ∷ 0x11 ∷ 0x12 ∷ 0x13 ∷ 0x14 ∷ 0x15 ∷ 0x16 ∷ 0x17 ∷ 0x18 ∷ 0x19 ∷ 0xff
    ∷ 0xff ∷ 0xff ∷ 0xff ∷ 0xff ∷ 0xff ∷ 0x1a ∷ 0x1b ∷ 0x1c ∷ 0x1d ∷ 0x1e ∷ 0x1f ∷ 0x20 ∷ 0x21
    ∷ 0x22 ∷ 0x23 ∷ 0x24 ∷ 0x25 ∷ 0x26 ∷ 0x27 ∷ 0x28 ∷ 0x29 ∷ 0x2a ∷ 0x2b ∷ 0x2c ∷ 0x2d ∷ 0x2e
    ∷ 0x2f ∷ 0x30 ∷ 0x31 ∷ 0x32 ∷ 0x33 ∷ 0xff ∷ 0xff ∷ 0xff ∷ 0xff ∷ 0xff ∷ 0xff ∷ 0xff ∷ 0xff
    ∷ 0xff ∷ 0xff ∷ 0xff ∷ 0xff ∷ 0xff ∷ 0xff ∷ 0xff ∷ 0xff ∷ 0xff ∷ 0xff ∷ 0xff ∷ 0xff ∷ 0xff
    ∷ 0xff ∷ 0xff ∷ 0xff ∷ 0xff ∷ 0xff ∷ 0xff ∷ 0xff ∷ 0xff ∷ 0xff ∷ 0xff ∷ 0xff ∷ 0xff ∷ 0xff
    ∷ 0xff ∷ 0xff ∷ 0xff ∷ 0xff ∷ 0xff ∷ 0xff ∷ 0xff ∷ 0xff ∷ 0xff ∷ 0xff ∷ 0xff ∷ 0xff ∷ 0xff
    ∷ 0xff ∷ 0xff ∷ 0xff ∷ 0xff ∷ 0xff ∷ 0xff ∷ 0xff ∷ 0xff ∷ 0xff ∷ 0xff ∷ 0xff ∷ 0xff ∷ 0xff
    ∷ 0xff ∷ 0xff ∷ 0xff ∷ 0xff ∷ 0xff ∷ 0xff ∷ 0xff ∷ 0xff ∷ 0xff ∷ 0xff ∷ 0xff ∷ 0xff ∷ 0xff
    ∷ 0xff ∷ 0xff ∷ 0xff ∷ 0xff ∷ 0xff ∷ 0xff ∷ 0xff ∷ 0xff ∷ 0xff ∷ 0xff ∷ 0xff ∷ 0xff ∷ 0xff
    ∷ 0xff ∷ 0xff ∷ 0xff ∷ 0xff ∷ 0xff ∷ 0xff ∷ 0xff ∷ 0xff ∷ 0xff ∷ 0xff ∷ 0xff ∷ 0xff ∷ 0xff
    ∷ 0xff ∷ 0xff ∷ 0xff ∷ 0xff ∷ 0xff ∷ 0xff ∷ 0xff ∷ 0xff ∷ 0xff ∷ 0xff ∷ 0xff ∷ 0xff ∷ 0xff
    ∷ 0xff ∷ 0xff ∷ 0xff ∷ 0xff ∷ 0xff ∷ 0xff ∷ 0xff ∷ 0xff ∷ 0xff ∷ 0xff ∷ 0xff ∷ 0xff ∷ 0xff
    ∷ 0xff ∷ 0xff ∷ 0xff ∷ 0xff ∷ 0xff ∷ 0xff ∷ 0xff ∷ 0xff ∷ []

-- `frame_t` and `bytes_t`
pub record Frame : Type 0 where
  pub c0 : ℕ
  pub c1 : ℕ
  pub c2 : ℕ
  pub c3 : ℕ

abbrev pub u32 : ℕ → ℕ
u32 n = n % 2 ^ 32

-- `*(uint32_t const*)bytes`
abbrev pub load32 : ℕ → ℕ → ℕ → ℕ → ℕ
load32 a b c d = a + b * 2 ^ 8 + c * 2 ^ 16 + d * 2 ^ 24

-- The first and the third byte of a word change places.
unfoldable pub swap24 : ℕ → ℕ
swap24 b =
    bit_or (bit_or (u32 (bit_and b 0x0000ff * 2 ^ 16)) (bit_and b 0x00ff00))
      (bit_and b 0xff0000 / 2 ^ 16)

-- `tb_encode[i]`; the mask keeps the index in the table.
unfoldable pub encode_at : ℕ → ℕ
unfolding tb_encode
encode_at i = elim (get_elem? tb_encode (bit_and i 0b111111)) [ none ↦ 0 | some c ↦ c ]

unfoldable pub encode_word : ℕ → Frame
unfolding swap24 encode_at
encode_word w =
    let b = swap24 w in
    record {
      c0 = encode_at (b / 2 ^ 18);
      c1 = encode_at (b / 2 ^ 12);
      c2 = encode_at (b / 2 ^ 6);
      c3 = encode_at b;
    }

-- `encode_single_frame(bytes_t const*)`: it loads four bytes and keeps three.
unfoldable pub encode_single_frame : ℕ → ℕ → ℕ → ℕ → Frame
unfolding encode_word
encode_single_frame a b c d = encode_word (bit_and (load32 a b c d) 0x00ffffff)

-- `encode_single_frame_with_padding` for a length of one and of two bytes
unfoldable pub encode_padded_1 : ℕ → ℕ → ℕ → ℕ → Frame
unfolding encode_word
encode_padded_1 a b c d = record (encode_word (bit_and (load32 a b c d) 0x000000ff)) {
  c2 = b'=';
  c3 = b'=';
}

unfoldable pub encode_padded_2 : ℕ → ℕ → ℕ → ℕ → Frame
unfolding encode_word
encode_padded_2 a b c d = record (encode_word (bit_and (load32 a b c d) 0x0000ffff)) { c3 = b'=' }

abbrev pub frame_chars : Frame → List ℕ
frame_chars f = f.c0 ∷ f.c1 ∷ f.c2 ∷ f.c3 ∷ []

-- The byte that follows: one of the data, or the memory `beyond` it.
abbrev pub following : List ℕ → (ℕ → ℕ) → ℕ
following [] beyond = beyond 0
following (x ∷ xs) beyond = x

unfoldable pub encode_bytes : (ℕ → ℕ) → List ℕ → List ℕ
encode_bytes beyond [] = []
encode_bytes beyond (a ∷ []) = frame_chars (encode_padded_1 a (beyond 0) (beyond 1) (beyond 2))
encode_bytes beyond (a ∷ b ∷ []) = frame_chars (encode_padded_2 a b (beyond 0) (beyond 1))
encode_bytes beyond (a ∷ b ∷ c ∷ rest) =
    frame_chars (encode_single_frame a b c (following rest beyond)) ++ encode_bytes beyond rest

-- `tb_decode[frame[i]]`: a character of 128 or more is a negative index, outside the table.
unfoldable pub decode_at : ℕ → Option ℕ
unfolding tb_decode
decode_at c = if ltb c 128 then get_elem? tb_decode c else none

-- `_decode_single`: the word, or all ones where a character is no digit.
unfoldable pub decode_single : Frame → Option ℕ
unfolding swap24
decode_single f = do
  d0 ← decode_at f.c0
  d1 ← decode_at f.c1
  d2 ← decode_at f.c2
  d3 ← decode_at f.c3
  let b = u32 (d0 * 2 ^ 18 + d1 * 2 ^ 12 + d2 * 2 ^ 6 + d3)
  let has_error = leb 128 d0 || leb 128 d1 || leb 128 d2 || leb 128 d3
  some (if has_error then 2 ^ 32 - 1 else swap24 b)

abbrev pub word_bytes : ℕ → List ℕ
word_bytes v = bit_and v 0xff ∷ bit_and (v / 2 ^ 8) 0xff ∷ bit_and (v / 2 ^ 16) 0xff ∷ []

-- The error flag and the three bytes.
unfoldable pub decode_single_frame : Frame → Option (Bool × List ℕ)
decode_single_frame f = do v ← decode_single f; some (v == (2 ^ 32 - 1), word_bytes v)

-- The bytes of the last frame, none of them at an error.
unfoldable pub decode_last_frame : Frame → Option (List ℕ)
decode_last_frame f = do
  v ← decode_single f
  let len = 3 - (if f.c3 == b'=' then 1 else 0) - (if f.c2 == b'=' then 1 else 0)
  some (take (if v == (2 ^ 32 - 1) then 0 else len) (word_bytes v))

pub data Decoded : Type 0 where
  logic_error : Decoded
  finished : Bool → List ℕ → Decoded

-- The loop over the frames: whether an error was met, and the bytes written. The last frame is read
-- also where the data is empty, before its start.
unfoldable pub decode_frames : List ℕ → Option (Bool × List ℕ)
decode_frames (a ∷ b ∷ c ∷ d ∷ []) = do
  out ← decode_last_frame (record { c0 = a; c1 = b; c2 = c; c3 = d })
  some (length out == 0, out)
decode_frames (a ∷ b ∷ c ∷ d ∷ e ∷ rest) =
    decode_single_frame (record { c0 = a; c1 = b; c2 = c; c3 = d }) >>= λ (bad, out).
    decode_frames (e ∷ rest) >>= λ (worse, more). some (bad || worse, out ++ more)
decode_frames _ = none

unfoldable pub decode_bytes : List ℕ → Option Decoded
decode_bytes chars =
    if not (bit_and (length chars) 0b11 == 0)
    then some logic_error
    else (decode_frames chars >>= λ (bad, out). some (finished (not bad) out))

unfoldable pub encoded_size : ℕ → ℕ
encoded_size n = (n + 2) / 3 * 4

-- The character `k` places before the end.
abbrev pub from_end : List ℕ → ℕ → Option ℕ
from_end xs k = if leb k (length xs) then get_elem? xs (length xs - k) else none

abbrev pub is_pad : Option ℕ → ℕ
is_pad none = 0
is_pad (some c) = if c == b'=' then 1 else 0

unfoldable pub decoded_size : List ℕ → ℕ
decoded_size xs = (length xs + 3) / 4 * 3 - is_pad (from_end xs 1) - is_pad (from_end xs 2)
