-- ===== src/Base64/Tests.antt =====
-- include/cpph/algorithm/base64.hxx on concrete data.
use cppheaders.Prelude.{ℕ, ◌≡◌, refl, true, false, some, [], ◌∷◌, arith}
use cppheaders.Base64.{
  codes, encode_bytes, decode_bytes, decode_frames, decode_single, decode_single_frame,
  decode_last_frame, encode_single_frame, encode_padded_1, encode_padded_2, decode_at, finished,
}
use cppheaders.Base64.RoundTrip.{decode_bytes-encode_bytes}

abbrev zeros : ℕ → ℕ
zeros _ = 0

encode_text : encode_bytes zeros (codes "hello") ≡ codes "aGVsbG8="
unfolding encode_bytes encode_single_frame encode_padded_1 encode_padded_2
encode_text = refl

decode_text : decode_bytes (codes "aGVsbG8=") ≡ some (finished true (codes "hello"))
unfolding decode_bytes decode_frames decode_single_frame decode_last_frame decode_single decode_at
decode_text = refl

-- A character outside the alphabet is an error; the frame's bytes are written all the same.
decode_bad : decode_bytes (codes "aG!saGVs") ≡ some (finished false (255 ∷ 255 ∷ 255 ∷ codes "hel"))
unfolding decode_bytes decode_frames decode_single_frame decode_last_frame decode_single decode_at
decode_bad = refl

decode_bytes-encode_bytes_example :
    decode_bytes (encode_bytes zeros (104 ∷ 105 ∷ [])) ≡ some (finished true (104 ∷ 105 ∷ []))
decode_bytes-encode_bytes_example = decode_bytes-encode_bytes zeros 104 (105 ∷ []) (omega arith)
