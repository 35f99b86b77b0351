-- ===== src/Streambuf/Base64Reads.antt =====
-- include/cpph/streambuf/base64.hxx: what was encoded is got back.
use cppheaders.Prelude.{
  ℕ, zero, suc, ◌+◌, ◌-◌, ◌*◌, ◌/◌, ◌%◌, ◌≤◌, ◌<◌, ◌≡◌, refl, ap, ap₂, sym, ◌∙◌, subst, true, false,
  some, List, [], ◌∷◌, ◌++◌, arith, ltb, ◌==◌, length, take, drop, take_all, drop_all,
  take-append-drop, length-drop, length-take, Bool-cases, inl, inr, leb, leb→le, leb→lt,
  take-append_exact, drop-append_exact,
}
use cppheaders.Base64.{encode_bytes, encoded_size, decoded_size, decode_bytes, finished}
use cppheaders.Base64.RoundTrip.{
  AllBytes, length-encode_bytes, decode_bytes-encode_bytes, decoded_size-encode_bytes,
}
use cppheaders.Streambuf.Base64.{Getting, underflow, sbumpc, sgetn}
use cppheaders.Streambuf.Base64Writes.{
  encode_bytes-append, AllBytes-append_left, AllBytes-append_right,
}

-- The characters of the first words are those of the first bytes, whatever follows them.
chunk :
    (f : ℕ → ℕ) (k : ℕ) (xs : List ℕ)
    → AllBytes xs
    → (take (k * 4) (encode_bytes f xs) ≡ encode_bytes f (take (k * 3) xs))
      × (drop (k * 4) (encode_bytes f xs) ≡ encode_bytes f (drop (k * 3) xs))
unfolding encoded_size encode_bytes
chunk f k xs h = elim (Bool-cases (leb (k * 3) (length xs))) [
  | inl q ↦
      let first : List ℕ = take (k * 3) xs in
      let after : List ℕ = drop (k * 3) xs in
      let split : first ++ after ≡ xs = take-append-drop (k * 3) xs in
      let whole : length first ≡ 3 * k = omega (arith, length-take (k * 3) xs, leb→le _ _ q) in
      let bytes : AllBytes first =
        AllBytes-append_left first after (subst AllBytes (sym split) h) in
      let parts : encode_bytes f xs ≡ encode_bytes f first ++ encode_bytes f after =
        ap (encode_bytes f) (sym split) ∙ encode_bytes-append f k first after whole bytes in
      let size : k * 4 ≡ length (encode_bytes f first) =
        omega (arith, length-encode_bytes f first, whole) in
      (
        ap₂ take size parts ∙ take-append_exact (encode_bytes f first) (encode_bytes f after),
        ap₂ drop size parts ∙ drop-append_exact (encode_bytes f first) (encode_bytes f after),
      )
  | inr q ↦
      let few : length xs < k * 3 = leb→lt _ _ q in
      let size : length (encode_bytes f xs) ≤ k * 4 =
        omega (arith, length-encode_bytes f xs, few) in
      (
        take_all (k * 4) (encode_bytes f xs) size
            ∙ ap (encode_bytes f) (sym (take_all (k * 3) xs (omega (arith, few)))),
        drop_all (k * 4) (encode_bytes f xs) size
            ∙ ap (encode_bytes f) (sym (drop_all (k * 3) xs (omega (arith, few)))),
      )
]

AllBytes-take : (n : ℕ) (xs : List ℕ) → AllBytes xs → AllBytes (take n xs)
AllBytes-take n xs h =
    AllBytes-append_left (take n xs) (drop n xs) (subst AllBytes (sym (take-append-drop n xs)) h)

decoded :
    (f : ℕ → ℕ) (xs : List ℕ)
    → AllBytes xs
    → 0 < length xs
    → (decode_bytes (encode_bytes f xs) ≡ some (finished true xs))
      × (decoded_size (encode_bytes f xs) ≡ length xs)
decoded f [] h pos = absurd (omega arith)
decoded f (x ∷ xs) h pos = (decode_bytes-encode_bytes f x xs h, decoded_size-encode_bytes f x xs h)

-- The get area is filled with the bytes of the first words.
underflow-filled :
    (words : ℕ) (f : ℕ → ℕ) (x : ℕ) (xs : List ℕ) (g : Getting)
    → 0 < words
    → AllBytes (x ∷ xs)
    → g.source ≡ encode_bytes f (x ∷ xs)
    → (ibuf : List ℕ) × (underflow words g
        ≡ some (
          true,
          record {
            ibuf = ibuf;
            left = take (words * 3) (x ∷ xs);
            source = encode_bytes f (drop (words * 3) (x ∷ xs));
          },
        ))
unfolding underflow
underflow-filled words f x xs g pos bytes source =
    let m : ℕ = words * 3 in
    let first : List ℕ = take m (x ∷ xs) in
    let size : encoded_size m ≡ words * 4 = unfold encoded_size in omega arith in
    let buf : take (encoded_size m) g.source ≡ encode_bytes f first =
      ap₂ take size source ∙ (chunk f words (x ∷ xs) bytes).0 in
    let after : drop (encoded_size m) g.source ≡ encode_bytes f (drop m (x ∷ xs)) =
      ap₂ drop size source ∙ (chunk f words (x ∷ xs) bytes).1 in
    let some_words : ltb 0 words ≡ true = ground arith in
    let some_bytes : 0 < length first = omega (arith, length-take m (x ∷ xs)) in
    let (good, count) = decoded f first (AllBytes-take m (x ∷ xs) bytes) some_bytes in
    let n : length (encode_bytes f first) ≡ (length first + 2) / 3 * 4 =
      unfold encoded_size in length-encode_bytes f first in
    let not_empty : (length (encode_bytes f first) == 0) ≡ false = ground (arith, n) in
    let quads : (length (encode_bytes f first) % 4 == 0) ≡ true = ground (arith, n) in
    let rest : List ℕ = drop (length first) g.ibuf in
    (
      first ++ rest,
      rw (some_words, buf, after, not_empty, quads, good, count)
          (ap
            (λ l. some (
              true,
              record { ibuf = first ++ rest; left = l; source = encode_bytes f (drop m (x ∷ xs)) },
            ))
            (take-append_exact first rest)),
    )

sgetn-decodes :
    (words : ℕ) (f : ℕ → ℕ) (n : ℕ) (left rest ibuf : List ℕ)
    → 0 < words
    → AllBytes rest
    → n ≡ length left + length rest
    → (ibuf' : List ℕ) × (sgetn words n
          (record { ibuf = ibuf; left = left; source = encode_bytes f rest })
        ≡ some (left ++ rest, record { ibuf = ibuf'; left = []; source = [] }))
unfolding sgetn sbumpc encode_bytes
sgetn-decodes words f zero [] [] ibuf pos h e = (ibuf, refl)
sgetn-decodes words f zero [] (x ∷ rest) ibuf pos h e = absurd (omega arith)
sgetn-decodes words f zero (c ∷ left) rest ibuf pos h e = absurd (omega arith)
sgetn-decodes words f (suc n) (c ∷ left) rest ibuf pos h e =
    let (ibuf', got) = sgetn-decodes words f n left rest ibuf pos h (omega arith) in
    (ibuf', rw got refl)
sgetn-decodes words f (suc n) [] [] ibuf pos h e = absurd (omega arith)
sgetn-decodes words f (suc n) [] (x ∷ xs) ibuf pos h e =
    let g : Getting = record { ibuf = ibuf; left = []; source = encode_bytes f (x ∷ xs) } in
    let (filled, under) = underflow-filled words f x xs g pos h refl in
    let m : ℕ = words * 3 in
    let first : List ℕ = take (m - 1) xs in
    let after : List ℕ = drop (m - 1) xs in
    let m_suc : m ≡ suc (m - 1) = omega arith in
    let under' : underflow words g
        ≡ some (true, record { ibuf = filled; left = x ∷ first; source = encode_bytes f after }) =
      under
      ∙ ap
          (λ k. some (
            true,
            record {
              ibuf = filled;
              left = take k (x ∷ xs);
              source = encode_bytes f (drop k (x ∷ xs));
            },
          ))
          m_suc in
    let (ibuf', got) =
      sgetn-decodes words f n first after filled pos
        (AllBytes-append_right first after (subst AllBytes (sym (take-append-drop (m - 1) xs)) h.1))
        (omega (arith, e, length-take (m - 1) xs, length-drop (m - 1) xs)) in
    (
      ibuf',
      rw (under', got)
          (ap (λ l. some (x ∷ l, record { ibuf = ibuf'; left = []; source = [] }))
            (take-append-drop (m - 1) xs)),
    )

-- From a buffer that holds what `encode_bytes` made of bytes, a stream buffer of at least one word
-- that has read nothing yet gets back exactly these bytes, in whatever array, and then the buffer is
-- used up; the memory behind the bytes that were encoded does not count.
pub sgetn-encode_bytes :
    (words : ℕ) (memory : ℕ → ℕ) (bytes ibuf : List ℕ)
    → 0 < words
    → AllBytes bytes
    → (ibuf' : List ℕ) × (sgetn words
          (length bytes)
          (record { ibuf = ibuf; left = []; source = encode_bytes memory bytes })
        ≡ some (bytes, record { ibuf = ibuf'; left = []; source = [] }))
sgetn-encode_bytes words memory bytes ibuf pos h =
    sgetn-decodes words memory (length bytes) [] bytes ibuf pos h (omega arith)
