-- ===== src/Streambuf/Base64Writes.antt =====
-- include/cpph/streambuf/base64.hxx: what is put in pieces is encoded as one.
use cppheaders.Prelude.{
  ℕ, zero, suc, ◌+◌, ◌*◌, ◌≤◌, ◌<◌, ◌≡◌, refl, ap, ap₂, sym, ◌∙◌, subst, true, false, Option, some,
  List, [], ◌∷◌, ◌++◌, arith, ltb, ◌==◌, ◌>>=◌, >>=-some, length, length-append, Bool-cases, inl,
  inr, ltb→lt, ltb→le,
}
use mathlib.Core.List.{append_assoc, append-nil}
use cppheaders.Base64.{encode_bytes, frame_chars, following}
use cppheaders.Base64.RoundTrip.{AllBytes}
use cppheaders.Base64.Frames.{single-eq, two-eq, one-eq}
use cppheaders.Streambuf.Base64.{Putting, write_word, overflow, sputc, sputn, sync}

-- The encoder does not depend on the memory behind its data.
pub encode_bytes-beyond :
    (f g : ℕ → ℕ) (xs : List ℕ) → AllBytes xs → encode_bytes f xs ≡ encode_bytes g xs
unfolding encode_bytes
encode_bytes-beyond f g [] h = refl
encode_bytes-beyond f g (a ∷ []) h =
    ap frame_chars (one-eq a h.0 (f 0) (f 1) (f 2) ∙ sym (one-eq a h.0 (g 0) (g 1) (g 2)))
encode_bytes-beyond f g (a ∷ b ∷ []) h =
    ap frame_chars (two-eq a b h.0 h.1.0 (f 0) (f 1) ∙ sym (two-eq a b h.0 h.1.0 (g 0) (g 1)))
encode_bytes-beyond f g (a ∷ b ∷ c ∷ rest) h =
    ap₂ (λ x xs. frame_chars x ++ xs)
      (single-eq a b c h.0 h.1.0 h.1.1.0 (following rest f)
        ∙ sym (single-eq a b c h.0 h.1.0 h.1.1.0 (following rest g)))
      (encode_bytes-beyond f g rest h.1.1.1)

-- Whole frames are encoded apart from what follows them.
pub encode_bytes-append :
    (f : ℕ → ℕ) (k : ℕ) (xs ys : List ℕ)
    → length xs ≡ 3 * k
    → AllBytes xs
    → encode_bytes f (xs ++ ys) ≡ encode_bytes f xs ++ encode_bytes f ys
unfolding encode_bytes
encode_bytes-append f k [] ys e h = refl
encode_bytes-append f k (a ∷ []) ys e h = absurd (omega arith)
encode_bytes-append f k (a ∷ b ∷ []) ys e h = absurd (omega arith)
encode_bytes-append f zero (a ∷ b ∷ c ∷ rest) ys e h = absurd (omega arith)
encode_bytes-append f (suc k) (a ∷ b ∷ c ∷ rest) ys e h =
    ap₂ (λ x xs. frame_chars x ++ xs)
      (single-eq a b c h.0 h.1.0 h.1.1.0 (following (rest ++ ys) f)
        ∙ sym (single-eq a b c h.0 h.1.0 h.1.1.0 (following rest f)))
      (encode_bytes-append f k rest ys (omega arith) h.1.1.1)

pub AllBytes-append_left : (xs ys : List ℕ) → AllBytes (xs ++ ys) → AllBytes xs
AllBytes-append_left [] ys h = tt
AllBytes-append_left (x ∷ xs) ys (b, h) = (b, AllBytes-append_left xs ys h)

pub AllBytes-append_right : (xs ys : List ℕ) → AllBytes (xs ++ ys) → AllBytes ys
AllBytes-append_right [] ys h = h
AllBytes-append_right (x ∷ xs) ys (b, h) = AllBytes-append_right xs ys h

abbrev zeros : ℕ → ℕ
zeros n = 0

-- `data'` was put since the target held `out`: its whole frames are encoded, the rest is in the area.
Holds : ℕ → List ℕ → List ℕ → Putting → Type 0
Holds words out data' s =
    (pre : List ℕ) × (k : ℕ) × (data' ≡ pre ++ s.obuf)
    × (length pre ≡ 3 * k)
    × (s.src ≡ some (out ++ encode_bytes zeros pre))
    × (length s.obuf ≤ words * 3)

-- What is in the area is encoded after what was.
written :
    (beyond : ℕ → ℕ) (out pre obuf : List ℕ) (k : ℕ)
    → length pre ≡ 3 * k
    → AllBytes (pre ++ obuf)
    → out ++ encode_bytes zeros pre ++ encode_bytes beyond obuf
      ≡ out ++ encode_bytes zeros (pre ++ obuf)
written beyond out pre obuf k e h =
    append_assoc out (encode_bytes zeros pre) (encode_bytes beyond obuf)
    ∙ ap (λ xs. out ++ xs)
        (ap (λ xs. encode_bytes zeros pre ++ xs)
            (encode_bytes-beyond beyond zeros obuf (AllBytes-append_right pre obuf h))
          ∙ sym (encode_bytes-append zeros k pre obuf e (AllBytes-append_left pre obuf h)))

sputc-Holds :
    (words : ℕ) (beyond : ℕ → ℕ) (ch : ℕ) (out data' : List ℕ) (s : Putting)
    → 0 < words
    → AllBytes data'
    → Holds words out data' s
    → (t : Putting) × (sputc words beyond ch s ≡ some (true, t))
      × Holds words out (data' ++ ch ∷ []) t
unfolding Holds sputc overflow write_word
sputc-Holds words beyond ch out data' s pos bytes (pre, k, split, e, src, few) =
    elim (Bool-cases (ltb (length s.obuf) (words * 3))) [
      | inl q ↦ (
        record s { obuf = s.obuf ++ ch ∷ [] },
        rw q refl,
        (
          pre,
          k,
          ap (λ xs. xs ++ ch ∷ []) split ∙ append_assoc pre s.obuf (ch ∷ []),
          e,
          src,
          omega (arith, length-append s.obuf (ch ∷ []), ltb→lt _ _ q),
        ),
      )
      | inr q ↦
          let some_words : ltb 0 words ≡ true = ground arith in
          let full : (length s.obuf == 0) ≡ false = ground (arith, q) in
          (
            record { obuf = ch ∷ []; src = some (out ++ encode_bytes zeros (pre ++ s.obuf)) },
            rw (q, some_words, full, src)
                (ap (λ o. some (true, record { obuf = ch ∷ []; src = some o }))
                  (written beyond out pre s.obuf k e (subst AllBytes split bytes))),
            (
              pre ++ s.obuf,
              k + words,
              ap (λ xs. xs ++ ch ∷ []) split,
              omega (arith, e, few, ltb→le _ _ q, length-append pre s.obuf),
              refl,
              omega arith,
            ),
          )
    ]

sputn-Holds :
    (words : ℕ) (beyond : ℕ → ℕ) (chs out data' : List ℕ) (s : Putting)
    → 0 < words
    → AllBytes (data' ++ chs)
    → Holds words out data' s
    → (t : Putting) × (sputn words beyond chs s ≡ some (length chs, t))
      × Holds words out (data' ++ chs) t
unfolding sputn
sputn-Holds words beyond [] out data' s pos bytes h =
    (s, refl, subst (λ xs. Holds words out xs s) (sym (append-nil data')) h)
sputn-Holds words beyond (ch ∷ chs) out data' s pos bytes h =
    let split : data' ++ ch ∷ [] ++ chs ≡ data' ++ ch ∷ chs = append_assoc data' (ch ∷ []) chs in
    let (t, put, holds) =
      sputc-Holds words beyond ch out data' s pos (AllBytes-append_left data' (ch ∷ chs) bytes) h in
    let (u, puts, holds') =
      sputn-Holds words beyond chs out (data' ++ ch ∷ []) t pos (subst AllBytes (sym split) bytes)
        holds in
    (u, rw (put, puts) refl, subst (λ xs. Holds words out xs u) split holds')

-- `sputn` of each piece
unfoldable pub put_all : ℕ → (ℕ → ℕ) → List (List ℕ) → Putting → Option Putting
put_all words beyond [] s = some s
put_all words beyond (p ∷ ps) s = sputn words beyond p s >>= λ (n, t). put_all words beyond ps t

abbrev pub concat : List (List ℕ) → List ℕ
concat [] = []
concat (p ∷ ps) = p ++ concat ps

put_all-Holds :
    (words : ℕ) (beyond : ℕ → ℕ) (ps : List (List ℕ)) (out data' : List ℕ) (s : Putting)
    → 0 < words
    → AllBytes (data' ++ concat ps)
    → Holds words out data' s
    → (t : Putting) × (put_all words beyond ps s ≡ some t) × Holds words out (data' ++ concat ps) t
unfolding put_all
put_all-Holds words beyond [] out data' s pos bytes h =
    (s, refl, subst (λ xs. Holds words out xs s) (sym (append-nil data')) h)
put_all-Holds words beyond (p ∷ ps) out data' s pos bytes h =
    let split : data' ++ p ++ concat ps ≡ data' ++ (p ++ concat ps) =
      append_assoc data' p (concat ps) in
    let whole : AllBytes (data' ++ p ++ concat ps) = subst AllBytes (sym split) bytes in
    let (t, put, holds) =
      sputn-Holds words beyond p out data' s pos
        (AllBytes-append_left (data' ++ p) (concat ps) whole) h in
    let (u, puts, holds') = put_all-Holds words beyond ps out (data' ++ p) t pos whole holds in
    (u, rw (put, puts) refl, subst (λ xs. Holds words out xs u) split holds')

is_empty : (xs : List ℕ) → length xs ≤ 0 → xs ≡ []
is_empty [] h = refl
is_empty (x ∷ xs) h = absurd (omega arith)

sync-Holds :
    (words : ℕ) (beyond : ℕ → ℕ) (out data' : List ℕ) (s : Putting)
    → 0 < words
    → AllBytes data'
    → Holds words out data' s
    → sync words beyond s
      ≡ some (record { obuf = []; src = some (out ++ encode_bytes zeros data') })
unfolding Holds sync write_word
sync-Holds words beyond out data' s pos bytes (pre, k, split, e, src, few) =
    let some_words : ltb 0 words ≡ true = ground arith in
    elim (Bool-cases (ltb 0 (length s.obuf))) [
      | inl q ↦
          rw (src, some_words, q)
            (ap (λ o. some (record { obuf = []; src = some o }))
              (written beyond out pre s.obuf k e (subst AllBytes split bytes)
                ∙ ap (λ xs. out ++ encode_bytes zeros xs) (sym split)))
      | inr q ↦
          let none_left : s.obuf ≡ [] = is_empty s.obuf (ltb→le _ _ q) in
          rw (src, some_words, q)
            (ap₂ (λ xs o. some (record { obuf = xs; src = some o })) none_left
              (ap (λ xs. out ++ encode_bytes zeros xs)
                (sym (split ∙ ap (λ xs. pre ++ xs) none_left ∙ append-nil pre))))
    ]

-- Whatever the pieces in which bytes are put into an empty area of at least one word, the adapted
-- buffer is given, once they are synchronized, what `encode_bytes` makes of all of them at once,
-- behind what it had; the memory behind the area and behind the bytes does not count. The put area
-- is empty then.
pub put_all-encode_bytes :
    (words : ℕ) (beyond memory : ℕ → ℕ) (pieces : List (List ℕ)) (out : List ℕ)
    → 0 < words
    → AllBytes (concat pieces)
    → (put_all words beyond pieces (record { obuf = []; src = some out }) >>= λ t.
        sync words beyond t)
      ≡ some (record { obuf = []; src = some (out ++ encode_bytes memory (concat pieces)) })
unfolding Holds encode_bytes
put_all-encode_bytes words beyond memory pieces out pos bytes =
    let start : Putting = record { obuf = []; src = some out } in
    let (t, puts, holds) =
      put_all-Holds words beyond pieces out [] start pos bytes
        ([], 0, refl, omega arith, ap some (sym (append-nil out)), omega arith) in
    >>=-some (put_all words beyond pieces start) (λ t. sync words beyond t) puts
      (sync-Holds words beyond out (concat pieces) t pos bytes holds
        ∙ ap (λ xs. some (record { obuf = []; src = some (out ++ xs) }))
            (encode_bytes-beyond zeros memory (concat pieces) bytes))
