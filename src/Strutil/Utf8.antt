-- ===== src/Strutil/Utf8.antt =====
-- include/cpph/helper/strutil.hxx: what `validate_utf8` lets pass.
use cppheaders.Prelude.{
  ℕ, zero, suc, ◌+◌, ◌≤◌, ◌<◌, ◌≡◌, refl, ap, sym, ◌∙◌, subst, Bool, true, false, not, ◌&&◌, List,
  [], ◌∷◌, ◌++◌, arith, length, length-append, Bool-cases, inl, inr, ◌⊎◌, ltb, leb, ◌==◌, ==_iff,
  if◌then◌else◌,
}
use cppheaders.Prelude.Bits.{passes, passes-below}
use cppheaders.Base64.RoundTrip.{AllBytes}
use mathlib.Core.List.{append_assoc}
use cppheaders.Strutil.{
  Lead, ascii, no_lead, lead, lead_of, is_continuation, Sequence, idle, shelved, utf8_byte,
  validate_from, validate_utf8,
}

-- The first byte of a sequence after which `suc n` bytes follow: 110x'xxxx for one, 1110'xxxx for two
-- and 1111'0xxx for three.
abbrev pub Announces : ℕ → ℕ → Type 0
Announces c zero = (192 ≤ c) × (c < 224)
Announces c (suc zero) = (224 ≤ c) × (c < 240)
Announces c (suc (suc zero)) = (240 ≤ c) × (c < 248)
Announces c (suc (suc (suc n))) = c < 0

-- 10xx'xxxx, each.
unfoldable pub AllContinue : List ℕ → Type 0
AllContinue [] = Unit {0}
AllContinue (k ∷ ks) = (128 ≤ k) × (k < 192) × AllContinue ks

-- Whole sequences of the form of UTF-8, in numbers: bytes of their own, which are below 128, and first
-- bytes with as many continuation bytes behind as they announce. Sequences that are longer than they
-- need be, surrogates and code points above 0x10ffff have the form.
pub data WellFormed : List ℕ → Type 0 where
  empty : WellFormed []
  single : (c : ℕ) (cs : List ℕ) → c < 128 → WellFormed cs → WellFormed (c ∷ cs)
  several :
      (c n : ℕ) (ks cs : List ℕ)
      → Announces c n
      → length ks ≡ suc n
      → AllContinue ks
      → WellFormed cs
      → WellFormed (c ∷ ks ++ cs)

-- What is on the shelf begins a sequence, and so many bytes are to come.
unfoldable Begun : Sequence → Type 0
Begun idle = Unit {0}
Begun (shelved shelf more) =
    (c : ℕ) × (ks : List ℕ) × (n : ℕ) × (shelf ≡ c ∷ ks)
    × Announces c n
    × AllContinue ks
    × (length ks + more ≡ n)

-- What a byte begins, by its number.
abbrev lead_at : ℕ → Lead
lead_at c =
    if ltb c 128
    then ascii
    else if ltb c 192
    then no_lead
    else if ltb c 224
    then lead 0
    else if ltb c 240
    then lead 1
    else if ltb c 248
    then lead 2
    else no_lead

abbrev same_lead : Lead → Lead → Bool
same_lead ascii ascii = true
same_lead no_lead no_lead = true
same_lead (lead m) (lead n) = m == n
same_lead _ _ = false

same_lead-eq : (a b : Lead) → same_lead a b ≡ true → a ≡ b
same_lead-eq ascii ascii h = refl
same_lead-eq ascii no_lead h = ground arith
same_lead-eq ascii (lead n) h = ground arith
same_lead-eq no_lead ascii h = ground arith
same_lead-eq no_lead no_lead h = refl
same_lead-eq no_lead (lead n) h = ground arith
same_lead-eq (lead m) ascii h = ground arith
same_lead-eq (lead m) no_lead h = ground arith
same_lead-eq (lead m) (lead n) h = ap lead ((==_iff m n).0 h)

lead_table : passes (λ c. same_lead (lead_of c) (lead_at c)) 256 ≡ true
unfolding passes lead_of
lead_table = refl

continuation_table :
    passes
      (λ c. elim (is_continuation c) [
        | true ↦ leb 128 c && ltb c 192
        | false ↦ not (leb 128 c && ltb c 192)
      ])
      256
    ≡ true
unfolding passes is_continuation
continuation_table = refl

lead_of-eq : (c : ℕ) → c < 256 → lead_of c ≡ lead_at c
lead_of-eq c h = same_lead-eq (lead_of c) (lead_at c) (passes-below _ 256 lead_table c h)

is_continuation-eq : (c : ℕ) → c < 256 → is_continuation c ≡ (leb 128 c && ltb c 192)
is_continuation-eq c h = ground (arith, passes-below _ 256 continuation_table c h)

ascii_below : (c : ℕ) → lead_at c ≡ ascii → c < 128
ascii_below c e = ground arith

below_ascii : (c : ℕ) → c < 128 → lead_of c ≡ ascii
below_ascii c h = lead_of-eq c (omega arith) ∙ ground arith

continues : (k : ℕ) → 128 ≤ k → k < 192 → is_continuation k ≡ true
continues k l h = is_continuation-eq k (omega arith) ∙ ground arith

lead_at-Announces : (c n : ℕ) → lead_at c ≡ lead n → Announces c n
lead_at-Announces c zero e = ground arith
lead_at-Announces c (suc zero) e = ground arith
lead_at-Announces c (suc (suc zero)) e = ground arith
lead_at-Announces c (suc (suc (suc n))) e = absurd (ground arith)

Announces-lead_of : (c n : ℕ) → Announces c n → lead_of c ≡ lead n
Announces-lead_of c zero h = lead_of-eq c (omega arith) ∙ ground arith
Announces-lead_of c (suc zero) h = lead_of-eq c (omega arith) ∙ ground arith
Announces-lead_of c (suc (suc zero)) h = lead_of-eq c (omega arith) ∙ ground arith
Announces-lead_of c (suc (suc (suc n))) h = absurd (omega arith)

AllContinue-snoc :
    (ks : List ℕ) (c : ℕ) → AllContinue ks → (128 ≤ c) × (c < 192) → AllContinue (ks ++ c ∷ [])
unfolding AllContinue
AllContinue-snoc [] c h (low, high) = (low, high, tt)
AllContinue-snoc (k ∷ ks) c (l, h, hs) e = (l, h, AllContinue-snoc ks c hs e)

Lead-cases : (l : Lead) → (l ≡ ascii) ⊎ ((l ≡ no_lead) ⊎ ((n : ℕ) × (l ≡ lead n)))
Lead-cases ascii = inl refl
Lead-cases no_lead = inr (inl refl)
Lead-cases (lead n) = inr (inr (n, refl))

module _ (c : ℕ) where
  ascii_byte : lead_of c ≡ ascii → utf8_byte idle c ≡ (c ∷ [], idle)
  unfolding utf8_byte
  ascii_byte e = rw (utf8_byte, e) refl

  no_lead_byte : lead_of c ≡ no_lead → utf8_byte idle c ≡ ([], idle)
  unfolding utf8_byte
  no_lead_byte e = rw (utf8_byte, e) refl

  lead_byte : (n : ℕ) → lead_of c ≡ lead n → utf8_byte idle c ≡ ([], shelved (c ∷ []) n)
  unfolding utf8_byte
  lead_byte n e = rw (utf8_byte, e) refl

  broken_byte :
      (shelf : List ℕ) (more : ℕ)
      → is_continuation c ≡ false
      → utf8_byte (shelved shelf more) c ≡ ([], idle)
  unfolding utf8_byte
  broken_byte shelf more e = rw (utf8_byte, e) refl

  last_byte :
      (shelf : List ℕ)
      → is_continuation c ≡ true
      → utf8_byte (shelved shelf 0) c ≡ (shelf ++ c ∷ [], idle)
  unfolding utf8_byte
  last_byte shelf e = rw (utf8_byte, e) refl

  next_byte :
      (shelf : List ℕ) (m : ℕ)
      → is_continuation c ≡ true
      → utf8_byte (shelved shelf (suc m)) c ≡ ([], shelved (shelf ++ c ∷ []) m)
  unfolding utf8_byte
  next_byte shelf m e = rw (utf8_byte, e) refl

-- The run after a byte.
abbrev onwards : List ℕ → List ℕ × Sequence → List ℕ × ℕ
onwards cs (out, t) = (out ++ (validate_from t cs).0, length out + (validate_from t cs).1)

validate_from-WellFormed :
    (s : Sequence) (cs : List ℕ) → AllBytes cs → Begun s → WellFormed (validate_from s cs).0
unfolding validate_from Begun AllContinue
validate_from-WellFormed s [] bytes b = empty
validate_from-WellFormed idle (c ∷ cs) (byte, bytes) b =
    let Goal : List ℕ × Sequence → Type 0 = λ r. WellFormed (onwards cs r).0 in
    let ranges : lead_of c ≡ lead_at c = lead_of-eq c byte in
    elim (Lead-cases (lead_of c)) [
      | inl e ↦
          subst Goal (sym (ascii_byte c e)) (
            single c _ (ascii_below c (sym ranges ∙ e)) (validate_from-WellFormed idle cs bytes tt))
      | inr (inl e) ↦
          subst Goal (sym (no_lead_byte c e)) (validate_from-WellFormed idle cs bytes tt)
      | inr (inr (n, e)) ↦ subst Goal (sym (lead_byte c n e)) (
          validate_from-WellFormed (shelved (c ∷ []) n) cs bytes
            (c, [], n, refl, lead_at-Announces c n (sym ranges ∙ e), tt, omega arith))
    ]
validate_from-WellFormed (shelved shelf more) (c ∷ cs) (byte, bytes)
      (a, ks, n, split, e, all, count) =
    let Goal : List ℕ × Sequence → Type 0 = λ r. WellFormed (onwards cs r).0 in
    elim (Bool-cases (is_continuation c)) [
      | inr h ↦
          subst Goal (sym (broken_byte c shelf more h)) (validate_from-WellFormed idle cs bytes tt)
      | inl h ↦
          let range : (128 ≤ c) × (c < 192) = ground (arith, h, is_continuation-eq c byte) in
          elim more as (λ m. length ks + m ≡ n → Goal (utf8_byte (shelved shelf m) c)) [
            | zero ↦ λ count. subst Goal (sym (last_byte c shelf h)) (
                subst WellFormed (ap (λ xs. xs ++ c ∷ [] ++ (validate_from idle cs).0) (sym split))
                  (several a n (ks ++ c ∷ []) (validate_from idle cs).0 e
                    (omega (arith, count, length-append ks (c ∷ [])))
                    (AllContinue-snoc ks c all range) (validate_from-WellFormed idle cs bytes tt)))
            | suc m ↦ λ count. subst Goal (sym (next_byte c shelf m h)) (
                validate_from-WellFormed (shelved (shelf ++ c ∷ []) m) cs bytes (
                  a,
                  ks ++ c ∷ [],
                  n,
                  ap (λ xs. xs ++ c ∷ []) split,
                  e,
                  AllContinue-snoc ks c all range,
                  omega (arith, count, length-append ks (c ∷ [])),
                ))
          ]
            count
    ]

validate_from-size :
    (s : Sequence) (cs : List ℕ) → (validate_from s cs).1 ≡ length (validate_from s cs).0
unfolding validate_from
validate_from-size s [] = refl
validate_from-size s (c ∷ cs) =
    let (out, t) = utf8_byte s c in
    omega (arith, validate_from-size t cs, length-append out (validate_from t cs).0)

-- Whatever the bytes, what `validate_utf8` puts out is a row of whole sequences of the form of UTF-8,
-- bytes below 128 and first bytes with as many bytes from 128 to 191 behind as they announce, and the
-- number that it returns is the number of bytes put out.
pub validate_utf8-WellFormed :
    (bytes : List ℕ)
    → AllBytes bytes
    → WellFormed (validate_utf8 bytes).0
      × ((validate_utf8 bytes).1 ≡ length (validate_utf8 bytes).0)
unfolding validate_utf8 Begun
validate_utf8-WellFormed bytes h =
    (validate_from-WellFormed idle bytes h tt, validate_from-size idle bytes)

-- A sequence that was begun is put out whole.
shelf-whole :
    (shelf ks cs : List ℕ) (more : ℕ)
    → AllContinue ks
    → length ks ≡ suc more
    → (validate_from (shelved shelf more) (ks ++ cs)).0 ≡ shelf ++ ks ++ (validate_from idle cs).0
unfolding validate_from AllContinue
shelf-whole shelf [] cs more all count = absurd (omega arith)
shelf-whole shelf (k ∷ []) cs zero (l, h, hs) count =
    ap (λ r. (onwards cs r).0) (last_byte k shelf (continues k l h))
shelf-whole shelf (k ∷ j ∷ ks) cs zero (l, h, hs) count = absurd (omega arith)
shelf-whole shelf (k ∷ ks) cs (suc m) (l, h, hs) count =
    ap (λ r. (onwards (ks ++ cs) r).0) (next_byte k shelf m (continues k l h))
    ∙ shelf-whole (shelf ++ k ∷ []) ks cs m hs (omega (arith, count))
    ∙ ap (λ xs. xs ++ (validate_from idle cs).0) (append_assoc shelf (k ∷ []) ks)

put_out_whole : (cs : List ℕ) → WellFormed cs → (validate_from idle cs).0 ≡ cs
unfolding validate_from
put_out_whole _ empty = refl
put_out_whole _ (single c cs low w) =
    ap (λ r. (onwards cs r).0) (ascii_byte c (below_ascii c low)) ∙ ap (◌∷◌ c) (put_out_whole cs w)
put_out_whole _ (several c n ks cs e count all w) =
    ap (λ r. (onwards (ks ++ cs) r).0) (lead_byte c n (Announces-lead_of c n e))
    ∙ shelf-whole (c ∷ []) ks cs n all count
    ∙ ap (λ xs. c ∷ ks ++ xs) (put_out_whole cs w)

-- A row of whole sequences of the form of UTF-8, bytes below 128 and first bytes with as many bytes
-- from 128 to 191 behind as they announce, is put out as it is, and all its bytes are counted.
pub validate_utf8_whole :
    (bytes : List ℕ) → WellFormed bytes → validate_utf8 bytes ≡ (bytes, length bytes)
unfolding validate_utf8
validate_utf8_whole bytes w =
    let whole : (validate_from idle bytes).0 ≡ bytes = put_out_whole bytes w in
    let size : (validate_from idle bytes).1 ≡ length bytes =
      validate_from-size idle bytes ∙ ap length whole in
    λ i. (whole i, size i)
