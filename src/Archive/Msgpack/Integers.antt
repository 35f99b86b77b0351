-- ===== src/Archive/Msgpack/Integers.antt =====
-- include/cpph/refl/archive/msgpack-writer.hxx: `_write_int` and `_write_uint`, against the reader.
use cppheaders.Prelude.{
  ℕ, ◌+◌, ◌-◌, ◌*◌, ◌%◌, ◌^◌, ◌≤◌, ◌<◌, ◌≡◌, refl, ap, ◌∙◌, true, false, List, [], ◌∷◌, ◌++◌, arith,
  ltb, leb, ltb→lt, leb→le, Bool-cases, inl, inr, subst,
}
use mathlib.Core.List.{append_assoc}
use Prim.Native.Nat.{bit_and, bit_or}
use native.Mathlib.Nat.{mod-lt}
use cppheaders.Prelude.Bits.{bit_or_fields, bit_and_mask}
use cppheaders.Archive.Run.{returned, thrown, Run, ◌>>◌, >>=-returned}
use cppheaders.Archive.WriteContext.{Scopes, write_next}
use cppheaders.Archive.WriteContext.Laws.{Ready, after_value, write_next-Ready}
use cppheaders.Archive.Msgpack.Codes.{
  positive_fixint, negative_fixint, int16, int32, int64, uint16, uint32, uint64,
}
use cppheaders.Archive.Msgpack.Writer.{
  Writer, on_ctx, ap_code, big_endian, putbin, apm, put_int, put_uint, write_int, write_uint,
}
use cppheaders.Archive.Msgpack.Numbers.{
  coded, Reads, int16-Reads, int32-Reads, int64-Reads, uint16-Reads, uint32-Reads, uint64-Reads,
  low-Reads, high-Reads,
}

-- What `put` puts, the reader takes for `v`.
pub Coded : Run Writer (Unit {0}) → ℕ → Type 0
Coded put v =
    (bytes : List ℕ) × ((w : Writer) → put w ≡ returned tt (record w { out = w.out ++ bytes }))
    × Reads v bytes

-- A typecode, then a pattern of `n` bytes.
pub coded-put :
    (code n v : ℕ) (w : Writer)
    → code < 256
    → (ap_code code >> putbin n v) w ≡ returned tt (record w { out = w.out ++ coded code n v })
coded-put code n v w h =
    let c : code % 256 ≡ code = omega arith in
    rw c (
      ap (λ o. returned tt (record w { out = o }))
        (append_assoc w.out (code ∷ []) (big_endian n v)))

-- A typecode of high bits, joined with the low bits of the value.
pub fixed-put :
    (k q v : ℕ) (w : Writer)
    → q * 2 ^ k + v % 256 % 2 ^ k < 256
    → 0 < 2 ^ k
    → apm k (q * 2 ^ k) v w
      ≡ returned tt (record w { out = w.out ++ (q * 2 ^ k + v % 256 % 2 ^ k) ∷ [] })
fixed-put k q v w h pos =
    let m : bit_and (v % 256) (2 ^ k - 1) ≡ v % 256 % 2 ^ k = bit_and_mask k (v % 256) in
    let o : bit_or (q * 2 ^ k) (v % 256 % 2 ^ k) ≡ q * 2 ^ k + v % 256 % 2 ^ k =
      bit_or_fields k q (v % 256 % 2 ^ k) (mod-lt (v % 256) pos) in
    let c : bit_or (q * 2 ^ k) (bit_and (v % 256) (2 ^ k - 1)) % 256 ≡ q * 2 ^ k + v % 256 % 2 ^ k =
      omega (arith, ap (bit_or (q * 2 ^ k)) m, o) in
    ap (λ b. returned tt (record w { out = w.out ++ b ∷ [] })) c

wide :
    {put : Run Writer (Unit {0})} (code n v : ℕ) {x : ℕ}
    → code < 256
    → Reads x (coded code n v)
    → x ≡ v
    → ((w : Writer) → put w ≡ (ap_code code >> putbin n v) w)
    → Coded put v
unfolding Coded
wide code n v h reads e f = (
  coded code n v,
  λ w. f w ∙ coded-put code n v w h,
  subst (λ x. Reads x (coded code n v)) e reads,
)

low :
    {put : Run Writer (Unit {0})} (v : ℕ)
    → v < 128
    → ((w : Writer) → put w ≡ apm 7 positive_fixint v w)
    → Coded put v
unfolding Coded
low v h f =
    let b : 0 * 2 ^ 7 + v % 256 % 2 ^ 7 ≡ v = omega arith in
    (
      v ∷ [],
      λ w.
          f w
          ∙ fixed-put 7 0 v w (omega arith) (omega arith)
          ∙ ap (λ c. returned tt (record w { out = w.out ++ c ∷ [] })) b,
      low-Reads v h,
    )

high :
    {put : Run Writer (Unit {0})} (v : ℕ)
    → v < 2 ^ 64
    → 2 ^ 64 - 32 ≤ v
    → ((w : Writer) → put w ≡ apm 5 negative_fixint v w)
    → Coded put v
unfolding Coded
high v fits h f =
    let b : 7 * 2 ^ 5 + v % 256 % 2 ^ 5 ≡ v % 256 = omega arith in
    let whole : v % 256 + (2 ^ 64 - 256) ≡ v = omega arith in
    (
      v % 256 ∷ [],
      λ w.
          f w
          ∙ fixed-put 5 7 v w (omega arith) (omega arith)
          ∙ ap (λ c. returned tt (record w { out = w.out ++ c ∷ [] })) b,
      subst (λ x. Reads x (v % 256 ∷ [])) whole (high-Reads (v % 256) (omega arith) (omega arith)),
    )

put_int_positive : (v : ℕ) → ltb v (2 ^ 63) ≡ true → Coded (put_int v) v
unfolding put_int
put_int_positive v p = elim (Bool-cases (ltb v 128)) [
  | inl q ↦ low v (omega (arith, ltb→lt v 128 q)) (λ w. rw (p, q) refl)
  | inr q ↦ elim (Bool-cases (ltb v 32768)) [
    | inl s ↦ wide int16 2 v (omega arith) (int16-Reads v) (ground arith) (λ w. rw (p, q, s) refl)
    | inr s ↦ elim (Bool-cases (ltb v 2147483648)) [
      | inl t ↦
          wide int32 4 v (omega arith) (int32-Reads v) (ground arith) (λ w. rw (p, q, s, t) refl)
      | inr t ↦
          wide int64 8 v (omega arith) (int64-Reads v) (ground arith) (λ w. rw (p, q, s, t) refl)
    ]
  ]
]

put_int_negative : (v : ℕ) → v < 2 ^ 64 → ltb v (2 ^ 63) ≡ false → Coded (put_int v) v
unfolding put_int
put_int_negative v fits p = elim (Bool-cases (leb (2 ^ 64 - 32) v)) [
  | inl q ↦ high v fits (omega (arith, leb→le _ _ q)) (λ w. rw (p, q) refl)
  | inr q ↦ elim (Bool-cases (leb (2 ^ 64 - 32768) v)) [
    | inl s ↦ wide int16 2 v (omega arith) (int16-Reads v) (ground arith) (λ w. rw (p, q, s) refl)
    | inr s ↦ elim (Bool-cases (leb (2 ^ 64 - 2147483648) v)) [
      | inl t ↦
          wide int32 4 v (omega arith) (int32-Reads v) (ground arith) (λ w. rw (p, q, s, t) refl)
      | inr t ↦
          wide int64 8 v (omega arith) (int64-Reads v) (ground arith) (λ w. rw (p, q, s, t) refl)
    ]
  ]
]

pub put_int-Coded : (v : ℕ) → v < 2 ^ 64 → Coded (put_int v) v
put_int-Coded v fits = elim (Bool-cases (ltb v (2 ^ 63))) [
  | inl p ↦ put_int_positive v p
  | inr p ↦ put_int_negative v fits p
]

pub put_uint-Coded : (v : ℕ) → v < 2 ^ 64 → Coded (put_uint v) v
unfolding put_uint
put_uint-Coded v fits = elim (Bool-cases (ltb v 128)) [
  | inl q ↦ low v (omega (arith, ltb→lt v 128 q)) (λ w. rw q refl)
  | inr q ↦ elim (Bool-cases (ltb v 32768)) [
    | inl s ↦ wide uint16 2 v (omega arith) (uint16-Reads v) (ground arith) (λ w. rw (q, s) refl)
    | inr s ↦ elim (Bool-cases (ltb v 2147483648)) [
      | inl t ↦
          wide uint32 4 v (omega arith) (uint32-Reads v) (ground arith) (λ w. rw (q, s, t) refl)
      | inr t ↦
          wide uint64 8 v (omega arith) (uint64-Reads v) (ground arith) (λ w. rw (q, s, t) refl)
    ]
  ]
]

pub on_ctx-returned :
    {A : Type 0} (m : Run Scopes A) (w : Writer) {a : A} {t : Scopes}
    → m w.ctx ≡ returned a t
    → on_ctx m w ≡ returned a (record w { ctx = t })
on_ctx-returned m w e =
    ap
      (λ o. elim o [
        | returned a t ↦ returned a (record w { ctx = t })
        | thrown e t ↦ thrown e (record w { ctx = t })
      ])
      e

-- Where a value is next, the writer writes a 64-bit integer, counts it in the innermost scope, and
-- appends bytes that the reader takes for the same integer, whatever follows them.
pub write_int-read :
    (v : ℕ) (w : Writer)
    → v < 2 ^ 64
    → Ready w.ctx
    → (bytes : List ℕ) × (write_int v w
        ≡ returned tt (record { ctx = after_value w.ctx; out = w.out ++ bytes }))
      × Reads v bytes
unfolding write_int Coded
write_int-read v w fits r =
    let (bytes, puts, reads) = put_int-Coded v fits in
    (
      bytes,
      >>=-returned (on_ctx write_next) _ w
          (on_ctx-returned write_next w (write_next-Ready w.ctx r).1) (puts _),
      reads,
    )

-- Where a value is next, the writer writes an unsigned integer of 64 bits, counts it in the innermost
-- scope, and appends bytes that the reader takes for the same integer, whatever follows them.
pub write_uint-read :
    (v : ℕ) (w : Writer)
    → v < 2 ^ 64
    → Ready w.ctx
    → (bytes : List ℕ) × (write_uint v w
        ≡ returned tt (record { ctx = after_value w.ctx; out = w.out ++ bytes }))
      × Reads v bytes
unfolding write_uint Coded
write_uint-read v w fits r =
    let (bytes, puts, reads) = put_uint-Coded v fits in
    (
      bytes,
      >>=-returned (on_ctx write_next) _ w
          (on_ctx-returned write_next w (write_next-Ready w.ctx r).1) (puts _),
      reads,
    )
