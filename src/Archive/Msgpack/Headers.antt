-- ===== src/Archive/Msgpack/Headers.antt =====
-- include/cpph/refl/archive/msgpack-writer.hxx, msgpack-reader.hxx: the headers of strings, binaries,
-- arrays and objects, which give their sizes.
use cppheaders.Prelude.{
  ℕ, ◌+◌, ◌*◌, ◌/◌, ◌%◌, ◌^◌, ◌<◌, ◌≡◌, refl, ap, ◌∙◌, Bool, true, ◌||◌, List, [], ◌∷◌, ◌++◌, arith,
  ltb, ◌==◌, ltb→lt, Bool-cases, if◌then◌else◌, inl, inr, subst, fun_ext,
}
use Prim.Native.Nat.{bit_and}
use native.Mathlib.Nat.{mod-eq_of_lt}
use cppheaders.Prelude.Bits.{bit_and_mask, bit_and_window, passes, passes-below}
use cppheaders.Archive.Run.{returned, Run, ◌>>=◌, ◌>>◌}
use cppheaders.Archive.Msgpack.Codes.{fixmap, fixarray, bin8, str8, array16, array32, map16, map32}
use cppheaders.Archive.Msgpack.Writer.{
  Writer, big_endian, putbin, ap_code, apm, apsize_1, put_str_size, put_count,
}
use cppheaders.Archive.Msgpack.Reader.{
  Reader, ReadScope, next_header, get_n_big_e, bump_n_big_e, read_elem_count, read_elem_count_str,
  read_elem_count_bin, read_elem_count_map, read_elem_count_array, typecode,
}
use cppheaders.Archive.Msgpack.Numbers.{with_input, coded, get_n-big_endian}
use cppheaders.Archive.Msgpack.Integers.{coded-put, fixed-put}

-- Whatever follows, the reader takes `bytes` for a header that gives the size `n`.
unfoldable pub Counts : (ℕ → Run Reader ℕ) → ℕ → List ℕ → Type 0
Counts count n bytes =
    (scopes : List ReadScope) (gen : ℕ) (rest : List ℕ)
    → (next_header >>= count) (with_input scopes gen (bytes ++ rest))
      ≡ returned n (with_input scopes gen rest)

-- What `put` puts, the reader takes for a header that gives the size `n`.
unfoldable pub Counted : Run Writer (Unit {0}) → (ℕ → Run Reader ℕ) → ℕ → Type 0
Counted put count n =
    (bytes : List ℕ) × ((w : Writer) → put w ≡ returned tt (record w { out = w.out ++ bytes }))
    × Counts count n bytes

wide :
    (put : Run Writer (Unit {0})) (count : ℕ → Run Reader ℕ) (code w n : ℕ)
    → code < 256
    → n < 256 ^ w
    → ((scopes : List ReadScope) (gen : ℕ) (xs : List ℕ)
        → (next_header >>= count) (with_input scopes gen (code ∷ xs))
          ≡ get_n_big_e w (with_input scopes gen xs))
    → ((x : Writer) → put x ≡ (ap_code code >> putbin w n) x)
    → Counted put count n
unfolding Counted Counts
wide put count code w n h fits reads f = (
  coded code w n,
  λ x. f x ∙ coded-put code w n x h,
  λ scopes gen rest.
      reads scopes gen (big_endian w n ++ rest)
      ∙ get_n-big_endian w n scopes gen rest
      ∙ ap (λ c. returned c (with_input scopes gen rest)) (mod-eq_of_lt fits),
)

in_fix : ℕ → Bool
in_fix c =
    if ltb c 128
    then true
    else if ltb c 144
    then typecode c == 128
    else if ltb c 160
    then typecode c == 144
    else if ltb c 192
    then typecode c == 160
    else true

fix_table : passes in_fix 256 ≡ true
unfolding passes in_fix typecode
fix_table = refl

typecode_fixstr : (n : ℕ) → n < 32 → typecode (160 + n) ≡ 160
unfolding in_fix
typecode_fixstr n h = ground (arith, passes-below in_fix 256 fix_table (160 + n) (omega arith))

typecode_fixarray : (n : ℕ) → n < 16 → typecode (144 + n) ≡ 144
unfolding in_fix
typecode_fixarray n h = ground (arith, passes-below in_fix 256 fix_table (144 + n) (omega arith))

typecode_fixmap : (n : ℕ) → n < 16 → typecode (128 + n) ≡ 128
unfolding in_fix
typecode_fixmap n h = ground (arith, passes-below in_fix 256 fix_table (128 + n) (omega arith))

fixstr-Counts : (n : ℕ) → n < 32 → Counts read_elem_count_str n ((160 + n) ∷ [])
unfolding Counts read_elem_count
fixstr-Counts n h scopes gen rest =
    rw (read_elem_count, typecode_fixstr n h)
      (ap (λ c. returned c (with_input scopes gen rest)) (bit_and_mask 5 (160 + n) ∙ omega arith))

fixarray-Counts : (n : ℕ) → n < 16 → Counts read_elem_count_array n ((144 + n) ∷ [])
unfolding Counts read_elem_count
fixarray-Counts n h scopes gen rest =
    rw (read_elem_count, typecode_fixarray n h)
      (ap (λ c. returned c (with_input scopes gen rest)) (bit_and_mask 4 (144 + n) ∙ omega arith))

fixmap-Counts : (n : ℕ) → n < 16 → Counts read_elem_count_map n ((128 + n) ∷ [])
unfolding Counts read_elem_count
fixmap-Counts n h scopes gen rest =
    rw (read_elem_count, typecode_fixmap n h)
      (ap (λ c. returned c (with_input scopes gen rest)) (bit_and_mask 4 (128 + n) ∙ omega arith))

small :
    (put : Run Writer (Unit {0})) (count : ℕ → Run Reader ℕ) (k q n : ℕ)
    → 0 < 2 ^ k
    → n % 256 % 2 ^ k ≡ n
    → q * 2 ^ k + n < 256
    → Counts count n ((q * 2 ^ k + n) ∷ [])
    → ((w : Writer) → put w ≡ apm k (q * 2 ^ k) n w)
    → Counted put count n
unfolding Counted
small put count k q n pos fits byte reads f = (
  (q * 2 ^ k + n) ∷ [],
  λ w.
      f w
      ∙ fixed-put k q n w (omega (arith, fits)) pos
      ∙ ap (λ c. returned tt (record w { out = w.out ++ c ∷ [] })) (ap (λ t. q * 2 ^ k + t) fits),
  reads,
)

abbrev pub is_array : ℕ → Bool
is_array t = (t == fixarray) || (t == array16) || (t == array32)

-- The first byte is the typecode of an array.
abbrev pub HeadsArray : List ℕ → Type 0
HeadsArray bytes = (c : ℕ) × (cs : List ℕ) × (bytes ≡ c ∷ cs) × (is_array (typecode c) ≡ true)

pub array_header :
    (n : ℕ)
    → n < 2 ^ 32
    → (h : Counted (put_count fixarray array16 array32 n) read_elem_count_array n)
      × (unfold Counted in HeadsArray h.0)
unfolding put_count read_elem_count typecode bump_n_big_e small wide Counted
array_header n fits = elim (Bool-cases (ltb n 16)) [
  | inl p ↦
      let few : n < 16 = ltb→lt n 16 p in
      (
        small _ _ 4 9 n (omega arith) (omega (arith, few)) (omega (arith, few))
            (fixarray-Counts n few) (λ w. rw p refl),
        (144 + n, [], refl, ap is_array (typecode_fixarray n few)),
      )
  | inr p ↦ elim (Bool-cases (ltb n 32768)) [
    | inl q ↦ (
      wide _ _ array16 2 n (omega arith) (omega (arith, ltb→lt n 32768 q)) (λ scopes gen xs. refl)
          (λ w. rw (p, q) refl),
      (array16, big_endian 2 n, refl, refl),
    )
    | inr q ↦ (
      wide _ _ array32 4 n (omega arith) (omega arith) (λ scopes gen xs. refl)
          (λ w. rw (p, q) refl),
      (array32, big_endian 4 n, refl, refl),
    )
  ]
]

pub array-Headed :
    (n : ℕ)
    → n < 2 ^ 32
    → (bytes : List ℕ) × ((w : Writer)
        → put_count fixarray array16 array32 n w ≡ returned tt (record w { out = w.out ++ bytes }))
      × Counts read_elem_count_array n bytes
      × HeadsArray bytes
unfolding Counted
array-Headed n fits =
    let (counted, head) = array_header n fits in
    let (bytes, puts, counts) = counted in (bytes, puts, counts, head)

pub array-Counted :
    (n : ℕ) → n < 2 ^ 32 → Counted (put_count fixarray array16 array32 n) read_elem_count_array n
array-Counted n fits = (array_header n fits).0

pub object-Counted :
    (n : ℕ) → n < 2 ^ 32 → Counted (put_count fixmap map16 map32 n) read_elem_count_map n
unfolding put_count read_elem_count typecode bump_n_big_e
object-Counted n fits = elim (Bool-cases (ltb n 16)) [
  | inl p ↦
      small _ _ 4 8 n (omega arith) (omega (arith, ltb→lt n 16 p)) (omega (arith, ltb→lt n 16 p))
        (fixmap-Counts n (ltb→lt n 16 p)) (λ w. rw p refl)
  | inr p ↦ elim (Bool-cases (ltb n 32768)) [
    | inl q ↦
        wide _ _ map16 2 n (omega arith) (omega (arith, ltb→lt n 32768 q)) (λ scopes gen xs. refl)
          (λ w. rw (p, q) refl)
    | inr q ↦
        wide _ _ map32 4 n (omega arith) (omega arith) (λ scopes gen xs. refl) (λ w. rw (p, q) refl)
  ]
]

-- The masks of `_apsize_1` compare the size with 2^16 and 2^8.
mask_high : (n : ℕ) → n < 2 ^ 32 → (bit_and n 4294901760 == 0) ≡ ltb n 65536
mask_high n fits =
    let m : bit_and n 4294901760 ≡ n / 2 ^ 16 * 2 ^ 16 =
      bit_and_window 16 16 n
      ∙ ap (λ t. t * 2 ^ 16) {x = n / 2 ^ 16 % 2 ^ 16} {y = n / 2 ^ 16} (omega arith) in
    ground (arith, m)

mask_low : (n : ℕ) → n < 65536 → (bit_and n 65280 == 0) ≡ ltb n 256
mask_low n fits =
    let m : bit_and n 65280 ≡ n / 2 ^ 8 * 2 ^ 8 =
      bit_and_window 8 8 n
      ∙ ap (λ t. t * 2 ^ 8) {x = n / 2 ^ 8 % 2 ^ 8} {y = n / 2 ^ 8} (omega arith) in
    ground (arith, m)

str8-Counted : (n : ℕ) → n < 2 ^ 32 → Counted (apsize_1 str8 n) read_elem_count_str n
unfolding apsize_1 read_elem_count typecode bump_n_big_e
str8-Counted n fits = elim (Bool-cases (ltb n 65536)) [
  | inl p ↦ elim (Bool-cases (ltb n 256)) [
    | inl q ↦
        wide _ _ 217 1 n (omega arith) (omega (arith, ltb→lt n 256 q)) (λ scopes gen xs. refl)
          (λ w. rw (mask_high n fits, p, mask_low n (ltb→lt n 65536 p), q) refl)
    | inr q ↦
        wide _ _ 218 2 n (omega arith) (omega (arith, ltb→lt n 65536 p)) (λ scopes gen xs. refl)
          (λ w. rw (mask_high n fits, p, mask_low n (ltb→lt n 65536 p), q) refl)
  ]
  | inr p ↦
      wide _ _ 219 4 n (omega arith) (omega arith) (λ scopes gen xs. refl)
        (λ w. rw (mask_high n fits, p) refl)
]

pub bin-Counted : (n : ℕ) → n < 2 ^ 32 → Counted (apsize_1 bin8 n) read_elem_count_bin n
unfolding apsize_1 read_elem_count typecode bump_n_big_e
bin-Counted n fits = elim (Bool-cases (ltb n 65536)) [
  | inl p ↦ elim (Bool-cases (ltb n 256)) [
    | inl q ↦
        wide _ _ 196 1 n (omega arith) (omega (arith, ltb→lt n 256 q)) (λ scopes gen xs. refl)
          (λ w. rw (mask_high n fits, p, mask_low n (ltb→lt n 65536 p), q) refl)
    | inr q ↦
        wide _ _ 197 2 n (omega arith) (omega (arith, ltb→lt n 65536 p)) (λ scopes gen xs. refl)
          (λ w. rw (mask_high n fits, p, mask_low n (ltb→lt n 65536 p), q) refl)
  ]
  | inr p ↦
      wide _ _ 198 4 n (omega arith) (omega arith) (λ scopes gen xs. refl)
        (λ w. rw (mask_high n fits, p) refl)
]

pub str-Counted : (n : ℕ) → n < 2 ^ 32 → Counted (put_str_size n) read_elem_count_str n
unfolding put_str_size
str-Counted n fits = elim (Bool-cases (ltb n 32)) [
  | inl p ↦
      small _ _ 5 5 n (omega arith) (omega (arith, ltb→lt n 32 p)) (omega (arith, ltb→lt n 32 p))
        (fixstr-Counts n (ltb→lt n 32 p)) (λ w. rw p refl)
  | inr p ↦
      subst (λ put. Counted put read_elem_count_str n) (fun_ext (λ w. rw p refl))
        (str8-Counted n fits)
]
