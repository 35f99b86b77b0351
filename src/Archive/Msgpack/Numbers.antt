-- ===== src/Archive/Msgpack/Numbers.antt =====
-- include/cpph/refl/archive/msgpack-writer.hxx, msgpack-reader.hxx: a number that the writer wrote is
-- the number that the reader reads.
use cppheaders.Prelude.{
  ℕ, zero, suc, ◌+◌, ◌-◌, ◌*◌, ◌/◌, ◌%◌, ◌^◌, ◌≤◌, ◌<◌, ◌≡◌, refl, ap, sym, ◌∙◌, Bool, true, false,
  List, [], ◌∷◌, ◌++◌, arith, ltb, leb, if◌then◌else◌, subst,
}
use native.Mathlib.Nat.{mod-eq-sub-div-mul, div-div-eq-div-mul, div-add-mod', pow-suc}
use cppheaders.Prelude.Bits.{passes, passes-below}
use cppheaders.Archive.Run.{returned, ◌>>=◌, >>=-returned}
use cppheaders.Archive.Msgpack.Codes.{int16, int32, int64, uint16, uint32, uint64}
use cppheaders.Archive.Msgpack.Writer.{big_endian}
use cppheaders.Archive.Msgpack.Reader.{
  Reader, ReadScope, next_header, get_n_big_e, bump_n_big_e, read_number, sign_extend, typecode,
  number_of, fixed, flag, floating, unsigned, signed, other, Number,
}

-- A reader whose stream holds `xs`.
abbrev pub with_input : List ReadScope → ℕ → List ℕ → Reader
with_input scopes gen xs = record { scope = scopes; scope_key_gen = gen; input = xs }

mod_digit : (v b : ℕ) → v / b % 256 * b + v % b ≡ v % (b * 256)
mod_digit v b = omega (
  arith,
  mod-eq-sub-div-mul v (b * 256),
  ap (λ t. t * (b * 256)) (div-div-eq-div-mul v b 256),
  div-add-mod' v b,
  ap (λ t. t * b) {x = v / b} {y = v / b / 256 * 256 + v / b % 256} (omega arith),
)

pub get_n-big_endian :
    (w v : ℕ) (scopes : List ReadScope) (gen : ℕ) (rest : List ℕ)
    → get_n_big_e w (with_input scopes gen (big_endian w v ++ rest))
      ≡ returned (v % 256 ^ w) (with_input scopes gen rest)
unfolding get_n_big_e big_endian
get_n-big_endian zero v scopes gen rest =
    ap (λ x. returned x (with_input scopes gen rest)) {x = 0} {y = v % 256 ^ 0} (omega arith)
get_n-big_endian (suc w) v scopes gen rest =
    >>=-returned (get_n_big_e w) _ _ (get_n-big_endian w v scopes gen rest) (
      ap (λ x. returned x (with_input scopes gen rest))
        (mod_digit v (256 ^ w) ∙ ap (λ t. v % t) (sym (pow-suc 256 w))))

-- The bytes of a number: its typecode, then its pattern.
abbrev pub coded : ℕ → ℕ → ℕ → List ℕ
coded code w v = code ∷ big_endian w v

-- Whatever follows, the reader takes `bytes` for the 64-bit pattern `v`.
unfoldable pub Reads : ℕ → List ℕ → Type 0
Reads v bytes =
    (from_float : ℕ → ℕ → ℕ) (scopes : List ReadScope) (gen : ℕ) (rest : List ℕ)
    → (next_header >>= read_number from_float 64) (with_input scopes gen (bytes ++ rest))
      ≡ returned v (with_input scopes gen rest)

pub int16-Reads : (v : ℕ) → Reads (sign_extend 16 64 (v % 256 ^ 2)) (coded int16 2 v)
unfolding Reads read_number number_of typecode bump_n_big_e
int16-Reads v f scopes gen rest =
    >>=-returned (get_n_big_e 2) _ (with_input scopes gen (big_endian 2 v ++ rest))
      (get_n-big_endian 2 v scopes gen rest) refl

pub int32-Reads : (v : ℕ) → Reads (sign_extend 32 64 (v % 256 ^ 4)) (coded int32 4 v)
unfolding Reads read_number number_of typecode bump_n_big_e
int32-Reads v f scopes gen rest =
    >>=-returned (get_n_big_e 4) _ (with_input scopes gen (big_endian 4 v ++ rest))
      (get_n-big_endian 4 v scopes gen rest) refl

pub int64-Reads : (v : ℕ) → Reads (sign_extend 64 64 (v % 256 ^ 8)) (coded int64 8 v)
unfolding Reads read_number number_of typecode bump_n_big_e
int64-Reads v f scopes gen rest =
    >>=-returned (get_n_big_e 8) _ (with_input scopes gen (big_endian 8 v ++ rest))
      (get_n-big_endian 8 v scopes gen rest) refl

pub uint16-Reads : (v : ℕ) → Reads (v % 256 ^ 2 % 2 ^ 64) (coded uint16 2 v)
unfolding Reads read_number number_of typecode bump_n_big_e
uint16-Reads v f scopes gen rest =
    >>=-returned (get_n_big_e 2) _ (with_input scopes gen (big_endian 2 v ++ rest))
      (get_n-big_endian 2 v scopes gen rest) refl

pub uint32-Reads : (v : ℕ) → Reads (v % 256 ^ 4 % 2 ^ 64) (coded uint32 4 v)
unfolding Reads read_number number_of typecode bump_n_big_e
uint32-Reads v f scopes gen rest =
    >>=-returned (get_n_big_e 4) _ (with_input scopes gen (big_endian 4 v ++ rest))
      (get_n-big_endian 4 v scopes gen rest) refl

pub uint64-Reads : (v : ℕ) → Reads (v % 256 ^ 8 % 2 ^ 64) (coded uint64 8 v)
unfolding Reads read_number number_of typecode bump_n_big_e
uint64-Reads v f scopes gen rest =
    >>=-returned (get_n_big_e 8) _ (with_input scopes gen (big_endian 8 v ++ rest))
      (get_n-big_endian 8 v scopes gen rest) refl

-- A byte whose typecode is that of a fixed number reads as the byte, with its sign.
fixed-Reads : (c : ℕ) → number_of (typecode c) ≡ fixed → Reads (sign_extend 8 64 c) (c ∷ [])
unfolding Reads read_number number_of typecode bump_n_big_e
fixed-Reads c h f scopes gen rest = rw (read_number, h) refl

is_fixed : ℕ → Bool
is_fixed c = elim (number_of (typecode c)) [ fixed ↦ true | _ ↦ false ]

fixed_or_high : ℕ → Bool
fixed_or_high c = if ltb c 128 then is_fixed c else if leb 224 c then is_fixed c else true

fixed_table : passes fixed_or_high 256 ≡ true
unfolding passes fixed_or_high is_fixed number_of typecode
fixed_table = refl

only_fixed : (n : Number) → elim n [ fixed ↦ true | _ ↦ false ] ≡ true → n ≡ fixed
only_fixed fixed h = refl
only_fixed flag h = ground arith
only_fixed floating h = ground arith
only_fixed unsigned h = ground arith
only_fixed signed h = ground arith
only_fixed other h = ground arith

low_fixed : (c : ℕ) → c < 128 → is_fixed c ≡ true
unfolding fixed_or_high
low_fixed c h = ground (arith, passes-below fixed_or_high 256 fixed_table c (omega arith))

high_fixed : (c : ℕ) → 224 ≤ c → c < 256 → is_fixed c ≡ true
unfolding fixed_or_high
high_fixed c h b = ground (arith, passes-below fixed_or_high 256 fixed_table c (omega arith))

pub low-Reads : (c : ℕ) → c < 128 → Reads c (c ∷ [])
unfolding is_fixed
low-Reads c h =
    subst (λ v. Reads v (c ∷ [])) (ground arith)
      (fixed-Reads c (only_fixed (number_of (typecode c)) (low_fixed c h)))

pub high-Reads : (c : ℕ) → 224 ≤ c → c < 256 → Reads (c + (2 ^ 64 - 256)) (c ∷ [])
unfolding is_fixed
high-Reads c h b =
    subst (λ v. Reads v (c ∷ [])) (ground arith)
      (fixed-Reads c (only_fixed (number_of (typecode c)) (high_fixed c h b)))
