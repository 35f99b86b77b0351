-- ===== src/Prelude/Bits.antt =====
-- Masks of low bits, windows of bits and joined fields as arithmetic, and checks of every value below
-- a bound. It models no code of the repository.
--
-- `bit_and` and `bit_or` stand for `digits`, which takes one binary digit off for each unit of fuel.
-- The facts are proved of `digits` at any fuel that reaches the first argument.
use Prim.Native.Nat.{
  ℕ, zero, suc, ◌+◌, ◌-◌, ◌*◌, ◌/◌, ◌%◌, ◌^◌, ◌≤◌, ◌<◌, min, max, digits, bit_and, bit_or,
  bit_and-bitwise, bit_or-bitwise,
}
use mathlib.Core.Path.{◌≡◌, refl, ap, sym, ◌∙◌}
use mathlib.Core.Bool.{Bool, true, false}
use mathlib.Core.Logic.{inl, inr}
use native.Mathlib.Nat.{
  le_refl, pow-suc, one-le-pow, div-div-eq-div-mul, div-add-mod', mod-eq-sub-div-mul, zero-div,
  zero-mod, zero-mul,
}
use native.Mathlib.Omega.{arith}
use cppheaders.Prelude.Tests.{Bool-cases}
use native.Mathlib.Decide.{dec_lt}

abbrev common : ℕ → ℕ → ℕ → ℕ
common = digits (λ b. 0) min

abbrev joined : ℕ → ℕ → ℕ → ℕ
joined = digits (λ b. b) max

common_none : (fuel b : ℕ) → common fuel 0 b ≡ 0
common_none zero b = refl
common_none (suc fuel) b = refl

joined_none : (fuel b : ℕ) → joined fuel 0 b ≡ b
joined_none zero b = refl
joined_none (suc fuel) b = refl

-- Nothing has a digit in common with 0.
common_nothing : (fuel a : ℕ) → a ≤ fuel → common fuel a 0 ≡ 0
common_nothing fuel zero enough = common_none fuel 0
common_nothing zero (suc a) enough = absurd (omega arith)
common_nothing (suc fuel) (suc a) enough =
    omega (arith, common_nothing fuel (suc a / 2) (omega arith))

-- A remainder, digit by digit.
mod_double : (a K : ℕ) → a / 2 % K * 2 + a % 2 ≡ a % (2 * K)
mod_double a K = omega (
  arith,
  mod-eq-sub-div-mul (a / 2) K,
  mod-eq-sub-div-mul a (2 * K),
  div-add-mod' (a / 2) K,
  ap (λ t. t * K) (div-div-eq-div-mul a 2 K),
)

module _ (k : ℕ) where
  twice : 2 ^ suc k ≡ 2 * 2 ^ k
  twice = omega (arith, pow-suc 2 k)

  mask_half : (2 ^ suc k - 1) / 2 ≡ 2 ^ k - 1
  mask_half = omega (arith, twice, one-le-pow k 2)

  mask_odd : (2 ^ suc k - 1) % 2 ≡ 1
  mask_odd = omega (arith, twice, one-le-pow k 2)

common_mask : (k fuel a : ℕ) → a ≤ fuel → common fuel a (2 ^ k - 1) ≡ a % 2 ^ k
common_mask zero fuel a enough = common_nothing fuel a enough ∙ omega arith
common_mask (suc k) fuel zero enough = common_none fuel (2 ^ suc k - 1) ∙ omega arith
common_mask (suc k) zero (suc a) enough = absurd (omega arith)
common_mask (suc k) (suc fuel) (suc a) enough =
    let tail : common fuel (suc a / 2) ((2 ^ suc k - 1) / 2) ≡ suc a / 2 % 2 ^ k =
      ap (common fuel (suc a / 2)) (mask_half k) ∙ common_mask k fuel (suc a / 2) (omega arith) in
    omega (arith, tail, mask_odd k, mod_double (suc a) (2 ^ k), ap (λ t. suc a % t) (twice k))

common_window :
    (k j fuel a : ℕ) → a ≤ fuel → common fuel a ((2 ^ j - 1) * 2 ^ k) ≡ a / 2 ^ k % 2 ^ j * 2 ^ k
common_window zero j fuel a enough =
    ap (common fuel a) {x = (2 ^ j - 1) * 1} {y = 2 ^ j - 1} (omega arith)
    ∙ common_mask j fuel a enough
    ∙ omega (arith, ap (λ t. t % 2 ^ j) {x = a} {y = a / 1} (omega arith))
common_window (suc k) j fuel zero enough =
    common_none fuel _
    ∙ sym (
        ap (λ t. t % 2 ^ j * 2 ^ suc k) (zero-div (2 ^ suc k))
        ∙ ap (λ t. t * 2 ^ suc k) (zero-mod (2 ^ j))
        ∙ zero-mul (2 ^ suc k))
common_window (suc k) j zero (suc a) enough = absurd (omega arith)
common_window (suc k) j (suc fuel) (suc a) enough =
    let M : ℕ = (2 ^ j - 1) * 2 ^ k in
    let double : (2 ^ j - 1) * 2 ^ suc k ≡ 2 * M =
      omega (arith, ap (λ t. (2 ^ j - 1) * t) (twice k)) in
    let tail : common fuel (suc a / 2) ((2 ^ j - 1) * 2 ^ suc k / 2)
        ≡ suc a / 2 / 2 ^ k % 2 ^ j * 2 ^ k =
      ap (common fuel (suc a / 2)) {x = (2 ^ j - 1) * 2 ^ suc k / 2} {y = M} (omega (arith, double))
      ∙ common_window k j fuel (suc a / 2) (omega arith) in
    let moved : suc a / 2 / 2 ^ k ≡ suc a / 2 ^ suc k =
      div-div-eq-div-mul (suc a) 2 (2 ^ k) ∙ ap (λ t. suc a / t) (omega (arith, twice k)) in
    omega (
      arith,
      tail,
      double,
      ap (λ t. t % 2 ^ j * 2 ^ k) moved,
      ap (λ t. suc a / 2 ^ suc k % 2 ^ j * t) (twice k),
    )

-- A number that is a multiple of `2 ^ k` shares no digit with one below `2 ^ k`.
joined_fields : (k fuel a q r : ℕ) → a ≤ fuel → a ≡ q * 2 ^ k → r < 2 ^ k → joined fuel a r ≡ a + r
joined_fields k fuel zero q r enough multiple fits = joined_none fuel r ∙ omega arith
joined_fields k zero (suc a) q r enough multiple fits = absurd (omega arith)
joined_fields zero (suc fuel) (suc a) q r enough multiple fits = omega (
  arith,
  joined_fields zero fuel (suc a / 2) (suc a / 2) (r / 2) (omega arith) (omega arith) (omega arith),
)
joined_fields (suc k) (suc fuel) (suc a) q r enough multiple fits =
    let even : suc a ≡ 2 * (q * 2 ^ k) = omega (arith, multiple, ap (λ t. q * t) (twice k)) in
    ground (
      arith,
      even,
      joined_fields k fuel (suc a / 2) q (r / 2) (omega arith) (omega (arith, even))
          (omega (arith, twice k)),
    )

-- A mask of `k` low bits is the remainder by `2 ^ k`.
pub bit_and_mask : (k a : ℕ) → bit_and a (2 ^ k - 1) ≡ a % 2 ^ k
bit_and_mask k a = bit_and-bitwise a (2 ^ k - 1) ∙ common_mask k a a (le_refl a)

-- A mask of `j` bits above `k` low bits reads the bits that stand there, and leaves them there.
pub bit_and_window : (k j a : ℕ) → bit_and a ((2 ^ j - 1) * 2 ^ k) ≡ a / 2 ^ k % 2 ^ j * 2 ^ k
bit_and_window k j a = bit_and-bitwise a ((2 ^ j - 1) * 2 ^ k) ∙ common_window k j a a (le_refl a)

-- A field above `k` low bits, joined with a value of `k` bits, is a sum.
pub bit_or_fields : (k q r : ℕ) → r < 2 ^ k → bit_or (q * 2 ^ k) r ≡ q * 2 ^ k + r
bit_or_fields k q r fits =
    bit_or-bitwise (q * 2 ^ k) r
    ∙ joined_fields k (q * 2 ^ k) (q * 2 ^ k) q r (le_refl (q * 2 ^ k)) refl fits

-- Whether `test` holds of every number below a bound.
unfoldable pub passes : (ℕ → Bool) → ℕ → Bool
passes test zero = true
passes test (suc bound) = elim (test bound) [ true ↦ passes test bound | false ↦ false ]

pub passes-below :
    (test : ℕ → Bool) (bound : ℕ) → passes test bound ≡ true → (x : ℕ) → x < bound → test x ≡ true
unfolding passes
passes-below test zero all x below = absurd (omega arith)
passes-below test (suc bound) all x below = elim (Bool-cases (test bound)) [
  | inl holds ↦ elim (dec_lt x bound) [
    | yes lower ↦ passes-below test bound (ground (arith, holds)) x lower
    | no not_lower ↦ ap test {x = x} {y = bound} (omega arith) ∙ holds
  ]
  | inr fails ↦ absurd (ground arith)
]
