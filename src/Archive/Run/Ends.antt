-- ===== src/Archive/Run/Ends.antt =====
-- How a run ends: it stays within its fuel, makes no access through a dangling pointer, and a
-- postcondition holds where it returns.
use cppheaders.Prelude.{Bool, true, false, if◌then◌else◌, ◌≡◌, ◌≢◌, refl, subst, arith}
use cppheaders.Archive.Run.{
  Error, out_of_fuel, dangling_pointer, Outcome, returned, thrown, Run, ◌>>=◌,
}

-- What is no exception of the code.
abbrev pub is_undefined : Error → Bool
is_undefined out_of_fuel = true
is_undefined dangling_pointer = true
is_undefined _ = false

pub data Ends {S A : Type 0} (P : A → S → Type 0) : Outcome S A → Type 0 where
  returns : {a : A} {t : S} → P a t → Ends P (returned a t)
  throws : {e : Error} {t : S} → is_undefined e ≡ false → Ends P (thrown e t)

module _ {S A : Type 0} {P : A → S → Type 0} where
  pub bind :
      {B : Type 0} {Q : B → S → Type 0} (m : Run S A) (f : A → Run S B) (s : S)
      → Ends P (m s)
      → ((a : A) (t : S) → P a t → Ends Q (f a t))
      → Ends Q ((m >>= f) s)
  bind {B} {Q} m f s h next = on (m s) h
    where
      on :
          (o : Outcome S A)
          → Ends P o
          → Ends Q (elim o as (λ x. Outcome S B) [ returned a t ↦ f a t | thrown e t ↦ thrown e t ])
      on _ (returns {a} {t} p) = next a t p
      on _ (throws n) = throws n

  pub mono :
      {Q : A → S → Type 0} {o : Outcome S A}
      → Ends P o
      → ((a : A) (t : S) → P a t → Q a t)
      → Ends Q o
  mono (returns p) weaken = returns (weaken _ _ p)
  mono (throws n) weaken = throws n

  pub either :
      (b : Bool) (m k : Run S A) (s : S)
      → (b ≡ true → Ends P (m s))
      → (b ≡ false → Ends P (k s))
      → Ends P ((if b then m else k) s)
  either true m k s h h' = h refl
  either false m k s h h' = h' refl

module _ {S A : Type 0} where
  Holds : (A → S → Type 0) → Outcome S A → Type 0
  Holds P (returned a t) = P a t
  Holds P (thrown e t) = is_undefined e ≡ false

  Ends-Holds : {P : A → S → Type 0} {o : Outcome S A} → Ends P o → Holds P o
  unfolding Holds
  Ends-Holds (returns p) = p
  Ends-Holds (throws n) = n

  -- A run that ends so and returns `a` has the postcondition.
  pub post :
      {P : A → S → Type 0} {o : Outcome S A} {a : A} {t : S} → Ends P o → o ≡ returned a t → P a t
  unfolding Holds
  post {P} h e = subst (λ o. Holds P o) e (Ends-Holds h)

  pub not-out_of_fuel :
      {P : A → S → Type 0} {o : Outcome S A} {t : S} → Ends P o → o ≢ thrown out_of_fuel t
  unfolding Holds
  not-out_of_fuel {P} h e = ground (arith, subst (λ o. Holds P o) e (Ends-Holds h))
