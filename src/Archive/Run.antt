-- ===== src/Archive/Run.antt =====
-- Methods of the archives: they change an object and return, or throw and leave the object as it
-- was at the `throw`. The errors are the exception classes of include/cpph/refl/archive and
-- include/cpph/refl/detail/if_archive.hxx that the modelled code throws;
-- `source_not_set` is the exception of a stream buffer before no other, or an access through its
-- null pointer; `index_out_of_range` is `std::out_of_range`, or an access outside a vector;
-- `assertion_failed` is an `assert` that fails; `dangling_pointer` is an access through a pointer into
-- a vector that has moved its elements since; and `out_of_fuel` has no counterpart in the code.
pub mod Ends
use cppheaders.Prelude.{Bool, true, false, ◌≡◌, refl, ap, ◌∙◌}

pub data Error : Type 0 where
  writer_invalid_state writer_out_of_range writer_value_error invalid_key_type : Error
  source_not_set index_out_of_range : Error
  reader_check_failed reader_invalid_context reader_parse_failed : Error
  reader_unexpected_end_of_file type_mismatch : Error
  assertion_failed dangling_pointer : Error
  out_of_fuel : Error

pub data Outcome (S A : Type 0) : Type 0 where
  returned : A → S → Outcome S A
  thrown : Error → S → Outcome S A

abbrev pub Run : Type 0 → Type 0 → Type 0
Run S A = S → Outcome S A

infixl 5 ◌>>=◌ ◌>>◌
abbrev pub ◌>>=◌ : {S A B : Type 0} → Run S A → (A → Run S B) → Run S B
◌>>=◌ m f s = elim (m s) [ returned a t ↦ f a t | thrown e t ↦ thrown e t ]

abbrev pub ◌>>◌ : {S A B : Type 0} → Run S A → Run S B → Run S B
m >> k = m >>= λ _. k

abbrev pub pure : {S A : Type 0} → A → Run S A
pure a s = returned a s

abbrev pub put : {S : Type 0} → S → Run S (Unit {0})
put t s = returned tt t

abbrev pub throw : {S A : Type 0} → Error → Run S A
throw e s = thrown e s

-- `if (not test) throw e;`
abbrev pub require : {S : Type 0} → Bool → Error → Run S (Unit {0})
require true e s = returned tt s
require false e s = thrown e s

-- `do x ← m; f x` where `m` returns.
pub >>=-returned :
    {S A B : Type 0} (m : Run S A) (f : A → Run S B) (s : S) {a : A} {t : S} {o : Outcome S B}
    → m s ≡ returned a t
    → f a t ≡ o
    → (m >>= f) s ≡ o
>>=-returned m f s p q = ap (λ o. elim o [ returned a t ↦ f a t | thrown e t ↦ thrown e t ]) p ∙ q

pub >>=-thrown :
    {S A B : Type 0} (m : Run S A) (f : A → Run S B) (s : S) {x : Error} {t : S}
    → m s ≡ thrown x t
    → (m >>= f) s ≡ thrown x t
>>=-thrown m f s p = ap (λ o. elim o [ returned a t ↦ f a t | thrown e t ↦ thrown e t ]) p

module _ {S A B C : Type 0} (f : A → Run S B) (g : B → Run S C) where
  assoc_on :
      (o : Outcome S A)
      → elim o as (λ x. Outcome S C) [ returned a t ↦ (f a >>= g) t | thrown e t ↦ thrown e t ]
        ≡ elim (elim o as (λ x. Outcome S B) [ returned a t ↦ f a t | thrown e t ↦ thrown e t ])
            as (λ x. Outcome S C) [ returned b t ↦ g b t | thrown e t ↦ thrown e t ]
  assoc_on (returned a t) = refl
  assoc_on (thrown e t) = refl

  pub >>=-assoc : (m : Run S A) (s : S) → (m >>= λ x. f x >>= g) s ≡ ((m >>= f) >>= g) s
  >>=-assoc m s = assoc_on (m s)
