-- ===== src/Common/Results.antt =====
-- What a function that may throw returns.
use mathlib.Core.Path.{◌≡◌, refl}
use mathlib.Core.Bool.{Bool, true, false}
use mathlib.Core.Logic.{◌⊎◌, inl, inr}

pub data Result (E : Type 0) (A : Type 0) : Type 0 where
  err : (thrown : E) → Result E A
  ok : (value : A) → Result E A

module _ {E : Type 0} where
  pub Result-cases :
      {A : Type 0} (r : Result E A) → ((a : A) × (r ≡ ok a)) ⊎ ((e : E) × (r ≡ err e))
  Result-cases (err thrown) = inr (thrown, refl)
  Result-cases (ok value) = inl (value, refl)

  -- `if (bad) throw e`
  abbrev pub throw_if : (bad : Bool) → E → Result E (Unit {0})
  throw_if false thrown = ok tt
  throw_if true thrown = err thrown

  infixl 5 ◌>>=◌ ◌>>◌
  -- What comes after a call that may throw.
  abbrev pub ◌>>=◌ : {A B : Type 0} (called : Result E A) (then_do : A → Result E B) → Result E B
  err thrown >>= then_do = err thrown
  ok value >>= then_do = then_do value

  abbrev pub ◌>>◌ : {B : Type 0} (called : Result E (Unit {0})) (then_do : Result E B) → Result E B
  called >> then_do = called >>= (λ _. then_do)

  pub >>=-eq-ok :
      {A B : Type 0} (m : Result E A) (f : A → Result E B) {b : B}
      → (m >>= f) ≡ ok b
      → (a : A) × (m ≡ ok a) × (f a ≡ ok b)
  >>=-eq-ok (err thrown) f h = cc
  >>=-eq-ok (ok value) f h = (value, refl, h)
