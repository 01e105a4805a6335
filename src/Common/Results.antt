-- ===== src/Common/Results.antt =====
-- The outcome of code that may stop the program: `abort` is a failed assertion or a reboot of
-- core/defines.h, `fault` an access through a pointer that is NULL or out of range.

use mathlib.Core.Path.{◌≡◌, refl}

pub data Outcome {ℓ} (A : Type ℓ) : Type ℓ where
  ok : A → Outcome A
  abort : Outcome A
  fault : Outcome A

infixl 5 ◌>>=◌
abbrev pub ◌>>=◌ {ℓ κ} : {A : Type ℓ} {B : Type κ} → Outcome A → (A → Outcome B) → Outcome B
ok a >>= f = f a
abort >>= f = abort
fault >>= f = fault

-- A chain that succeeds has a first part that does.
pub >>=-eq-ok {ℓ κ} :
    {A : Type ℓ} {B : Type κ} (o : Outcome A) (f : A → Outcome B) {b : B}
    → (o >>= f) ≡ ok b
    → (a : A) × (o ≡ ok a) × (f a ≡ ok b)
>>=-eq-ok (ok a) f e = (a, refl, e)
>>=-eq-ok abort f e = cc
>>=-eq-ok fault f e = cc

-- Two chains with the same first part agree if their ends do, on each of its results.
pub >>=_cong {ℓ κ μ ν} :
    {A : Type ℓ} {B : Type κ} {C : Type μ} {D : Type ν} (o : Outcome A) (f : A → Outcome B)
    (g : B → Outcome D) (f' : A → Outcome C) (g' : C → Outcome D)
    → ((a : A) → (f a >>= g) ≡ (f' a >>= g'))
    → ((o >>= f) >>= g) ≡ ((o >>= f') >>= g')
>>=_cong (ok a) f g f' g' h = h a
>>=_cong abort f g f' g' h = refl
>>=_cong fault f g f' g' h = refl
