-- ===== src/Base/Outcome.antt =====
-- The outcome of a C computation. `fault` is an access outside its object or through a pointer that
-- was never set; `out_of_fuel` marks a loop that was given too few rounds.
use mathlib.Core.Path.{◌≡◌, refl, subst}
use mathlib.Core.Logic.{◌⊎◌, inl, inr}
use mathlib.Core.Option.{Option, none, some}

pub data Run {ℓ} (A : Type ℓ) : Type ℓ where
  fault : Run A
  out_of_fuel : Run A
  ok : A → Run A

-- What follows a computation that gave a value.
infixl 5 ◌>>=◌
abbrev pub ◌>>=◌ {ℓ ℓ'} : {A : Type ℓ} {B : Type ℓ'} (m : Run A) (after : A → Run B) → Run B
fault >>= after = fault
out_of_fuel >>= after = out_of_fuel
ok a >>= after = after a

-- A read that must succeed: `none` is a fault.
abbrev pub or_fault {ℓ} : {A : Type ℓ} → Option A → Run A
or_fault none = fault
or_fault (some a) = ok a

pub Run-cases {ℓ} :
    {A : Type ℓ} (m : Run A) → ((a : A) × (m ≡ ok a)) ⊎ (m ≡ fault) ⊎ (m ≡ out_of_fuel)
Run-cases (ok a) = inl (a, refl)
Run-cases fault = inr (inl refl)
Run-cases out_of_fuel = inr (inr refl)

-- What holds of the result, if the computation gives one.
abbrev pub Ensures {ℓ κ} : {A : Type ℓ} → (A → Type κ) → Run A → Type κ
Ensures P (ok a) = P a
Ensures P fault = Unit
Ensures P out_of_fuel = Unit

pub bind-Ensures {ℓ ℓ' κ κ'} :
    {A : Type ℓ} {B : Type ℓ'} (P : A → Type κ) (Q : B → Type κ') (m : Run A) (f : A → Run B)
    → Ensures P m
    → ((a : A) → m ≡ ok a → P a → Ensures Q (f a))
    → Ensures Q (m >>= f)
bind-Ensures P Q (ok a) f h k = k a refl h
bind-Ensures P Q fault f h k = tt
bind-Ensures P Q out_of_fuel f h k = tt

-- The same where nothing is known of the first part but the call that gave it.
pub any-Ensures {ℓ ℓ' κ} :
    {A : Type ℓ} {B : Type ℓ'} (Q : B → Type κ) (m : Run A) (f : A → Run B)
    → ((a : A) → m ≡ ok a → Ensures Q (f a))
    → Ensures Q (m >>= f)
any-Ensures Q (ok a) f k = k a refl
any-Ensures Q fault f k = tt
any-Ensures Q out_of_fuel f k = tt

pub Ensures-elim {ℓ κ} :
    {A : Type ℓ} (P : A → Type κ) (m : Run A) {a : A} → Ensures P m → m ≡ ok a → P a
Ensures-elim P (ok a) h e = subst P (cc) h
Ensures-elim P fault h e = cc
Ensures-elim P out_of_fuel h e = cc
