-- ===== src/Base/Outcome.antt =====
-- What a run of C code comes to: a value, a fault (an access outside an object or through a null
-- pointer), or a loop that was not followed to its end.
use mathlib.Core.Bool.{Bool, true, false}
use mathlib.Core.Path.{◌≡◌, refl}
use mathlib.Core.Logic.{◌⊎◌, inl, inr}
use mathlib.Core.Option.{Option, none, some}

pub data Run {ℓ} (A : Type ℓ) : Type ℓ where
  ok : A → Run A
  fault : Run A
  out_of_fuel : Run A

infixl 5 ◌>>=◌
infixl 5 ◌>>◌
abbrev pub ◌>>=◌ {ℓ κ} : {X : Type ℓ} {Y : Type κ} → Run X → (X → Run Y) → Run Y
fault >>= next = fault
out_of_fuel >>= next = out_of_fuel
ok x >>= next = next x

abbrev pub ◌>>◌ {ℓ} : {Y : Type ℓ} → Run (Unit {0}) → Run Y → Run Y
m >> rest = m >>= λ _. rest

-- A missing value is a fault.
abbrev pub or_fault {ℓ} : {A : Type ℓ} → Option A → Run A
or_fault none = fault
or_fault (some a) = ok a

-- A null pointer is a fault.
abbrev pub check : Bool → Run (Unit {0})
check true = ok tt
check false = fault

-- Where a bind succeeds, its first part has.
pub >>=-eq-ok {ℓ κ} :
    {X : Type ℓ} {Y : Type κ} {y : Y} (run : Run X) (next : X → Run Y)
    → (run >>= next) ≡ ok y
    → (x : X) × (run ≡ ok x) × (next x ≡ ok y)
>>=-eq-ok fault next e = cc
>>=-eq-ok out_of_fuel next e = cc
>>=-eq-ok (ok x) next e = (x, refl, e)

pub or_fault-cases {ℓ} :
    {A : Type ℓ} (o : Option A) → ((a : A) × (or_fault o ≡ ok a)) ⊎ (or_fault o ≡ fault)
or_fault-cases none = inr refl
or_fault-cases (some a) = inl (a, refl)
