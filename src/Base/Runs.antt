-- ===== src/Base/Runs.antt =====
-- Outcomes of kernel code that can fail. `panic` prints a message and loops for ever; a fault is an
-- access outside the object that the code names, after which C promises nothing.
use mathlib.Core.Path.{◌≡◌, refl, ap}
use mathlib.Core.Logic.{◌≢◌}
use mathlib.Core.Bool.{Bool, true, false}

pub data Run {ℓ} (A : Type ℓ) : Type ℓ where
  done : A → Run A
  panic : Run A
  fault : Run A
  out_of_fuel : Run A

infixl 5 ◌>>=◌ ◌>>◌
abbrev pub ◌>>=◌ {ℓ κ} : {A : Type ℓ} {B : Type κ} → Run A → (A → Run B) → Run B
done a >>= f = f a
panic >>= f = panic
fault >>= f = fault
out_of_fuel >>= f = out_of_fuel

abbrev pub ◌>>◌ {ℓ} : {B : Type ℓ} → Run (Unit {0}) → Run B → Run B
m >> k = m >>= λ _. k

-- `if (!b) panic(...)`
abbrev pub require : Bool → Run (Unit {0})
require true = done tt
require false = panic

-- An access that is inside its object only if `b`.
abbrev pub inside : Bool → Run (Unit {0})
inside true = done tt
inside false = fault

-- The value of a run that is done.
abbrev pub result {ℓ} : {A : Type ℓ} → A → Run A → A
result d (done a) = a
result d panic = d
result d fault = d
result d out_of_fuel = d

-- A chain that is done has done its first step.
pub >>=-eq-done {ℓ κ} :
    {A : Type ℓ} {B : Type κ} (m : Run A) (f : A → Run B) {b : B}
    → (m >>= f) ≡ done b
    → (a : A) × (m ≡ done a) × (f a ≡ done b)
>>=-eq-done (done a) f h = (a, refl, h)
>>=-eq-done panic f h = cc
>>=-eq-done fault f h = cc
>>=-eq-done out_of_fuel f h = cc

-- A chain whose steps do not run out of fuel does not.
pub >>=-ends {ℓ κ} :
    {A : Type ℓ} {B : Type κ} (m : Run A) (f : A → Run B)
    → m ≢ out_of_fuel
    → ((a : A) → f a ≢ out_of_fuel)
    → (m >>= f) ≢ out_of_fuel
>>=-ends (done a) f ends rest = rest a
>>=-ends panic f ends rest = cc
>>=-ends fault f ends rest = cc
>>=-ends out_of_fuel f ends rest = absurd (ends refl)

pub done_injective {ℓ} : {A : Type ℓ} {a b : A} → done a ≡ done b → a ≡ b
done_injective {a = a} e = ap (result a) e

abbrev pub is_done {ℓ} : {A : Type ℓ} → Run A → Bool
is_done (done a) = true
is_done panic = false
is_done fault = false
is_done out_of_fuel = false

-- A run that is done is done with its value.
pub done-result {ℓ} : {A : Type ℓ} (d : A) (r : Run A) → is_done r ≡ true → r ≡ done (result d r)
done-result d (done a) e = refl
done-result d panic e = cc
done-result d fault e = cc
done-result d out_of_fuel e = cc

-- A step that is a test.
pub inside-done {ℓ} :
    {B : Type ℓ} (b : Bool) (m : Run B) {r : B}
    → (inside b >> m) ≡ done r
    → (b ≡ true) × (m ≡ done r)
inside-done true m run = (refl, run)
inside-done false m run = cc

pub require-done {ℓ} :
    {B : Type ℓ} (b : Bool) (m : Run B) {r : B}
    → (require b >> m) ≡ done r
    → (b ≡ true) × (m ≡ done r)
require-done true m run = (refl, run)
require-done false m run = cc
