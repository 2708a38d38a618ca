-- ===== src/Base/Lists.antt =====
-- Lists measured by native numbers, and lists of numbers read as sets.
use Prim.Native.Nat.{ℕ, zero, suc, ◌+◌, ◌≤◌}
use mathlib.Core.Path.{◌≡◌, refl, sym, ap, ◌∙◌}
use mathlib.Core.Logic.{◌≢◌}
use mathlib.Core.Bool.{Bool, true, false, ◌||◌, false≢true}
use mathlib.Core.List.{List, [], ◌∷◌, ◌++◌}
use mathlib.Core.Option.{Option, none, some}
use native.Mathlib.Omega.{arith}
use sky_os.Base.Tests.{◌==◌, if◌then◌else◌}

module _ {ℓ} {A : Type ℓ} where
  abbrev pub length : List A → ℕ
  length [] = 0
  length (x ∷ xs) = suc (length xs)

  abbrev pub get_elem? : List A → ℕ → Option A
  get_elem? [] i = none
  get_elem? (x ∷ xs) zero = some x
  get_elem? (x ∷ xs) (suc i) = get_elem? xs i

  pub length-append : (xs ys : List A) → length (xs ++ ys) ≡ length xs + length ys
  length-append [] ys = omega arith
  length-append (x ∷ xs) ys = omega (arith, length-append xs ys)

abbrev pub has : ℕ → List ℕ → Bool
has a [] = false
has a (x ∷ xs) = (a == x) || has a xs

-- `xs` without the first occurrence of `a`.
abbrev pub erase : ℕ → List ℕ → List ℕ
erase a [] = []
erase a (x ∷ xs) = if a == x then xs else x ∷ erase a xs

-- No number stands twice in the list.
abbrev pub Distinct : List ℕ → Type 0
Distinct [] = Unit {0}
Distinct (x ∷ xs) = (has x xs ≡ false) × Distinct xs

-- What tells members from others tells them apart.
pub has_ne : (a b : ℕ) (xs : List ℕ) → has a xs ≡ false → has b xs ≡ true → a ≢ b
has_ne a b xs out i e = false≢true (sym out ∙ ap (λ x. has x xs) e ∙ i)

pub has-snoc : (a b : ℕ) (xs : List ℕ) → has a (xs ++ b ∷ []) ≡ (has a xs || (a == b))
has-snoc a b [] = ground arith
has-snoc a b (x ∷ xs) = ground (arith, has-snoc a b xs)

pub has-erase_ne : (a b : ℕ) (xs : List ℕ) → (a == b) ≡ false → has a (erase b xs) ≡ has a xs
has-erase_ne a b [] h = refl
has-erase_ne a b (x ∷ xs) h = ground (arith, has-erase_ne a b xs h)

pub has-erase_self : (a : ℕ) (xs : List ℕ) → Distinct xs → has a (erase a xs) ≡ false
has-erase_self a [] d = refl
has-erase_self a (x ∷ xs) d = ground (arith, has-erase_self a xs)

pub Distinct-snoc : (xs : List ℕ) (a : ℕ) → Distinct xs → has a xs ≡ false → Distinct (xs ++ a ∷ [])
Distinct-snoc [] a d h = (refl, tt)
Distinct-snoc (x ∷ xs) a d h = ground (arith, Distinct-snoc xs a, has-snoc x a xs)

pub has-erase_of : (a b : ℕ) (xs : List ℕ) → has a xs ≡ false → has a (erase b xs) ≡ false
has-erase_of a b [] h = refl
has-erase_of a b (x ∷ xs) h = ground (arith, has-erase_of a b xs)

pub Distinct-erase : (xs : List ℕ) (a : ℕ) → Distinct xs → Distinct (erase a xs)
Distinct-erase [] a d = tt
Distinct-erase (x ∷ xs) a d = ground (arith, Distinct-erase xs a, has-erase_of x a xs)

pub length-erase : (xs : List ℕ) (a : ℕ) → has a xs ≡ true → length (erase a xs) + 1 ≡ length xs
length-erase [] a h = cc
length-erase (x ∷ xs) a h = ground (arith, length-erase xs a)

-- A list without repetition is no longer than a list that holds all its members.
pub length-le_of_subset :
    (xs ys : List ℕ)
    → Distinct xs
    → ((a : ℕ) → has a xs ≡ true → has a ys ≡ true)
    → length xs ≤ length ys
length-le_of_subset [] ys d sub = omega arith
length-le_of_subset (x ∷ xs) ys d sub =
    let here : has x ys ≡ true = sub x (ground arith) in
    let rest : length xs ≤ length (erase x ys) =
      length-le_of_subset xs (erase x ys) d.1 (λ a i. ground (arith, has-erase_ne a x ys, sub a)) in
    omega (arith, rest, length-erase ys x here)

abbrev pub All {ℓ κ} : {A : Type ℓ} → (A → Type κ) → List A → Type κ
All P [] = Unit
All P (x ∷ xs) = P x × All P xs
