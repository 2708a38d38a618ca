-- ===== src/Virt/Regions.antt =====
-- The regions of `virt_memmap` of kernel/arch/virt.c.
use sky_os.Base.{
  ℕ, zero, suc, ◌+◌, ◌≤◌, ◌<◌, ◌≡◌, ◌≢◌, ◌⊎◌, refl, inl, inr, arith, Bool, true, ◌&&◌, ◌||◌, ◌==◌,
  Bool-cases, leb,
}
use sky_os.Virt.{virt_memmap}

-- The regions of two devices have no address in common.
abbrev pub Apart : ℕ → ℕ → Type 0
Apart d e =
    ((virt_memmap d).base + (virt_memmap d).size ≤ (virt_memmap e).base)
    ⊎ ((virt_memmap e).base + (virt_memmap e).size ≤ (virt_memmap d).base)

-- The test for all numbers below `n`.
all_below : (n : ℕ) → (ℕ → Bool) → Bool
all_below zero test = true
all_below (suc i) test = test i && all_below i test

all_below_lem :
    (n : ℕ) (test : ℕ → Bool) → all_below n test ≡ true → (i : ℕ) → i < n → test i ≡ true
unfolding all_below
all_below_lem zero test e i lt = absurd (omega arith)
all_below_lem (suc n) test e i lt = elim (Bool-cases (i == n)) [
  | inl same ↦ ground (arith, e)
  | inr other ↦ all_below_lem n test (ground (arith, e)) i (ground arith)
]

abbrev apart_test : (d e : ℕ) → Bool
apart_test d e =
    (d == e)
    || (leb ((virt_memmap d).base + (virt_memmap d).size) (virt_memmap e).base
        || leb ((virt_memmap e).base + (virt_memmap e).size) (virt_memmap d).base)

all_apart : all_below 11 (λ d. all_below 11 (apart_test d)) ≡ true
unfolding all_below virt_memmap
all_apart = refl

-- The regions of any two devices of the table have no address in common.
pub virt_memmap-Apart : (d e : ℕ) → d < 11 → e < 11 → d ≢ e → Apart d e
virt_memmap-Apart d e lt lt' ne =
    let t =
      all_below_lem 11 (apart_test d)
        (all_below_lem 11 (λ d. all_below 11 (apart_test d)) all_apart d lt) e lt' in
    ground (arith, t)
