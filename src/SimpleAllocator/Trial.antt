-- ===== src/SimpleAllocator/Trial.antt =====
-- `simple_test` of kernel/mm/simple_allocator.c: two pages are taken and given back.
use sky_os.Base.{ℕ, ◌<◌, ◌≡◌, ◌≢◌, refl, arith, ◌==◌, Bool-cases, inl, inr, write}
use sky_os.Base.Runs.{Run, done}
use sky_os.Buddy.{npage}
use sky_os.SimpleAllocator.{
  SimpleState, acquire, release, simple_allocate, simple_free, simple_test,
}
use sky_os.SimpleAllocator.FirstFree.{PageOutcome, simple_allocate-PageOutcome}

-- The state with the lock released.
abbrev pub unlocked : (ℕ → ℕ) → SimpleState
unlocked allocated = record { allocated = allocated; pages_lock = 0 }

takes_one :
    (allocated : ℕ → ℕ) (j : ℕ) (r : Run (ℕ × SimpleState))
    → j < npage
    → allocated j ≡ 0
    → PageOutcome allocated 0 npage r
    → (i : ℕ) × (allocated i ≡ 0) × (r ≡ done (i, unlocked (write allocated i 1)))
takes_one allocated j _ lt free (PageOutcome.taken i le below is_free first) = (i, is_free, refl)
takes_one allocated j _ lt free (PageOutcome.none_free all) = absurd (all j (omega arith) lt free)

simple_free_lem :
    (p : ℕ) (allocated : ℕ → ℕ)
    → simple_free p (unlocked allocated) ≡ done (unlocked (write allocated p 0))
unfolding simple_free acquire release
simple_free_lem p allocated = refl

-- With the lock released and two pages free, simple_test returns with the same pages free as before
-- and the lock released.
pub simple_test_lem :
    (s : SimpleState) (j j' : ℕ)
    → s.pages_lock ≡ 0
    → j < npage
    → j' < npage
    → j ≢ j'
    → s.allocated j ≡ 0
    → s.allocated j' ≡ 0
    → (s' : SimpleState) × (simple_test s ≡ done s')
      × (s'.pages_lock ≡ 0)
      × ((i : ℕ) → s'.allocated i ≡ s.allocated i)
unfolding simple_test
simple_test_lem s j j' open_lock lt lt' ne free free' =
    let (pg0, free0, run0) =
      takes_one s.allocated j _ lt free (simple_allocate-PageOutcome s open_lock) in
    let one = write s.allocated pg0 1 in
    let (pg1, free1, run1) : (i : ℕ) × (one i ≡ 0)
        × (simple_allocate (unlocked one) ≡ done (i, unlocked (write one i 1))) =
      elim (Bool-cases (j == pg0)) [
        | inl same ↦
            takes_one one j' _ lt' (ground (arith, same, ne, free'))
              (simple_allocate-PageOutcome (unlocked one) refl)
        | inr other ↦
            takes_one one j _ lt (ground (arith, other, free))
              (simple_allocate-PageOutcome (unlocked one) refl)
      ] in
    let two = write one pg1 1 in
    let end = write (write two pg0 0) pg1 0 in
    (
      unlocked end,
      rw (run0, run1, simple_free_lem pg0 two, simple_free_lem pg1 (write two pg0 0)) refl,
      refl,
      λ i. ground (arith, free0, free1),
    )
