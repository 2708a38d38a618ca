-- ===== src/SimpleAllocator/FirstFree.antt =====
-- Which page kernel/mm/simple_allocator.c hands out.
use sky_os.Base.{
  ℕ, zero, suc, ◌+◌, ◌≤◌, ◌<◌, ◌≡◌, ◌≢◌, refl, inl, inr, arith, ◌==◌, Bool-cases, ==_iff, write,
}
use sky_os.Base.Runs.{Run, done, panic}
use sky_os.Buddy.{npage}
use sky_os.SimpleAllocator.{SimpleState, acquire, release, first_free, simple_allocate}

-- The first free page from `low` up to `high` is taken and the lock released, or there is none.
pub data PageOutcome (allocated : ℕ → ℕ) (low high : ℕ) : Run (ℕ × SimpleState) → Type 0 where
  taken :
      (i : ℕ)
      → low ≤ i
      → i < high
      → allocated i ≡ 0
      → ((j : ℕ) → low ≤ j → j < i → allocated j ≢ 0)
      → PageOutcome allocated low high
          (done (i, record { allocated = write allocated i 1; pages_lock = 0 }))
  none_free :
      ((j : ℕ) → low ≤ j → j < high → allocated j ≢ 0) → PageOutcome allocated low high panic

PageOutcome-used :
    (allocated : ℕ → ℕ) (low high : ℕ) (r : Run (ℕ × SimpleState))
    → low < high
    → allocated low ≢ 0
    → PageOutcome allocated (suc low) high r
    → PageOutcome allocated low high r
PageOutcome-used allocated low high _ lt used (PageOutcome.taken i le below free first) =
    PageOutcome.taken i (omega arith) below free (λ j from to. ground (arith, used, first j))
PageOutcome-used allocated low high _ lt used (PageOutcome.none_free all) =
    PageOutcome.none_free (λ j from to. ground (arith, used, all j))

first_free-PageOutcome :
    (rest i high : ℕ) (allocated : ℕ → ℕ)
    → i + rest ≡ high
    → PageOutcome allocated i high
        (first_free rest i (record { allocated = allocated; pages_lock = 1 }))
unfolding first_free release
first_free-PageOutcome zero i high allocated e =
    PageOutcome.none_free (λ j from to. absurd (omega arith))
first_free-PageOutcome (suc rest) i high allocated e = elim (Bool-cases (allocated i == 0)) [
  | inl free ↦ rw free (
      PageOutcome.taken i (omega arith) (omega arith) ((==_iff (allocated i) 0).0 free)
        (λ j from to. absurd (omega arith)))
  | inr used ↦ rw used (
      PageOutcome-used allocated i high _ (omega arith) (ground (arith, used))
        (first_free-PageOutcome rest (suc i) high allocated (omega arith)))
]

-- With the lock released, simple_allocate takes the first page that is free, changes no other page
-- and releases the lock; it panics exactly where no page is free.
pub simple_allocate-PageOutcome :
    (s : SimpleState) → s.pages_lock ≡ 0 → PageOutcome s.allocated 0 npage (simple_allocate s)
unfolding simple_allocate acquire
simple_allocate-PageOutcome s unlocked =
    rw unlocked (first_free-PageOutcome npage 0 npage s.allocated refl)
