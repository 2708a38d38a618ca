-- ===== src/Vms/Kalloc.antt =====
-- What kernel/mm/vms.c asks of `kalloc(PGSIZE)` in the valid states of the allocator, which it keeps: a
-- page of physical memory, aligned.
use sky_os.Base.{ℕ, ◌≡◌}
use sky_os.Base.Runs.{Run, done}
use sky_os.Vms.Entries.{IsPage}

pub record Kalloc : Type 1 where
  pub State : Type 0
  pub kalloc_page : State → Run (ℕ × State)
  pub Valid : State → Type 0
  pub kalloc_IsPage :
      (s : State) (t : ℕ) (s' : State) → Valid s → kalloc_page s ≡ done (t, s') → IsPage t
  pub kalloc_Valid :
      (s : State) (t : ℕ) (s' : State) → Valid s → kalloc_page s ≡ done (t, s') → Valid s'
