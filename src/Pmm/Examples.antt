-- ===== src/Pmm/Examples.antt =====
-- kalloc of kernel/mm/pmm.c after the boot, with the free memory at 0x80210000.
use sky_os.Base.{ℕ, ◌+◌, ◌*◌, ◌^◌, ◌≤◌, ◌<◌, ◌≡◌, refl, false, [], ◌∷◌, arith, has}
use sky_os.Base.Runs.{done, result}
use sky_os.Vms.{pgsize}
use sky_os.Buddy.{BuddyState, buddy_init}
use sky_os.Buddy.Bench.{boot, allocate}
use sky_os.Buddy.Examples.{blank}
use sky_os.Buddy.Tiles.{extent}
use sky_os.Buddy.Reach.{Reach}
use sky_os.Pmm.{kalloc, pgaddr, pmm_init}
use sky_os.Pmm.Handed.{HeldAt, kalloc-HeldAt, pmm_init-Owned}
use sky_os.Vms.Entries.{IsPage}
use sky_os.Pmm.Pages.{kalloc-inside}

unfoldable first : ℕ × BuddyState
unfolding kalloc boot allocate
first = result (0, blank) (allocate 4096 (boot blank))

first-run : kalloc 0x80210000 100 (buddy_init blank) ≡ done (0x80210000, first.1)
unfolding first kalloc pgaddr boot allocate
first-run = refl

first-booted : kalloc 0x80210000 100 (pmm_init blank) ≡ done (0x80210000, first.1)
unfolding pmm_init
first-booted = first-run

kalloc-inside_example :
    (p : ℕ) × Reach first.1 (p ∷ [])
    × (has p [] ≡ false)
    × (0x80210000 ≡ 0x80210000 + p * pgsize)
    × (100 ≤ extent first.1.pages p * pgsize)
    × (0x80210000 + extent first.1.pages p * pgsize ≤ 0x80210000 + 2 ^ 26)
kalloc-inside_example =
    kalloc-inside 0x80210000 refl (omega arith) (Reach.boot blank) 100 (omega arith) first-run

kalloc-HeldAt_example :
    IsPage 0x80210000
    × (0x80210000 + 100 ≤ 2 ^ 52)
    × ((x : ℕ)
        → x < 100
        → (¬ HeldAt 0x80210000 (pmm_init blank) (0x80210000 + x))
          × HeldAt 0x80210000 first.1 (0x80210000 + x))
kalloc-HeldAt_example =
    kalloc-HeldAt 0x80210000 refl (omega arith) 100 (omega arith) (pmm_init-Owned blank)
      first-booted
