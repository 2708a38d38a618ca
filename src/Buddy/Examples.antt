-- ===== src/Buddy/Examples.antt =====
-- The allocator of kernel/mm/buddy.c on concrete requests.
use sky_os.Base.{ℕ, ◌+◌, ◌*◌, ◌≤◌, ◌<◌, ◌≡◌, refl, [], ◌∷◌, arith, dec_lt}
use sky_os.Base.Order.{lt_wf}
use sky_os.Base.Runs.{done, fault, panic, result}
use sky_os.Buddy.{
  BuddyState, buddy_max_order, buddy_page_size, npage, buddy_init, size2order_loop, size2order,
  buddy_allocate, buddy_free_page, buddy_statistics,
}
use sky_os.Buddy.Bench.{boot, allocate, free_page, buddy_test1, buddy_test2, recorded1, recorded2}
use sky_os.Buddy.Tiles.{extent}
use sky_os.Buddy.Chunks.{free_pages}
use sky_os.Buddy.Init.{initial_chunks, buddy_init-Inv}
use sky_os.Buddy.Allocate.{Outcome, buddy_allocate-Outcome}
use sky_os.Buddy.Free.{FreeOutcome, buddy_free_page-FreeOutcome}
use sky_os.Buddy.Size.{IsLeast, size2order_lem}
use sky_os.Buddy.Statistics.{buddy_statistics_lem}
use sky_os.Buddy.Owned.{Owned}
use sky_os.Buddy.Reach.{Reach, Reach-Owned, live_disjoint, double_free}
use sky_os.Buddy.Failures.{free_last-fault}

-- Memory before the boot.
abbrev pub blank : BuddyState
blank = record {
  pages = λ _. record { order = 0; free = 0; flag = 0 };
  links = record { next = λ _. 0; prev = λ _. 0 };
  nr = λ _. 0;
}

-- The self tests give the recorded counters.
buddy_test1_recorded : buddy_test1 (buddy_init blank) ≡ done recorded1
unfolding buddy_test1 boot
buddy_test1_recorded = refl

buddy_test2_recorded : buddy_test2 (buddy_init blank) ≡ done recorded2
unfolding buddy_test2 boot
buddy_test2_recorded = refl

-- Two pages are asked for, then one, and the one is given back.
unfoldable one : BuddyState
unfolding allocate boot
one = (result (0, blank) (allocate 4097 (boot blank))).1

unfoldable two : BuddyState
unfolding allocate boot
two = (result (0, blank) (allocate 1 one)).1

unfoldable freed : BuddyState
unfolding free_page
freed = result blank (free_page 2 two)

unfoldable freed_one : BuddyState
unfolding free_page
freed_one = result blank (free_page 0 one)

one-run : buddy_allocate 4097 (buddy_init blank) ≡ done (0, one)
unfolding one allocate boot
one-run = refl

two-run : buddy_allocate 1 one ≡ done (2, two)
unfolding one two allocate boot
two-run = refl

freed-run : buddy_free_page 2 two ≡ done freed
unfolding one two freed allocate boot free_page
freed-run = refl

freed_one-run : buddy_free_page 0 one ≡ done freed_one
unfolding one freed_one allocate boot free_page
freed_one-run = refl

booted : Reach (buddy_init blank) []
booted = Reach.boot blank

reach_one : Reach one (0 ∷ [])
reach_one = Reach.allocate booted 4097 one-run

reach_two : Reach two (2 ∷ 0 ∷ [])
reach_two = Reach.allocate reach_one 1 two-run

owned_two : Owned two (2 ∷ 0 ∷ [])
owned_two = Reach-Owned reach_two

-- Half of the memory is asked for, then the quarters of the other half.
unfoldable half : BuddyState
unfolding allocate boot
half = (result (0, blank) (allocate 0x2000000 (boot blank))).1

unfoldable three : BuddyState
unfolding allocate boot half
three = (result (0, blank) (allocate 0x1000000 half)).1

unfoldable full : BuddyState
unfolding allocate boot three
full = (result (0, blank) (allocate 0x1000000 three)).1

half-run : buddy_allocate 0x2000000 (buddy_init blank) ≡ done (0, half)
unfolding half allocate boot
half-run = refl

three-run : buddy_allocate 0x1000000 half ≡ done (8192, three)
unfolding half three allocate boot
three-run = refl

full-run : buddy_allocate 0x1000000 three ≡ done (12288, full)
unfolding half three full allocate boot
full-run = refl

reach_full : Reach full (12288 ∷ 8192 ∷ 0 ∷ [])
reach_full =
    Reach.allocate (Reach.allocate (Reach.allocate booted 0x2000000 half-run) 0x1000000 three-run)
      0x1000000 full-run

owned_full : Owned full (12288 ∷ 8192 ∷ 0 ∷ [])
owned_full = Reach-Owned reach_full

full-nr : full.nr 13 ≡ 0
unfolding half three full allocate boot
full-nr = refl

full-empty : (j : ℕ) → 13 ≤ j → j < buddy_max_order → full.nr j ≡ 0
full-empty j le lt = let e : j ≡ 13 = omega arith in rw e full-nr

full-last : ((full.pages 12288).order ≡ 12) × (12288 + extent full.pages 12288 ≡ npage)
unfolding half three full allocate boot
full-last = (refl, refl)

order_half : size2order 0x2000000 ≡ 13
unfolding size2order size2order_loop lt_wf dec_lt
order_half = refl

buddy_allocate-Outcome_example :
    Outcome
      (buddy_init blank)
      initial_chunks
      (size2order 4097)
      (buddy_allocate 4097 (buddy_init blank))
buddy_allocate-Outcome_example = buddy_allocate-Outcome (buddy_init-Inv blank) 4097

buddy_free_page-FreeOutcome_example :
    FreeOutcome two owned_two.chunks (two.pages 2).order 2 (buddy_free_page 2 two)
buddy_free_page-FreeOutcome_example =
    buddy_free_page-FreeOutcome owned_two.inv 2 (owned_two.held 2 refl).0 (owned_two.held 2 refl).1

live_disjoint_example : (0 + extent two.pages 0 ≤ 2) × (2 + extent two.pages 2 ≤ npage)
live_disjoint_example = live_disjoint reach_two 0 2 refl refl (omega arith)

double_free_example : buddy_free_page 2 freed ≡ panic
double_free_example = double_free reach_two 2 refl freed-run

buddy_statistics_lem_example :
    buddy_statistics two ≡ buddy_page_size * free_pages two.pages owned_two.chunks
buddy_statistics_lem_example = buddy_statistics_lem owned_two.inv

size2order_lem_example : IsLeast 4097 (size2order 4097)
size2order_lem_example = size2order_lem 4097 (omega arith)

free_last-fault_example : buddy_free_page 12288 full ≡ fault
free_last-fault_example =
    free_last-fault owned_full.inv 12288 (owned_full.held 12288 refl).0
      (owned_full.held 12288 refl).1 (rw full-last.0 (omega arith)) full-last.1
