-- ===== src/Pmm.antt =====
-- kernel/mm/pmm.c with kernel/include/pmm.h: kalloc and kfree, which stand between the buddy
-- allocator and the rest of the kernel. `pmm_start` is the address behind the kernel, which the
-- linker sets.
mod Examples
pub mod Pages
pub mod Handed
use sky_os.Base.{ℕ, ◌+◌, ◌*◌, leb, if◌then◌else◌, u64}
use sky_os.Base.Runs.{Run, done, ◌>>=◌}
use sky_os.Vms.{pgsize}
use sky_os.Buddy.{BuddyState, buddy_init, buddy_allocate, buddy_free_page}

-- PGADDR(i)
unfoldable pub pgaddr : (pmm_start i : ℕ) → ℕ
pgaddr pmm_start i = u64 (pmm_start + i * pgsize)

-- What `kalloc` asks the allocator for.
abbrev pub request : ℕ → ℕ
request size = if leb pgsize size then size else pgsize

unfoldable pub pmm_init : BuddyState → BuddyState
pmm_init s = buddy_init s

unfoldable pub kalloc : (pmm_start size : ℕ) → BuddyState → Run (ℕ × BuddyState)
kalloc pmm_start size s = do
  (p, s') ← buddy_allocate (request size) s
  done (pgaddr pmm_start p, s')

unfoldable pub kfree : ℕ → BuddyState → Run BuddyState
kfree p s = buddy_free_page p s
