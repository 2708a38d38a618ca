-- ===== src/SimpleAllocator.antt =====
-- kernel/mm/simple_allocator.c with kernel/include/simple_allocator.h: a first allocator, one page at a
-- time, which the kernel does not link. It runs on one hart, so that the loop of `acquire` ends at once.
pub mod FirstFree
pub mod Trial
use sky_os.Base.{ℕ, zero, suc, ◌==◌, if◌then◌else◌, write}
use sky_os.Base.Runs.{Run, done, panic, ◌>>=◌}
use sky_os.Lock.{Spinlock, init_lock, holding, test_and_set, clear}
use sky_os.Buddy.{npage}

-- The field `allocated` of each page, and the lock.
pub record SimpleState : Type 0 where
  pub allocated : ℕ → ℕ
  pub pages_lock : Spinlock

unfoldable pub acquire : SimpleState → Run SimpleState
acquire s =
    if holding s.pages_lock == 0
    then done (record s { pages_lock = (test_and_set s.pages_lock).1 })
    else panic

unfoldable pub release : SimpleState → Run SimpleState
release s =
    if holding s.pages_lock == 0 then panic else done (record s { pages_lock = clear s.pages_lock })

-- A page here is one byte, so that `memset` clears all of them.
unfoldable pub simple_allocator_init : SimpleState
simple_allocator_init = record { allocated = λ i. 0; pages_lock = init_lock }

-- The loop of `simple_allocate`, with `rest` rounds left at `i`.
unfoldable pub first_free : (rest i : ℕ) → SimpleState → Run (ℕ × SimpleState)
first_free zero i s = do s' ← release s; panic
first_free (suc rest) i s =
    let later = first_free rest (suc i) s in
    let found = (do s' ← release (record s { allocated = write s.allocated i 1 }); done (i, s')) in
    if s.allocated i == 0 then found else later

unfoldable pub simple_allocate : SimpleState → Run (ℕ × SimpleState)
simple_allocate s = do s1 ← acquire s; first_free npage 0 s1

unfoldable pub simple_free : ℕ → SimpleState → Run SimpleState
simple_free p s = do s1 ← acquire s; release (record s1 { allocated = write s1.allocated p 0 })

-- The messages between the calls are left out.
unfoldable pub simple_test : SimpleState → Run SimpleState
simple_test s = do
  (pg0, s1) ← simple_allocate s
  (pg1, s2) ← simple_allocate s1
  s3 ← simple_free pg0 s2
  simple_free pg1 s3
