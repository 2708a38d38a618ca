-- ===== src/Lock.antt =====
-- kernel/sync/lock.c with kernel/include/lock.h: the spinlock, with any number of harts that each
-- acquire and release it in turn. A step is one access of the lock word by one hart.
mod Examples
pub mod Exclusion
use sky_os.Base.{ℕ, ◌≡◌, ◌≢◌, Bool, true, false, ◌==◌, write}

-- `struct spinlock`: the word `locked`.
abbrev pub Spinlock : Type 0
Spinlock = ℕ

abbrev pub init_lock : Spinlock
init_lock = 0

-- `holding`: whether the lock is held, by whichever hart.
abbrev pub holding : Spinlock → ℕ
holding locked = locked

-- `__sync_lock_test_and_set(&s->locked, 1)`: the old word and the new one.
abbrev pub test_and_set : Spinlock → ℕ × Spinlock
test_and_set locked = (locked, 1)

-- `__sync_lock_release(&s->locked)`
abbrev pub clear : Spinlock → Spinlock
clear locked = 0

-- Where a hart is: outside, in the loop of `acquire`, behind `acquire`, in `release` behind its test,
-- or stopped by a panic.
pub data Place : Type 0 where
  outside : Place
  trying : Place
  owning : Place
  leaving : Place
  stopped : Place

pub record Harts : Type 0 where
  pub place : ℕ → Place
  pub lock : Spinlock

-- Hart `h` goes to a place, and the lock word is set.
abbrev pub go : ℕ → Place → Spinlock → Harts → Harts
go h p l s = record { place = write s.place h p; lock = l }

pub data Step (s : Harts) : Harts → Type 0 where
  -- `if (holding(s))` of `acquire`
  enter :
      (h : ℕ) → s.place h ≡ Place.outside → holding s.lock ≡ 0 → Step s (go h Place.trying s.lock s)
  re_lock :
      (h : ℕ)
      → s.place h ≡ Place.outside
      → holding s.lock ≢ 0
      → Step s (go h Place.stopped s.lock s)
  -- `while (__sync_lock_test_and_set(&s->locked, 1) != 0)`
  take :
      (h : ℕ)
      → s.place h ≡ Place.trying
      → (test_and_set s.lock).0 ≡ 0
      → Step s (go h Place.owning (test_and_set s.lock).1 s)
  spin :
      (h : ℕ)
      → s.place h ≡ Place.trying
      → (test_and_set s.lock).0 ≢ 0
      → Step s (go h Place.trying (test_and_set s.lock).1 s)
  -- `if (!holding(s))` of `release`
  leave :
      (h : ℕ) → s.place h ≡ Place.owning → holding s.lock ≢ 0 → Step s (go h Place.leaving s.lock s)
  re_release :
      (h : ℕ) → s.place h ≡ Place.owning → holding s.lock ≡ 0 → Step s (go h Place.stopped s.lock s)
  drop : (h : ℕ) → s.place h ≡ Place.leaving → Step s (go h Place.outside (clear s.lock) s)

-- What the steps lead to from harts that are all outside an initialised lock.
pub data Reach : Harts → Type 0 where
  start : Reach (record { place = λ h. Place.outside; lock = init_lock })
  step : {s s' : Harts} → Reach s → Step s s' → Reach s'
