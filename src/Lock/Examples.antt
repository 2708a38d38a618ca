-- ===== src/Lock/Examples.antt =====
-- The lock of kernel/sync/lock.c with two harts.
use sky_os.Base.{ℕ, ◌≡◌, refl}
use sky_os.Lock.{Place, Harts, Step, Reach, go}
use sky_os.Lock.Exclusion.{owners-same}

abbrev idle : Harts
idle = record { place = λ h. Place.outside; lock = 0 }

-- Both harts pass the test of `acquire`, and hart 0 takes the lock.
abbrev both : Harts
both = go 1 Place.trying 0 (go 0 Place.trying 0 idle)

abbrev taken : Harts
taken = go 0 Place.owning 1 both

reach_taken : Reach taken
reach_taken =
    Reach.step
      (Reach.step (Reach.step Reach.start (Step.enter 0 refl refl)) (Step.enter 1 refl refl))
      (Step.take 0 refl refl)

-- A third hart that comes then is stopped by the panic, and does not wait.
reach_stopped : Reach (go 2 Place.stopped 1 taken)
reach_stopped = Reach.step reach_taken (Step.re_lock 2 refl (λ e. cc e))

abbrev owner : ℕ
owner = 0

owners-same_example : owner ≡ owner
owners-same_example = owners-same reach_taken owner owner refl refl
