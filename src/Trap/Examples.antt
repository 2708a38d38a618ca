-- ===== src/Trap/Examples.antt =====
-- Traps of kernel/proc/trap.c from process 0.
use sky_os.Base.{ℕ, ◌+◌, ◌^◌, ◌≡◌, refl, true}
use sky_os.Base.Runs.{done, result, is_done, done-result}
use sky_os.Isa.{Context, flag, sstatus_spp}
use sky_os.Sched.Examples.{registers}
use sky_os.Process.{World, load_user}
use sky_os.Process.Examples.{world, bump, flat}
use sky_os.Syscall.{syscall, sys_write, read_user}
use sky_os.Syscall.Fork.{with_a0}
use sky_os.Trap.{trap_start, handle_exception}
use sky_os.Trap.Interrupts.{Resumed, trap_start-Resumed}
use sky_os.Trap.Exceptions.{behind_call, trap_start-getpid, trap_start-write}

-- Process 0 with a cause of a trap.
abbrev because : ℕ → World ℕ
because scause = record world { machine = record world.machine { scause = scause } }

abbrev with_a7 : ℕ → Context
with_a7 a7 = record registers { a7 = a7; a1 = 0x1001; a2 = 2 }

trap_start-Resumed_example :
    (w' : World ℕ) × (trap_start flat bump registers (because (2 ^ 63 + 5)) ≡ done w')
    × Resumed registers (because (2 ^ 63 + 5)) w'
    × (flag sstatus_spp w'.machine.sstatus ≡ 0)
trap_start-Resumed_example =
    trap_start-Resumed (because (2 ^ 63 + 5)) registers flat bump refl refl (refl, refl) refl

trap_start-getpid_example :
    (w' : World ℕ) × (trap_start flat bump (with_a7 8) (because 8) ≡ done w')
    × (w'.kernel.current_task ≡ 0)
    × (w'.machine.sscratch_stack ≡ with_a0 0 (behind_call (with_a7 8)))
trap_start-getpid_example =
    trap_start-getpid flat bump (with_a7 8) (because 8) refl (refl, refl) refl

abbrev written : World ℕ
written = result world (trap_start flat bump (with_a7 64) (because 8))

written_done : is_done (trap_start flat bump (with_a7 64) (because 8)) ≡ true
unfolding trap_start handle_exception syscall sys_write read_user load_user
written_done = refl

trap_start-write_example :
    (written.kernel.current_task ≡ 0) × (written.machine.sscratch_stack ≡ behind_call (with_a7 64))
trap_start-write_example =
    trap_start-write flat bump (with_a7 64) (because 8) (refl, refl) refl
      (done-result world _ written_done)
