-- ===== src/Trap.antt =====
-- kernel/proc/trap.c with kernel/include/trap.h: the entry to the kernel from a process, between the
-- assembly that saves the registers and the assembly that loads them again from `sscratch_stack`.
mod Examples
pub mod Interrupts
pub mod Invariant
pub mod Tables
pub mod Exceptions
use Prim.Native.String.{String}
use sky_os.Base.{
  ℕ, zero, suc, ◌+◌, ◌/◌, ◌%◌, ◌^◌, Bool, ◌==◌, ltb, leb, if◌then◌else◌, Option, List, [], ◌∷◌,
  length, shr, u64,
}
use sky_os.Base.Runs.{Run, done, panic, out_of_fuel, ◌>>=◌, ◌>>◌, inside}
use sky_os.Isa.{
  Context, Machine, sscratch_set, stvec_set, sstatus_get, sstatus_set, sie_get, sie_set, mtime_get,
  scause_get, set_flag, sstatus_sie, sie_stie, sie_ssie, sie_seie, sbi_set_timer,
}
use sky_os.Sched.{Task, timer_clk_rate, do_timer, trap_return_2}
use sky_os.Process.{World, update_task}
use sky_os.Syscall.{syscall}

abbrev pub s_timer_int : ℕ
s_timer_int = 5

abbrev pub syscall_from_u_mode : ℕ
syscall_from_u_mode = 8

-- `sscratch_stack` and `trap_entry` are addresses that the linker sets.
unfoldable pub trap_init : (sscratch_stack trap_entry : ℕ) → Machine → Machine
trap_init sscratch_stack trap_entry m =
    let m1 = stvec_set trap_entry (sscratch_set sscratch_stack m) in
    let m2 = sstatus_set (set_flag sstatus_sie (sstatus_get m1)) m1 in
    let bits = set_flag sie_seie (set_flag sie_ssie (set_flag sie_stie (sie_get m2))) in
    let m3 = sie_set bits m2 in sbi_set_timer (u64 (mtime_get m3 + timer_clk_rate)) m3

abbrev pub inter_infos : List String
inter_infos =
    "Reserved" ∷ "Supervisor software interrupt" ∷ "Reserved" ∷ "Machine software interrupt"
    ∷ "Reserved" ∷ "Supervisor timer interrupt" ∷ "Reserved" ∷ "Machine timer interrupt"
    ∷ "Reserved" ∷ "Supervisor external interrupt" ∷ "Reserved" ∷ "Machine external interrupt"
    ∷ "Reserved" ∷ "Reserved" ∷ "Reserved" ∷ "Reserved" ∷ []

abbrev pub exception_infos : List String
exception_infos =
    "Instruction address misaligned" ∷ "Instruction access fault" ∷ "Illegal instruction"
    ∷ "Breakpoint" ∷ "Load address misaligned" ∷ "Load access fault"
    ∷ "Store/AMO address misaligned" ∷ "Store/AMO access fault" ∷ "Environment call from U-mode"
    ∷ "Environment call from S-mode" ∷ "Reserved" ∷ "Environment call from M-mode"
    ∷ "Instruction page fault" ∷ "Load page fault" ∷ "Reserved" ∷ "Store/AMO page fault" ∷ []

-- The names and values that `dump_context` prints, in its order.
unfoldable pub dump_context : Context → List (String × ℕ)
dump_context c =
    ("a0", c.a0)
    ∷ ("a1", c.a1)
    ∷ ("a2", c.a2)
    ∷ ("a3", c.a3)
    ∷ ("a4", c.a4)
    ∷ ("a5", c.a5)
    ∷ ("a6", c.a6)
    ∷ ("a7", c.a7)
    ∷ ("t0", c.t0)
    ∷ ("t1", c.t1)
    ∷ ("t2", c.t2)
    ∷ ("t3", c.t3)
    ∷ ("t4", c.t4)
    ∷ ("t5", c.t5)
    ∷ ("t6", c.t6)
    ∷ ("s0", c.s0)
    ∷ ("s1", c.s1)
    ∷ ("s2", c.s2)
    ∷ ("s3", c.s3)
    ∷ ("s4", c.s4)
    ∷ ("s5", c.s5)
    ∷ ("s6", c.s6)
    ∷ ("s7", c.s7)
    ∷ ("s8", c.s8)
    ∷ ("s9", c.s9)
    ∷ ("s10", c.s10)
    ∷ ("s11", c.s11)
    ∷ ("ra", c.ra)
    ∷ ("sp", c.sp)
    ∷ ("gp", c.gp)
    ∷ ("tp", c.tp)
    ∷ ("epc", c.sepc)
    ∷ []

module _ {S : Type 0} where
  abbrev pub set_context : Context → World S → World S
  set_context c w =
      let i = w.kernel.current_task in update_task i (record (w.kernel.task i) { context = c }) w

  -- `trap_return_2` ends every trap.
  abbrev pub return_from_trap : World S → World S
  return_from_trap w = record w { machine = trap_return_2 w.kernel w.machine }

  -- `do_timer` writes messages, which take the lock of the log; an interrupt in the middle of a
  -- message finds it held, and the message never ends (`log_log` in Log). The end of `do_timer` is the
  -- return from the trap.
  unfoldable pub handle_interrupt : ℕ → World S → Run (World S)
  handle_interrupt code w =
      let (k, m) = do_timer w.kernel w.machine in
      if code == s_timer_int
      then (if w.log_lock == 0 then done (record w { kernel = k; machine = m }) else out_of_fuel)
      else inside (ltb code (length inter_infos)) >> panic

  module _ (mmu : (satp sstatus : ℕ) → (ℕ → ℕ) → ℕ → Option ℕ) (kalloc : ℕ → S → Run (ℕ × S)) where
    -- The result of `syscall` is not used.
    unfoldable pub handle_exception : ℕ → World S → Run (World S)
    handle_exception code w =
        if code == syscall_from_u_mode
        then syscall mmu kalloc w >>= (λ r. done r.1)
        else inside (ltb code (length exception_infos)) >> panic

    -- `ctx` is the context at `sscratch_stack_ptr`, which is stored in the current process, if there
    -- is one.
    unfoldable pub trap_start : Context → World S → Run (World S)
    trap_start ctx w =
        let scause = scause_get w.machine in
        let code = scause % 2 ^ 8 in
        let next = record ctx { sepc = u64 (ctx.sepc + 4) } in
        inside w.kernel.has_current
        >> (if shr scause 63 % 2 == 1
            then handle_interrupt code (set_context ctx w)
            else handle_exception code (set_context next w) >>= (λ w'. done (return_from_trap w')))
