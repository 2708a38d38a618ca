-- ===== src/Trap/Exceptions.antt =====
-- System calls through `trap_start` of kernel/proc/trap.c, and what holds whenever it returns.
use sky_os.Base.{
  ℕ, ◌+◌, ◌%◌, ◌^◌, ◌≡◌, refl, sym, ◌∙◌, ap, true, false, arith, ◌==◌, Option, shr, u64,
}
use sky_os.Base.Runs.{Run, done, ◌>>=◌, >>=-eq-done, inside-done, done_injective}
use sky_os.Isa.{Context, Machine}
use sky_os.Sched.{Task, Kernel, trap_return_2}
use sky_os.Process.{World}
use sky_os.Syscall.{syscall_getpid, syscall_write, syscall}
use sky_os.Syscall.Fork.{with_a0}
use sky_os.Syscall.Calls.{syscall-getpid, syscall-write}
use sky_os.Trap.{syscall_from_u_mode, set_context, return_from_trap, handle_exception, trap_start}

-- An environment call from user mode.
abbrev pub IsCall : Machine → Type 0
IsCall m = (shr m.scause 63 % 2 ≡ 0) × (m.scause % 2 ^ 8 ≡ syscall_from_u_mode)

-- The registers with the program counter behind the `ecall`.
abbrev pub behind_call : Context → Context
behind_call ctx = record ctx { sepc = u64 (ctx.sepc + 4) }

pub trap_return_2_lem :
    (k : Kernel) (m : Machine)
    → (trap_return_2 k m).sscratch_stack ≡ (k.task k.current_task).context
unfolding trap_return_2
trap_return_2_lem k m = refl

pub trap_return_2-satp : (k : Kernel) (m : Machine) → (trap_return_2 k m).satp ≡ m.satp
unfolding trap_return_2
trap_return_2-satp k m = refl

module _ {S : Type 0} (mmu : (satp sstatus : ℕ) → (ℕ → ℕ) → ℕ → Option ℕ)
    (kalloc : ℕ → S → Run (ℕ × S)) (ctx : Context) (w : World S) where
  abbrev pub called : World S
  called = set_context (behind_call ctx) w

  abbrev me : Task
  me = w.kernel.task w.kernel.current_task

  -- A trap that returns has a current process.
  trap_start-current :
      {w' : World S} → trap_start mmu kalloc ctx w ≡ done w' → w.kernel.has_current ≡ true
  unfolding trap_start
  trap_start-current run = (inside-done w.kernel.has_current _ run).0

  -- What a trap does with the outcome of a system call.
  pub trap_start-call :
      w.kernel.has_current ≡ true
      → IsCall w.machine
      → trap_start mmu kalloc ctx w
        ≡ (syscall mmu kalloc called >>= (λ r. done r.1) >>= (λ w'. done (return_from_trap w')))
  unfolding trap_start handle_exception
  trap_start-call current (exception, call) =
      let no_interrupt : (shr w.machine.scause 63 % 2 == 1) ≡ false = ground arith in
      rw (current, no_interrupt, call) refl

  pub called_context : (called.kernel.task w.kernel.current_task).context ≡ behind_call ctx
  called_context = ground arith

  called_pid : (called.kernel.task w.kernel.current_task).pid ≡ me.pid
  called_pid = ground arith

  -- Where there is a current process, trap_start returns from the system call getpid: the process
  -- goes on behind the call with its identifier in a0 and all other registers as they were.
  pub trap_start-getpid :
      w.kernel.has_current ≡ true
      → IsCall w.machine
      → ctx.a7 ≡ syscall_getpid
      → (w' : World S) × (trap_start mmu kalloc ctx w ≡ done w')
        × (w'.kernel.current_task ≡ w.kernel.current_task)
        × (w'.machine.sscratch_stack ≡ with_a0 me.pid (behind_call ctx))
  trap_start-getpid current call num =
      let asked_getpid : (called.kernel.task called.kernel.current_task).context.a7
          ≡ syscall_getpid =
        ap (λ (c : Context). c.a7) called_context ∙ num in
      let (w1, run, same) = syscall-getpid mmu kalloc called asked_getpid in
      let stack = trap_return_2_lem w1.kernel w1.machine in
      let now : (w1.kernel.task w1.kernel.current_task).context
          ≡ (w1.kernel.task w.kernel.current_task).context =
        ap (λ i. (w1.kernel.task i).context) same.current in
      (
        return_from_trap w1,
        trap_start-call current call ∙ rw run refl,
        same.current,
        stack ∙ now ∙ same.context ∙ rw (called_context, called_pid) refl,
      )

  -- When trap_start returns from the system call write, the process goes on behind the call with
  -- all other registers as they were, a0 included: the count that sys_write returns does not reach
  -- it.
  pub trap_start-write :
      IsCall w.machine
      → ctx.a7 ≡ syscall_write
      → {w' : World S} → trap_start mmu kalloc ctx w ≡ done w'
      → (w'.kernel.current_task ≡ w.kernel.current_task)
        × (w'.machine.sscratch_stack ≡ behind_call ctx)
  trap_start-write call num {w'} run =
      let current = trap_start-current run in
      let asked_write : (called.kernel.task called.kernel.current_task).context.a7 ≡ syscall_write =
        ap (λ (c : Context). c.a7) called_context ∙ num in
      let (w1, run1, last) =
        >>=-eq-done (syscall mmu kalloc called >>= (λ r. done r.1)) _
          (sym (trap_start-call current call) ∙ run) in
      let ((r, w2), run2, last2) = >>=-eq-done (syscall mmu kalloc called) _ run1 in
      let (_, same) = syscall-write mmu kalloc called asked_write run2 in
      let e : return_from_trap w2 ≡ w' =
        ap return_from_trap (done_injective last2) ∙ done_injective last in
      let now : (w2.kernel.task w2.kernel.current_task).context
          ≡ (w2.kernel.task w.kernel.current_task).context =
        ap (λ i. (w2.kernel.task i).context) same.current in
      let a0 : with_a0 (called.kernel.task w.kernel.current_task).context.a0
            (called.kernel.task w.kernel.current_task).context
          ≡ behind_call ctx =
        rw called_context refl in
      (
        ap (λ (x : World S). x.kernel.current_task) (sym e) ∙ same.current,
        ap (λ (x : World S). x.machine.sscratch_stack) (sym e)
            ∙ trap_return_2_lem w2.kernel w2.machine
            ∙ now
            ∙ same.context
            ∙ a0,
      )
