-- ===== src/Trap/Interrupts.antt =====
-- The timer interrupt through `trap_start` of kernel/proc/trap.c: what is saved of the process that
-- was interrupted, and what is loaded for the process that runs next.
use sky_os.Base.{
  ℕ, ◌%◌, ◌^◌, ◌≡◌, ◌≢◌, ◌⊎◌, refl, sym, ◌∙◌, ap, inl, inr, Bool, true, false, arith, ◌==◌,
  Bool-cases, Option, shr,
}
use sky_os.Base.Runs.{Run, done}
use sky_os.Isa.{Context, Machine, flag, sstatus_spp}
use sky_os.Isa.Flags.{clear_flag-set_flag}
use sky_os.Sched.{Task, Kernel, schedule, tick, do_timer, switch_to, trap_return_2, satp_of}
use sky_os.Sched.Choice.{ScheduleOutcome, schedule-ScheduleOutcome}
use sky_os.Process.{World}
use sky_os.Trap.{s_timer_int, set_context, handle_interrupt, trap_start}

-- The satp of the current process.
abbrev pub satp_wanted : Kernel → ℕ
satp_wanted k = satp_of (k.task k.current_task).pgtable

-- What the timer does besides its clocks.
pub record Timed (k : Kernel) (m : Machine) (k' : Kernel) (m' : Machine) : Type 0 where
  pub others : (i : ℕ) → i ≢ k.current_task → k'.task i ≡ k.task i
  pub context : (k'.task k.current_task).context ≡ (k.task k.current_task).context
  pub pgtable : (k'.task k.current_task).pgtable ≡ (k.task k.current_task).pgtable
  pub pidmap : k'.pidmap ≡ k.pidmap
  pub next : (k'.current_task ≡ k.current_task) ⊎ ((k'.task k'.current_task).pgtable ≢ 0)
  pub registers : m'.sscratch_stack ≡ (k'.task k'.current_task).context
  pub satp : m.satp ≡ satp_wanted k → m'.satp ≡ satp_wanted k'
  pub user : flag sstatus_spp m.sstatus ≡ 0 → flag sstatus_spp m'.sstatus ≡ 0

-- `schedule` changes the current process only.
record Picked (k : Kernel) (switched : Bool) (k' : Kernel) : Type 0 where
  task : k'.task ≡ k.task
  pidmap : k'.pidmap ≡ k.pidmap
  stays : switched ≡ false → k'.current_task ≡ k.current_task
  runs : switched ≡ true → (k'.task k'.current_task).pgtable ≢ 0

ScheduleOutcome-Picked : (k : Kernel) (r : Bool × Kernel) → ScheduleOutcome k r → Picked k r.0 r.1
ScheduleOutcome-Picked k _ (ScheduleOutcome.switched i lt runs first) = record {
  task = refl;
  pidmap = refl;
  stays = λ e. cc;
  runs = λ e. runs.0;
}
ScheduleOutcome-Picked k _ (ScheduleOutcome.stayed all) = record {
  task = refl;
  pidmap = refl;
  stays = λ e. refl;
  runs = λ e. cc;
}

module _ (k : Kernel) (m : Machine) where
  tick-others : (i : ℕ) → i ≢ k.current_task → (tick k).task i ≡ k.task i
  unfolding tick
  tick-others i ne = ground arith

  tick-context :
      (((tick k).task k.current_task).context ≡ (k.task k.current_task).context)
      × (((tick k).task k.current_task).pgtable ≡ (k.task k.current_task).pgtable)
      × ((tick k).current_task ≡ k.current_task)
      × ((tick k).pidmap ≡ k.pidmap)
  unfolding tick
  tick-context = (ground arith, ground arith, refl, refl)

  -- A machine that returns from the trap into the current process of `k2`.
  Picked-Timed :
      (switched : Bool) (k2 : Kernel) (m' : Machine)
      → Picked (tick k) switched k2
      → m'.sscratch_stack ≡ (k2.task k2.current_task).context
      → (m.satp ≡ satp_wanted k → m'.satp ≡ satp_wanted k2)
      → (flag sstatus_spp m.sstatus ≡ 0 → flag sstatus_spp m'.sstatus ≡ 0)
      → Timed k m k2 m'
  Picked-Timed switched k2 m' p registers satp user =
      let (context, pgtable, current, pidmap) = tick-context in
      record {
        others = λ i ne. ap (λ (t : ℕ → Task). t i) p.task ∙ tick-others i ne;
        context = ap (λ (t : ℕ → Task). (t k.current_task).context) p.task ∙ context;
        pgtable = ap (λ (t : ℕ → Task). (t k.current_task).pgtable) p.task ∙ pgtable;
        pidmap = p.pidmap ∙ pidmap;
        next = elim (Bool-cases switched) [
          | inl moved ↦ inr (p.runs moved)
          | inr same ↦ inl (p.stays same ∙ current)
        ];
        registers = registers;
        satp = satp;
        user = user;
      }

  -- Where the process stays the current one, so does its table.
  stays-satp : (k2 : Kernel) → Picked (tick k) false k2 → satp_wanted k2 ≡ satp_wanted k
  stays-satp k2 p =
      let (_, pgtable, current, _) = tick-context in
      let same : k2.current_task ≡ k.current_task = p.stays refl ∙ current in
      let table : (k2.task k.current_task).pgtable ≡ (k.task k.current_task).pgtable =
        ap (λ (t : ℕ → Task). (t k.current_task).pgtable) p.task ∙ pgtable in
      rw (same, table) refl

  do_timer-Timed : Timed k m (do_timer k m).0 (do_timer k m).1
  unfolding do_timer switch_to trap_return_2
  do_timer-Timed =
      let p =
        ScheduleOutcome-Picked (tick k) (schedule (tick k)) (schedule-ScheduleOutcome (tick k)) in
      elim (Bool-cases (flag sstatus_spp m.sstatus == 0)) [
        | inr kernel_mode ↦ rw kernel_mode (
            Picked-Timed false (tick k) _
              (record { task = refl; pidmap = refl; stays = λ e. refl; runs = λ e. cc }) refl
              (λ e.
                e
                ∙ sym (
                    stays-satp (tick k)
                      (record { task = refl; pidmap = refl; stays = λ e. refl; runs = λ e. cc })))
              (λ u. u))
        | inl user_mode ↦ elim (Bool-cases (schedule (tick k)).0) [
          | inr stays ↦
              rw (user_mode, stays)
                (Picked-Timed false (schedule (tick k)).1 _ (rw stays at p) refl
                  (λ e. e ∙ sym (stays-satp (schedule (tick k)).1 (rw stays at p))) (λ u. u))
          | inl switched ↦
              rw (user_mode, switched)
                (Picked-Timed true (schedule (tick k)).1 _ (rw switched at p) refl (λ e. refl)
                  (λ u. (clear_flag-set_flag sstatus_spp m.sstatus (inr (inl refl))).1))
        ]
      ]

-- After a timer interrupt: the registers of the process that was interrupted are saved, no other
-- process has changed, and the registers that the return loads are those of the current process,
-- with its page table if it was the one in use before.
pub record Resumed {S : Type 0} (ctx : Context) (w w' : World S) : Type 0 where
  pub saved : (w'.kernel.task w.kernel.current_task).context ≡ ctx
  pub saved_pgtable :
      (w'.kernel.task w.kernel.current_task).pgtable ≡ (w.kernel.task w.kernel.current_task).pgtable
  pub others : (i : ℕ) → i ≢ w.kernel.current_task → w'.kernel.task i ≡ w.kernel.task i
  pub pidmap : w'.kernel.pidmap ≡ w.kernel.pidmap
  pub next :
      (w'.kernel.current_task ≡ w.kernel.current_task)
      ⊎ ((w'.kernel.task w'.kernel.current_task).pgtable ≢ 0)
  pub registers : w'.machine.sscratch_stack ≡ (w'.kernel.task w'.kernel.current_task).context
  pub satp : w.machine.satp ≡ satp_wanted w.kernel → w'.machine.satp ≡ satp_wanted w'.kernel
  pub user : flag sstatus_spp w.machine.sstatus ≡ 0 → flag sstatus_spp w'.machine.sstatus ≡ 0
  pub words : w'.words ≡ w.words
  pub bytes : w'.bytes ≡ w.bytes

-- A timer interrupt.
abbrev pub IsTimer : Machine → Type 0
IsTimer m = (shr m.scause 63 % 2 ≡ 1) × (m.scause % 2 ^ 8 ≡ s_timer_int)

module _ {S : Type 0} (w : World S) (ctx : Context) where
  set_context-satp : satp_wanted (set_context ctx w).kernel ≡ satp_wanted w.kernel
  set_context-satp = ground arith

  handle_interrupt-Resumed :
      w.log_lock ≡ 0
      → (w' : World S) × (handle_interrupt s_timer_int (set_context ctx w) ≡ done w')
        × Resumed ctx w w'
  unfolding handle_interrupt
  handle_interrupt-Resumed free =
      let w1 = set_context ctx w in
      let t = do_timer-Timed w1.kernel w1.machine in
      (
        record w1 {
          kernel = (do_timer w1.kernel w1.machine).0;
          machine = (do_timer w1.kernel w1.machine).1;
        },
        rw free refl,
        record {
          saved = t.context ∙ ground arith;
          saved_pgtable = t.pgtable ∙ ground arith;
          others = λ i ne. t.others i ne ∙ ground arith;
          pidmap = t.pidmap;
          next = t.next;
          registers = t.registers;
          satp = λ e. t.satp (e ∙ sym set_context-satp);
          user = t.user;
          words = refl;
          bytes = refl;
        },
      )

  pub trap_start-timer :
      (mmu : (satp sstatus : ℕ) → (ℕ → ℕ) → ℕ → Option ℕ) (kalloc : ℕ → S → Run (ℕ × S))
      → w.kernel.has_current ≡ true
      → w.log_lock ≡ 0
      → IsTimer w.machine
      → (w' : World S) × (trap_start mmu kalloc ctx w ≡ done w') × Resumed ctx w w'
  unfolding trap_start
  trap_start-timer mmu kalloc current free (interrupt, timer) =
      let is_interrupt : (shr w.machine.scause 63 % 2 == 1) ≡ true = ground arith in
      let entered : trap_start mmu kalloc ctx w ≡ handle_interrupt s_timer_int (set_context ctx w) =
        rw (current, is_interrupt, timer) refl in
      let (w', run, r) = handle_interrupt-Resumed free in (w', entered ∙ run, r)

  -- trap_start returns from every timer interrupt that comes from user mode, where there is a
  -- current process and the lock of the log is free: the registers of the interrupted process are
  -- saved, no other process has changed, the next process is the same one or one with a page
  -- table, the return loads the registers of the next process, with its page table in satp if satp
  -- was right before, and it goes to user mode; memory is as before.
  pub trap_start-Resumed :
      (mmu : (satp sstatus : ℕ) → (ℕ → ℕ) → ℕ → Option ℕ) (kalloc : ℕ → S → Run (ℕ × S))
      → w.kernel.has_current ≡ true
      → w.log_lock ≡ 0
      → IsTimer w.machine
      → flag sstatus_spp w.machine.sstatus ≡ 0
      → (w' : World S) × (trap_start mmu kalloc ctx w ≡ done w')
        × Resumed ctx w w'
        × (flag sstatus_spp w'.machine.sstatus ≡ 0)
  trap_start-Resumed mmu kalloc current free timer from_user =
      let (w', run, r) = trap_start-timer mmu kalloc current free timer in
      (w', run, r, r.user from_user)
