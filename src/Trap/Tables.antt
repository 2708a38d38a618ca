-- ===== src/Trap/Tables.antt =====
-- Traps of kernel/proc/trap.c and the page tables.
use sky_os.Base.{
  ℕ, ◌+◌, ◌^◌, ◌%◌, ◌≡◌, refl, subst, inl, inr, arith, ◌==◌, Bool-cases, Option, ltb, length, shr,
  u64,
}
use sky_os.Base.Runs.{Run, done, >>=-eq-done, inside-done, done_injective}
use sky_os.Isa.{Context, Machine}
use sky_os.Vms.Ledger.{Ledger, Grows-refl}
use sky_os.Sched.{Kernel, do_timer, tick, schedule}
use sky_os.Process.{World}
use sky_os.Process.Separate.{Separate, SameTables, SameTables-trans, SameTables-Separate}
use sky_os.Syscall.{syscall}
use sky_os.Syscall.Tables.{syscall-Separate}
use sky_os.Trap.{
  s_timer_int, syscall_from_u_mode, set_context, handle_interrupt, handle_exception, trap_start,
  exception_infos, inter_infos,
}

do_timer-pgtable :
    (k : Kernel) (m : Machine) (i : ℕ) → ((do_timer k m).0.task i).pgtable ≡ (k.task i).pgtable
unfolding do_timer tick schedule
do_timer-pgtable k m i = ground arith

module _ {S : Type 0} {kalloc : ℕ → S → Run (ℕ × S)} (l : Ledger kalloc)
    (mmu : (satp sstatus : ℕ) → (ℕ → ℕ) → ℕ → Option ℕ) where
  set_context-SameTables : (c : Context) (w : World S) → SameTables l w (set_context c w)
  set_context-SameTables c w = record {
    tables = λ j. ground arith;
    kernel_table = refl;
    heap = Grows-refl l w.heap;
  }

  handle_interrupt-SameTables :
      (code : ℕ) (w : World S) {w' : World S}
      → handle_interrupt code w ≡ done w'
      → SameTables l w w'
  unfolding handle_interrupt
  handle_interrupt-SameTables code w run = elim (Bool-cases (code == s_timer_int)) [
    | inl timer ↦ elim (Bool-cases (w.log_lock == 0)) [
      | inr held ↦ cc (rw (timer, held) at run)
      | inl free ↦ subst (SameTables l w) (done_injective (rw (timer, free) at run)) (record {
        tables = do_timer-pgtable w.kernel w.machine;
        kernel_table = refl;
        heap = Grows-refl l w.heap;
      })
    ]
    | inr other ↦ elim (Bool-cases (ltb code (length inter_infos))) [
      | inl low ↦ cc (rw (other, low) at run)
      | inr high ↦ cc (rw (other, high) at run)
    ]
  ]

  handle_exception-Separate :
      (code : ℕ) (w : World S) {w' : World S}
      → handle_exception mmu kalloc code w ≡ done w'
      → Separate l w
      → Separate l w'
  unfolding handle_exception
  handle_exception-Separate code w run v = elim (Bool-cases (code == syscall_from_u_mode)) [
    | inl call ↦
        let ((r, w1), run1, last) = >>=-eq-done (syscall mmu kalloc w) _ (rw call at run) in
        subst (Separate l) (done_injective last) (syscall-Separate l mmu w run1 v)
    | inr other ↦ elim (Bool-cases (ltb code (length exception_infos))) [
      | inl low ↦ cc (rw (other, low) at run)
      | inr high ↦ cc (rw (other, high) at run)
    ]
  ]

  pub trap_start-Separate :
      (ctx : Context) (w : World S) {w' : World S}
      → trap_start mmu kalloc ctx w ≡ done w'
      → Separate l w
      → Separate l w'
  unfolding trap_start
  trap_start-Separate ctx w {w'} run0 v =
      let code = w.machine.scause % 2 ^ 8 in
      let next = record ctx { sepc = u64 (ctx.sepc + 4) } in
      let (_, run) = inside-done w.kernel.has_current _ run0 in
      elim (Bool-cases (shr w.machine.scause 63 % 2 == 1)) [
        | inl interrupt ↦
            SameTables-Separate l
              (SameTables-trans l (set_context-SameTables ctx w)
                (handle_interrupt-SameTables code (set_context ctx w) (rw interrupt at run)))
              v
        | inr exception ↦
            let (w1, run1, last) =
              >>=-eq-done (handle_exception mmu kalloc code (set_context next w)) _
                (rw exception at run) in
            let v1 =
              handle_exception-Separate code (set_context next w) run1
                (SameTables-Separate l (set_context-SameTables next w) v) in
            subst (Separate l) (done_injective last) (
              SameTables-Separate l
                (record { tables = λ i. refl; kernel_table = refl; heap = Grows-refl l w1.heap })
                v1)
      ]
