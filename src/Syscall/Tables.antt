-- ===== src/Syscall/Tables.antt =====
-- The system calls of kernel/proc/syscall.c and the page tables: only fork makes one.
use sky_os.Base.{ℕ, ◌≡◌, refl, subst, inl, inr, arith, ◌==◌, Bool-cases, Option, ltb, leb, u32}
use sky_os.Base.Runs.{Run, done, >>=-eq-done, done_injective, inside-done}
use sky_os.Vms.Ledger.{Ledger, Grows-refl}
use sky_os.Process.{World, alloc_process, copy_mem_from, set_sum}
use sky_os.Process.Separate.{
  Separate, SameTables, SameTables-refl, SameTables-Separate, SameTables-trans, NewTable-Separate,
}
use sky_os.Process.Tables.{alloc_process-NewTable, copy_mem_from-SameTables}
use sky_os.Syscall.{
  syscall_getpid, syscall_fork, syscall_write, buffer_size, set_a0, sys_getpid, copy_task,
  read_user, sys_write, sys_fork, syscall,
}
use sky_os.Syscall.Calls.{asked}

module _ {S : Type 0} {kalloc : ℕ → S → Run (ℕ × S)} (l : Ledger kalloc)
    (mmu : (satp sstatus : ℕ) → (ℕ → ℕ) → ℕ → Option ℕ) where
  set_a0-SameTables : (i v : ℕ) (w : World S) → SameTables l w (set_a0 i v w)
  unfolding set_a0
  set_a0-SameTables i v w = record {
    tables = λ j. ground arith;
    kernel_table = refl;
    heap = Grows-refl l w.heap;
  }

  copy_task-SameTables : (p current : ℕ) (w : World S) → SameTables l w (copy_task p current w)
  unfolding copy_task
  copy_task-SameTables p current w = record {
    tables = λ j. ground arith;
    kernel_table = refl;
    heap = Grows-refl l w.heap;
  }

  sys_getpid-SameTables : (w : World S) → SameTables l w (sys_getpid w).1
  unfolding sys_getpid
  sys_getpid-SameTables w = set_a0-SameTables w.kernel.current_task _ w

  sys_write-SameTables :
      (fd buf len : ℕ) (w : World S) {r : ℕ} {w' : World S}
      → sys_write mmu fd buf len w ≡ done (r, w')
      → SameTables l w w'
  unfolding sys_write
  sys_write-SameTables fd buf len w run = elim (Bool-cases (fd == 0)) [
    | inr other ↦
        subst (λ (x : ℕ × World S). SameTables l w x.1) (done_injective (rw other at run))
          (SameTables-refl l w)
    | inl out ↦
        let (buffer, _, rest) =
          >>=-eq-done (read_user mmu (u32 len) 0 buf (set_sum w)) _ (rw out at run) in
        let (short, last) = inside-done (ltb len buffer_size) _ rest in
        subst (λ (x : ℕ × World S). SameTables l w x.1) (done_injective last)
          (record { tables = λ i. refl; kernel_table = refl; heap = Grows-refl l w.heap })
  ]

  pub sys_fork-Separate :
      (w : World S) {r : ℕ} {w' : World S}
      → sys_fork mmu kalloc w ≡ done (r, w')
      → Separate l w
      → Separate l w'
  unfolding sys_fork
  sys_fork-Separate w run v =
      let ((p, w1), made, run1) = >>=-eq-done (alloc_process kalloc w) _ run in
      let w2 = copy_task p w1.kernel.current_task w1 in
      let w3 = set_a0 w1.kernel.current_task (w2.kernel.task p).pid w2 in
      let (w4, copied, last) =
        >>=-eq-done (copy_mem_from kalloc mmu p w1.kernel.current_task w3) _ run1 in
      let s = SameTables-trans l (copy_task-SameTables p w1.kernel.current_task w1) (
        SameTables-trans l (set_a0-SameTables w1.kernel.current_task _ w2)
          (copy_mem_from-SameTables l mmu p w1.kernel.current_task w3 copied)) in
      let v1 = NewTable-Separate l (alloc_process-NewTable l w made) v in
      subst (λ (x : ℕ × World S). Separate l x.1) (done_injective last)
        (SameTables-Separate l
          (record { tables = s.tables; kernel_table = s.kernel_table; heap = s.heap }) v1)

  pub syscall-Separate :
      (w : World S) {r : ℕ} {w' : World S}
      → syscall mmu kalloc w ≡ done (r, w')
      → Separate l w
      → Separate l w'
  unfolding syscall
  syscall-Separate w {r} {w'} run v = elim (Bool-cases (leb (asked w) syscall_write)) [
    | inr above ↦ cc (rw above at run)
    | inl named ↦ elim (Bool-cases (asked w == syscall_getpid)) [
      | inl getpid ↦
          let e : sys_getpid w ≡ (r, w') = done_injective (rw (named, getpid) at run) in
          subst (λ (x : ℕ × World S). Separate l x.1) e
            (SameTables-Separate l (sys_getpid-SameTables w) v)
      | inr n1 ↦ elim (Bool-cases (asked w == syscall_fork)) [
        | inl fork ↦ sys_fork-Separate w (rw (named, n1, fork) at run) v
        | inr n2 ↦ elim (Bool-cases (asked w == syscall_write)) [
          | inr n3 ↦ cc (rw (named, n1, n2, n3) at run)
          | inl out ↦
              SameTables-Separate l (sys_write-SameTables _ _ _ w (rw (named, n1, n2, out) at run))
                v
        ]
      ]
    ]
  ]
