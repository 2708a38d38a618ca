-- ===== src/Syscall/Clone.antt =====
-- `sys_fork` of kernel/proc/syscall.c: the child has a copy of the memory.
use sky_os.Base.{ℕ, ◌+◌, ◌<◌, ◌≡◌, ◌≢◌, sym, ◌∙◌, ap, subst, arith, Option}
use sky_os.Base.Runs.{Run, done, >>=-eq-done, done_injective}
use sky_os.Isa.{Machine, sstatus_get, sstatus_set, set_flag, sstatus_sum}
use sky_os.Vms.{trans, next_table, offset}
use sky_os.Vms.Ledger.{Ledger}
use sky_os.Vms.Walk.{IsClean}
use sky_os.Sched.{Task, Vma, max_vma_num}
use sky_os.Process.{World, alloc_process, copy_mem_from, set_sum}
use sky_os.Process.Copies.{copy_mem_from-Kept}
use sky_os.Process.Creation.{Created, alloc_process-Created}
use sky_os.Process.Memory.{KeepsTranslations, Later, IsReadable, IsReadable-Later}
use sky_os.Process.Clone.{copy_mem_from_lem}
use sky_os.Syscall.{set_a0, copy_task, sys_fork}
use sky_os.Process.Fresh.{Blank, alloc_process-Later}

module _ {S : Type 0} {kalloc : ℕ → S → Run (ℕ × S)} (l : Ledger kalloc) where
  open l use {Valid, Held}

  Later-set_sum : {w w' : World S} → Later l w w' → Later l (set_sum w) (set_sum w')
  Later-set_sum s = record {
    valid = s.valid;
    clean = s.clean;
    extends = s.extends;
    held = s.held;
    bytes = s.bytes;
    machine = ap (λ (m : Machine). sstatus_set (set_flag sstatus_sum (sstatus_get m)) m) s.machine;
  }

  module _ (mmu : (satp sstatus : ℕ) → (ℕ → ℕ) → ℕ → Option ℕ) (stable : KeepsTranslations mmu)
      (w : World S) (live : w.kernel.pidmap w.kernel.current_task ≢ 0) (ok : Valid w.heap)
      (clean : IsClean w.words) (blank : Blank l w) (place : ℕ → ℕ → ℕ) where
    abbrev area : ℕ → Vma
    area i = (w.kernel.task w.kernel.current_task).mem_map i

    -- Process `p` has the bytes that the areas of the current one had in `w`.
    abbrev HasCopy : (p : ℕ) → World S → Type 0
    HasCopy p v =
        (i x : ℕ)
        → i < max_vma_num
        → x < (area i).mem_range
        → (e : ℕ) × (trans (v.kernel.task p).pgtable ((area i).mem_start + x) v.words ≡ done e)
          × (v.bytes (next_table (v.words e) + offset ((area i).mem_start + x))
              ≡ w.bytes (place i x))

    new_ne_current : (p : ℕ) {w1 : World S} → Created w p w1 → p ≢ w.kernel.current_task
    new_ne_current p c e = live (ap w.kernel.pidmap (sym e) ∙ c.was_free)

    abbrev prepared : (p : ℕ) → World S → World S
    prepared p w1 =
        let w2 = copy_task p w1.kernel.current_task w1 in
        set_a0 w1.kernel.current_task (w2.kernel.task p).pid w2

    prepared-Later : (p : ℕ) (w1 : World S) → Later l w w1 → Later l w (prepared p w1)
    unfolding copy_task set_a0
    prepared-Later p w1 s = record {
      valid = s.valid;
      clean = s.clean;
      extends = s.extends;
      held = s.held;
      bytes = s.bytes;
      machine = s.machine;
    }

    prepared-area :
        (p : ℕ) (w1 : World S)
        → Created w p w1
        → (i : ℕ) → ((prepared p w1).kernel.task w1.kernel.current_task).mem_map i ≡ area i
    unfolding copy_task set_a0
    prepared-area p w1 c i =
        let j = w1.kernel.current_task in
        let ne : j ≢ p = λ e. new_ne_current p c (sym e ∙ c.current) in
        let kept : ((prepared p w1).kernel.task j).mem_map i ≡ (w1.kernel.task j).mem_map i =
          ground (arith, ne) in
        kept
        ∙ ap (λ (t : Task). t.mem_map i) (c.others j ne)
        ∙ ap (λ n. (w.kernel.task n).mem_map i) c.current

    prepared-pid : (p : ℕ) (w1 : World S) → Created w p w1 → ((prepared p w1).kernel.task p).pid ≡ p
    unfolding copy_task set_a0
    prepared-pid p w1 c =
        let kept : ((prepared p w1).kernel.task p).pid ≡ (w1.kernel.task p).pid = ground arith in
        kept ∙ c.pid

    module _
        (readable : (i : ℕ)
          → i < max_vma_num
          → (area i).mem_range ≢ 0
          → IsReadable l mmu (area i) (place i) (set_sum w)) where
      prepared-HasCopy :
          (p : ℕ) (w1 : World S) {w4 : World S}
          → Created w p w1
          → Later l w (prepared p w1)
          → copy_mem_from kalloc mmu p w1.kernel.current_task (prepared p w1) ≡ done w4
          → ((b : ℕ) → Held w.heap b → w4.bytes b ≡ w.bytes b)
            × HasCopy p w4
            × ((w4.kernel.task p).pid ≡ p)
      prepared-HasCopy p w1 {w4} c s run =
          let j = w1.kernel.current_task in
          let w3 = prepared p w1 in
          let ne : p ≢ j = λ e. new_ne_current p c (e ∙ c.current) in
          let (kept, child) =
            copy_mem_from_lem l mmu stable p j ne place w3 s.valid s.clean
              (λ i lt used.
                let e = prepared-area p w1 c i in
                rw e
                  (IsReadable-Later l mmu stable (Later-set_sum s) (readable i lt (rw e at used))))
              run in
          let (w5, k, e5) = copy_mem_from-Kept p kalloc mmu j w3 run in
          (
            λ b h. kept b (s.held b h) ∙ s.bytes b h,
            λ i x lt below.
                let (a, found, at) =
                  subst
                    (λ (v : Vma).
                      (x : ℕ)
                      → x < v.mem_range
                      → (e : ℕ) × (trans (w4.kernel.task p).pgtable (v.mem_start + x) w4.words
                          ≡ done e)
                        × (w4.bytes (next_table (w4.words e) + offset (v.mem_start + x))
                            ≡ w3.bytes (place i x)))
                    (prepared-area p w1 c i) (λ x. child i x lt) x below in
                (a, found, at ∙ s.bytes (place i x) ((readable i lt (omega arith)).held x below)),
            ap (λ (v : World S). (v.kernel.task p).pid) e5 ∙ k.pid ∙ prepared-pid p w1 c,
          )

      -- When sys_fork from a live process returns an identifier, where the allocator is in a valid
      -- state and grants only whole pages whose bytes were not held, memory that nobody holds has
      -- no valid entry and the other memory no stale one, the hardware still translates what it
      -- translated when entries are added, and each area in use of the parent is of whole pages of
      -- the address space, shorter than 2 ^ 31 and mapped to bytes that are held: then no byte
      -- that was held has changed, and in the page table of the process with that identifier every
      -- address of these areas translates to a byte equal to the one that the parent had there.
      pub sys_fork_copies :
          {r : ℕ} {w' : World S}
          → sys_fork mmu kalloc w ≡ done (r, w')
          → ((b : ℕ) → Held w.heap b → w'.bytes b ≡ w.bytes b)
            × ((i x : ℕ)
                → i < max_vma_num
                → x < (area i).mem_range
                → (e : ℕ) × (trans (w'.kernel.task r).pgtable ((area i).mem_start + x) w'.words
                    ≡ done e)
                  × (w'.bytes (next_table (w'.words e) + offset ((area i).mem_start + x))
                      ≡ w.bytes (place i x)))
      unfolding sys_fork
      sys_fork_copies run =
          let ((p, w1), made, run1) = >>=-eq-done (alloc_process kalloc w) _ run in
          let c = alloc_process-Created w kalloc made in
          let s = prepared-Later p w1 (alloc_process-Later l w ok clean blank made) in
          let (w4, copied, last) =
            >>=-eq-done (copy_mem_from kalloc mmu p w1.kernel.current_task (prepared p w1)) _
              run1 in
          let (kept, copy, pid) = prepared-HasCopy p w1 c s copied in
          subst
            (λ (x : ℕ × World S).
              ((b : ℕ) → Held w.heap b → x.1.bytes b ≡ w.bytes b) × HasCopy x.0 x.1)
            (done_injective last) (kept, subst (λ n. HasCopy n w4) (sym pid) copy)
