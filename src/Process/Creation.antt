-- ===== src/Process/Creation.antt =====
-- `alloc_process` and `alloc_pgtable` of kernel/proc/sched.c: what a new process is given.
use sky_os.Base.{
  ℕ, ◌+◌, ◌-◌, ◌%◌, ◌≤◌, ◌<◌, ◌≡◌, ◌≢◌, ◌⊎◌, refl, ◌∙◌, ap, subst, inl, inr, arith, Bool-cases,
  ==_iff, write,
}
use sky_os.Base.Runs.{Run, done, >>=-eq-done, done_injective, require-done}
use sky_os.Vms.{pgsize}
use sky_os.Sched.{Kernel, nr_task, task_running, task_initial_counter, sv39_user_sp_addr, alloc_pid}
use sky_os.Sched.Pids.{PidOutcome, alloc_pid-PidOutcome, with_pid}
use sky_os.Process.{
  World, align, clear_table, copy_table, alloc_pgtable, alloc_process, start_task, finish_task,
}

-- A new identifier was free before.
pub alloc_pid-free :
    (k : Kernel) {i : ℕ} {k' : Kernel}
    → alloc_pid k ≡ done (i, k')
    → (i < nr_task) × (k.pidmap i ≡ 0) × (k' ≡ with_pid i k)
alloc_pid-free k {i} {k'} run = go (alloc_pid k) (alloc_pid-PidOutcome k) run
  where
    go :
        (r : Run (ℕ × Kernel))
        → PidOutcome k 0 nr_task r
        → r ≡ done (i, k')
        → (i < nr_task) × (k.pidmap i ≡ 0) × (k' ≡ with_pid i k)
    go _ (PidOutcome.allocated j le lt free first) e =
        subst (λ (x : ℕ × Kernel). (x.0 < nr_task) × (k.pidmap x.0 ≡ 0) × (x.1 ≡ with_pid x.0 k))
          (done_injective e) (lt, free, refl)
    go _ (PidOutcome.none_free all) e = cc

-- The result of `alloc_pgtable`: a page, with the entries of the kernel's table.
pub record TableOf {S : Type 0} (t : ℕ) (w w' : World S) : Type 0 where
  pub aligned : t % pgsize ≡ 0
  pub copied :
      (x : ℕ)
      → x < pgsize
      → (w.k_pgtable + pgsize ≤ t) ⊎ (t + pgsize ≤ w.k_pgtable)
      → w'.words (t + x) ≡ w.words (w.k_pgtable + x)
  pub other_words : (a : ℕ) → (a < t) ⊎ (t + pgsize ≤ a) → w'.words a ≡ w.words a
  pub kernel : w'.kernel ≡ w.kernel
  pub machine : w'.machine ≡ w.machine
  pub bytes : w'.bytes ≡ w.bytes

module _ {S : Type 0} (kalloc : ℕ → S → Run (ℕ × S)) (w : World S) where
  pub alloc_pgtable-TableOf :
      {t : ℕ} {w' : World S} → alloc_pgtable kalloc w ≡ done (t, w') → TableOf t w w'
  unfolding alloc_pgtable
  alloc_pgtable-TableOf {t} {w'} run =
      let ((t1, heap), got, rest) = >>=-eq-done (kalloc pgsize w.heap) _ run in
      let w1 = record w {
        words = copy_table t1 w.k_pgtable (clear_table t1 w.words);
        heap = heap;
      } in
      elim (Bool-cases (align t1)) [
        | inr odd ↦ cc (rw odd at rest)
        | inl even ↦
            subst (λ (x : ℕ × World S). TableOf x.0 w x.1) (done_injective (rw even at rest))
              (record {
                aligned = (==_iff (t1 % pgsize) 0).0 even;
                copied = λ x lt apart. copied_word t1 x lt apart;
                other_words = λ a out. ground arith;
                kernel = refl;
                machine = refl;
                bytes = refl;
              })
      ]
    where
      copied_word :
          (t x : ℕ)
          → x < pgsize
          → (w.k_pgtable + pgsize ≤ t) ⊎ (t + pgsize ≤ w.k_pgtable)
          → copy_table t w.k_pgtable (clear_table t w.words) (t + x) ≡ w.words (w.k_pgtable + x)
      copied_word t x lt apart =
          let e : w.k_pgtable + (t + x - t) ≡ w.k_pgtable + x = omega arith in ground (arith, e)

  alloc_pgtable-kalloc :
      {t : ℕ} {w' : World S}
      → alloc_pgtable kalloc w ≡ done (t, w')
      → (heap : S) × (kalloc pgsize w.heap ≡ done (t, heap))
  unfolding alloc_pgtable
  alloc_pgtable-kalloc run =
      let ((t1, heap), got, rest) = >>=-eq-done (kalloc pgsize w.heap) _ run in
      let (even, last) = require-done (align t1) _ rest in
      (
        heap,
        subst (λ (x : ℕ × World S). kalloc pgsize w.heap ≡ done (x.0, heap)) (done_injective last)
            got,
      )

module _ {S : Type 0} (w : World S) where
  -- A new process: its identifier was free, and it has the fields of a process that runs for the
  -- first time, on a table of its own.
  pub record Created (p : ℕ) (w' : World S) : Type 0 where
    pub low : p < nr_task
    pub was_free : w.kernel.pidmap p ≡ 0
    pub pidmap : w'.kernel.pidmap ≡ write w.kernel.pidmap p 1
    pub current : w'.kernel.current_task ≡ w.kernel.current_task
    pub others : (i : ℕ) → i ≢ p → w'.kernel.task i ≡ w.kernel.task i
    pub pid : (w'.kernel.task p).pid ≡ p
    pub state : (w'.kernel.task p).state ≡ task_running
    pub counter : (w'.kernel.task p).counter ≡ task_initial_counter
    pub sp : (w'.kernel.task p).context.sp ≡ sv39_user_sp_addr
    pub table : (w'.kernel.task p).pgtable % pgsize ≡ 0
    pub machine : w'.machine ≡ w.machine
    pub bytes : w'.bytes ≡ w.bytes

  finish_task-Created :
      (p t : ℕ) (k : Kernel) (w1 : World S)
      → p < nr_task
      → w.kernel.pidmap p ≡ 0
      → k ≡ with_pid p w.kernel
      → TableOf t (record w { kernel = start_task p k }) w1
      → Created p (finish_task p t w1)
  unfolding start_task finish_task
  finish_task-Created p t k w1 low free e table = record {
    low = low;
    was_free = free;
    pidmap = ap (λ (x : Kernel). x.pidmap) (table.kernel ∙ ap (start_task p) e);
    current = ap (λ (x : Kernel). x.current_task) (table.kernel ∙ ap (start_task p) e);
    others =
        λ i ne. ground (arith, ap (λ (x : Kernel). x.task i) (table.kernel ∙ ap (start_task p) e));
    pid = ground (arith, ap (λ (x : Kernel). (x.task p).pid) table.kernel);
    state = ground (arith, ap (λ (x : Kernel). (x.task p).state) table.kernel);
    counter = ground arith;
    sp = ground arith;
    table = ground (arith, table.aligned);
    machine = table.machine;
    bytes = table.bytes;
  }

  -- When alloc_process returns a process, its identifier was free and is now in use, the process
  -- is running with that identifier, the initial ticks, the address of the user stack and a page
  -- table that starts at a page; no other process has changed, nor the current process, the
  -- control registers and the bytes of memory.
  pub alloc_process-Created :
      (kalloc : ℕ → S → Run (ℕ × S)) {p : ℕ} {w' : World S}
      → alloc_process kalloc w ≡ done (p, w')
      → Created p w'
  unfolding alloc_process
  alloc_process-Created kalloc {p} {w'} run =
      let ((i, k), got, run1) = >>=-eq-done (alloc_pid w.kernel) _ run in
      let (lt, free, e) = alloc_pid-free w.kernel got in
      let ((t, w1), table, run2) =
        >>=-eq-done (alloc_pgtable kalloc (record w { kernel = start_task i k })) _ run1 in
      let made = alloc_pgtable-TableOf kalloc (record w { kernel = start_task i k }) table in
      subst (λ (x : ℕ × World S). Created x.0 x.1) (done_injective run2)
        (finish_task-Created i t k w1 lt free e made)

  -- The page table of the new process is the page that kalloc returned.
  pub alloc_process-kalloc :
      (kalloc : ℕ → S → Run (ℕ × S)) {p : ℕ} {w' : World S}
      → alloc_process kalloc w ≡ done (p, w')
      → (heap : S) × (kalloc pgsize w.heap ≡ done ((w'.kernel.task p).pgtable, heap))
  unfolding alloc_process finish_task
  alloc_process-kalloc kalloc {p} {w'} run =
      let ((i, k), numbered, run1) = >>=-eq-done (alloc_pid w.kernel) _ run in
      let ((t, w1), table, run2) =
        >>=-eq-done (alloc_pgtable kalloc (record w { kernel = start_task i k })) _ run1 in
      let (heap, got) = alloc_pgtable-kalloc kalloc (record w { kernel = start_task i k }) table in
      (
        heap,
        subst
            (λ (x : ℕ × World S). kalloc pgsize w.heap ≡ done ((x.1.kernel.task x.0).pgtable, heap))
            (done_injective run2)
            (subst (λ a. kalloc pgsize w.heap ≡ done (a, heap)) (ground arith) got),
      )
