-- ===== src/Exec/Start.antt =====
-- `execve` of kernel/proc/sched.c: the process that it starts, and the place of its stack.
use sky_os.Base.{
  ℕ, ◌+◌, ◌-◌, ◌*◌, ◌%◌, ◌^◌, ◌≤◌, ◌<◌, ◌≡◌, ◌≢◌, ◌∙◌, ap, subst, arith, ◌==◌, ==_iff, Option, none,
  some, write, u64,
}
use sky_os.Base.Runs.{Run, done, panic, >>=-eq-done, done_injective, require-done}
use sky_os.Isa.{Context}
use sky_os.Vms.{pgsize, offset, next_table, trans}
use sky_os.Vms.Kalloc.{Kalloc}
use sky_os.Vms.Entries.{IsPage}
use sky_os.Vms.Walk.{IsClean}
use sky_os.Sched.{nr_task, task_running, task_initial_counter, sv39_user_sp_addr, satp_of, umap}
use sky_os.Sched.Areas.{umap-trans}
use sky_os.Process.{World, align, alloc_process, umap_process}
use sky_os.Process.Copies.{Kept, Kept-trans}
use sky_os.Process.Creation.{Created, alloc_process-Created}
use sky_os.Exec.{
  Fat, store_file, set_filename, load_segments, make_stack, start_at, run_file, execve,
}
use sky_os.Exec.Elf.{load_elfhdr, elf_magic}
use sky_os.Exec.Steps.{
  Entered, enter_process-Entered, set_filename-Kept, Kept-memory, load_segments-Kept,
  make_stack-Kept,
}

-- The new process `p` after `execve`.
pub record Started {S : Type 0} (p : ℕ) (w w' : World S) : Type 0 where
  pub low : p < nr_task
  pub was_free : w.kernel.pidmap p ≡ 0
  pub pidmap : w'.kernel.pidmap ≡ write w.kernel.pidmap p 1
  pub current : w'.kernel.current_task ≡ p
  pub others : (i : ℕ) → i ≢ p → w'.kernel.task i ≡ w.kernel.task i
  pub pid : (w'.kernel.task p).pid ≡ p
  pub state : (w'.kernel.task p).state ≡ task_running
  pub counter : (w'.kernel.task p).counter ≡ task_initial_counter
  pub sp : (w'.kernel.task p).context.sp ≡ sv39_user_sp_addr
  pub satp : w'.machine.satp ≡ satp_of (w'.kernel.task p).pgtable
  pub registers : w'.machine.sscratch_stack ≡ (w'.kernel.task p).context

module _ {S : Type 0} (kalloc : ℕ → S → Run (ℕ × S)) where
  started :
      (p : ℕ) {w w1 w2 w' : World S}
      → Created w p w1
      → Kept p w1 w2
      → Entered p w2 w'
      → Started p w w'
  started p c k e = record {
    low = c.low;
    was_free = c.was_free;
    pidmap = e.pidmap ∙ k.pidmap ∙ c.pidmap;
    current = e.current;
    others = λ i ne. e.others i ne ∙ k.others i ne ∙ c.others i ne;
    pid = e.pid ∙ k.pid ∙ c.pid;
    state = e.state ∙ k.state ∙ c.state;
    counter = e.counter ∙ k.counter ∙ c.counter;
    sp = e.sp ∙ ap (λ (x : Context). x.sp) k.context ∙ c.sp;
    satp = e.satp;
    registers = e.registers;
  }

  start_at-Entered :
      (p elfcontent : ℕ) (sepc_offset : Option ℕ) (w : World S) {w' : World S}
      → start_at kalloc p elfcontent sepc_offset w ≡ done w'
      → Entered p w w'
  unfolding start_at
  start_at-Entered p elfcontent none w run = cc
  start_at-Entered p elfcontent (some o) w run =
      subst (Entered p w) (done_injective run) (enter_process-Entered p _ w)

  run_file-Started :
      (fat : Fat) (file : fat.File) (filename : ℕ → ℕ) (w : World S) {w' : World S}
      → run_file kalloc fat file filename w ≡ done w'
      → (p : ℕ) × Started p w w'
  unfolding run_file
  run_file-Started fat file filename w {w'} run =
      let ((p, w1), made, e1) = >>=-eq-done (alloc_process kalloc w) _ run in
      let w2 = set_filename p filename w1 in
      let ((elfcontent, heap), got, e2) = >>=-eq-done (kalloc (fat.size file) w2.heap) _ e1 in
      let (count, content) = fat.fat_read file (fat.size file) in
      let w3 = store_file elfcontent count content (record w2 { heap = heap }) in
      let (whole, e3) = require-done (count == fat.size file) _ e2 in
      let (elf, e4) = require-done ((load_elfhdr elfcontent w3.bytes).magic == elf_magic) _ e3 in
      let (l, loaded, e5) = >>=-eq-done (load_segments kalloc (2 ^ 16) p elfcontent 0 _) _ e4 in
      let (w4, stacked, e6) = >>=-eq-done (make_stack kalloc p l.world) _ e5 in
      let segments = load_segments-Kept p kalloc (2 ^ 16) elfcontent 0 _ loaded in
      let k = Kept-trans p (set_filename-Kept p filename w1) (
        Kept-trans p (Kept-memory p w2.words w3.bytes heap segments)
          (make_stack-Kept p kalloc l.world stacked)) in
      let e = start_at-Entered p elfcontent l.sepc_offset w4 e6 in
      (p, started p (alloc_process-Created w kalloc made) k e)

  -- When execve returns, the new process had a free identifier and is the current one, running,
  -- with the initial ticks and the address of the user stack; satp holds its page table, the
  -- return loads its registers, and no other process has changed.
  pub execve-Started :
      (fat : Fat) (filename : ℕ → ℕ) (w : World S) {w' : World S}
      → execve kalloc fat filename w ≡ done w'
      → (p : ℕ) × Started p w w'
  unfolding execve
  execve-Started fat filename w {w'} run = go (fat.fat_open filename) run
    where
      go :
          (o : Option fat.File)
          → elim o [ none ↦ panic | some file ↦ run_file kalloc fat file filename w ] ≡ done w'
          → (p : ℕ) × Started p w w'
      go none e = cc
      go (some file) e = run_file-Started fat file filename w e

  -- When make_stack of execve returns, with an allocator of aligned pages, no stale entry in
  -- memory and kalloc returning an address from 16 KB up to 2 ^ 51, then the user stack of 16 KB
  -- translates to the 16 KB below the address that kalloc returned, and not to the memory that
  -- starts there.
  pub make_stack_below :
      (p : ℕ) (w : World S) {stack : ℕ} {heap : S} {w' : World S}
      → ((h : S) (t : ℕ) (h' : S) → kalloc pgsize h ≡ done (t, h') → IsPage t)
      → IsClean w.words
      → (w.kernel.task p).context.sp ≡ sv39_user_sp_addr
      → kalloc (pgsize * 4) w.heap ≡ done (stack, heap)
      → 4 * pgsize ≤ stack
      → stack < 2 ^ 51
      → make_stack kalloc p w ≡ done w'
      → (x : ℕ) → x < 4 * pgsize
      → (e : ℕ) × (trans (w'.kernel.task p).pgtable (sv39_user_sp_addr - 4 * pgsize + x) w'.words
          ≡ done e)
        × (next_table (w'.words e) + offset (sv39_user_sp_addr - 4 * pgsize + x) + 4 * pgsize
            ≡ stack + x)
  unfolding make_stack umap_process
  make_stack_below p w {stack} {heap} {w'} is_page clean sp got low high run x lt =
      let k : Kalloc = record {
        State = S;
        kalloc_page = kalloc pgsize;
        Valid = λ h. Unit;
        kalloc_IsPage = λ h t h' ok. is_page h t h';
        kalloc_Valid = λ h t h' ok got. tt;
      } in
      let (even, run1) = require-done (align stack) _ (rw got at run) in
      let va : u64 ((w.kernel.task p).context.sp + 2 ^ 64 - 4 * pgsize)
          ≡ sv39_user_sp_addr - 4 * pgsize =
        omega (arith, sp) in
      let pa : u64 (stack + 2 ^ 64 - 4 * pgsize) ≡ stack - 4 * pgsize = omega arith in
      let ((t, words, heap1), mapped, last) =
        >>=-eq-done
          (umap (kalloc pgsize) (w.kernel.task p) (sv39_user_sp_addr - 4 * pgsize)
            (stack - 4 * pgsize) (pgsize * 4) w.words heap)
          _ (rw (va, pa) at run1) in
      let page = (==_iff (stack % pgsize) 0).0 even in
      let (_, _, found) =
        umap-trans k (w.kernel.task p) (sv39_user_sp_addr - 4 * pgsize) (stack - 4 * pgsize)
          (pgsize * 4) w.words heap (omega arith) (omega (arith, page)) (omega arith) (omega arith)
          clean tt mapped in
      let (e, walked, names) = found x (omega arith) in
      subst
        (λ (v : World S).
          (e : ℕ) × (trans (v.kernel.task p).pgtable (sv39_user_sp_addr - 4 * pgsize + x) v.words
            ≡ done e)
          × (next_table (v.words e) + offset (sv39_user_sp_addr - 4 * pgsize + x) + 4 * pgsize
              ≡ stack + x))
        (done_injective last) (e, ground (arith, walked), omega (arith, names))
