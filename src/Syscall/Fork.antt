-- ===== src/Syscall/Fork.antt =====
-- `sys_fork` of kernel/proc/syscall.c: the two processes that return from it.
use sky_os.Base.{ℕ, ◌%◌, ◌<◌, ◌≡◌, ◌≢◌, sym, ◌∙◌, ap, subst, arith, Option, write}
use sky_os.Base.Runs.{Run, done, >>=-eq-done, done_injective}
use sky_os.Isa.{Context}
use sky_os.Vms.{pgsize}
use sky_os.Sched.{Task, nr_task, task_running, task_initial_counter}
use sky_os.Process.{World, alloc_process, copy_mem_from, set_sum, clear_sum, print}
use sky_os.Process.Creation.{Created, alloc_process-Created, alloc_process-kalloc}
use sky_os.Process.Copies.{Kept, copy_mem_from-Kept}
use sky_os.Syscall.{set_a0, copy_task, sys_fork}

abbrev pub with_a0 : ℕ → Context → Context
with_a0 v c = record c { a0 = v }

-- The child `p` and the parent, and what they share.
pub record Forked {S : Type 0} (p : ℕ) (w w' : World S) : Type 0 where
  pub low : p < nr_task
  pub was_free : w.kernel.pidmap p ≡ 0
  pub pidmap : w'.kernel.pidmap ≡ write w.kernel.pidmap p 1
  pub current : w'.kernel.current_task ≡ w.kernel.current_task
  pub others : (i : ℕ) → i ≢ p → i ≢ w.kernel.current_task → w'.kernel.task i ≡ w.kernel.task i
  pub child_context :
      (w'.kernel.task p).context ≡ with_a0 0 (w.kernel.task w.kernel.current_task).context
  pub parent_context :
      (w'.kernel.task w.kernel.current_task).context
      ≡ with_a0 p (w.kernel.task w.kernel.current_task).context
  pub parent_pgtable :
      (w'.kernel.task w.kernel.current_task).pgtable ≡ (w.kernel.task w.kernel.current_task).pgtable
  pub pid : (w'.kernel.task p).pid ≡ p
  pub fpid : (w'.kernel.task p).fpid ≡ (w.kernel.task w.kernel.current_task).pid
  pub state : (w'.kernel.task p).state ≡ task_running
  pub counter : (w'.kernel.task p).counter ≡ task_initial_counter
  pub table : (w'.kernel.task p).pgtable % pgsize ≡ 0
  pub satp : w'.machine.satp ≡ w.machine.satp

-- The two tasks before the memory is copied.
module _ {S : Type 0} (w : World S) (live : w.kernel.pidmap w.kernel.current_task ≢ 0) where
  abbrev prepared : (p : ℕ) → World S → World S
  prepared p w1 = let w2 = copy_task p w.kernel.current_task w1 in set_a0 w.kernel.current_task p w2

  prepared-Forked : (p : ℕ) (w1 : World S) → Created w p w1 → Forked p w (prepared p w1)
  unfolding copy_task set_a0
  prepared-Forked p w1 c =
      let ne : p ≢ w.kernel.current_task = λ e. live (ap w.kernel.pidmap (sym e) ∙ c.was_free) in
      let same = c.others w.kernel.current_task (λ e. ne (sym e)) in
      record {
        low = c.low;
        was_free = c.was_free;
        pidmap = c.pidmap;
        current = c.current;
        others = λ i n m. ground (arith, c.others i n);
        child_context = ground (arith, ap (λ (x : Task). with_a0 0 x.context) same);
        parent_context = ground (arith, ap (λ (x : Task). with_a0 p x.context) same);
        parent_pgtable = ground (arith, ap (λ (x : Task). x.pgtable) same);
        pid = ground (arith, c.pid);
        fpid = ground (arith, ap (λ (x : Task). x.pid) same);
        state = ground arith;
        counter = ground (arith, c.counter);
        table = ground (arith, c.table);
        satp = ap (λ x. x.satp) c.machine;
      }

  prepared-pgtable :
      (p : ℕ) (w1 : World S) → ((prepared p w1).kernel.task p).pgtable ≡ (w1.kernel.task p).pgtable
  unfolding copy_task set_a0
  prepared-pgtable p w1 = ground arith

  -- The copy of the memory keeps all of it.
  Forked-Kept :
      (p : ℕ) (w1 w2 : World S)
      → p ≢ w.kernel.current_task
      → Forked p w w1
      → Kept p (set_sum w1) w2
      → Forked p w (clear_sum w2)
  Forked-Kept p w1 w2 ne f k =
      let parent = k.others w.kernel.current_task (λ e. ne (sym e)) in
      record {
        low = f.low;
        was_free = f.was_free;
        pidmap = k.pidmap ∙ f.pidmap;
        current = k.current ∙ f.current;
        others = λ i n m. k.others i n ∙ f.others i n m;
        child_context = k.context ∙ f.child_context;
        parent_context = ap (λ (x : Task). x.context) parent ∙ f.parent_context;
        parent_pgtable = ap (λ (x : Task). x.pgtable) parent ∙ f.parent_pgtable;
        pid = k.pid ∙ f.pid;
        fpid = k.fpid ∙ f.fpid;
        state = k.state ∙ f.state;
        counter = k.counter ∙ f.counter;
        table = ap (λ x. x % pgsize) k.pgtable ∙ f.table;
        satp = ap (λ x. x.satp) k.machine ∙ f.satp;
      }

copy_task-pid :
    {S : Type 0} (p current : ℕ) (w : World S)
    → ((copy_task p current w).kernel.task p).pid ≡ (w.kernel.task p).pid
unfolding copy_task
copy_task-pid p current w = ground arith

print-Forked :
    {S : Type 0} (p : ℕ) (w w' : World S)
    → Forked p w w'
    → (lines : _) → Forked p w (print lines w')
print-Forked p w w' f lines = record {
  low = f.low;
  was_free = f.was_free;
  pidmap = f.pidmap;
  current = f.current;
  others = f.others;
  child_context = f.child_context;
  parent_context = f.parent_context;
  parent_pgtable = f.parent_pgtable;
  pid = f.pid;
  fpid = f.fpid;
  state = f.state;
  counter = f.counter;
  table = f.table;
  satp = f.satp;
}

-- When sys_fork from a live process returns an identifier, that identifier was free; the child has
-- it, the parent's identifier as its father, all the registers of the parent but a0, which is 0,
-- the page that kalloc of a page returned as its page table and the initial ticks; the parent's a0
-- is the identifier and its other registers and its table are as before; no other process has
-- changed, the current process is the same one, and so is satp.
pub sys_fork-Forked :
    {S : Type 0} (mmu : (satp sstatus : ℕ) → (ℕ → ℕ) → ℕ → Option ℕ) (kalloc : ℕ → S → Run (ℕ × S))
    (w : World S) {pid : ℕ} {w' : World S}
    → w.kernel.pidmap w.kernel.current_task ≢ 0
    → sys_fork mmu kalloc w ≡ done (pid, w')
    → Forked pid w w'
      × ((heap : S) × (kalloc pgsize w.heap ≡ done ((w'.kernel.task pid).pgtable, heap)))
unfolding sys_fork
sys_fork-Forked {S} mmu kalloc w {pid} {w'} live run =
    let ((p, w1), made, run1) = >>=-eq-done (alloc_process kalloc w) _ run in
    let c = alloc_process-Created w kalloc made in
    let e : ((copy_task p w.kernel.current_task w1).kernel.task p).pid ≡ p =
      copy_task-pid p w.kernel.current_task w1 ∙ c.pid in
    let (w4, copied, last) =
      >>=-eq-done (copy_mem_from kalloc mmu p w.kernel.current_task (prepared w live p w1)) _
        (rw (c.current, e) at run1) in
    let (w5, kept, cleared) =
      copy_mem_from-Kept p kalloc mmu w.kernel.current_task (prepared w live p w1) copied in
    let ne : p ≢ w.kernel.current_task = λ q. live (ap w.kernel.pidmap (sym q) ∙ c.was_free) in
    let f =
      Forked-Kept w live p (prepared w live p w1) w5 ne (prepared-Forked w live p w1 c) kept in
    let f4 : Forked p w w4 = rw cleared f in
    let same = done_injective last in
    let (heap, got) = alloc_process-kalloc w kalloc made in
    let table : (w4.kernel.task p).pgtable ≡ (w1.kernel.task p).pgtable =
      rw cleared (kept.pgtable ∙ prepared-pgtable w live p w1) in
    subst
      (λ (x : ℕ × World S).
        Forked x.0 w x.1
        × ((h : S) × (kalloc pgsize w.heap ≡ done ((x.1.kernel.task x.0).pgtable, h))))
      same (rw f4.pid (print-Forked p w w4 f4 _, (heap, rw table got)))
