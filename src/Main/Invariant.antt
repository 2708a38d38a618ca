-- ===== src/Main/Invariant.antt =====
-- What holds of the kernel between any two traps, from the start of kernel/main.c on.
use sky_os.Base.{
  ℕ, ◌≡◌, ◌≢◌, sym, ◌∙◌, ap, arith, inl, inr, ◌==◌, Bool-cases, Option, none, some, ==_iff,
}
use sky_os.Base.Runs.{Run, done, panic, >>=-eq-done, done_injective, require-done}
use sky_os.Vms.{pgsize}
use sky_os.Buddy.{BuddyState}
use sky_os.Pmm.{pmm_init}
use sky_os.Ramdisk.{ramdisk_base}
use sky_os.BlockDevice.{block_device_new}
use sky_os.Sched.{Kernel, Task, kmap, satp_of}
use sky_os.Process.{World, align}
use sky_os.Boot.{kernel_size, k_pgtable_init, vms_init}
use sky_os.Trap.{trap_init}
use sky_os.Trap.Invariant.{Running, trap_start-Running}
use sky_os.Exec.{Fat}
use sky_os.Exec.Start.{Started, execve-Started}
use sky_os.Main.{Platform, kernel_kalloc, mount_disk, idle_name, main, Cold, Reach}

-- The page table of the kernel changes no process.
vms_init-kernel :
    {S : Type 0} (kalloc_page : S → Run (ℕ × S)) (kernel_start kernel_end : ℕ) (w : World S)
    {w' : World S}
    → vms_init kalloc_page kernel_start kernel_end w ≡ done w'
    → w'.kernel ≡ w.kernel
unfolding vms_init k_pgtable_init
vms_init-kernel kalloc_page kernel_start kernel_end w run =
    let ((ppn, w1), made, last) =
      >>=-eq-done (k_pgtable_init kalloc_page kernel_start kernel_end w) _ run in
    let ((t, heap), got, run1) = >>=-eq-done (kalloc_page w.heap) _ made in
    let (even, run2) = require-done (align t) _ run1 in
    let ((words, heap1), mapped, run3) =
      >>=-eq-done
        (kmap kalloc_page t kernel_start kernel_start
          (kernel_size kalloc_page kernel_start kernel_end) w.words heap)
        _ run2 in
    ap (λ x. x.kernel) (sym (done_injective last))
    ∙ ap (λ x. x.1.kernel) (sym (done_injective run3))

module _ (p : Platform) where
  mount_disk-kernel :
      (w : World BuddyState) {fat : Fat} {w' : World BuddyState}
      → mount_disk p w ≡ done (fat, w')
      → w'.kernel ≡ w.kernel
  mount_disk-kernel w {fat} {w'} run =
      let ((device, heap), made, last) =
        >>=-eq-done (block_device_new (kernel_kalloc p) (ramdisk_base p.kernel_start) w.heap) _
          run in
      go heap (p.mount device) last
    where
      go :
          (heap : BuddyState) (o : Option Fat)
          → ◌≡◌ {A = Run (Fat × World BuddyState)}
              (elim o [ none ↦ panic | some fat ↦ done (fat, record w { heap = heap }) ])
              (done (fat, w'))
          → w'.kernel ≡ w.kernel
      go heap none e = cc
      go heap (some f) e = ap (λ (x : Fat × World BuddyState). x.1.kernel) (sym (done_injective e))

  -- When main returns to a process from a state without processes, this process is the current one,
  -- its registers are loaded, and the state is one that the traps keep.
  pub main-Started :
      (w : World BuddyState) {w' : World BuddyState}
      → Cold p w
      → main p w ≡ done w'
      → (i : ℕ) × (w'.kernel.current_task ≡ i)
        × Running w'
        × (w'.machine.sscratch_stack ≡ (w'.kernel.task i).context)
  unfolding main
  main-Started w {w'} cold run =
      let w1 = record w { heap = pmm_init w.heap } in
      let (w2, mapped, run1) =
        >>=-eq-done (vms_init (kernel_kalloc p pgsize) p.kernel_start p.kernel_end w1) _ run in
      let w3 = record w2 { machine = trap_init p.sscratch_stack p.trap_entry w2.machine } in
      let ((fat, w4), mounted, run2) = >>=-eq-done (mount_disk p w3) _ run1 in
      let same =
        mount_disk-kernel w3 mounted
        ∙ vms_init-kernel (kernel_kalloc p pgsize) p.kernel_start p.kernel_end w1 mapped in
      let (i, s) = execve-Started (kernel_kalloc p) fat idle_name w4 run2 in
      (i, s.current, started i w4 same s, s.registers)
    where
      started :
          (i : ℕ) (w4 : World BuddyState) → w4.kernel ≡ w.kernel → Started i w4 w' → Running w'
      started i w4 same4 s = record {
        satp = s.satp ∙ ap (λ j. satp_of (w'.kernel.task j).pgtable) (sym s.current);
        live = λ e. live_lem (ap w'.kernel.pidmap (sym s.current) ∙ e);
        tables = λ j table. elim (Bool-cases (j == i)) [
          | inl same ↦ λ e. live_lem (ap w'.kernel.pidmap (sym ((==_iff j i).0 same)) ∙ e)
          | inr other ↦
              let ne : j ≢ i = ground (arith, other) in
              absurd (
                table (
                  ap (λ (t : Task). t.pgtable) (s.others j ne ∙ ap (λ (k : Kernel). k.task j) same4)
                  ∙ cold.tables j))
        ];
      }
        where
          live_lem : w'.kernel.pidmap i ≢ 0
          live_lem e = ground (arith, ap (λ (f : ℕ → ℕ). f i) s.pidmap, e)

  -- In every state between traps that the start of the kernel, from a state without processes, and
  -- any sequence of traps lead to, whatever registers and memory the processes have, satp holds
  -- the page table of the current process, that process is live, and every process with a page
  -- table is live.
  pub Reach-Running : {w : World BuddyState} → Reach p w → Running w
  Reach-Running (Reach.boot {w} {w'} cold run) =
      let (i, current, r, registers) = main-Started w cold run in r
  Reach-Running (Reach.trap {w} {w'} ctx scause sepc stval time log_lock bytes before run) =
      let r = Reach-Running before in
      (trap_start-Running p.mmu (kernel_kalloc p) ctx _
        (record { satp = r.satp; live = r.live; tables = r.tables }) run).0
