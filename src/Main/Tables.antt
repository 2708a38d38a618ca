-- ===== src/Main/Tables.antt =====
-- The page tables in all states between two traps, from the start of kernel/main.c on.
use sky_os.Base.{ℕ, ◌+◌, ◌^◌, ◌%◌, ◌≤◌, ◌≡◌, ◌≢◌, ◌⊎◌, refl, subst, arith, Option, none, some}
use sky_os.Base.Runs.{Run, done, panic, >>=-eq-done, done_injective}
use sky_os.Vms.{pgsize}
use sky_os.Vms.Ledger.{Ledger, Grows-refl, kalloc-Grows}
use sky_os.Buddy.{BuddyState}
use sky_os.Pmm.{pmm_init}
use sky_os.Pmm.Pages.{pgaddr_lem, live-high}
use sky_os.Pmm.Handed.{buddy_ledger, HeldAt, pmm_init-Owned}
use sky_os.Ramdisk.{ramdisk_base}
use sky_os.BlockDevice.{BlockDevice, block_device_new, block_device_size}
use sky_os.Process.{World}
use sky_os.Process.Separate.{Separate, SameTables, SameTables-Separate}
use sky_os.Boot.{vms_init}
use sky_os.Boot.Tables.{vms_init-Separate}
use sky_os.Trap.{trap_init}
use sky_os.Trap.Tables.{trap_start-Separate}
use sky_os.Exec.{Fat}
use sky_os.Exec.Tables.{execve-Separate}
use sky_os.Main.{Platform, kernel_kalloc, mount_disk, idle_name, main, Cold, Reach}

-- Two pages that have no byte in common.
abbrev pub Apart : ℕ → ℕ → Type 0
Apart a b = (a + pgsize ≤ b) ⊎ (b + pgsize ≤ a)

module _ (p : Platform) (aligned : p.kernel_end % pgsize ≡ 0)
    (low : p.kernel_end + 2 ^ 26 ≤ 2 ^ 52) where
  abbrev ledger : Ledger (kernel_kalloc p)
  ledger = buddy_ledger p.kernel_end aligned low

  block_device_new-SameTables :
      (w : World BuddyState) {device : BlockDevice} {heap : BuddyState}
      → block_device_new (kernel_kalloc p) (ramdisk_base p.kernel_start) w.heap
        ≡ done (device, heap)
      → SameTables ledger w (record w { heap = heap })
  unfolding block_device_new
  block_device_new-SameTables w run =
      let ((bldev, heap1), got, last) =
        >>=-eq-done (kernel_kalloc p block_device_size w.heap) _ run in
      subst (λ (x : BlockDevice × BuddyState). SameTables ledger w (record w { heap = x.1 }))
        (done_injective last)
        (record {
          tables = λ i. refl;
          kernel_table = refl;
          heap = kalloc-Grows ledger block_device_size got;
        })

  mount_disk-SameTables :
      (w : World BuddyState) {fat : Fat} {w' : World BuddyState}
      → mount_disk p w ≡ done (fat, w')
      → SameTables ledger w w'
  mount_disk-SameTables w {fat} {w'} run =
      let ((device, heap), made, last) =
        >>=-eq-done (block_device_new (kernel_kalloc p) (ramdisk_base p.kernel_start) w.heap) _
          run in
      go heap (block_device_new-SameTables w made) (p.mount device) last
    where
      go :
          (heap : BuddyState)
          → SameTables ledger w (record w { heap = heap })
          → (o : Option Fat)
          → ◌≡◌ {A = Run (Fat × World BuddyState)}
              (elim o [ none ↦ panic | some fat ↦ done (fat, record w { heap = heap }) ])
              (done (fat, w'))
          → SameTables ledger w w'
      go heap s none e = cc
      go heap s (some f) e =
          subst (λ (x : Fat × World BuddyState). SameTables ledger w x.1) (done_injective e) s

  main-Separate :
      (w : World BuddyState) {w' : World BuddyState}
      → Cold p w
      → main p w ≡ done w'
      → Separate ledger w'
  unfolding main
  main-Separate w cold run =
      let w1 = record w { heap = pmm_init w.heap } in
      let (w2, mapped, run1) =
        >>=-eq-done (vms_init (kernel_kalloc p pgsize) p.kernel_start p.kernel_end w1) _ run in
      let w3 = record w2 { machine = trap_init p.sscratch_stack p.trap_entry w2.machine } in
      let ((fat, w4), mounted, run2) = >>=-eq-done (mount_disk p w3) _ run1 in
      let v2 =
        vms_init-Separate ledger p.kernel_start p.kernel_end w1 (pmm_init-Owned w.heap) cold.tables
          mapped in
      let s = mount_disk-SameTables w3 mounted in
      execve-Separate ledger fat idle_name w4 run2 (
        SameTables-Separate ledger
          (record { tables = s.tables; kernel_table = s.kernel_table; heap = s.heap }) v2)

  Reach-Separate : {w : World BuddyState} → Reach p w → Separate ledger w
  Reach-Separate (Reach.boot {w} {w'} cold run) = main-Separate w cold run
  Reach-Separate (Reach.trap {w} {w'} ctx scause sepc stval time log_lock bytes before run) =
      trap_start-Separate ledger p.mmu ctx _ run (
        SameTables-Separate ledger
          (record { tables = λ i. refl; kernel_table = refl; heap = Grows-refl ledger w.heap })
          (Reach-Separate before))

  HeldAt-inside :
      {s : BuddyState} {a : ℕ}
      → a % pgsize ≡ 0
      → HeldAt p.kernel_end s a
      → (p.kernel_end ≤ a) × (a + pgsize ≤ p.kernel_end + 2 ^ 26)
  HeldAt-inside page h =
      let (lt, high) = live-high p.kernel_end aligned low h.owned in
      omega (arith, h.from, h.to, pgaddr_lem p.kernel_end aligned low h.page lt, lt, high)

  -- In every state between traps that the start of the kernel, from a state without processes, and
  -- any sequence of traps lead to, where the memory behind the kernel starts at a page and lies
  -- below 2 ^ 52, the page of the page table of a process that has one overlaps neither that of
  -- another process nor that of the kernel, and it lies inside the 64 MB behind the kernel.
  pub Reach-Apart :
      {w : World BuddyState}
      → Reach p w
      → (i j : ℕ) → i ≢ j
      → (w.kernel.task i).pgtable ≢ 0
      → Apart (w.kernel.task i).pgtable (w.kernel.task j).pgtable
        × Apart (w.kernel.task i).pgtable w.k_pgtable
        × (p.kernel_end ≤ (w.kernel.task i).pgtable)
        × ((w.kernel.task i).pgtable + pgsize ≤ p.kernel_end + 2 ^ 26)
  Reach-Apart {w} r i j ne has =
      let v = Reach-Separate r in
      let (above, below) = HeldAt-inside (v.aligned i) (v.held i has) in
      (
        ground (arith, v.different i j ne has, v.aligned i, v.aligned j),
        ground (arith, v.not_kernel i has, v.aligned i, v.kernel_aligned),
        above,
        below,
      )
