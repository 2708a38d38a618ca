-- ===== src/Process.antt =====
-- The part of kernel/proc/sched.c that makes processes: page tables, the copy of a process's memory,
-- and the report of its areas. The physical memory has two sides: the page table entries, and the
-- bytes of all other pages. The kernel reaches its own addresses as they are, since it is mapped to
-- itself, and the bytes of a process through `mmu`, the translation of the hardware by `satp`,
-- `sstatus` and the entries: none is a page fault, on which the trap handler stops the kernel.
pub mod Examples
pub mod Clone
pub mod Copies
pub mod Creation
pub mod Fresh
pub mod Memory
pub mod Separate
pub mod Tables
use sky_os.Base.{
  ℕ, zero, suc, ◌+◌, ◌-◌, ◌%◌, ◌^◌, Bool, ◌&&◌, ◌==◌, ltb, leb, if◌then◌else◌, Option, none, some,
  List, [], ◌∷◌, ◌++◌, write, u32, u64,
}
use sky_os.Base.Runs.{Run, done, panic, ◌>>=◌, ◌>>◌, require, inside}
use sky_os.Isa.{Context, Machine, sstatus_get, sstatus_set, set_flag, clear_flag, sstatus_sum}
use sky_os.Vms.{pgsize}
use sky_os.Sched.{
  Vma, Task, Kernel, nr_task, max_vma_num, task_running, task_initial_counter, sv39_user_sp_addr,
  set_task, alloc_pid, umap,
}

-- What a call of `printf` is given.
pub data Printed : Type 0 where
  -- "pid: %u, name: %s\n"
  process_line : (pid : ℕ) → (filename : ℕ → ℕ) → Printed
  -- "%u: [0x%lx, 0x%lx]\n"
  area_line : (i start end : ℕ) → Printed
  -- "\n"
  newline : Printed
  -- "%s"
  text : List ℕ → Printed

-- The state of the kernel, where `S` is the state of the allocator.
pub record World (S : Type 0) : Type 0 where
  pub kernel : Kernel
  pub machine : Machine
  pub words : ℕ → ℕ
  pub bytes : ℕ → ℕ
  pub heap : S
  pub console : List Printed
  pub k_pgtable : ℕ
  -- The lock of kernel/common/log.c, which is held inside of a message.
  pub log_lock : ℕ

-- `align(a)` of kernel/include/vms.h
abbrev pub align : ℕ → Bool
align a = a % pgsize == 0

-- `memset(t, 0, PGSIZE)` and `memcpy(t, src, PGSIZE)` on a table.
abbrev pub clear_table : (t : ℕ) → (ℕ → ℕ) → ℕ → ℕ
clear_table t words p = if leb t p && ltb p (t + pgsize) then 0 else words p

abbrev pub copy_table : (t src : ℕ) → (ℕ → ℕ) → ℕ → ℕ
copy_table t src words p = if leb t p && ltb p (t + pgsize) then words (src + (p - t)) else words p

-- The loop of `show_process_virtual_mem_map`, with `rest` rounds left at `i`.
unfoldable pub show_areas : (rest i : ℕ) → (ℕ → Vma) → List Printed
show_areas zero i mem_map = []
show_areas (suc rest) i mem_map =
    let later = show_areas rest (suc i) mem_map in
    let area = mem_map i in
    if area.mem_range == 0
    then later
    else area_line i area.mem_start (u64 (area.mem_start + area.mem_range)) ∷ later

unfoldable pub show_process_virtual_mem_map : Task → List Printed
show_process_virtual_mem_map p =
    process_line p.pid p.filename ∷ show_areas max_vma_num 0 p.mem_map ++ newline ∷ []

unfoldable pub start_task : ℕ → Kernel → Kernel
start_task pid k = set_task pid (record (k.task pid) { pid = pid; state = task_running }) k

module _ {S : Type 0} where
  abbrev pub update_task : ℕ → Task → World S → World S
  update_task i t w = record w { kernel = set_task i t w.kernel }

  abbrev pub print : List Printed → World S → World S
  print lines w = record w { console = w.console ++ lines }

  abbrev pub set_sum : World S → World S
  set_sum w = record w {
    machine = sstatus_set (set_flag sstatus_sum (sstatus_get w.machine)) w.machine;
  }

  abbrev pub clear_sum : World S → World S
  clear_sum w = record w {
    machine = sstatus_set (clear_flag sstatus_sum (sstatus_get w.machine)) w.machine;
  }

  -- What `alloc_process` sets before and after the page table is made.
  unfoldable pub finish_task : (pid t : ℕ) → World S → World S
  finish_task pid t w =
      let p = w.kernel.task pid in
      let context = record p.context { sp = sv39_user_sp_addr } in
      update_task pid (record p { pgtable = t; counter = task_initial_counter; context = context })
        w

  module _ (mmu : (satp sstatus : ℕ) → (ℕ → ℕ) → ℕ → Option ℕ) where
    -- A byte of the current process.
    unfoldable pub load_user : ℕ → World S → (ℕ → ℕ) → Run ℕ
    load_user va w bytes = elim (mmu w.machine.satp w.machine.sstatus w.words va) [
      | some a ↦ done (bytes a)
      | none ↦ panic
    ]

    -- `memcpy` from the memory of the current process to the kernel's: the bytes after `n` rounds.
    unfoldable pub copy_user : (n dst src : ℕ) → World S → Run (ℕ → ℕ)
    copy_user zero dst src w = done w.bytes
    copy_user (suc i) dst src w = do
      bytes ← copy_user i dst src w
      c ← load_user (src + i) w bytes
      done (write bytes (dst + i) c)

  module _ (kalloc : ℕ → S → Run (ℕ × S)) where
    unfoldable pub alloc_pgtable : World S → Run (ℕ × World S)
    alloc_pgtable w = do
      (t, heap) ← kalloc pgsize w.heap
      require (align t)
      done (t, record w { words = copy_table t w.k_pgtable (clear_table t w.words); heap = heap })

    -- The result is the index of the process.
    unfoldable pub alloc_process : World S → Run (ℕ × World S)
    alloc_process w = do
      (pid, k) ← alloc_pid w.kernel
      (t, w1) ← alloc_pgtable (record w { kernel = start_task pid k })
      done (pid, finish_task pid t w1)

    -- `umap` for the process `p`.
    unfoldable pub umap_process : (p va pa size : ℕ) → World S → Run (World S)
    umap_process p va pa size w = do
      (t, words, heap) ← umap (kalloc pgsize) (w.kernel.task p) va pa size w.words w.heap
      done (update_task p t (record w { words = words; heap = heap }))

    module _ (mmu : (satp sstatus : ℕ) → (ℕ → ℕ) → ℕ → Option ℕ) where
      -- The copy of one area; the count of `memcpy` is a `uint`, and its index an `int`.
      unfoldable pub copy_area : Vma → (p : ℕ) → World S → Run (World S)
      copy_area area p w = do
        (pa, heap) ← kalloc area.mem_range w.heap
        let w1 = record w { heap = heap }
        bytes ← copy_user mmu (u32 area.mem_range) pa area.mem_start w1
        inside (ltb (u32 area.mem_range) (2 ^ 31))
        umap_process p area.mem_start pa area.mem_range (record w1 { bytes = bytes })

      -- The loop of `copy_mem_from`, with `rest` rounds left at `i`.
      unfoldable pub copy_areas : (rest i p current : ℕ) → World S → Run (World S)
      copy_areas zero i p current w = done w
      copy_areas (suc rest) i p current w =
          let area = (w.kernel.task current).mem_map i in
          let copied = copy_area area p w in
          let round = if area.mem_range == 0 then done w else copied in
          round >>= copy_areas rest (suc i) p current

      unfoldable pub copy_mem_from : (p current : ℕ) → World S → Run (World S)
      copy_mem_from p current w = do
        w1 ← copy_areas max_vma_num 0 p current (set_sum w)
        done (clear_sum w1)
