-- ===== src/Sched.antt =====
-- kernel/proc/sched.c with kernel/include/sched.h: the table of processes, their identifiers, their
-- memory areas, the choice of the next process and the timer. A `struct task_struct *` is an index of
-- `task`.
pub mod Areas
pub mod Choice
mod Counts
pub mod Examples
pub mod Pids
pub mod Progress
pub mod Ticks
use sky_os.Base.{
  ℕ, zero, suc, ◌+◌, ◌-◌, ◌*◌, ◌/◌, ◌%◌, ◌^◌, Bool, true, false, not, ◌&&◌, ◌==◌, ltb,
  if◌then◌else◌, write, u32, u64, dec64, shr,
}
use sky_os.Base.Runs.{Run, done, panic, ◌>>=◌}
use sky_os.Vms.{pgsize, pte_u, map}
use sky_os.Isa.{
  Context, Machine, sstatus_get, sstatus_set, satp_set, mtime_get, flag, clear_flag, sstatus_spp,
  flush_tlb, sbi_set_timer,
}

abbrev pub nr_task : ℕ
nr_task = 64

abbrev pub max_vma_num : ℕ
max_vma_num = 5

abbrev pub task_running : ℕ
task_running = 0

abbrev pub task_initial_counter : ℕ
task_initial_counter = 256

abbrev pub sv39_user_sp_addr : ℕ
sv39_user_sp_addr = 0x4000000000

abbrev pub sv39_addressing_mode : ℕ
sv39_addressing_mode = 8

abbrev pub timer_clk_rate : ℕ
timer_clk_rate = 390000000 / 1000

-- `struct vma`; a range of 0 is a free slot.
pub record Vma : Type 0 where
  pub mem_start : ℕ
  pub mem_range : ℕ
  pub flags : ℕ

-- `struct task_struct`, less the fields that no code reads.
pub record Task : Type 0 where
  pub filename : ℕ → ℕ
  pub pid : ℕ
  pub fpid : ℕ
  pub state : ℕ
  pub context : Context
  pub pgtable : ℕ
  pub mem_map : ℕ → Vma
  pub counter : ℕ

-- `current_task` is a pointer: `has_current` says whether it is not NULL, and then the number is the
-- place of the process in `task`.
pub record Kernel : Type 0 where
  pub task : ℕ → Task
  pub current_task : ℕ
  pub has_current : Bool
  pub pidmap : ℕ → ℕ
  pub jiffies : ℕ

abbrev pub set_task : ℕ → Task → Kernel → Kernel
set_task i t k = record k { task = write k.task i t }

-- The loop of `alloc_pid`, with `rest` rounds left at `i`.
unfoldable pub alloc_pid_from : (rest i : ℕ) → Kernel → Run (ℕ × Kernel)
alloc_pid_from zero i k = panic
alloc_pid_from (suc rest) i k =
    let later = alloc_pid_from rest (suc i) k in
    if k.pidmap i == 0 then done (i, record k { pidmap = write k.pidmap i 1 }) else later

unfoldable pub alloc_pid : Kernel → Run (ℕ × Kernel)
alloc_pid k = alloc_pid_from nr_task 0 k

-- The loop of `get_process_count`: `cnt` after `n` rounds.
unfoldable pub process_count : ℕ → Kernel → ℕ
process_count zero k = 0
process_count (suc i) k =
    let cnt = process_count i k in if k.pidmap i == 0 then cnt else u32 (cnt + 1)

unfoldable pub get_process_count : Kernel → ℕ
get_process_count k = process_count nr_task k

-- The loop of `vma_insert`, with `rest` rounds left at `i`.
unfoldable pub vma_insert_from : (rest i va size flag : ℕ) → (ℕ → Vma) → ℕ → Vma
vma_insert_from zero i va size flag mem_map = mem_map
vma_insert_from (suc rest) i va size flag mem_map =
    let later = vma_insert_from rest (suc i) va size flag mem_map in
    if (mem_map i).mem_range == 0
    then write mem_map i (record { mem_start = va; mem_range = size; flags = flag })
    else later

unfoldable pub vma_insert : (va size flag : ℕ) → Task → Task
vma_insert va size flag p = record p {
  mem_map = vma_insert_from max_vma_num 0 va size flag p.mem_map;
}

-- The test of `schedule` for the task `i`.
unfoldable pub can_run : Kernel → ℕ → Bool
can_run k i =
    let p = k.task i in
    not (p.pgtable == 0)
    && (p.state == task_running)
    && not (i == k.current_task)
    && ltb (k.task k.current_task).counter p.counter

-- The loop of `schedule`, which stops at the first task that it takes.
unfoldable pub next_from : (rest i : ℕ) → Kernel → ℕ
next_from zero i k = k.current_task
next_from (suc rest) i k = let later = next_from rest (suc i) k in if can_run k i then i else later

unfoldable pub schedule : Kernel → Bool × Kernel
schedule k =
    let next = next_from nr_task 0 k in
    if next == k.current_task then (false, k) else (true, record k { current_task = next })

-- `trap_return_2` in kernel/proc/trap.c, up to the return itself.
unfoldable pub trap_return_2 : Kernel → Machine → Machine
trap_return_2 k m = record m { sscratch_stack = (k.task k.current_task).context }

-- The value of `satp` for a page table.
abbrev pub satp_of : ℕ → ℕ
satp_of pgtable = u64 (sv39_addressing_mode * 2 ^ 60 + shr pgtable 12)

unfoldable pub switch_to : Kernel → Machine → Machine
switch_to k m =
    let m1 = sstatus_set (clear_flag sstatus_spp (sstatus_get m)) m in
    trap_return_2 k (flush_tlb (satp_set (satp_of (k.task k.current_task).pgtable) m1))

-- The part of `do_timer` before its tests: the clocks.
unfoldable pub tick : Kernel → Kernel
tick k =
    let t = k.task k.current_task in
    set_task k.current_task (record t { counter = dec64 t.counter })
      (record k { jiffies = u64 (k.jiffies + 1) })

-- Its messages are left out: `handle_interrupt` of kernel/proc/trap.c, its caller, has the lock that
-- they take.
unfoldable pub do_timer : Kernel → Machine → Kernel × Machine
do_timer k m =
    let m1 = sbi_set_timer (u64 (mtime_get m + timer_clk_rate)) m in
    let k1 = tick k in
    let (switched, k2) = schedule k1 in
    if flag sstatus_spp (sstatus_get m) == 0
    then (if switched then (k2, switch_to k2 m1) else (k2, trap_return_2 k2 m1))
    else (k1, trap_return_2 k1 m1)

module _ {S : Type 0} (kalloc_page : S → Run (ℕ × S)) where
  unfoldable pub kmap : (pg va pa size : ℕ) → (ℕ → ℕ) → S → Run ((ℕ → ℕ) × S)
  kmap pg va pa size words heap = map kalloc_page pg va pa size 0 words heap

  unfoldable pub umap : (p : Task) (va pa size : ℕ) → (ℕ → ℕ) → S → Run (Task × (ℕ → ℕ) × S)
  umap p va pa size words heap = do
    let p' = vma_insert va size pte_u p
    (words', heap') ← map kalloc_page p'.pgtable va pa size pte_u words heap
    done (p', words', heap')
