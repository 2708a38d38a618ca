-- ===== src/Main/Examples.antt =====
-- The start of kernel/main.c with a program of one segment, and the first timer interrupt.
use sky_os.Base.{false, arith, ◌+◌, ◌^◌, ◌≤◌, ◌-◌, ℕ, ◌%◌, ◌≡◌, refl, true, some, []}
use sky_os.Base.Runs.{result, is_done, done-result}
use sky_os.Isa.{Context, set_flag, clear_flag}
use sky_os.Vms.{
  trans, trans_walk, next_table, faults, pgsize, map, map_pages, map_walk, valid, pte_addr,
  table_entry, leaf_entry,
}
use sky_os.Vms.Examples.{empty}
use sky_os.Strings.{memcpy, copy_bytes}
use sky_os.Buddy.{BuddyState}
use sky_os.Buddy.Examples.{blank}
use sky_os.Buddy.Bench.{boot, allocate}
use sky_os.Pmm.{pmm_init, kalloc, pgaddr}
use sky_os.BlockDevice.{block_device_new}
use sky_os.Sched.{
  sv39_user_sp_addr, alloc_pid, alloc_pid_from, umap, kmap, vma_insert, vma_insert_from, switch_to,
  trap_return_2,
}
use sky_os.Sched.Examples.{process, machine}
use sky_os.Process.{
  World, start_task, finish_task, alloc_pgtable, alloc_process, umap_process, copy_mem_from,
  copy_areas, copy_area, copy_user, load_user,
}
use sky_os.Process.Examples.{flat}
use sky_os.Boot.{activate_sv39, k_pgtable_init, vms_init}
use sky_os.Syscall.{syscall_fork, syscall, sys_fork, copy_task, set_a0}
use sky_os.Trap.{trap_init, trap_start, handle_exception}
use sky_os.Trap.Invariant.{Running}
use sky_os.Exec.{
  set_filename, set_sepc, enter_process, load_segment, load_round, load_segments, make_stack,
  start_at, run_file, execve,
}
use sky_os.Exec.Elf.{load, load_elfhdr, load_proghdr}
use sky_os.Exec.Examples.{one_file}
use sky_os.Main.{Platform, kernel_kalloc, main, Cold, Reach}
use sky_os.Main.Invariant.{Reach-Running}
use sky_os.Main.Tables.{Apart, Reach-Apart}

abbrev board : Platform
board = record {
  kernel_start = 0x80000000;
  kernel_end = 0x7C001000;
  sscratch_stack = 0x7C000000;
  trap_entry = 0x7BFF0000;
  mmu = flat;
  mount = λ device. some one_file;
}

abbrev off : World BuddyState
off = record {
  kernel = record {
    task = λ i. process 0 0 0;
    current_task = 0;
    has_current = false;
    pidmap = λ i. 0;
    jiffies = 0;
  };
  machine = machine;
  words = empty;
  bytes = empty;
  heap = blank;
  console = [];
  k_pgtable = 0;
  log_lock = 0;
}

abbrev on : World BuddyState
on = result off (main board off)

on_done : is_done (main board off) ≡ true
unfolding main pmm_init boot allocate kalloc pgaddr vms_init k_pgtable_init activate_sv39 kmap
    trap_init set_flag block_device_new execve run_file alloc_process alloc_pgtable alloc_pid
    alloc_pid_from start_task finish_task set_filename load load_elfhdr load_proghdr load_segments
    load_round load_segment memcpy copy_bytes umap_process umap vma_insert vma_insert_from map
    map_pages map_walk valid pte_addr table_entry leaf_entry make_stack start_at set_sepc
    enter_process switch_to trap_return_2 clear_flag
on_done = refl

off-Cold : Cold board off
off-Cold = record { pidmap = λ i. refl; tables = λ i. refl }

Reach-Running_example : Running on
Reach-Running_example = Reach-Running board (Reach.boot off-Cold (done-result off _ on_done))

kernel_end_aligned : board.kernel_end % pgsize ≡ 0
kernel_end_aligned = refl

-- The first process forks.
abbrev fork_call : Context
fork_call = record (on.kernel.task 0).context { a7 = syscall_fork }

abbrev calling : World BuddyState
calling = record on {
  machine = record on.machine { scause = 8; sepc = 0; stval = 0; time = 0 };
  bytes = on.bytes;
  log_lock = 0;
}

abbrev second : World BuddyState
second = result on (trap_start flat (kernel_kalloc board) fork_call calling)

second_done : is_done (trap_start flat (kernel_kalloc board) fork_call calling) ≡ true
unfolding main pmm_init boot allocate kalloc pgaddr vms_init k_pgtable_init activate_sv39 kmap
    trap_init set_flag block_device_new execve run_file alloc_process alloc_pgtable alloc_pid
    alloc_pid_from start_task finish_task set_filename load load_elfhdr load_proghdr load_segments
    load_round load_segment memcpy copy_bytes umap_process umap vma_insert vma_insert_from map
    map_pages map_walk valid pte_addr table_entry leaf_entry make_stack start_at set_sepc
    enter_process switch_to trap_return_2 clear_flag trap_start handle_exception syscall sys_fork
    copy_task set_a0 copy_mem_from copy_areas copy_area copy_user load_user
second_done = refl

first_table : (second.kernel.task 0).pgtable ≡ 0x7C005000
unfolding main pmm_init boot allocate kalloc pgaddr vms_init k_pgtable_init activate_sv39 kmap
    trap_init set_flag block_device_new execve run_file alloc_process alloc_pgtable alloc_pid
    alloc_pid_from start_task finish_task set_filename load load_elfhdr load_proghdr load_segments
    load_round load_segment memcpy copy_bytes umap_process umap vma_insert vma_insert_from map
    map_pages map_walk valid pte_addr table_entry leaf_entry make_stack start_at set_sepc
    enter_process switch_to trap_return_2 clear_flag trap_start handle_exception syscall sys_fork
    copy_task set_a0 copy_mem_from copy_areas copy_area copy_user load_user
first_table = refl

Reach-Apart_example :
    Apart (second.kernel.task 0).pgtable (second.kernel.task 1).pgtable
    × Apart (second.kernel.task 0).pgtable second.k_pgtable
    × (board.kernel_end ≤ (second.kernel.task 0).pgtable)
    × ((second.kernel.task 0).pgtable + pgsize ≤ board.kernel_end + 2 ^ 26)
Reach-Apart_example =
    Reach-Apart board kernel_end_aligned (omega arith)
      (Reach.trap fork_call 8 0 0 0 0 on.bytes (Reach.boot off-Cold (done-result off _ on_done))
        (done-result on _ second_done))
      0 1 (omega arith) (omega (arith, first_table))

-- The entry of the first process for the last page of its user stack.
abbrev stack_entry : ℕ
stack_entry =
    result 0 (trans (second.kernel.task 0).pgtable (sv39_user_sp_addr - pgsize) second.words)

-- The stack is mapped to the memory below its own, which is free, and the fork makes the page table
-- of the child there.
stack_on_table : next_table (second.words stack_entry) ≡ (second.kernel.task 1).pgtable
unfolding main pmm_init boot allocate kalloc pgaddr vms_init k_pgtable_init activate_sv39 kmap
    trap_init set_flag block_device_new execve run_file alloc_process alloc_pgtable alloc_pid
    alloc_pid_from start_task finish_task set_filename load load_elfhdr load_proghdr load_segments
    load_round load_segment memcpy copy_bytes umap_process umap vma_insert vma_insert_from map
    map_pages map_walk valid pte_addr table_entry leaf_entry make_stack start_at set_sepc
    enter_process switch_to trap_return_2 clear_flag trap_start handle_exception syscall sys_fork
    copy_task set_a0 copy_mem_from copy_areas copy_area copy_user load_user trans trans_walk faults
stack_on_table = refl
