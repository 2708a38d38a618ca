-- ===== src/Exec/Examples.antt =====
-- `execve` of kernel/proc/sched.c on a program of one segment.
use sky_os.Base.{ℕ, ◌+◌, ◌-◌, ◌*◌, ◌≡◌, refl, arith, true, some, ◌==◌, if◌then◌else◌}
use sky_os.Base.Runs.{Run, done, result, is_done, done-result}
use sky_os.Isa.{clear_flag}
use sky_os.Vms.{
  pgsize, offset, next_table, trans, map, map_pages, map_walk, valid, pte_addr, table_entry,
  leaf_entry,
}
use sky_os.Vms.Examples.{empty, empty-IsClean, next_page, next_page-IsPage}
use sky_os.Strings.{memcpy, copy_bytes}
use sky_os.Sched.{
  alloc_pid, alloc_pid_from, umap, vma_insert, vma_insert_from, sv39_user_sp_addr, switch_to,
  trap_return_2,
}
use sky_os.Process.{World, start_task, finish_task, alloc_pgtable, alloc_process, umap_process}
use sky_os.Process.Examples.{world, bump}
use sky_os.Exec.{
  Fat, set_filename, set_sepc, enter_process, load_segment, load_round, load_segments, make_stack,
  start_at, run_file, execve,
}
use sky_os.Exec.Elf.{load, load_elfhdr, load_proghdr}
use sky_os.Exec.Start.{Started, execve-Started, make_stack_below}

-- The bytes of the headers that are not 0: the magic number, the entry 0x1000, one program header at
-- 64, that loads 4 of 16 bytes to 0x1000.
abbrev program : ℕ → ℕ
program i =
    if i == 0
    then 0x7F
    else if i == 1
    then 0x45
    else if i == 2
    then 0x4C
    else if i == 3
    then 0x46
    else if i == 25
    then 0x10
    else if i == 32
    then 64
    else if i == 56
    then 1
    else if i == 64
    then 1
    else if i == 81
    then 0x10
    else if i == 96
    then 4
    else if i == 104
    then 16
    else 0

abbrev pub one_file : Fat
one_file = record {
  File = ℕ;
  fat_open = λ filename. some 0;
  size = λ file. 120;
  fat_read = λ file count. (count, program);
}

abbrev ran : World ℕ
ran = result world (execve bump one_file empty world)

ran_done : is_done (execve bump one_file empty world) ≡ true
unfolding execve run_file alloc_process alloc_pgtable alloc_pid alloc_pid_from start_task
    finish_task set_filename load load_elfhdr load_proghdr load_segments load_round load_segment
    memcpy copy_bytes umap_process umap vma_insert vma_insert_from map map_pages map_walk valid
    pte_addr table_entry leaf_entry make_stack start_at set_sepc enter_process switch_to
    trap_return_2 clear_flag
ran_done = refl

execve-Started_example : (p : ℕ) × Started p world ran
execve-Started_example = execve-Started bump one_file empty world (done-result world _ ran_done)

-- Pages below 2 ^ 52 only, and four pages for any other size.
abbrev by_page : ℕ → ℕ → Run (ℕ × ℕ)
by_page size n = if size == pgsize then next_page n else done (n * pgsize, n + 4)

abbrev stacked : World ℕ
stacked = result world (make_stack by_page 0 world)

stacked_done : is_done (make_stack by_page 0 world) ≡ true
unfolding make_stack umap_process umap vma_insert vma_insert_from map map_pages map_walk valid
    pte_addr table_entry leaf_entry next_page
stacked_done = refl

make_stack_below_example :
    (e : ℕ) × (trans
        (stacked.kernel.task 0).pgtable
        (sv39_user_sp_addr - 4 * pgsize + 5)
        stacked.words
      ≡ done e)
    × (next_table (stacked.words e) + offset (sv39_user_sp_addr - 4 * pgsize + 5) + 4 * pgsize
        ≡ 0x80100000 + 5)
make_stack_below_example =
    make_stack_below by_page 0 world next_page-IsPage empty-IsClean refl refl (omega arith)
      (omega arith) (done-result world _ stacked_done) 5 (omega arith)
