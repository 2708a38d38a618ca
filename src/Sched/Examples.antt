-- ===== src/Sched/Examples.antt =====
-- kernel/proc/sched.c with two ready processes.
use sky_os.Base.{true, ℕ, ◌+◌, ◌-◌, ◌*◌, ◌^◌, ◌<◌, ◌≡◌, ◌⊎◌, refl, arith, ◌==◌, if◌then◌else◌, ltb}
use sky_os.Base.Runs.{done, result}
use sky_os.Vms.{map, map_pages, map_walk, valid, pte_addr, table_entry, leaf_entry}
use sky_os.Vms.Examples.{next_page, empty}
use sky_os.Isa.{Context, Machine, clear_flag}
use sky_os.Sched.{
  Task, Kernel, nr_task, max_vma_num, alloc_pid_from, alloc_pid, vma_insert_from, vma_insert,
  can_run, next_from, schedule, trap_return_2, switch_to, tick, do_timer, umap,
}
use sky_os.Sched.Pids.{PidOutcome, alloc_pid-PidOutcome}
use sky_os.Sched.Areas.{AreaOutcome, vma_insert-AreaOutcome}
use sky_os.Sched.Choice.{ScheduleOutcome, schedule-ScheduleOutcome}
use sky_os.Sched.Ticks.{Balanced, do_timer-Balanced, do_timer-wraps}
use sky_os.Sched.Progress.{ticks, do_timer_reaches}

abbrev pub registers : Context
registers = record {
  ra = 0;
  sp = 0x4000000000;
  gp = 0;
  tp = 0;
  t0 = 0;
  t1 = 0;
  t2 = 0;
  s0 = 0;
  s1 = 0;
  a0 = 0;
  a1 = 0;
  a2 = 0;
  a3 = 0;
  a4 = 0;
  a5 = 0;
  a6 = 0;
  a7 = 0;
  s2 = 0;
  s3 = 0;
  s4 = 0;
  s5 = 0;
  s6 = 0;
  s7 = 0;
  s8 = 0;
  s9 = 0;
  s10 = 0;
  s11 = 0;
  t3 = 0;
  t4 = 0;
  t5 = 0;
  t6 = 0;
  sepc = 0x1000;
}

-- A process with its page table and its ticks.
abbrev pub process : (pid pgtable counter : ℕ) → Task
process pid pgtable counter = record {
  filename = λ i. 0;
  pid = pid;
  fpid = 0;
  state = 0;
  context = registers;
  pgtable = pgtable;
  mem_map = λ i. record { mem_start = 0; mem_range = 0; flags = 0 };
  counter = counter;
}

-- The processes 0 and 1, with process 0 current.
abbrev pub two_ready : (ticks : ℕ) → Kernel
two_ready ticks = record {
  task = λ i.
      if i == 0
      then process 0 0x80001000 ticks
      else if i == 1
      then process 1 0x80002000 256
      else process i 0 0;
  current_task = 0;
  has_current = true;
  pidmap = λ i. if ltb i 2 then 1 else 0;
  jiffies = 0;
}

-- Interrupted in user mode.
abbrev pub machine : Machine
machine = record {
  sie = 0;
  sip = 0;
  sstatus = 0;
  stvec = 0;
  scause = 0;
  sepc = 0;
  sscratch = 0;
  stval = 0;
  time = 0;
  satp = 0;
  timer = 0;
  sscratch_stack = registers;
}

unfoldable third : ℕ × Kernel
unfolding alloc_pid alloc_pid_from
third = result (0, two_ready 256) (alloc_pid (two_ready 256))

third-run : alloc_pid (two_ready 256) ≡ done third
unfolding third alloc_pid alloc_pid_from
third-run = refl

third_pid : third.0 ≡ 2
unfolding third alloc_pid alloc_pid_from
third_pid = refl

-- The first tick of process 0 gives the processor to process 1, and sets its page table.
first_tick :
    ((do_timer (two_ready 256) machine).0.current_task ≡ 1)
    × ((do_timer (two_ready 256) machine).1.satp ≡ 8 * 2 ^ 60 + 0x80002)
unfolding do_timer schedule next_from can_run tick switch_to trap_return_2 clear_flag
first_tick = (refl, refl)

two_ready-Balanced : Balanced 255 (two_ready 256)
two_ready-Balanced = record {
  current_ready = (omega arith, ground arith, refl);
  current_counter = refl;
  others = λ i r. ground (arith, r);
}

alloc_pid-PidOutcome_example : PidOutcome (two_ready 256) 0 nr_task (alloc_pid (two_ready 256))
alloc_pid-PidOutcome_example = alloc_pid-PidOutcome (two_ready 256)

-- The second slot is free.
abbrev one_area : Task
one_area = record (process 0 0 0) {
  mem_map = λ i. record { mem_start = 0x1000; mem_range = if i == 0 then 3 else 0; flags = 16 };
}

vma_insert-AreaOutcome_example :
    AreaOutcome
      (record { mem_start = 0x8000; mem_range = 5; flags = 16 })
      one_area.mem_map
      0
      max_vma_num
      (vma_insert 0x8000 5 16 one_area).mem_map
vma_insert-AreaOutcome_example = vma_insert-AreaOutcome 0x8000 5 16 one_area

schedule-ScheduleOutcome_example : ScheduleOutcome (two_ready 255) (schedule (two_ready 255))
schedule-ScheduleOutcome_example = schedule-ScheduleOutcome (two_ready 255)

do_timer-Balanced_example :
    Balanced 255 (do_timer (two_ready 256) machine).0
    ⊎ Balanced 254 (do_timer (two_ready 256) machine).0
do_timer-Balanced_example =
    do_timer-Balanced 254 (two_ready 256) machine (omega arith) refl two_ready-Balanced

two_ready-words : (i : ℕ) → ((two_ready 0).task i).counter < 2 ^ 64
two_ready-words i = ground arith

do_timer-wraps_example :
    ((do_timer (two_ready 0) machine).0.current_task ≡ 0)
    × (((do_timer (two_ready 0) machine).0.task 0).counter ≡ 2 ^ 64 - 1)
do_timer-wraps_example = do_timer-wraps (two_ready 0) machine refl two_ready-words refl

-- Two user pages of process 1 at 0x1000.
unfoldable mapped : Task × (ℕ → ℕ) × ℕ
unfolding umap vma_insert vma_insert_from map map_pages map_walk valid pte_addr table_entry
    leaf_entry next_page
mapped =
    result (process 1 0 0, empty, 0)
      (umap next_page (process 1 0x80002000 256) 0x1000 0x90000000 0x2000 empty 0x80003)

mapped-run :
    umap next_page (process 1 0x80002000 256) 0x1000 0x90000000 0x2000 empty 0x80003 ≡ done mapped
unfolding mapped umap vma_insert vma_insert_from map map_pages map_walk valid pte_addr table_entry
    leaf_entry next_page
mapped-run = refl

do_timer_reaches_example :
    (t : ℕ) × (t < 2 * nr_task) × ((ticks t (λ j. machine) (two_ready 256)).current_task ≡ 1)
do_timer_reaches_example =
    do_timer_reaches 253 (two_ready 256) (λ j. machine) 1 (λ t. refl) (omega arith)
      two_ready-Balanced (omega arith, ground arith, refl)
