-- ===== src/Process/Examples.antt =====
-- The processes of kernel/proc/sched.c with an allocator that hands out one page after the other.
use sky_os.Base.{
  arith, leb, ◌<◌, ◌≤◌, ◌≢◌, inl, inr, Bool-cases, ℕ, ◌+◌, ◌-◌, ◌*◌, ◌/◌, ◌^◌, ◌≡◌, refl, true,
  Option, some, [], ◌==◌, if◌then◌else◌,
}
use sky_os.Base.Runs.{Run, done, panic, result, is_done}
use sky_os.Vms.{pgsize, map, map_pages, map_walk, valid, pte_addr, table_entry, leaf_entry}
use sky_os.Vms.Ledger.{Ledger}
use sky_os.Vms.Examples.{empty}
use sky_os.Isa.{set_flag, clear_flag}
use sky_os.Sched.{max_vma_num, umap, vma_insert, vma_insert_from, Vma, alloc_pid, alloc_pid_from}
use sky_os.Sched.Examples.{two_ready, machine}
use sky_os.Process.{
  World, start_task, finish_task, alloc_pgtable, alloc_process, load_user, copy_user, copy_area,
  copy_areas, copy_mem_from, umap_process, set_sum,
}
use sky_os.Process.Memory.{IsReadable}

-- The state of the allocator is the number of the next page.
abbrev pub bump : ℕ → ℕ → Run (ℕ × ℕ)
bump size n = done (n * pgsize, n + (size + (pgsize - 1)) / pgsize)

-- The bytes of every process lie at the same distance.
abbrev pub flat : (satp sstatus : ℕ) → (ℕ → ℕ) → ℕ → Option ℕ
flat satp sstatus words va = some (0x90000000 + va)

-- Process 0 runs, with three bytes of memory.
abbrev pub world : World ℕ
world = record {
  kernel =
      let k = two_ready 256 in
      let area : Vma = record { mem_start = 0x1000; mem_range = 3; flags = 16 } in
      let free : Vma = record { mem_start = 0; mem_range = 0; flags = 0 } in
      record k {
        task = λ i.
            if i == 0
            then record (k.task 0) { mem_map = λ j. if j == 0 then area else free }
            else k.task i;
      };
  machine = record machine { satp = 8 * 2 ^ 60 + 0x80001 };
  words = empty;
  bytes = λ a. if a == 0x90001001 then 42 else 0;
  heap = 0x80100;
  console = [];
  k_pgtable = 0x80000000;
  log_lock = 0;
}

-- A process is made.
made_done : is_done (alloc_process bump world) ≡ true
unfolding alloc_process alloc_pgtable alloc_pid alloc_pid_from start_task finish_task
made_done = refl

abbrev copied : ℕ → ℕ
copied = result empty (copy_user flat 3 0x80100000 0x1000 world)

copied_done : is_done (copy_user flat 3 0x80100000 0x1000 world) ≡ true
unfolding copy_user load_user
copied_done = refl

copied_byte : copied 0x80100001 ≡ 42
unfolding copy_user load_user
copied_byte = refl

-- The pages below 2 ^ 40, one after the other.
abbrev pub bounded : ℕ → ℕ → Run (ℕ × ℕ)
bounded size n =
    let n' = n + size / pgsize + 1 in if leb n' (2 ^ 28) then done (n * pgsize, n') else panic

pub bounded-done :
    (size n : ℕ) {a n' : ℕ}
    → bounded size n ≡ done (a, n')
    → (a ≡ n * pgsize) × (n' ≡ n + size / pgsize + 1) × (n' ≤ 2 ^ 28)
bounded-done size n run = ground (arith, run)

abbrev pub bounded_ledger : Ledger bounded
bounded_ledger = record {
  Valid = λ n. n ≤ 2 ^ 28;
  Held = λ n b. b < n * pgsize;
  keeps = λ size {s} ok run.
      let (at, next, low) = bounded-done size s run in (low, λ b lt. omega (arith, next, lt));
  grants = λ size {s} small ok run.
      let (at, next, low) = bounded-done size s run in
      (
        (omega (arith, at), omega (arith, at, next, low)),
        omega (arith, at, next, low),
        λ x lt. (λ held. omega (arith, at, held), omega (arith, at, next)),
      );
}

-- The bytes of process 0 are below page 0x90100.
abbrev pub held_world : World ℕ
held_world = record world { heap = 0x90100 }

abbrev cloned : World ℕ
cloned = result held_world (copy_mem_from bounded flat 1 0 held_world)

cloned_done : is_done (copy_mem_from bounded flat 1 0 held_world) ≡ true
unfolding copy_mem_from copy_areas copy_area copy_user load_user umap_process umap vma_insert
    vma_insert_from map map_pages map_walk valid pte_addr table_entry leaf_entry set_flag clear_flag
cloned_done = refl

pub held_world-IsReadable :
    (i : ℕ)
    → i < max_vma_num
    → ((held_world.kernel.task 0).mem_map i).mem_range ≢ 0
    → IsReadable bounded_ledger flat
        ((held_world.kernel.task 0).mem_map i)
        (λ x. 0x90000000 + (0x1000 + x))
        (set_sum held_world)
held_world-IsReadable i lt used = elim (Bool-cases (i == 0)) [
  | inr other ↦ absurd (used (ground (arith, other)))
  | inl first ↦ rw first (record {
    page = refl;
    small = omega arith;
    fits = omega arith;
    mapped = λ x lt. refl;
    held = λ x lt. omega arith;
  })
]
