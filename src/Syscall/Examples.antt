-- ===== src/Syscall/Examples.antt =====
-- The system calls of kernel/proc/syscall.c from process 0.
use sky_os.Base.{
  ℕ, ◌+◌, ◌*◌, ◌<◌, ◌≡◌, ◌≢◌, refl, arith, true, [], ◌∷◌, ◌++◌, sign_extend, ◌==◌, if◌then◌else◌,
}
use sky_os.Base.Runs.{done, result, is_done, done-result}
use sky_os.Vms.{
  map, map_pages, map_walk, valid, pte_addr, table_entry, leaf_entry, trans, next_table, offset,
  pgsize,
}
use sky_os.Sched.{max_vma_num, alloc_pid, alloc_pid_from, umap, vma_insert, vma_insert_from}
use sky_os.Process.{
  World, text, start_task, finish_task, alloc_pgtable, alloc_process, load_user, copy_user,
  copy_area, copy_areas, copy_mem_from, umap_process,
}
use sky_os.Process.Examples.{
  world, bump, flat, bounded, bounded_ledger, held_world, held_world-IsReadable,
}
use sky_os.Syscall.Clone.{sys_fork_copies}
use sky_os.Process.Fresh.{Blank}
use sky_os.Vms.Examples.{empty-IsClean}
use sky_os.Syscall.{set_a0, copy_task, sys_fork, syscall}
use sky_os.Syscall.Fork.{Forked, sys_fork-Forked}
use sky_os.Syscall.Calls.{syscall_write_prints}

-- Process 0 with the registers of a system call.
abbrev pub asking : (a7 a0 a1 a2 : ℕ) → World ℕ
asking a7 a0 a1 a2 =
    let t = world.kernel.task 0 in
    let c = record t.context { a7 = a7; a0 = a0; a1 = a1; a2 = a2 } in
    record world {
      kernel = record world.kernel {
        task = λ i. if i == 0 then record t { context = c } else world.kernel.task i;
      };
    }

abbrev pub forked : ℕ × World ℕ
forked = result (0, world) (sys_fork flat bump world)

pub forked_done : is_done (sys_fork flat bump world) ≡ true
unfolding sys_fork alloc_process alloc_pgtable alloc_pid alloc_pid_from start_task finish_task
    copy_task set_a0 copy_mem_from copy_areas copy_area copy_user load_user umap_process umap
    vma_insert vma_insert_from map map_pages map_walk valid pte_addr table_entry leaf_entry
forked_done = refl

pub world_live : world.kernel.pidmap world.kernel.current_task ≢ 0
world_live e = omega (arith, e)

sys_fork-Forked_example :
    Forked forked.0 world forked.1
    × ((heap : ℕ) × (bump pgsize world.heap ≡ done ((forked.1.kernel.task forked.0).pgtable, heap)))
sys_fork-Forked_example =
    sys_fork-Forked flat bump world world_live (done-result (0, world) _ forked_done)

-- Process 0 has its three bytes below page 0x90100, and forks.
abbrev twin : ℕ × World ℕ
twin = result (0, held_world) (sys_fork flat bounded held_world)

twin_done : is_done (sys_fork flat bounded held_world) ≡ true
unfolding sys_fork alloc_process alloc_pgtable alloc_pid alloc_pid_from start_task finish_task
    copy_task set_a0 copy_mem_from copy_areas copy_area copy_user load_user umap_process umap
    vma_insert vma_insert_from map map_pages map_walk valid pte_addr table_entry leaf_entry
twin_done = refl

empty-Blank : Blank bounded_ledger held_world
unfolding valid
empty-Blank a free = refl

sys_fork_copies_example :
    ((b : ℕ) → b < 0x90100 * pgsize → twin.1.bytes b ≡ held_world.bytes b)
    × ((i x : ℕ)
        → i < max_vma_num
        → x < ((held_world.kernel.task 0).mem_map i).mem_range
        → (e : ℕ) × (trans
              (twin.1.kernel.task twin.0).pgtable
              (((held_world.kernel.task 0).mem_map i).mem_start + x)
              twin.1.words
            ≡ done e)
          × (twin.1.bytes (
                next_table (twin.1.words e)
                + offset (((held_world.kernel.task 0).mem_map i).mem_start + x))
              ≡ held_world.bytes (0x90000000 + (0x1000 + x))))
sys_fork_copies_example =
    sys_fork_copies bounded_ledger flat (λ satp sstatus va words words' a later e. e) held_world
      world_live (omega arith) empty-IsClean empty-Blank (λ i x. 0x90000000 + (0x1000 + x))
      held_world-IsReadable (done-result (0, held_world) _ twin_done)

syscall_write_prints_example :
    (w' : World ℕ) × (syscall flat bump (asking 64 0 0x1001 2) ≡ done (sign_extend 2, w'))
    × (w'.console ≡ [] ++ text (42 ∷ []) ∷ [])
syscall_write_prints_example =
    syscall_write_prints flat bump (asking 64 0 0x1001 2) (λ i. 0x90000000 + (0x1001 + i)) refl refl
      (omega arith) (λ i lt. refl)
