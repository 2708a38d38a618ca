-- ===== src/Syscall.antt =====
-- kernel/proc/syscall.c with kernel/include/syscall_define.h: the system calls of the current process.
pub mod Examples
pub mod Calls
pub mod Clone
pub mod Fork
pub mod Tables
use Prim.Native.String.{String}
use sky_os.Base.{
  ℕ, zero, suc, ◌+◌, Bool, ◌==◌, ltb, leb, if◌then◌else◌, Option, none, some, List, [], ◌∷◌,
  sign_extend, u32,
}
use sky_os.Base.Runs.{Run, done, panic, ◌>>=◌, ◌>>◌, inside}
use sky_os.Isa.{Context}
use sky_os.Sched.{Task, task_running}
use sky_os.Process.{
  World, text, update_task, print, alloc_process, load_user, set_sum, clear_sum, copy_mem_from,
  show_process_virtual_mem_map,
}

abbrev pub syscall_getpid : ℕ
syscall_getpid = 8

abbrev pub syscall_fork : ℕ
syscall_fork = 32

abbrev pub syscall_write : ℕ
syscall_write = 64

-- The array has the numbers up to the last that it names; the others in it are NULL.
abbrev pub syscall_names : ℕ → Option String
syscall_names n =
    if n == syscall_getpid
    then some "getpid"
    else if n == syscall_fork
    then some "fork"
    else if n == syscall_write
    then some "write"
    else none

-- The size of `internal_buffer`.
abbrev pub buffer_size : ℕ
buffer_size = 256

-- The part of a buffer that "%s" prints.
abbrev pub up_to_nul : List ℕ → List ℕ
up_to_nul [] = []
up_to_nul (c ∷ cs) = let rest = up_to_nul cs in if c == 0 then [] else c ∷ rest

module _ {S : Type 0} where
  unfoldable pub set_a0 : (i v : ℕ) → World S → World S
  set_a0 i v w =
      let t = w.kernel.task i in
      update_task i (record t { context = record t.context { a0 = v } }) w

  unfoldable pub sys_getpid : World S → ℕ × World S
  sys_getpid w =
      let current = w.kernel.current_task in
      let pid = (w.kernel.task current).pid in (pid, set_a0 current pid w)

  -- What `sys_fork` gives the process `p` of the current one before it copies the memory.
  unfoldable pub copy_task : (p current : ℕ) → World S → World S
  copy_task p current w =
      let parent = w.kernel.task current in
      update_task p
        (record (w.kernel.task p) {
          filename = parent.filename;
          fpid = parent.pid;
          state = task_running;
          context = record parent.context { a0 = 0 };
        })
        w

  module _ (mmu : (satp sstatus : ℕ) → (ℕ → ℕ) → ℕ → Option ℕ) where
    -- `memcpy` into the buffer from `i` on, with `n` bytes left: a byte of the current process is
    -- read, and then stored where the buffer has a place for it.
    unfoldable pub read_user : (n i src : ℕ) → World S → Run (List ℕ)
    read_user zero i src w = done []
    read_user (suc n) i src w = do
      c ← load_user mmu src w w.bytes
      inside (ltb i buffer_size)
      cs ← read_user n (suc i) (src + 1) w
      done (c ∷ cs)

    -- The count of `memcpy` is a `uint`; the NUL goes to the place `len` of the buffer. The result
    -- is an `int`, which `syscall` makes a 64-bit word.
    unfoldable pub sys_write : (fd buf len : ℕ) → World S → Run (ℕ × World S)
    sys_write fd buf len w =
        let printed = (do
          internal_buffer ← read_user (u32 len) 0 buf (set_sum w)
          inside (ltb len buffer_size)
          done (
            sign_extend len,
            clear_sum (print (text (up_to_nul internal_buffer) ∷ []) (set_sum w)),
          )) in
        if fd == 0 then printed else done (sign_extend len, w)

    module _ (kalloc : ℕ → S → Run (ℕ × S)) where
      unfoldable pub sys_fork : World S → Run (ℕ × World S)
      sys_fork w = do
        (p, w1) ← alloc_process kalloc w
        let current = w1.kernel.current_task
        let w2 = copy_task p current w1
        let w3 = set_a0 current (w2.kernel.task p).pid w2
        w4 ← copy_mem_from kalloc mmu p current w3
        let t = w4.kernel.task p
        done (t.pid, print (show_process_virtual_mem_map t) w4)

      -- `log_debug` is given the name, so that the array is read for every number.
      unfoldable pub syscall : World S → Run (ℕ × World S)
      syscall w =
          let t = (w.kernel.task w.kernel.current_task).context in
          let num = t.a7 in
          inside (leb num syscall_write)
          >> (if num == syscall_getpid
              then done (sys_getpid w)
              else if num == syscall_fork
              then sys_fork w
              else if num == syscall_write
              then sys_write t.a0 t.a1 t.a2 w
              else panic)
