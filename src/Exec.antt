-- ===== src/Exec.antt =====
-- `execve` of kernel/proc/sched.c with kernel/include/elf.h: a program becomes a new process. The file
-- system is an interface.
pub mod Examples
pub mod Elf
pub mod Start
pub mod Steps
pub mod Tables
use sky_os.Base.{
  true, ℕ, zero, suc, ◌+◌, ◌-◌, ◌*◌, ◌%◌, ◌^◌, ◌≡◌, Bool, ◌&&◌, not, ◌==◌, ltb, leb, if◌then◌else◌,
  Option, none, some, write, u32, u64,
}
use sky_os.Base.Runs.{Run, done, panic, fault, out_of_fuel, ◌>>=◌, ◌>>◌, require}
use sky_os.Isa.{Context, Machine}
use sky_os.Vms.{pgsize, offset}
use sky_os.Strings.{memcpy}
use sky_os.Sched.{Task, Kernel, switch_to}
use sky_os.Process.{
  World, align, update_task, print, alloc_process, umap_process, show_process_virtual_mem_map,
}
use sky_os.Exec.Elf.{
  ElfHdr, ProgHdr, load_elfhdr, load_proghdr, elf_magic, elf_prog_load, proghdr_size,
}

-- What `execve` uses of the openfat library: to open a file by its name, its size, and to read a
-- number of bytes, of which it tells how many it has read.
pub record Fat : Type 1 where
  pub File : Type 0
  pub fat_open : (ℕ → ℕ) → Option File
  pub size : File → ℕ
  pub fat_read : File → ℕ → ℕ × (ℕ → ℕ)

-- The state of the loop over the program headers; SEPC_OFFSET has no value at first.
pub record Loading (S : Type 0) : Type 0 where
  pub world : World S
  pub sepc_offset : Option ℕ

module _ {S : Type 0} where
  -- The bytes that `fat_read` stores.
  abbrev pub store_file : (dst count : ℕ) → (ℕ → ℕ) → World S → World S
  store_file dst count content w = record w {
    bytes = λ a. if leb dst a && ltb a (dst + count) then content (a - dst) else w.bytes a;
  }

  -- `memcpy(p->filename, filename, sizeof(filename))`, where `filename` is a pointer of 8 bytes.
  unfoldable pub set_filename : (p : ℕ) → (ℕ → ℕ) → World S → World S
  set_filename p filename w =
      let t = w.kernel.task p in
      update_task p (record t { filename = λ i. if ltb i 8 then filename i else t.filename i }) w

  unfoldable pub set_sepc : (p sepc : ℕ) → World S → World S
  set_sepc p sepc w =
      let t = w.kernel.task p in
      update_task p (record t { context = record t.context { sepc = sepc } }) w

  -- The last lines: the process becomes the current one and is switched to.
  unfoldable pub enter_process : ℕ → World S → World S
  enter_process p w =
      let k = record w.kernel { current_task = p; has_current = true } in
      let w1 = print (show_process_virtual_mem_map (k.task p)) (record w { kernel = k }) in
      record w1 { machine = switch_to k w.machine }

  module _ (kalloc : ℕ → S → Run (ℕ × S)) where
    -- The part of a round that loads a segment.
    unfoldable pub load_segment : (p elfcontent : ℕ) → ProgHdr → World S → Run (ℕ × World S)
    load_segment p elfcontent ph w = do
      (tmp, heap) ← kalloc ph.memsz w.heap
      require (align tmp)
      bytes ← memcpy tmp (elfcontent + ph.off) (u32 ph.filesz) w.bytes
      w1 ← umap_process kalloc p ph.vaddr tmp ph.memsz (record w { bytes = bytes; heap = heap })
      done (tmp, w1)

    -- `if (ph->vaddr <= header->entry && header->entry < ph->vaddr + ph->memsz)`
    abbrev pub holds_entry : ProgHdr → ℕ → Bool
    holds_entry ph entry = leb ph.vaddr entry && ltb entry (u64 (ph.vaddr + ph.memsz))

    -- One round for the program header `i`.
    unfoldable pub load_round : (p elfcontent i : ℕ) → Loading S → Run (Loading S)
    load_round p elfcontent i l =
        let header = load_elfhdr elfcontent l.world.bytes in
        let off = u32 (header.phoff + i * proghdr_size) in
        let ph = load_proghdr (elfcontent + off) l.world.bytes in
        let loaded = (do
          (tmp, w1) ← load_segment p elfcontent ph l.world
          let here = if holds_entry ph header.entry then some (offset tmp) else l.sepc_offset
          done (record { world = w1; sepc_offset = here })) in
        if ph.type == elf_prog_load then loaded else done l

    -- The loop, from `i` on.
    unfoldable pub load_segments : (fuel p elfcontent i : ℕ) → Loading S → Run (Loading S)
    load_segments zero p elfcontent i l = out_of_fuel
    load_segments (suc fuel) p elfcontent i l =
        let header = load_elfhdr elfcontent l.world.bytes in
        let rest = load_round p elfcontent i l >>= load_segments fuel p elfcontent (u32 (i + 1)) in
        if ltb i header.phnum then rest else done l

    -- The user stack: `kalloc` of four pages, and `umap` of the 16 KB below them.
    unfoldable pub make_stack : ℕ → World S → Run (World S)
    make_stack p w = do
      (stack, heap) ← kalloc (pgsize * 4) w.heap
      require (align stack)
      let sp = (w.kernel.task p).context.sp
      umap_process kalloc p (u64 (sp + 2 ^ 64 - 4 * pgsize)) (u64 (stack + 2 ^ 64 - 4 * pgsize))
          (pgsize * 4) (record w { heap = heap })

    -- The end of `execve`, from the program counter on.
    unfoldable pub start_at : (p elfcontent : ℕ) → Option ℕ → World S → Run (World S)
    start_at p elfcontent none w = fault
    start_at p elfcontent (some sepc_offset) w =
        let entry = (load_elfhdr elfcontent w.bytes).entry in
        done (enter_process p (set_sepc p (u64 (entry + sepc_offset)) w))

    module _ (fat : Fat) where
      -- `execve` with its file open. `phnum` is a 16-bit word, so that the loop has fewer than 2 ^ 16
      -- rounds and one last test.
      unfoldable pub run_file : fat.File → (ℕ → ℕ) → World S → Run (World S)
      run_file file filename w = do
        (p, w1) ← alloc_process kalloc w
        let w2 = set_filename p filename w1
        (elfcontent, heap) ← kalloc (fat.size file) w2.heap
        let (count, content) = fat.fat_read file (fat.size file)
        let w3 = store_file elfcontent count content (record w2 { heap = heap })
        require (count == fat.size file)
        require ((load_elfhdr elfcontent w3.bytes).magic == elf_magic)
        l ← load_segments (2 ^ 16) p elfcontent 0 (record { world = w3; sepc_offset = none })
        w4 ← make_stack p l.world
        start_at p elfcontent l.sepc_offset w4

      unfoldable pub execve : (ℕ → ℕ) → World S → Run (World S)
      execve filename w = elim (fat.fat_open filename) [
        | none ↦ panic
        | some file ↦ run_file file filename w
      ]
