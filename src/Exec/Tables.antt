-- ===== src/Exec/Tables.antt =====
-- `execve` of kernel/proc/sched.c and the page tables: it makes one.
use sky_os.Base.{
  ℕ, zero, suc, ◌+◌, ◌*◌, ◌^◌, ◌≡◌, refl, subst, inl, inr, arith, ◌==◌, Bool-cases, Option, none,
  some, ltb, u32,
}
use sky_os.Base.Runs.{Run, done, panic, >>=-eq-done, done_injective, require-done}
use sky_os.Vms.{pgsize}
use sky_os.Vms.Ledger.{Ledger, Grows-refl, kalloc-Grows}
use sky_os.Strings.{memcpy}
use sky_os.Process.{World, align, alloc_process, umap_process}
use sky_os.Process.Separate.{
  Separate, SameTables, SameTables-refl, SameTables-trans, SameTables-Separate, NewTable-Separate,
}
use sky_os.Process.Tables.{SameTables-memory, alloc_process-NewTable, umap_process-SameTables}
use sky_os.Exec.{
  Fat, Loading, store_file, set_filename, set_sepc, enter_process, load_segment, load_round,
  load_segments, make_stack, start_at, run_file, execve,
}
use sky_os.Exec.Elf.{ProgHdr, load_elfhdr, load_proghdr, elf_prog_load, elf_magic, proghdr_size}

module _ {S : Type 0} {kalloc : ℕ → S → Run (ℕ × S)} (l : Ledger kalloc) where
  set_filename-SameTables :
      (p : ℕ) (filename : ℕ → ℕ) (w : World S) → SameTables l w (set_filename p filename w)
  unfolding set_filename
  set_filename-SameTables p filename w = record {
    tables = λ j. ground arith;
    kernel_table = refl;
    heap = Grows-refl l w.heap;
  }

  start_at-SameTables :
      (p elfcontent : ℕ) (sepc_offset : Option ℕ) (w : World S) {w' : World S}
      → start_at kalloc p elfcontent sepc_offset w ≡ done w'
      → SameTables l w w'
  unfolding start_at enter_process set_sepc
  start_at-SameTables p elfcontent none w run = cc
  start_at-SameTables p elfcontent (some o) w run =
      subst (SameTables l w) (done_injective run)
        (record { tables = λ j. ground arith; kernel_table = refl; heap = Grows-refl l w.heap })

  load_segment-SameTables :
      (p elfcontent : ℕ) (ph : ProgHdr) (w : World S) {tmp : ℕ} {w' : World S}
      → load_segment kalloc p elfcontent ph w ≡ done (tmp, w')
      → SameTables l w w'
  unfolding load_segment
  load_segment-SameTables p elfcontent ph w run =
      let ((tmp, heap), got, run1) = >>=-eq-done (kalloc ph.memsz w.heap) _ run in
      let (even, run2) = require-done (align tmp) _ run1 in
      let (bytes, copied, run3) =
        >>=-eq-done (memcpy tmp (elfcontent + ph.off) (u32 ph.filesz) w.bytes) _ run2 in
      let (w1, mapped, last) =
        >>=-eq-done
          (umap_process kalloc p ph.vaddr tmp ph.memsz (record w { bytes = bytes; heap = heap })) _
          run3 in
      subst (λ (x : ℕ × World S). SameTables l w x.1) (done_injective last)
        (SameTables-memory l w bytes (kalloc-Grows l ph.memsz got)
          (umap_process-SameTables l p ph.vaddr tmp ph.memsz _ mapped))

  load_round-SameTables :
      (p elfcontent i : ℕ) (x : Loading S) {x' : Loading S}
      → load_round kalloc p elfcontent i x ≡ done x'
      → SameTables l x.world x'.world
  unfolding load_round
  load_round-SameTables p elfcontent i x run =
      let header = load_elfhdr elfcontent x.world.bytes in
      let ph = load_proghdr (elfcontent + u32 (header.phoff + i * proghdr_size)) x.world.bytes in
      elim (Bool-cases (ph.type == elf_prog_load)) [
        | inr other ↦
            subst (λ (y : Loading S). SameTables l x.world y.world)
              (done_injective (rw other at run)) (SameTables-refl l x.world)
        | inl segment ↦
            let ((tmp, w1), loaded, last) =
              >>=-eq-done (load_segment kalloc p elfcontent ph x.world) _ (rw segment at run) in
            subst (λ (y : Loading S). SameTables l x.world y.world) (done_injective last)
              (load_segment-SameTables p elfcontent ph x.world loaded)
      ]

  load_segments-SameTables :
      (fuel p elfcontent i : ℕ) (x : Loading S) {x' : Loading S}
      → load_segments kalloc fuel p elfcontent i x ≡ done x'
      → SameTables l x.world x'.world
  unfolding load_segments
  load_segments-SameTables zero p elfcontent i x run = cc
  load_segments-SameTables (suc fuel) p elfcontent i x run =
      elim (Bool-cases (ltb i (load_elfhdr elfcontent x.world.bytes).phnum)) [
        | inr stop ↦
            subst (λ (y : Loading S). SameTables l x.world y.world)
              (done_injective (rw stop at run)) (SameTables-refl l x.world)
        | inl more ↦
            let (x1, round, rest) =
              >>=-eq-done (load_round kalloc p elfcontent i x) _ (rw more at run) in
            SameTables-trans l (load_round-SameTables p elfcontent i x round)
              (load_segments-SameTables fuel p elfcontent (u32 (i + 1)) x1 rest)
      ]

  make_stack-SameTables :
      (p : ℕ) (w : World S) {w' : World S} → make_stack kalloc p w ≡ done w' → SameTables l w w'
  unfolding make_stack
  make_stack-SameTables p w run =
      let ((stack, heap), got, run1) = >>=-eq-done (kalloc (pgsize * 4) w.heap) _ run in
      let (even, run2) = require-done (align stack) _ run1 in
      SameTables-memory l w w.bytes (kalloc-Grows l (pgsize * 4) got)
        (umap_process-SameTables l p _ _ (pgsize * 4) (record w { heap = heap }) run2)

  run_file-Separate :
      (fat : Fat) (file : fat.File) (filename : ℕ → ℕ) (w : World S) {w' : World S}
      → run_file kalloc fat file filename w ≡ done w'
      → Separate l w
      → Separate l w'
  unfolding run_file
  run_file-Separate fat file filename w run v =
      let ((p, w1), made, e1) = >>=-eq-done (alloc_process kalloc w) _ run in
      let w2 = set_filename p filename w1 in
      let ((elfcontent, heap), got, e2) = >>=-eq-done (kalloc (fat.size file) w2.heap) _ e1 in
      let (count, content) = fat.fat_read file (fat.size file) in
      let w3 = store_file elfcontent count content (record w2 { heap = heap }) in
      let (whole, e3) = require-done (count == fat.size file) _ e2 in
      let (elf, e4) = require-done ((load_elfhdr elfcontent w3.bytes).magic == elf_magic) _ e3 in
      let (x, loaded, e5) = >>=-eq-done (load_segments kalloc (2 ^ 16) p elfcontent 0 _) _ e4 in
      let (w4, stacked, e6) = >>=-eq-done (make_stack kalloc p x.world) _ e5 in
      let segments = load_segments-SameTables (2 ^ 16) p elfcontent 0 _ loaded in
      let s = SameTables-trans l (set_filename-SameTables p filename w1) (
        SameTables-trans l
          (SameTables-memory l w2 w3.bytes (kalloc-Grows l (fat.size file) got) segments)
          (SameTables-trans l (make_stack-SameTables p x.world stacked)
            (start_at-SameTables p elfcontent x.sepc_offset w4 e6))) in
      SameTables-Separate l s (NewTable-Separate l (alloc_process-NewTable l w made) v)

  pub execve-Separate :
      (fat : Fat) (filename : ℕ → ℕ) (w : World S) {w' : World S}
      → execve kalloc fat filename w ≡ done w'
      → Separate l w
      → Separate l w'
  unfolding execve
  execve-Separate fat filename w {w'} run v = go (fat.fat_open filename) run
    where
      go :
          (o : Option fat.File)
          → elim o [ none ↦ panic | some file ↦ run_file kalloc fat file filename w ] ≡ done w'
          → Separate l w'
      go none e = cc
      go (some file) e = run_file-Separate fat file filename w e v
