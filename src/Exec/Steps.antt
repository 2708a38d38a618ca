-- ===== src/Exec/Steps.antt =====
-- The steps of `execve` of kernel/proc/sched.c: what they keep of the process that it makes.
use sky_os.Base.{
  ℕ, zero, suc, ◌+◌, ◌*◌, ◌≡◌, ◌≢◌, refl, subst, inl, inr, arith, ◌==◌, ltb, Bool-cases, u32,
}
use sky_os.Base.Runs.{Run, done, >>=-eq-done, done_injective, require-done}
use sky_os.Vms.{pgsize}
use sky_os.Strings.{memcpy}
use sky_os.Sched.{satp_of, switch_to, trap_return_2}
use sky_os.Process.{World, align, umap_process}
use sky_os.Process.Copies.{Kept, Kept-refl, Kept-trans, umap_process-Kept}
use sky_os.Exec.{
  Loading, set_filename, set_sepc, enter_process, load_segment, load_round, load_segments,
  make_stack,
}
use sky_os.Exec.Elf.{ProgHdr, load_elfhdr, load_proghdr, elf_prog_load, proghdr_size}

module _ {S : Type 0} (p : ℕ) where
  -- The process is the current one, with its table and its registers loaded.
  pub record Entered (w w' : World S) : Type 0 where
    pub current : w'.kernel.current_task ≡ p
    pub pidmap : w'.kernel.pidmap ≡ w.kernel.pidmap
    pub others : (i : ℕ) → i ≢ p → w'.kernel.task i ≡ w.kernel.task i
    pub pid : (w'.kernel.task p).pid ≡ (w.kernel.task p).pid
    pub state : (w'.kernel.task p).state ≡ (w.kernel.task p).state
    pub counter : (w'.kernel.task p).counter ≡ (w.kernel.task p).counter
    pub sp : (w'.kernel.task p).context.sp ≡ (w.kernel.task p).context.sp
    pub satp : w'.machine.satp ≡ satp_of (w'.kernel.task p).pgtable
    pub registers : w'.machine.sscratch_stack ≡ (w'.kernel.task p).context

  pub enter_process-Entered :
      (sepc : ℕ) (w : World S) → Entered w (enter_process p (set_sepc p sepc w))
  unfolding enter_process set_sepc switch_to trap_return_2
  enter_process-Entered sepc w = record {
    current = refl;
    pidmap = refl;
    others = λ i ne. ground arith;
    pid = ground arith;
    state = ground arith;
    counter = ground arith;
    sp = ground arith;
    satp = refl;
    registers = refl;
  }

  pub set_filename-Kept : (filename : ℕ → ℕ) (w : World S) → Kept p w (set_filename p filename w)
  unfolding set_filename
  set_filename-Kept filename w = record {
    current = refl;
    pidmap = refl;
    others = λ i ne. ground arith;
    pid = ground arith;
    fpid = ground arith;
    state = ground arith;
    context = ground arith;
    pgtable = ground arith;
    counter = ground arith;
    machine = refl;
  }

  -- The memory has no part in what is kept.
  pub Kept-memory :
      {w w' : World S} (words bytes : ℕ → ℕ) (heap : S)
      → Kept p (record w { words = words; bytes = bytes; heap = heap }) w'
      → Kept p w w'
  Kept-memory words bytes heap k = record {
    current = k.current;
    pidmap = k.pidmap;
    others = k.others;
    pid = k.pid;
    fpid = k.fpid;
    state = k.state;
    context = k.context;
    pgtable = k.pgtable;
    counter = k.counter;
    machine = k.machine;
  }

  module _ (kalloc : ℕ → S → Run (ℕ × S)) where
    load_segment-Kept :
        (elfcontent : ℕ) (ph : ProgHdr) (w : World S) {tmp : ℕ} {w' : World S}
        → load_segment kalloc p elfcontent ph w ≡ done (tmp, w')
        → Kept p w w'
    unfolding load_segment
    load_segment-Kept elfcontent ph w run =
        let ((tmp, heap), got, run1) = >>=-eq-done (kalloc ph.memsz w.heap) _ run in
        let (even, run2) = require-done (align tmp) _ run1 in
        let (bytes, copied, run3) =
          >>=-eq-done (memcpy tmp (elfcontent + ph.off) (u32 ph.filesz) w.bytes) _ run2 in
        let (w1, mapped, last) =
          >>=-eq-done
            (umap_process kalloc p ph.vaddr tmp ph.memsz (record w { bytes = bytes; heap = heap }))
            _ run3 in
        subst (λ (x : ℕ × World S). Kept p w x.1) (done_injective last)
          (Kept-memory w.words bytes heap
            (umap_process-Kept p kalloc ph.vaddr tmp ph.memsz _ mapped))

    load_round-Kept :
        (elfcontent i : ℕ) (l : Loading S) {l' : Loading S}
        → load_round kalloc p elfcontent i l ≡ done l'
        → Kept p l.world l'.world
    unfolding load_round
    load_round-Kept elfcontent i l {l'} run =
        let header = load_elfhdr elfcontent l.world.bytes in
        let ph = load_proghdr (elfcontent + u32 (header.phoff + i * proghdr_size)) l.world.bytes in
        elim (Bool-cases (ph.type == elf_prog_load)) [
          | inr other ↦
              subst (λ (x : Loading S). Kept p l.world x.world) (done_injective (rw other at run))
                (Kept-refl p l.world)
          | inl segment ↦
              let ((tmp, w1), loaded, last) =
                >>=-eq-done (load_segment kalloc p elfcontent ph l.world) _ (rw segment at run) in
              subst (λ (x : Loading S). Kept p l.world x.world) (done_injective last)
                (load_segment-Kept elfcontent ph l.world loaded)
        ]

    pub load_segments-Kept :
        (fuel elfcontent i : ℕ) (l : Loading S) {l' : Loading S}
        → load_segments kalloc fuel p elfcontent i l ≡ done l'
        → Kept p l.world l'.world
    unfolding load_segments
    load_segments-Kept zero elfcontent i l run = cc
    load_segments-Kept (suc fuel) elfcontent i l {l'} run =
        elim (Bool-cases (ltb i (load_elfhdr elfcontent l.world.bytes).phnum)) [
          | inr stop ↦
              subst (λ (x : Loading S). Kept p l.world x.world) (done_injective (rw stop at run))
                (Kept-refl p l.world)
          | inl more ↦
              let (l1, round, rest) =
                >>=-eq-done (load_round kalloc p elfcontent i l) _ (rw more at run) in
              Kept-trans p (load_round-Kept elfcontent i l round)
                (load_segments-Kept fuel elfcontent (u32 (i + 1)) l1 rest)
        ]

    pub make_stack-Kept :
        (w : World S) {w' : World S} → make_stack kalloc p w ≡ done w' → Kept p w w'
    unfolding make_stack
    make_stack-Kept w run =
        let ((stack, heap), got, run1) = >>=-eq-done (kalloc (pgsize * 4) w.heap) _ run in
        let (even, run2) = require-done (align stack) _ run1 in
        Kept-memory w.words w.bytes heap
          (umap_process-Kept p kalloc _ _ (pgsize * 4) (record w { heap = heap }) run2)
