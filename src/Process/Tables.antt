-- ===== src/Process/Tables.antt =====
-- The functions of kernel/proc/sched.c that make processes, and the page tables.
use sky_os.Base.{
  ◌^◌, ltb, ℕ, zero, suc, ◌%◌, ◌≡◌, refl, ap, subst, inl, inr, arith, ◌==◌, Bool-cases, ==_iff,
  Option, u32,
}
use sky_os.Base.Runs.{Run, done, >>=-eq-done, inside-done, done_injective, require-done}
use sky_os.Vms.{pgsize, pte_u, map}
use sky_os.Vms.Ledger.{Ledger, Grows, Grows-trans, kalloc-Grows, kalloc_page-fresh, map-Grows}
use sky_os.Sched.{Vma, Task, max_vma_num, vma_insert, umap, alloc_pid}
use sky_os.Process.{
  World, align, alloc_pgtable, alloc_process, start_task, finish_task, umap_process, copy_user,
  copy_area, copy_areas, copy_mem_from, set_sum,
}
use sky_os.Process.Copies.{Kept, umap_process-Kept}
use sky_os.Process.Creation.{alloc_pid-free}
use sky_os.Process.Separate.{SameTables, SameTables-refl, SameTables-trans, NewTable}

module _ {S : Type 0} {kalloc : ℕ → S → Run (ℕ × S)} (l : Ledger kalloc) where
  open l use {Valid, Held}

  alloc_pgtable-fresh :
      (w : World S) {t : ℕ} {w' : World S}
      → alloc_pgtable kalloc w ≡ done (t, w')
      → SameTables l w w' × (t % pgsize ≡ 0) × (Valid w.heap → (¬ Held w.heap t) × Held w'.heap t)
  unfolding alloc_pgtable
  alloc_pgtable-fresh w run =
      let ((t, heap), got, run1) = >>=-eq-done (kalloc pgsize w.heap) _ run in
      let (even, run2) = require-done (align t) _ run1 in
      subst
        (λ (x : ℕ × World S).
          SameTables l w x.1
          × (x.0 % pgsize ≡ 0)
          × (Valid w.heap → (¬ Held w.heap x.0) × Held x.1.heap x.0))
        (done_injective run2)
        (
          record { tables = λ i. refl; kernel_table = refl; heap = kalloc-Grows l pgsize got },
          (==_iff (t % pgsize) 0).0 even,
          λ v. kalloc_page-fresh l v got,
        )

  pub alloc_process-NewTable :
      (w : World S) {p : ℕ} {w' : World S}
      → alloc_process kalloc w ≡ done (p, w')
      → NewTable l p w w'
  unfolding alloc_process start_task finish_task
  alloc_process-NewTable w run =
      let ((i, k), got, run1) = >>=-eq-done (alloc_pid w.kernel) _ run in
      let (lt, free, e) = alloc_pid-free w.kernel got in
      let ((t, w1), table, run2) =
        >>=-eq-done (alloc_pgtable kalloc (record w { kernel = start_task i k })) _ run1 in
      let (same, even, new) = alloc_pgtable-fresh (record w { kernel = start_task i k }) table in
      let at : ((finish_task i t w1).kernel.task i).pgtable ≡ t = ground arith in
      subst (λ (x : ℕ × World S). NewTable l x.0 w x.1) (done_injective run2)
        (record {
          others = λ j ne. ground (arith, same.tables j, ap (λ x. (x.task j).pgtable) e);
          kernel_table = same.kernel_table;
          heap = same.heap;
          aligned = ground (arith, even);
          fresh = λ v. rw at (new v).0;
          held = λ v. rw at (new v).1;
        })

  pub umap-Grows :
      (q : Task) (va pa size : ℕ) (words : ℕ → ℕ) (heap : S) {q' : Task} {words' : ℕ → ℕ}
      {heap' : S}
      → umap (kalloc pgsize) q va pa size words heap ≡ done (q', words', heap')
      → Grows l heap heap'
  unfolding umap
  umap-Grows q va pa size words heap run =
      let ((words1, heap1), mapped, last) =
        >>=-eq-done
          (map (kalloc pgsize) (vma_insert va size pte_u q).pgtable va pa size pte_u words heap) _
          run in
      subst (λ (x : Task × (ℕ → ℕ) × S). Grows l heap x.2) (done_injective last)
        (map-Grows l _ va pa size pte_u words heap mapped)

  Kept-pgtable :
      {p : ℕ} {w w' : World S}
      → Kept p w w'
      → (i : ℕ) → (w'.kernel.task i).pgtable ≡ (w.kernel.task i).pgtable
  Kept-pgtable {p} k i = elim (Bool-cases (i == p)) [
    | inl same ↦ rw ((==_iff i p).0 same) k.pgtable
    | inr other ↦ ap (λ (t : Task). t.pgtable) (k.others i (ground (arith, other)))
  ]

  -- The memory is changed by no process, but the allocator has granted `heap`.
  pub SameTables-memory :
      (w : World S) (bytes : ℕ → ℕ) {heap : S} {w' : World S}
      → Grows l w.heap heap
      → SameTables l (record w { bytes = bytes; heap = heap }) w'
      → SameTables l w w'
  SameTables-memory w bytes g s = record {
    tables = s.tables;
    kernel_table = s.kernel_table;
    heap = Grows-trans l g s.heap;
  }

  pub umap_process-SameTables :
      (p va pa size : ℕ) (w : World S) {w' : World S}
      → umap_process kalloc p va pa size w ≡ done w'
      → SameTables l w w'
  unfolding umap_process
  umap_process-SameTables p va pa size w {w'} run = record {
    tables = Kept-pgtable (umap_process-Kept p kalloc va pa size w run);
    kernel_table = go.0;
    heap = go.1;
  }
    where
      go : (w'.k_pgtable ≡ w.k_pgtable) × Grows l w.heap w'.heap
      go =
          let ((t, words, heap), mapped, last) =
            >>=-eq-done (umap (kalloc pgsize) (w.kernel.task p) va pa size w.words w.heap) _ run in
          subst (λ (x : World S). (x.k_pgtable ≡ w.k_pgtable) × Grows l w.heap x.heap)
            (done_injective last)
            (refl, umap-Grows (w.kernel.task p) va pa size w.words w.heap mapped)

  module _ (mmu : (satp sstatus : ℕ) → (ℕ → ℕ) → ℕ → Option ℕ) where
    copy_area-SameTables :
        (area : Vma) (p : ℕ) (w : World S) {w' : World S}
        → copy_area kalloc mmu area p w ≡ done w'
        → SameTables l w w'
    unfolding copy_area
    copy_area-SameTables area p w run =
        let ((pa, heap), got, run1) = >>=-eq-done (kalloc area.mem_range w.heap) _ run in
        let w1 = record w { heap = heap } in
        let (bytes, copied, ended) =
          >>=-eq-done (copy_user mmu (u32 area.mem_range) pa area.mem_start w1) _ run1 in
        let (below, run2) = inside-done (ltb (u32 area.mem_range) (2 ^ 31)) _ ended in
        SameTables-memory w bytes (kalloc-Grows l area.mem_range got) (
          umap_process-SameTables p area.mem_start pa area.mem_range (record w1 { bytes = bytes })
            run2)

    copy_areas-SameTables :
        (rest i p current : ℕ) (w : World S) {w' : World S}
        → copy_areas kalloc mmu rest i p current w ≡ done w'
        → SameTables l w w'
    unfolding copy_areas
    copy_areas-SameTables zero i p current w run =
        subst (SameTables l w) (done_injective run) (SameTables-refl l w)
    copy_areas-SameTables (suc rest) i p current w run =
        let area = (w.kernel.task current).mem_map i in
        elim (Bool-cases (area.mem_range == 0)) [
          | inl free ↦ copy_areas-SameTables rest (suc i) p current w (rw free at run)
          | inr used ↦
              let (w1, copied, run1) =
                >>=-eq-done (copy_area kalloc mmu area p w)
                  (copy_areas kalloc mmu rest (suc i) p current) (rw used at run) in
              SameTables-trans l (copy_area-SameTables area p w copied)
                (copy_areas-SameTables rest (suc i) p current w1 run1)
        ]

    pub copy_mem_from-SameTables :
        (p current : ℕ) (w : World S) {w' : World S}
        → copy_mem_from kalloc mmu p current w ≡ done w'
        → SameTables l w w'
    unfolding copy_mem_from
    copy_mem_from-SameTables p current w run =
        let (w1, copied, last) =
          >>=-eq-done (copy_areas kalloc mmu max_vma_num 0 p current (set_sum w)) _ run in
        let s = copy_areas-SameTables max_vma_num 0 p current (set_sum w) copied in
        subst (SameTables l w) (done_injective last)
          (record { tables = s.tables; kernel_table = s.kernel_table; heap = s.heap })
