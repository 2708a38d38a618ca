-- ===== src/Process/Separate.antt =====
-- The page tables of the processes of kernel/proc/sched.c, each on a page of its own.
use sky_os.Base.{
  ℕ, ◌%◌, ◌≡◌, ◌≢◌, refl, sym, ◌∙◌, ap, subst, inl, inr, arith, ◌==◌, Bool-cases, ==_iff,
}
use sky_os.Base.Runs.{Run}
use sky_os.Vms.{pgsize}
use sky_os.Vms.Ledger.{Ledger, Grows, Grows-refl, Grows-trans}
use sky_os.Process.{World}

module _ {S : Type 0} {kalloc : ℕ → S → Run (ℕ × S)} (l : Ledger kalloc) where
  open l use {Valid, Held}

  -- Each process that has a page table has it on a page of its own, which the kernel's table is
  -- not on either.
  pub record Separate (w : World S) : Type 0 where
    pub heap : Valid w.heap
    pub kernel_held : Held w.heap w.k_pgtable
    pub kernel_aligned : w.k_pgtable % pgsize ≡ 0
    pub held : (i : ℕ) → (w.kernel.task i).pgtable ≢ 0 → Held w.heap (w.kernel.task i).pgtable
    pub aligned : (i : ℕ) → (w.kernel.task i).pgtable % pgsize ≡ 0
    pub not_kernel :
        (i : ℕ) → (w.kernel.task i).pgtable ≢ 0 → (w.kernel.task i).pgtable ≢ w.k_pgtable
    pub different :
        (i j : ℕ)
        → i ≢ j
        → (w.kernel.task i).pgtable ≢ 0
        → (w.kernel.task i).pgtable ≢ (w.kernel.task j).pgtable

  -- A step that makes no page table.
  pub record SameTables (w w' : World S) : Type 0 where
    pub tables : (i : ℕ) → (w'.kernel.task i).pgtable ≡ (w.kernel.task i).pgtable
    pub kernel_table : w'.k_pgtable ≡ w.k_pgtable
    pub heap : Grows l w.heap w'.heap

  pub SameTables-refl : (w : World S) → SameTables w w
  SameTables-refl w = record { tables = λ i. refl; kernel_table = refl; heap = Grows-refl l w.heap }

  pub SameTables-trans :
      {w1 w2 w3 : World S} → SameTables w1 w2 → SameTables w2 w3 → SameTables w1 w3
  SameTables-trans s t = record {
    tables = λ i. t.tables i ∙ s.tables i;
    kernel_table = t.kernel_table ∙ s.kernel_table;
    heap = Grows-trans l s.heap t.heap;
  }

  pub SameTables-Separate : {w w' : World S} → SameTables w w' → Separate w → Separate w'
  SameTables-Separate {w} {w'} s v = record {
    heap = s.heap.valid v.heap;
    kernel_held = rw s.kernel_table (s.heap.held v.heap w.k_pgtable v.kernel_held);
    kernel_aligned = rw s.kernel_table v.kernel_aligned;
    held = λ i has.
        rw (s.tables i)
          (s.heap.held v.heap (w.kernel.task i).pgtable (v.held i (λ e. has (s.tables i ∙ e))));
    aligned = λ i. rw (s.tables i) (v.aligned i);
    not_kernel =
        λ i has. rw (s.tables i, s.kernel_table) (v.not_kernel i (λ e. has (s.tables i ∙ e)));
    different =
        λ i j ne has. rw (s.tables i, s.tables j) (v.different i j ne (λ e. has (s.tables i ∙ e)));
  }

  -- A step that makes the page table of the process `p`.
  pub record NewTable (p : ℕ) (w w' : World S) : Type 0 where
    pub others : (i : ℕ) → i ≢ p → (w'.kernel.task i).pgtable ≡ (w.kernel.task i).pgtable
    pub kernel_table : w'.k_pgtable ≡ w.k_pgtable
    pub heap : Grows l w.heap w'.heap
    pub aligned : (w'.kernel.task p).pgtable % pgsize ≡ 0
    pub fresh : Valid w.heap → ¬ Held w.heap (w'.kernel.task p).pgtable
    pub held : Valid w.heap → Held w'.heap (w'.kernel.task p).pgtable

  pub NewTable-Separate : {p : ℕ} {w w' : World S} → NewTable p w w' → Separate w → Separate w'
  NewTable-Separate {p} {w} {w'} n v =
      let old : (i : ℕ)
          → i ≢ p
          → (w'.kernel.task i).pgtable ≢ 0
          → Held w.heap (w'.kernel.task i).pgtable =
        λ i ne has. rw (n.others i ne) (v.held i (λ e. has (n.others i ne ∙ e))) in
      let apart : (i : ℕ)
          → i ≢ p
          → (w'.kernel.task i).pgtable ≢ 0
          → (w'.kernel.task i).pgtable ≢ (w'.kernel.task p).pgtable =
        λ i ne has e. n.fresh v.heap (subst (Held w.heap) e (old i ne has)) in
      record {
        heap = n.heap.valid v.heap;
        kernel_held = rw n.kernel_table (n.heap.held v.heap w.k_pgtable v.kernel_held);
        kernel_aligned = rw n.kernel_table v.kernel_aligned;
        held = λ i has. elim (Bool-cases (i == p)) [
          | inl new ↦ rw ((==_iff i p).0 new) (n.held v.heap)
          | inr other ↦
              n.heap.held v.heap (w'.kernel.task i).pgtable (old i (ground (arith, other)) has)
        ];
        aligned = λ i. elim (Bool-cases (i == p)) [
          | inl new ↦ rw ((==_iff i p).0 new) n.aligned
          | inr other ↦ rw (n.others i (ground (arith, other))) (v.aligned i)
        ];
        not_kernel = λ i has. elim (Bool-cases (i == p)) [
          | inl new ↦ λ e. n.fresh v.heap (
              subst (Held w.heap)
                (sym n.kernel_table
                  ∙ sym e
                  ∙ ap (λ j. (w'.kernel.task j).pgtable) ((==_iff i p).0 new))
                v.kernel_held)
          | inr other ↦
              let same = n.others i (ground (arith, other)) in
              rw (same, n.kernel_table) (v.not_kernel i (λ e. has (same ∙ e)))
        ];
        different = λ i j ne has. elim (Bool-cases (i == p)) [
          | inl new ↦
              rw ((==_iff i p).0 new)
                (λ e. apart j (ground (arith, new, ne)) (ground (arith, new, has, e)) (sym e))
          | inr other ↦ elim (Bool-cases (j == p)) [
            | inl new ↦ rw ((==_iff j p).0 new) (apart i (ground (arith, other)) has)
            | inr other' ↦
                let same = n.others i (ground (arith, other)) in
                rw (same, n.others j (ground (arith, other')))
                  (v.different i j ne (λ e. has (same ∙ e)))
          ]
        ];
      }
