-- ===== src/Process/Clone.antt =====
-- `copy_mem_from` of kernel/proc/sched.c as a whole: all areas of a process.
use sky_os.Base.{
  ℕ, zero, suc, ◌+◌, ◌≤◌, ◌<◌, ◌≡◌, ◌≢◌, refl, sym, ◌∙◌, ap, subst, inl, inr, arith, ◌==◌,
  Bool-cases, ==_iff, Option,
}
use sky_os.Base.Runs.{Run, done, >>=-eq-done, done_injective}
use sky_os.Vms.{pte_u, trans, next_table, offset}
use sky_os.Vms.Ledger.{Ledger, ledger_kalloc}
use sky_os.Vms.Covers.{Covers-trans}
use sky_os.Vms.Walk.{IsClean}
use sky_os.Sched.{Vma, Task, max_vma_num}
use sky_os.Process.{World, copy_area, copy_areas, copy_mem_from, set_sum}
use sky_os.Process.Copies.{Kept, copy_area-Kept, copy_areas-Kept}
use sky_os.Process.Memory.{
  KeepsTranslations, Later, Later-refl, Later-trans, AreaCopied, AreaCopied-Later, IsReadable,
  IsReadable-Later, copy_area-AreaCopied,
}

module _ {S : Type 0} {kalloc : ℕ → S → Run (ℕ × S)} (l : Ledger kalloc)
    (mmu : (satp sstatus : ℕ) → (ℕ → ℕ) → ℕ → Option ℕ) (stable : KeepsTranslations mmu)
    (p current : ℕ) (ne : p ≢ current) (place : ℕ → ℕ → ℕ) where
  open l use {Valid, Held}

  abbrev area : World S → ℕ → Vma
  area w j = (w.kernel.task current).mem_map j

  -- The areas in use from `i` on, `rest` of them.
  abbrev Readable : (rest i : ℕ) → World S → Type 0
  Readable rest i w =
      (j : ℕ)
      → i ≤ j
      → j < i + rest
      → (area w j).mem_range ≢ 0
      → IsReadable l mmu (area w j) (place j) w

  abbrev Copied : (rest i : ℕ) → World S → World S → Type 0
  Copied rest i w w' =
      (j : ℕ)
      → i ≤ j
      → j < i + rest
      → (area w j).mem_range ≢ 0
      → AreaCopied l (area w j) (place j) w.bytes p w'

  area-Kept : {w w' : World S} → Kept p w w' → (j : ℕ) → area w' j ≡ area w j
  area-Kept k j = ap (λ (t : Task). t.mem_map j) (k.others current (λ e. ne (sym e)))

  -- The first area is copied on the way to `w1`, the others from there on.
  Copied-first :
      (rest i : ℕ) {w w1 w' : World S}
      → Readable (suc rest) i w
      → Kept p w w1
      → Kept p w1 w'
      → Later l w w1
      → Later l w1 w'
      → AreaCopied l (area w i) (place i) w.bytes p w1
      → Copied rest (suc i) w1 w'
      → Copied (suc rest) i w w'
  Copied-first rest i {w} {w1} {w'} readable k k' s s' first others j le lt used =
      elim (Bool-cases (i == j)) [
        | inl same ↦
            subst (λ n. AreaCopied l (area w n) (place n) w.bytes p w') ((==_iff i j).0 same)
              (AreaCopied-Later l (area w i) (place i) w.bytes p s' k'.pgtable first)
        | inr other ↦
            let e = area-Kept k j in
            let c = others j (ground (arith, other)) (omega arith) (rw e used) in
            let c' : AreaCopied l (area w j) (place j) w1.bytes p w' =
              subst (λ a. AreaCopied l a (place j) w1.bytes p w') e c in
            record {
              pa = c'.pa;
              page = c'.page;
              high = c'.high;
              covers = c'.covers;
              bytes_copied = λ x lt'.
                  c'.bytes_copied x lt' ∙ s.bytes (place j x) ((readable j le lt used).held x lt');
              held = c'.held;
            }
      ]

  copy_areas-Copied :
      (rest i : ℕ) (w : World S) {w' : World S}
      → Valid w.heap
      → IsClean w.words
      → Readable rest i w
      → copy_areas kalloc mmu rest i p current w ≡ done w'
      → Later l w w' × Copied rest i w w'
  unfolding copy_areas
  copy_areas-Copied zero i w {w'} ok clean readable run =
      subst (λ (x : World S). Later l w x × Copied zero i w x) (done_injective run)
        (Later-refl l w ok clean, λ j le lt used. absurd (omega arith))
  copy_areas-Copied (suc rest) i w {w'} ok clean readable run =
      elim (Bool-cases ((area w i).mem_range == 0)) [
        | inl free ↦
            let (later, copied) =
              copy_areas-Copied rest (suc i) w ok clean
                (λ j le lt. readable j (omega arith) (omega arith)) (rw free at run) in
            (
              later,
              λ j le lt used. elim (Bool-cases (i == j)) [
                | inl same ↦ absurd (
                    used (
                      subst (λ k. (area w k).mem_range ≡ 0) ((==_iff i j).0 same)
                        ((==_iff (area w i).mem_range 0).0 free)))
                | inr other ↦ copied j (ground (arith, other)) (omega arith) used
              ],
            )
        | inr used ↦
            let used' : (area w i).mem_range ≢ 0 = ground (arith, used) in
            let (w1, copied1, run1) =
              >>=-eq-done (copy_area kalloc mmu (area w i) p w)
                (copy_areas kalloc mmu rest (suc i) p current) (rw used at run) in
            let k = copy_area-Kept p kalloc mmu (area w i) w copied1 in
            let (s, first) =
              copy_area-AreaCopied l mmu (area w i) (place i) p w ok clean
                (readable i (omega arith) (omega arith) used') copied1 in
            let readable1 : Readable rest (suc i) w1 = λ j le lt used1.
              let e = area-Kept k j in
              rw e (
                IsReadable-Later l mmu stable s
                  (readable j (omega arith) (omega arith) (rw e at used1))) in
            let (s', others) = copy_areas-Copied rest (suc i) w1 s.valid s.clean readable1 run1 in
            let k' = copy_areas-Kept p kalloc mmu rest (suc i) current w1 run1 in
            (Later-trans l s s', Copied-first rest i readable k k' s s' first others)
      ]

  -- When copy_mem_from returns, where the allocator grants only whole pages whose bytes were not
  -- held, the two processes are different ones, the memory has no stale entry, the hardware still
  -- translates what it translated when entries are added, and each area in use of the parent is of
  -- whole pages of the address space, shorter than 2 ^ 31 and mapped to bytes that are held: then
  -- no byte that was held has changed, and in the page table of the child every address of these
  -- areas translates to a byte equal to the one that the parent has there.
  pub copy_mem_from_lem :
      (w : World S) {w' : World S}
      → Valid w.heap
      → IsClean w.words
      → ((i : ℕ)
          → i < max_vma_num
          → (area w i).mem_range ≢ 0
          → IsReadable l mmu (area w i) (place i) (set_sum w))
      → copy_mem_from kalloc mmu p current w ≡ done w'
      → ((b : ℕ) → Held w.heap b → w'.bytes b ≡ w.bytes b)
        × ((i x : ℕ)
            → i < max_vma_num
            → x < (area w i).mem_range
            → (e : ℕ) × (trans (w'.kernel.task p).pgtable ((area w i).mem_start + x) w'.words
                ≡ done e)
              × (w'.bytes (next_table (w'.words e) + offset ((area w i).mem_start + x))
                  ≡ w.bytes (place i x)))
  unfolding copy_mem_from
  copy_mem_from_lem w {w'} ok clean readable run =
      let (w1, copied, last) =
        >>=-eq-done (copy_areas kalloc mmu max_vma_num 0 p current (set_sum w)) _ run in
      let (s, all) =
        copy_areas-Copied max_vma_num 0 (set_sum w) ok clean (λ j le lt used. readable j lt used)
          copied in
      subst
        (λ (v : World S).
          ((b : ℕ) → Held w.heap b → v.bytes b ≡ w.bytes b)
          × ((i x : ℕ)
              → i < max_vma_num
              → x < (area w i).mem_range
              → (e : ℕ) × (trans (v.kernel.task p).pgtable ((area w i).mem_start + x) v.words
                  ≡ done e)
                × (v.bytes (next_table (v.words e) + offset ((area w i).mem_start + x))
                    ≡ w.bytes (place i x))))
        (done_injective last)
        (
          s.bytes,
          λ i x lt below.
              let used : (area w i).mem_range ≢ 0 = omega arith in
              let c = all i (omega arith) lt used in
              let (e, found, at) =
                Covers-trans (ledger_kalloc l) (w1.kernel.task p).pgtable pte_u (inr refl)
                  (area w i).mem_start c.pa (area w i).mem_range (readable i lt used).page c.page
                  c.high c.covers x below in
              (e, found, rw at (c.bytes_copied x below)),
        )
