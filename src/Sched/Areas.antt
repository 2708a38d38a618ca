-- ===== src/Sched/Areas.antt =====
-- `vma_insert` and `umap` of kernel/proc/sched.c: the areas of a process.
use sky_os.Base.{
  ℕ, zero, suc, ◌+◌, ◌%◌, ◌^◌, ◌≤◌, ◌<◌, ◌≡◌, ◌≢◌, refl, ap, subst, inl, inr, arith, ◌==◌,
  Bool-cases, ==_iff, write,
}
use sky_os.Base.Runs.{done, result, >>=-eq-done}
use sky_os.Vms.{pgsize, pte_u, trans, offset, next_table, map}
use sky_os.Vms.Kalloc.{Kalloc}
use sky_os.Vms.Walk.{Extends, IsClean}
use sky_os.Vms.Pages.{map-trans}
use sky_os.Sched.{Vma, Task, max_vma_num, vma_insert_from, vma_insert, umap}

-- The area goes into the first free slot from `low` up to `high`; where there is none, it is lost.
pub data AreaOutcome (area : Vma) (mem_map : ℕ → Vma) (low high : ℕ) : (ℕ → Vma) → Type 0 where
  inserted :
      (i : ℕ)
      → low ≤ i
      → i < high
      → (mem_map i).mem_range ≡ 0
      → ((j : ℕ) → low ≤ j → j < i → (mem_map j).mem_range ≢ 0)
      → AreaOutcome area mem_map low high (write mem_map i area)
  lost :
      ((j : ℕ) → low ≤ j → j < high → (mem_map j).mem_range ≢ 0)
      → AreaOutcome area mem_map low high mem_map

AreaOutcome-used :
    (area : Vma) (mem_map : ℕ → Vma) (low high : ℕ) (r : ℕ → Vma)
    → low < high
    → (mem_map low).mem_range ≢ 0
    → AreaOutcome area mem_map (suc low) high r
    → AreaOutcome area mem_map low high r
AreaOutcome-used area mem_map low high _ lt used (AreaOutcome.inserted i le below free first) =
    AreaOutcome.inserted i (omega arith) below free (λ j from to. ground (arith, used, first j))
AreaOutcome-used area mem_map low high _ lt used (AreaOutcome.lost all) =
    AreaOutcome.lost (λ j from to. ground (arith, used, all j))

module _ (va size flag : ℕ) (mem_map : ℕ → Vma) where
  vma_insert_from-AreaOutcome :
      (rest i high : ℕ)
      → i + rest ≡ high
      → AreaOutcome
          (record { mem_start = va; mem_range = size; flags = flag })
          mem_map
          i
          high
          (vma_insert_from rest i va size flag mem_map)
  unfolding vma_insert_from
  vma_insert_from-AreaOutcome zero i high e = AreaOutcome.lost (λ j from to. absurd (omega arith))
  vma_insert_from-AreaOutcome (suc rest) i high e = elim (Bool-cases ((mem_map i).mem_range == 0)) [
    | inl free ↦ rw free (
        AreaOutcome.inserted i (omega arith) (omega arith) ((==_iff (mem_map i).mem_range 0).0 free)
          (λ j from to. absurd (omega arith)))
    | inr used ↦ rw used (
        AreaOutcome-used _ mem_map i high _ (omega arith) (ground (arith, used))
          (vma_insert_from-AreaOutcome rest (suc i) high (omega arith)))
  ]

-- vma_insert puts the area into the first of the five slots that is free and leaves the others;
-- where no slot is free, it changes no slot.
pub vma_insert-AreaOutcome :
    (va size flag : ℕ) (p : Task)
    → AreaOutcome
        (record { mem_start = va; mem_range = size; flags = flag })
        p.mem_map
        0
        max_vma_num
        (vma_insert va size flag p).mem_map
unfolding vma_insert
vma_insert-AreaOutcome va size flag p =
    vma_insert_from-AreaOutcome va size flag p.mem_map max_vma_num 0 max_vma_num refl

vma_insert-pgtable : (va size flag : ℕ) (p : Task) → (vma_insert va size flag p).pgtable ≡ p.pgtable
unfolding vma_insert
vma_insert-pgtable va size flag p = refl

-- When umap of whole pages onto whole pages, below the end of the address space and with an
-- allocator that gives aligned pages, returns, the area is recorded as vma_insert does it, every
-- valid entry is kept, and in the page table of the process each address of the range translates
-- to the physical address at the same distance from the start.
pub umap-trans :
    (k : Kalloc) (p : Task) (va pa size : ℕ) (words : ℕ → ℕ) (heap : k.State) {p' : Task}
    {words' : ℕ → ℕ} {heap' : k.State}
    → va % pgsize ≡ 0
    → pa % pgsize ≡ 0
    → va + size + pgsize ≤ 2 ^ 64
    → pa + size ≤ 2 ^ 52
    → IsClean words
    → k.Valid heap
    → umap k.kalloc_page p va pa size words heap ≡ done (p', words', heap')
    → (p' ≡ vma_insert va size pte_u p)
      × Extends words words'
      × ((x : ℕ)
          → x < size
          → (e : ℕ) × (trans p'.pgtable (va + x) words' ≡ done e)
            × (next_table (words' e) + offset (va + x) ≡ pa + x))
unfolding umap
umap-trans k p va pa size words heap {p'} {words'} {heap'} va_page pa_page fits small clean ok run =
    let q = vma_insert va size pte_u p in
    let ((words1, heap1), mapped, last) =
      >>=-eq-done (map k.kalloc_page q.pgtable va pa size pte_u words heap) _ run in
    let same = ap (result {A = Task × (ℕ → ℕ) × k.State} (p', words', heap')) last in
    let found =
      map-trans k q.pgtable pte_u (inr refl) va pa size words heap words1 heap1 va_page pa_page fits
        small clean ok mapped in
    subst
      (λ (r : Task × (ℕ → ℕ) × k.State).
        (r.0 ≡ q)
        × Extends words r.1
        × ((x : ℕ)
            → x < size
            → (e : ℕ) × (trans r.0.pgtable (va + x) r.1 ≡ done e)
              × (next_table (r.1 e) + offset (va + x) ≡ pa + x)))
      same (refl, found.0, found.1)
