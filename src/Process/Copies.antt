-- ===== src/Process/Copies.antt =====
-- `copy_mem_from` of kernel/proc/sched.c: the bytes that it copies, and what it leaves alone.
use sky_os.Base.{
  ◌^◌, ltb, ℕ, zero, suc, ◌+◌, ◌≤◌, ◌<◌, ◌≡◌, ◌≢◌, ◌⊎◌, refl, sym, ◌∙◌, ap, subst, inl, inr, arith,
  ◌==◌, Bool-cases, Option, some, write, u32,
}
use sky_os.Base.Runs.{Run, done, >>=-eq-done, inside-done, done_injective}
use sky_os.Vms.{pgsize, pte_u, map}
use sky_os.Sched.{Vma, Task, max_vma_num, vma_insert, umap}
use sky_os.Process.{
  World, load_user, copy_user, umap_process, copy_area, copy_areas, copy_mem_from, set_sum,
  clear_sum,
}

-- `umap` changes of a process the areas only.
pub umap-vma_insert :
    {S : Type 0} (kalloc_page : S → Run (ℕ × S)) (t : Task) (va pa size : ℕ) (words : ℕ → ℕ)
    (heap : S) {t' : Task} {words' : ℕ → ℕ} {heap' : S}
    → umap kalloc_page t va pa size words heap ≡ done (t', words', heap')
    → t' ≡ vma_insert va size pte_u t
unfolding umap
umap-vma_insert {S} kalloc_page t va pa size words heap {t'} {words'} {heap'} run =
    let q = vma_insert va size pte_u t in
    let (r, mapped, last) =
      >>=-eq-done (map kalloc_page q.pgtable va pa size pte_u words heap) _ run in
    let e : ◌≡◌ {A = Task × (ℕ → ℕ) × S} (q, r.0, r.1) (t', words', heap') = done_injective last in
    sym (ap (λ (x : Task × (ℕ → ℕ) × S). x.0) e)

-- What the copy of memory to process `p` leaves alone: all but the areas of `p` and the memory.
pub record Kept {S : Type 0} (p : ℕ) (w w' : World S) : Type 0 where
  pub current : w'.kernel.current_task ≡ w.kernel.current_task
  pub pidmap : w'.kernel.pidmap ≡ w.kernel.pidmap
  pub others : (i : ℕ) → i ≢ p → w'.kernel.task i ≡ w.kernel.task i
  pub pid : (w'.kernel.task p).pid ≡ (w.kernel.task p).pid
  pub fpid : (w'.kernel.task p).fpid ≡ (w.kernel.task p).fpid
  pub state : (w'.kernel.task p).state ≡ (w.kernel.task p).state
  pub context : (w'.kernel.task p).context ≡ (w.kernel.task p).context
  pub pgtable : (w'.kernel.task p).pgtable ≡ (w.kernel.task p).pgtable
  pub counter : (w'.kernel.task p).counter ≡ (w.kernel.task p).counter
  pub machine : w'.machine ≡ w.machine

module _ {S : Type 0} (p : ℕ) where
  pub Kept-refl : (w : World S) → Kept p w w
  Kept-refl w = record {
    current = refl;
    pidmap = refl;
    others = λ i ne. refl;
    pid = refl;
    fpid = refl;
    state = refl;
    context = refl;
    pgtable = refl;
    counter = refl;
    machine = refl;
  }

  pub Kept-trans : {w1 w2 w3 : World S} → Kept p w1 w2 → Kept p w2 w3 → Kept p w1 w3
  Kept-trans k l = record {
    current = l.current ∙ k.current;
    pidmap = l.pidmap ∙ k.pidmap;
    others = λ i ne. l.others i ne ∙ k.others i ne;
    pid = l.pid ∙ k.pid;
    fpid = l.fpid ∙ k.fpid;
    state = l.state ∙ k.state;
    context = l.context ∙ k.context;
    pgtable = l.pgtable ∙ k.pgtable;
    counter = l.counter ∙ k.counter;
    machine = l.machine ∙ k.machine;
  }

  module _ (kalloc : ℕ → S → Run (ℕ × S)) where
    pub umap_process-Kept :
        (va pa size : ℕ) (w : World S) {w' : World S}
        → umap_process kalloc p va pa size w ≡ done w'
        → Kept p w w'
    unfolding umap_process vma_insert
    umap_process-Kept va pa size w {w'} run =
        let ((t, words, heap), mapped, last) =
          >>=-eq-done (umap (kalloc pgsize) (w.kernel.task p) va pa size w.words w.heap) _ run in
        let e =
          umap-vma_insert (kalloc pgsize) (w.kernel.task p) va pa size w.words w.heap mapped in
        subst (Kept p w) (done_injective last) (record {
          current = refl;
          pidmap = refl;
          others = λ i ne. ground arith;
          pid = ground (arith, ap (λ (x : Task). x.pid) e);
          fpid = ground (arith, ap (λ (x : Task). x.fpid) e);
          state = ground (arith, ap (λ (x : Task). x.state) e);
          context = ground (arith, ap (λ (x : Task). x.context) e);
          pgtable = ground (arith, ap (λ (x : Task). x.pgtable) e);
          counter = ground (arith, ap (λ (x : Task). x.counter) e);
          machine = refl;
        })

    module _ (mmu : (satp sstatus : ℕ) → (ℕ → ℕ) → ℕ → Option ℕ) where
      pub copy_area-Kept :
          (area : Vma) (w : World S) {w' : World S}
          → copy_area kalloc mmu area p w ≡ done w'
          → Kept p w w'
      unfolding copy_area
      copy_area-Kept area w run =
          let ((pa, heap), got, run1) = >>=-eq-done (kalloc area.mem_range w.heap) _ run in
          let w1 = record w { heap = heap } in
          let (bytes, copied, ended) =
            >>=-eq-done (copy_user mmu (u32 area.mem_range) pa area.mem_start w1) _ run1 in
          let (below, run2) = inside-done (ltb (u32 area.mem_range) (2 ^ 31)) _ ended in
          let k =
            umap_process-Kept area.mem_start pa area.mem_range (record w1 { bytes = bytes }) run2 in
          record {
            current = k.current;
            pidmap = k.pidmap;
            others = k.others;
            pid = k.pid;
            fpid = k.fpid;
            state = k.state;
            context = k.context;
            pgtable = k.pgtable;
            counter = k.counter;
            machine = k.machine;
          }

      pub copy_areas-Kept :
          (rest i current : ℕ) (w : World S) {w' : World S}
          → copy_areas kalloc mmu rest i p current w ≡ done w'
          → Kept p w w'
      unfolding copy_areas
      copy_areas-Kept zero i current w run = subst (Kept p w) (done_injective run) (Kept-refl w)
      copy_areas-Kept (suc rest) i current w {w'} run =
          let area = (w.kernel.task current).mem_map i in
          elim (Bool-cases (area.mem_range == 0)) [
            | inl free ↦ copy_areas-Kept rest (suc i) current w (rw free at run)
            | inr used ↦
                let (w1, copied, run1) =
                  >>=-eq-done (copy_area kalloc mmu area p w)
                    (copy_areas kalloc mmu rest (suc i) p current) (rw used at run) in
                Kept-trans (copy_area-Kept area w copied)
                  (copy_areas-Kept rest (suc i) current w1 run1)
          ]

      -- The copy itself, between the two writes of `sstatus`.
      pub copy_mem_from-Kept :
          (current : ℕ) (w : World S) {w' : World S}
          → copy_mem_from kalloc mmu p current w ≡ done w'
          → (w1 : World S) × Kept p (set_sum w) w1 × (w' ≡ clear_sum w1)
      unfolding copy_mem_from
      copy_mem_from-Kept current w run =
          let (w1, copied, last) =
            >>=-eq-done (copy_areas kalloc mmu max_vma_num 0 p current (set_sum w)) _ run in
          (w1, copy_areas-Kept max_vma_num 0 current (set_sum w) copied, sym (done_injective last))

-- A byte of a page that is mapped.
pub load_user_lem :
    {S : Type 0} (mmu : (satp sstatus : ℕ) → (ℕ → ℕ) → ℕ → Option ℕ) (va : ℕ) (w : World S)
    (bytes : ℕ → ℕ) {a : ℕ}
    → mmu w.machine.satp w.machine.sstatus w.words va ≡ some a
    → load_user mmu va w bytes ≡ done (bytes a)
unfolding load_user
load_user_lem mmu va w bytes e = rw (load_user, e) refl

-- When the copy of n bytes of the current process to the kernel returns, where each of these bytes
-- is mapped to a place outside the target, the target holds the bytes, and no other byte has
-- changed.
pub copy_user_lem :
    {S : Type 0} (mmu : (satp sstatus : ℕ) → (ℕ → ℕ) → ℕ → Option ℕ) (n dst src : ℕ) (w : World S)
    {bytes : ℕ → ℕ} (place : ℕ → ℕ)
    → ((i : ℕ) → i < n → mmu w.machine.satp w.machine.sstatus w.words (src + i) ≡ some (place i))
    → ((i : ℕ) → i < n → (place i < dst) ⊎ (dst + n ≤ place i))
    → copy_user mmu n dst src w ≡ done bytes
    → ((i : ℕ) → i < n → bytes (dst + i) ≡ w.bytes (place i))
      × ((a : ℕ) → (a < dst) ⊎ (dst + n ≤ a) → bytes a ≡ w.bytes a)
unfolding copy_user
copy_user_lem mmu zero dst src w place mapped apart run =
    let e = done_injective run in
    (λ i lt. absurd (omega arith), λ a out. ap (λ (f : ℕ → ℕ). f a) (sym e))
copy_user_lem mmu (suc n) dst src w {bytes} place mapped apart run =
    let (bytes1, run1, rest) = >>=-eq-done (copy_user mmu n dst src w) _ run in
    let (copied, kept) =
      copy_user_lem mmu n dst src w place (λ i lt. mapped i (omega arith))
        (λ i lt. ground (arith, apart i)) run1 in
    let e : write bytes1 (dst + n) (bytes1 (place n)) ≡ bytes =
      done_injective (rw (load_user_lem mmu (src + n) w bytes1 (mapped n (omega arith))) at rest) in
    let byte : (a : ℕ) → bytes a ≡ write bytes1 (dst + n) (bytes1 (place n)) a =
      λ a. ap (λ (f : ℕ → ℕ). f a) (sym e) in
    let last : bytes1 (place n) ≡ w.bytes (place n) = kept (place n) (ground (arith, apart n)) in
    (
      λ i lt. byte (dst + i) ∙ ground (arith, copied i, last),
      λ a out. byte a ∙ ground (arith, kept a),
    )
