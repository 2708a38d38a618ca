-- ===== src/Process/Memory.antt =====
-- `copy_mem_from` of kernel/proc/sched.c: the memory of a process has a copy for the other one.
use sky_os.Base.{
  ltb, ℕ, ◌+◌, ◌%◌, ◌^◌, ◌≤◌, ◌<◌, ◌≡◌, refl, ◌∙◌, ap, subst, inr, arith, Option, some, u32,
}
use sky_os.Base.Runs.{Run, done, >>=-eq-done, inside-done, done_injective}
use sky_os.Vms.{pgsize, pte_u, map}
use sky_os.Vms.Ledger.{granted_apart, Ledger, Grows, map-Grows, ledger_kalloc}
use sky_os.Vms.Covers.{Covers, Covers-later, map-Covers}
use sky_os.Vms.Walk.{Extends, IsClean}
use sky_os.Sched.{Vma, Task, vma_insert, umap}
use sky_os.Process.{World, update_task, umap_process, copy_user, copy_area}
use sky_os.Process.Copies.{copy_user_lem}

-- The hardware translates an address that it translates also when entries are added.
abbrev pub KeepsTranslations : ((satp sstatus : ℕ) → (ℕ → ℕ) → ℕ → Option ℕ) → Type 0
KeepsTranslations mmu =
    (satp sstatus va : ℕ) (words words' : ℕ → ℕ) (a : ℕ)
    → Extends words words'
    → mmu satp sstatus words va ≡ some a
    → mmu satp sstatus words' va ≡ some a

module _ {S : Type 0} {kalloc : ℕ → S → Run (ℕ × S)} (l : Ledger kalloc) where
  open l use {Valid, Held, keeps, grants}

  -- The state is a later one: entries are added, and no byte that is held has changed.
  pub record Later (w w' : World S) : Type 0 where
    pub valid : Valid w'.heap
    pub clean : IsClean w'.words
    pub extends : Extends w.words w'.words
    pub held : (b : ℕ) → Held w.heap b → Held w'.heap b
    pub bytes : (b : ℕ) → Held w.heap b → w'.bytes b ≡ w.bytes b
    pub machine : w'.machine ≡ w.machine

  pub Later-refl : (w : World S) → Valid w.heap → IsClean w.words → Later w w
  Later-refl w ok clean = record {
    valid = ok;
    clean = clean;
    extends = λ x v. refl;
    held = λ b h. h;
    bytes = λ b h. refl;
    machine = refl;
  }

  pub Later-trans : {w1 w2 w3 : World S} → Later w1 w2 → Later w2 w3 → Later w1 w3
  Later-trans s t = record {
    valid = t.valid;
    clean = t.clean;
    extends = λ x v. let e = s.extends x v in t.extends x (rw e v) ∙ e;
    held = λ b h. t.held b (s.held b h);
    bytes = λ b h. t.bytes b (s.held b h) ∙ s.bytes b h;
    machine = t.machine ∙ s.machine;
  }

  -- The bytes of an area are at the places from `pa` on for process `p`.
  pub record AreaCopied (area : Vma) (place bytes : ℕ → ℕ) (p : ℕ) (w' : World S) : Type 0 where
    pub pa : ℕ
    pub page : pa % pgsize ≡ 0
    pub high : pa + area.mem_range ≤ 2 ^ 52
    pub covers :
        Covers
          (w'.kernel.task p).pgtable
          area.mem_start
          pa
          (area.mem_start + area.mem_range)
          pte_u
          w'.words
          w'.words
    pub bytes_copied : (x : ℕ) → x < area.mem_range → w'.bytes (pa + x) ≡ bytes (place x)
    pub held : (x : ℕ) → x < area.mem_range → Held w'.heap (pa + x)

  pub AreaCopied-Later :
      (area : Vma) (place bytes : ℕ → ℕ) (p : ℕ) {w w' : World S}
      → Later w w'
      → (w'.kernel.task p).pgtable ≡ (w.kernel.task p).pgtable
      → AreaCopied area place bytes p w
      → AreaCopied area place bytes p w'
  AreaCopied-Later area place bytes p {w} {w'} s table c = record {
    pa = c.pa;
    page = c.page;
    high = c.high;
    covers = rw table (
        let later =
          Covers-later (ledger_kalloc l) (w.kernel.task p).pgtable pte_u (inr refl) area.mem_start
            c.pa area.mem_range c.high c.covers s.extends s.clean in
        record { extends = λ x v. refl; clean = s.clean; leads = later.leads });
    bytes_copied = λ x lt. s.bytes (c.pa + x) (c.held x lt) ∙ c.bytes_copied x lt;
    held = λ x lt. s.held (c.pa + x) (c.held x lt);
  }

  umap-Covers :
      (q : Task) (va pa size : ℕ) (words : ℕ → ℕ) (heap : S) {q' : Task} {words' : ℕ → ℕ}
      {heap' : S}
      → va + size + pgsize ≤ 2 ^ 64
      → pa + size ≤ 2 ^ 52
      → IsClean words
      → Valid heap
      → umap (kalloc pgsize) q va pa size words heap ≡ done (q', words', heap')
      → (q'.pgtable ≡ q.pgtable)
        × Covers q.pgtable va pa (va + size) pte_u words words'
        × Grows l heap heap'
  unfolding umap vma_insert
  umap-Covers q va pa size words heap fits small clean ok run =
      let ((words1, heap1), mapped, last) =
        >>=-eq-done (map (kalloc pgsize) q.pgtable va pa size pte_u words heap) _ run in
      let c =
        map-Covers (ledger_kalloc l) q.pgtable pte_u (inr refl) va pa size words heap words1 heap1
          fits small clean ok mapped in
      subst
        (λ (x : Task × (ℕ → ℕ) × S).
          (x.0.pgtable ≡ q.pgtable)
          × Covers q.pgtable va pa (va + size) pte_u words x.1
          × Grows l heap x.2)
        (done_injective last) (refl, c, map-Grows l q.pgtable va pa size pte_u words heap mapped)

  -- What `umap_process` adds to the memory of process `p`.
  record Added (p va pa size : ℕ) (w w' : World S) : Type 0 where
    covers : Covers (w'.kernel.task p).pgtable va pa (va + size) pte_u w.words w'.words
    heap : Grows l w.heap w'.heap
    bytes : w'.bytes ≡ w.bytes
    machine : w'.machine ≡ w.machine

  umap_process-Added :
      (p va pa size : ℕ) (w : World S) {w' : World S}
      → va + size + pgsize ≤ 2 ^ 64
      → pa + size ≤ 2 ^ 52
      → IsClean w.words
      → Valid w.heap
      → umap_process kalloc p va pa size w ≡ done w'
      → Added p va pa size w w'
  unfolding umap_process
  umap_process-Added p va pa size w fits small clean ok run =
      let ((t, words, heap), mapped, last) =
        >>=-eq-done (umap (kalloc pgsize) (w.kernel.task p) va pa size w.words w.heap) _ run in
      let (table, c, g) =
        umap-Covers (w.kernel.task p) va pa size w.words w.heap fits small clean ok mapped in
      let w1 = update_task p t (record w { words = words; heap = heap }) in
      let e : (w1.kernel.task p).pgtable ≡ (w.kernel.task p).pgtable = ground (arith, table) in
      subst (Added p va pa size w) (done_injective last)
        (record { covers = rw e c; heap = g; bytes = refl; machine = refl })

  module _ (mmu : (satp sstatus : ℕ) → (ℕ → ℕ) → ℕ → Option ℕ) where
    -- Whole pages of the current process, each byte at a place that is held.
    pub record IsReadable (area : Vma) (place : ℕ → ℕ) (w : World S) : Type 0 where
      pub page : area.mem_start % pgsize ≡ 0
      pub small : area.mem_range < 2 ^ 31
      pub fits : area.mem_start + area.mem_range + pgsize ≤ 2 ^ 64
      pub mapped :
          (x : ℕ)
          → x < area.mem_range
          → mmu w.machine.satp w.machine.sstatus w.words (area.mem_start + x) ≡ some (place x)
      pub held : (x : ℕ) → x < area.mem_range → Held w.heap (place x)

    pub copy_area-AreaCopied :
        (area : Vma) (place : ℕ → ℕ) (p : ℕ) (w : World S) {w' : World S}
        → Valid w.heap
        → IsClean w.words
        → IsReadable area place w
        → copy_area kalloc mmu area p w ≡ done w'
        → Later w w' × AreaCopied area place w.bytes p w'
    unfolding copy_area
    copy_area-AreaCopied area place p w {w'} ok clean r run =
        let ((pa, heap), got, run1) = >>=-eq-done (kalloc area.mem_range w.heap) _ run in
        let w1 = record w { heap = heap } in
        let n : u32 area.mem_range ≡ area.mem_range = omega (arith, r.small) in
        let (bytes, copied, ended) =
          >>=-eq-done (copy_user mmu area.mem_range pa area.mem_start w1) _ (rw n at run1) in
        let (below, run2) = inside-done (ltb area.mem_range (2 ^ 31)) _ ended in
        let (page, high, fresh) = grants area.mem_range r.small ok got in
        let (ok1, kept) = keeps area.mem_range ok got in
        let (same, others) =
          copy_user_lem mmu area.mem_range pa area.mem_start w1 place r.mapped
            (λ x lt. granted_apart l area.mem_range (place x) r.small ok got (r.held x lt))
            copied in
        let a =
          umap_process-Added p area.mem_start pa area.mem_range (record w1 { bytes = bytes }) r.fits
            high clean ok1 run2 in
        (
          record {
            valid = a.heap.valid ok1;
            clean = a.covers.clean;
            extends = a.covers.extends;
            held = λ b h. a.heap.held ok1 b (kept b h);
            bytes = λ b h.
                ap (λ (f : ℕ → ℕ). f b) a.bytes
                ∙ others b (granted_apart l area.mem_range b r.small ok got h);
            machine = a.machine;
          },
          record {
            pa = pa;
            page = page.0;
            high = high;
            covers = record {
              extends = λ x v. refl;
              clean = a.covers.clean;
              leads = a.covers.leads;
            };
            bytes_copied = λ x lt. ap (λ (f : ℕ → ℕ). f (pa + x)) a.bytes ∙ same x lt;
            held = λ x lt. a.heap.held ok1 (pa + x) (fresh x lt).1;
          },
        )

    pub IsReadable-Later :
        {area : Vma} {place : ℕ → ℕ} {w w' : World S}
        → KeepsTranslations mmu
        → Later w w'
        → IsReadable area place w
        → IsReadable area place w'
    IsReadable-Later {area} {place} {w} {w'} stable s r = record {
      page = r.page;
      small = r.small;
      fits = r.fits;
      mapped = λ x lt. rw s.machine (
          stable w.machine.satp w.machine.sstatus (area.mem_start + x) w.words w'.words (place x)
            s.extends (r.mapped x lt));
      held = λ x lt. s.held (place x) (r.held x lt);
    }
