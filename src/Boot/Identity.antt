-- ===== src/Boot/Identity.antt =====
-- kernel/mm/vms.c: the kernel is mapped to itself when the translation is switched on.
use sky_os.Base.{
  ℕ, ◌+◌, ◌-◌, ◌%◌, ◌^◌, ◌≤◌, ◌<◌, ◌≡◌, refl, ◌∙◌, ap, subst, inl, inr, arith, Bool-cases, shr,
}
use sky_os.Base.Runs.{done, >>=-eq-done, done_injective}
use sky_os.Vms.{pgsize, offset, next_table, trans}
use sky_os.Vms.Kalloc.{Kalloc}
use sky_os.Vms.Walk.{IsClean}
use sky_os.Vms.Pages.{map-trans}
use sky_os.Sched.{kmap, satp_of}
use sky_os.Process.{World, align}
use sky_os.Boot.{activate_sv39, mem_size, kernel_size, k_pgtable_init, vms_init}

-- The kernel's table maps an address to itself, and `satp` holds that table.
pub record Identity {S : Type 0} (kernel_start kernel_end : ℕ) (w : World S) : Type 0 where
  pub identity :
      (x : ℕ)
      → kernel_start ≤ x
      → x < kernel_end + mem_size
      → (e : ℕ) × (trans w.k_pgtable x w.words ≡ done e) × (next_table (w.words e) + offset x ≡ x)
  pub active : w.machine.satp ≡ satp_of w.k_pgtable

module _ (k : Kalloc) (kernel_start kernel_end : ℕ) where
  open k use {State, kalloc_page}

  mapped_identity :
      (t : ℕ) (words words' : ℕ → ℕ) (heap heap' : State)
      → kernel_start % pgsize ≡ 0
      → kernel_start ≤ kernel_end + mem_size
      → kernel_end + mem_size < 2 ^ 51
      → IsClean words
      → k.Valid heap
      → kmap kalloc_page t kernel_start kernel_start
          (kernel_size kalloc_page kernel_start kernel_end)
          words
          heap
        ≡ done (words', heap')
      → (x : ℕ) → kernel_start ≤ x
      → x < kernel_end + mem_size
      → (e : ℕ) × (trans t x words' ≡ done e) × (next_table (words' e) + offset x ≡ x)
  unfolding kmap
  mapped_identity t words words' heap heap' page order low clean ok run x le lt =
      let n = kernel_end + mem_size - kernel_start in
      let e : kernel_size kalloc_page kernel_start kernel_end ≡ n = omega arith in
      let (_, found) =
        map-trans k t 0 (inl refl) kernel_start kernel_start n words heap words' heap' page page
          (omega arith) (omega arith) clean ok (rw e at run) in
      let at : kernel_start + (x - kernel_start) ≡ x = omega arith in
      subst (λ y. (e : ℕ) × (trans t y words' ≡ done e) × (next_table (words' e) + offset y ≡ y)) at
        (found (x - kernel_start) (omega arith))

  -- Where the kernel starts at a page, its range ends below 2 ^ 51, the memory has no stale entry
  -- and the allocator, in a valid state, gives aligned pages, after vms_init returns the page
  -- table of the kernel translates every address from kernel_start up to kernel_end + 64 MB to
  -- itself, and satp holds this table.
  pub vms_init-Identity :
      (w : World State) {w' : World State}
      → kernel_start % pgsize ≡ 0
      → kernel_start ≤ kernel_end + mem_size
      → kernel_end + mem_size < 2 ^ 51
      → IsClean w.words
      → k.Valid w.heap
      → vms_init kalloc_page kernel_start kernel_end w ≡ done w'
      → Identity kernel_start kernel_end w'
  unfolding vms_init k_pgtable_init activate_sv39
  vms_init-Identity w {w'} page order low clean ok run =
      let ((ppn, w1), made, last) =
        >>=-eq-done (k_pgtable_init kalloc_page kernel_start kernel_end w) _ run in
      let ((t, heap), got, run1) = >>=-eq-done (kalloc_page w.heap) _ made in
      elim (Bool-cases (align t)) [
        | inr odd ↦ cc (rw odd at run1)
        | inl even ↦
            let ((words, heap1), mapped, run2) =
              >>=-eq-done
                (kmap kalloc_page t kernel_start kernel_start
                  (kernel_size kalloc_page kernel_start kernel_end) w.words heap)
                _ (rw even at run1) in
            let w2 = record w { words = words; heap = heap1; k_pgtable = t } in
            let e : ◌≡◌ {A = ℕ × World State} (shr t 12, w2) (ppn, w1) = done_injective run2 in
            let f : record w2 { machine = activate_sv39 (shr t 12) w2.machine } ≡ w' =
              ap (λ (x : ℕ × World State). record x.1 { machine = activate_sv39 x.0 x.1.machine }) e
              ∙ done_injective last in
            subst (Identity kernel_start kernel_end) f (record {
              identity =
                  mapped_identity t w.words words heap heap1 page order low clean
                    (k.kalloc_Valid w.heap t heap ok got) mapped;
              active = refl;
            })
      ]
