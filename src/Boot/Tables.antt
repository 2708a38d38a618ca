-- ===== src/Boot/Tables.antt =====
-- `vms_init` of kernel/mm/vms.c makes the first page table.
use sky_os.Base.{ℕ, ◌≡◌, subst, ◌%◌, refl, ==_iff}
use sky_os.Base.Runs.{Run, done, >>=-eq-done, done_injective, require-done}
use sky_os.Vms.{pgsize}
use sky_os.Vms.Ledger.{Ledger, Grows, Grows-refl, kalloc_page-fresh, map-Grows}
use sky_os.Sched.{kmap}
use sky_os.Process.{World, align}
use sky_os.Process.Separate.{Separate, SameTables-Separate}
use sky_os.Boot.{kernel_size, k_pgtable_init, vms_init}

module _ {S : Type 0} {kalloc : ℕ → S → Run (ℕ × S)} (l : Ledger kalloc) where
  open l use {Valid, keeps}

  kmap-Grows :
      (pg va pa size : ℕ) (words : ℕ → ℕ) (heap : S) {words' : ℕ → ℕ} {heap' : S}
      → kmap (kalloc pgsize) pg va pa size words heap ≡ done (words', heap')
      → Grows l heap heap'
  unfolding kmap
  kmap-Grows pg va pa size words heap run = map-Grows l pg va pa size 0 words heap run

  -- Where no process has a page table.
  module _ (kernel_start kernel_end : ℕ) (w : World S) (ok : Valid w.heap)
      (none_yet : (i : ℕ) → (w.kernel.task i).pgtable ≡ 0) where
    k_pgtable_init-Separate :
        {ppn : ℕ} {w' : World S}
        → k_pgtable_init (kalloc pgsize) kernel_start kernel_end w ≡ done (ppn, w')
        → Separate l w'
    unfolding k_pgtable_init
    k_pgtable_init-Separate run =
        let ((t, heap), got, run1) = >>=-eq-done (kalloc pgsize w.heap) _ run in
        let (even, run2) = require-done (align t) _ run1 in
        let ((words, heap1), mapped, last) =
          >>=-eq-done
            (kmap (kalloc pgsize) t kernel_start kernel_start
              (kernel_size (kalloc pgsize) kernel_start kernel_end) w.words heap)
            _ run2 in
        let (fresh, held) = kalloc_page-fresh l ok got in
        let g = kmap-Grows t kernel_start kernel_start _ w.words heap mapped in
        subst (λ (x : ℕ × World S). Separate l x.1) (done_injective last)
          (record {
            heap = g.valid (keeps pgsize ok got).0;
            kernel_held = g.held (keeps pgsize ok got).0 t held;
            kernel_aligned = (==_iff (t % pgsize) 0).0 even;
            held = λ i has. absurd (has (none_yet i));
            aligned = λ i. rw (none_yet i) refl;
            not_kernel = λ i has. absurd (has (none_yet i));
            different = λ i j ne has. absurd (has (none_yet i));
          })

    pub vms_init-Separate :
        {w' : World S}
        → vms_init (kalloc pgsize) kernel_start kernel_end w ≡ done w'
        → Separate l w'
    unfolding vms_init
    vms_init-Separate run =
        let ((ppn, w1), made, last) =
          >>=-eq-done (k_pgtable_init (kalloc pgsize) kernel_start kernel_end w) _ run in
        subst (Separate l) (done_injective last) (
          SameTables-Separate l
            (record { tables = λ i. refl; kernel_table = refl; heap = Grows-refl l w1.heap })
            (k_pgtable_init-Separate made))
