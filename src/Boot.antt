-- ===== src/Boot.antt =====
-- The start of the kernel: the page table of the kernel in kernel/mm/vms.c, and kernel/main.c. The
-- linker sets `kernel_start` and `kernel_end`.
mod Examples
pub mod Identity
pub mod Tables
use sky_os.Base.{ℕ, ◌+◌, ◌-◌, ◌*◌, ◌^◌, u64, shr}
use sky_os.Base.Runs.{Run, done, ◌>>=◌, ◌>>◌, require}
use sky_os.Isa.{Machine, satp_set, flush_tlb}
use sky_os.Vms.{pgsize}
use sky_os.Sched.{sv39_addressing_mode, kmap}
use sky_os.Process.{World, align}

unfoldable pub activate_sv39 : ℕ → Machine → Machine
activate_sv39 ppn m = flush_tlb (satp_set (u64 (sv39_addressing_mode * 2 ^ 60 + ppn)) m)

-- mem_size
abbrev pub mem_size : ℕ
mem_size = 2 ^ 26

module _ {S : Type 0} (kalloc_page : S → Run (ℕ × S)) (kernel_start kernel_end : ℕ) where
  -- The bytes from `kernel_start` to `kernel_end + mem_size`.
  abbrev pub kernel_size : ℕ
  kernel_size = u64 (kernel_end + mem_size + 2 ^ 64 - kernel_start)

  unfoldable pub k_pgtable_init : World S → Run (ℕ × World S)
  k_pgtable_init w = do
    (t, heap) ← kalloc_page w.heap
    require (align t)
    (words, heap1) ← kmap kalloc_page t kernel_start kernel_start kernel_size w.words heap
    done (shr t 12, record w { words = words; heap = heap1; k_pgtable = t })

  unfoldable pub vms_init : World S → Run (World S)
  vms_init w = do
    (k_ppn, w1) ← k_pgtable_init w
    done (record w1 { machine = activate_sv39 k_ppn w1.machine })
