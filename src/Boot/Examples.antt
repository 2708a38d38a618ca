-- ===== src/Boot/Examples.antt =====
-- `vms_init` of kernel/mm/vms.c where the range of the kernel has one page.
use sky_os.Base.{ℕ, ◌≡◌, refl, arith, true}
use sky_os.Base.Runs.{result, is_done, done-result}
use sky_os.Vms.{map, map_pages, map_walk, valid, pte_addr, table_entry, leaf_entry}
use sky_os.Vms.Examples.{next_page, pages, empty-IsClean}
use sky_os.Sched.{kmap}
use sky_os.Process.{World}
use sky_os.Process.Examples.{world}
use sky_os.Boot.{activate_sv39, k_pgtable_init, vms_init}
use sky_os.Boot.Identity.{Identity, vms_init-Identity}

abbrev booted : World ℕ
booted = result world (vms_init next_page 0x80000000 0x7C001000 world)

booted_done : is_done (vms_init next_page 0x80000000 0x7C001000 world) ≡ true
unfolding vms_init k_pgtable_init activate_sv39 kmap map map_pages map_walk valid pte_addr
    table_entry leaf_entry next_page
booted_done = refl

vms_init-Identity_example : Identity 0x80000000 0x7C001000 booted
vms_init-Identity_example =
    vms_init-Identity pages 0x80000000 0x7C001000 world refl (omega arith) (omega arith)
      empty-IsClean tt (done-result world _ booted_done)
