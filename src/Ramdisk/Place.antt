-- ===== src/Ramdisk/Place.antt =====
-- Where kernel/drivers/ramdisk.c has its disk, beside the pages of kernel/mm/pmm.c.
use sky_os.Base.{ℕ, ◌+◌, ◌-◌, ◌/◌, ◌^◌, ◌≤◌, ◌<◌, arith}
use sky_os.Vms.{pgsize}
use sky_os.Buddy.{npage}
use sky_os.Pmm.{pgaddr}
use sky_os.Ramdisk.{ramdisk_base}

-- Where the kernel has at most 32 MB, the disk in memory starts inside a page that the page
-- allocator hands out.
pub ramdisk_base-pgaddr :
    (kernel_start kernel_end : ℕ)
    → kernel_start ≤ kernel_end
    → kernel_end ≤ kernel_start + 2 ^ 25
    → kernel_end + 2 ^ 26 < 2 ^ 64
    → (i : ℕ) × (i < npage)
      × (pgaddr kernel_end i ≤ ramdisk_base kernel_start)
      × (ramdisk_base kernel_start < pgaddr kernel_end i + pgsize)
unfolding pgaddr
ramdisk_base-pgaddr kernel_start kernel_end order near fits =
    let i = (kernel_start + 2 ^ 25 - kernel_end) / pgsize in
    (i, omega arith, omega arith, omega arith)
