-- ===== src/Ramdisk/Examples.antt =====
-- Two sectors of kernel/drivers/ramdisk.c.
use sky_os.Base.{ℕ, ◌+◌, ◌≤◌, ◌<◌, arith}
use sky_os.Vms.{pgsize}
use sky_os.Buddy.{npage}
use sky_os.Pmm.{pgaddr}
use sky_os.Ramdisk.{ramdisk_base}
use sky_os.Ramdisk.Place.{ramdisk_base-pgaddr}

ramdisk_base-pgaddr_example :
    (i : ℕ) × (i < npage)
    × (pgaddr 0x80220000 i ≤ ramdisk_base 0x80200000)
    × (ramdisk_base 0x80200000 < pgaddr 0x80220000 i + pgsize)
ramdisk_base-pgaddr_example =
    ramdisk_base-pgaddr 0x80200000 0x80220000 (omega arith) (omega arith) (omega arith)
