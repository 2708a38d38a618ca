-- ===== src/BlockDevice/Examples.antt =====
-- Two sectors of the device of kernel/drivers/block_dev.c.
use sky_os.Base.{ℕ, ◌*◌, ◌<◌, ◌+◌, ◌≡◌, refl, arith}
use sky_os.Base.Runs.{done}
use sky_os.Ramdisk.{sector_size}
use sky_os.Strings.{Memory}
use sky_os.Process.Examples.{bump}
use sky_os.BlockDevice.{block_read_sectors, block_write_sectors, ramdisk_device, block_device_new}
use sky_os.BlockDevice.Sectors.{block_read_sectors-block_write_sectors}

abbrev counting : Memory
counting a = a

new_device : block_device_new bump 0x82000000 0x80100 ≡ done (ramdisk_device 0x82000000, 0x80101)
unfolding block_device_new
new_device = refl

block_read_sectors-block_write_sectors_example :
    (m1 m2 : Memory) × (block_write_sectors (ramdisk_device 0x82000000) 7 2 0x80000000 counting
      ≡ done (2, m1))
    × (block_read_sectors (ramdisk_device 0x82000000) 7 2 0x81000000 m1 ≡ done (2, m2))
    × ((i : ℕ) → i < 2 * sector_size → m2 (0x81000000 + i) ≡ counting (0x80000000 + i))
block_read_sectors-block_write_sectors_example =
    block_read_sectors-block_write_sectors bump 0x82000000 0x80100 0x80000000 0x81000000 7 2
      counting new_device (omega arith) (omega arith) (omega arith) (omega arith)
