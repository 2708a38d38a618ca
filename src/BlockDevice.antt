-- ===== src/BlockDevice.antt =====
-- kernel/drivers/block_dev.c with the interface of kernel/include/openfat/blockdev.h: the disk in
-- memory as the device of the file system.
mod Examples
pub mod Sectors
use sky_os.Base.{ℕ}
use sky_os.Base.Runs.{Run, done, ◌>>=◌}
use sky_os.Strings.{Memory}
use sky_os.Ramdisk.{ramdisk_read, ramdisk_write}

-- `struct block_device`: the two methods, each with its result and the memory behind it.
pub record BlockDevice : Type 0 where
  pub read_sectors : (buf sector count : ℕ) → Memory → Run (ℕ × Memory)
  pub write_sectors : (buf sector count : ℕ) → Memory → Run (ℕ × Memory)

unfoldable pub block_read_sectors : BlockDevice → (sector count buf : ℕ) → Memory → Run (ℕ × Memory)
block_read_sectors dev sector count buf m = dev.read_sectors buf sector count m

unfoldable pub block_write_sectors :
    BlockDevice → (sector count buf : ℕ) → Memory → Run (ℕ × Memory)
block_write_sectors dev sector count buf m = dev.write_sectors buf sector count m

-- The methods of every device.
abbrev pub ramdisk_device : (base : ℕ) → BlockDevice
ramdisk_device base = record {
  read_sectors = ramdisk_read base;
  write_sectors = ramdisk_write base;
}

-- `sizeof(*bldev)`
abbrev pub block_device_size : ℕ
block_device_size = 16

module _ {S : Type 0} (kalloc : ℕ → S → Run (ℕ × S)) (base : ℕ) where
  -- Its parameters are not used.
  unfoldable pub block_device_new : S → Run (BlockDevice × S)
  block_device_new heap = do
    (bldev, heap1) ← kalloc block_device_size heap
    done (ramdisk_device base, heap1)

-- Nothing is given back.
unfoldable pub block_device_destroy {ℓ} : {S : Type ℓ} → BlockDevice → S → S
block_device_destroy bldev heap = heap
