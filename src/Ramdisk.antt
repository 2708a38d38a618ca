-- ===== src/Ramdisk.antt =====
-- kernel/drivers/ramdisk.c: the disk in memory. `base` is RAMDISK_BASE.
mod Examples
pub mod Place
pub mod Sectors
use sky_os.Base.{ℕ, ◌+◌, ◌*◌, ◌/◌, ◌^◌, u32, u64}
use sky_os.Base.Runs.{Run, done, ◌>>=◌}
use sky_os.Strings.{Memory, memcpy}

abbrev pub sector_size : ℕ
sector_size = 512

-- RAMDISK_BASE: in the middle of as many bytes as the memory has.
abbrev pub ramdisk_base : (kernel_start : ℕ) → ℕ
ramdisk_base kernel_start = u64 (kernel_start + 2 ^ 26 / 2)

-- The products are of 32-bit words.
unfoldable pub ramdisk_read : (base buf sector count : ℕ) → Memory → Run (ℕ × Memory)
ramdisk_read base buf sector count m = do
  m' ← memcpy buf (base + u32 (sector * sector_size)) (u32 (count * sector_size)) m
  done (count, m')

unfoldable pub ramdisk_write : (base src sector count : ℕ) → Memory → Run (ℕ × Memory)
ramdisk_write base src sector count m = do
  m' ← memcpy (base + u32 (sector * sector_size)) src (u32 (count * sector_size)) m
  done (count, m')
