-- ===== src/BlockDevice/Sectors.antt =====
-- The device that `block_device_new` of kernel/drivers/block_dev.c makes.
use sky_os.Base.{ℕ, ◌+◌, ◌*◌, ◌^◌, ◌≤◌, ◌<◌, ◌≡◌, subst}
use sky_os.Base.Runs.{Run, done, >>=-eq-done, done_injective}
use sky_os.Strings.{Memory}
use sky_os.Ramdisk.{sector_size}
use sky_os.Ramdisk.Sectors.{ramdisk_read-ramdisk_write}
use sky_os.BlockDevice.{
  BlockDevice, block_read_sectors, block_write_sectors, block_device_size, block_device_new,
}

-- On a new block device, for buffers before the disk, sectors whose place a 32-bit word counts and
-- fewer than 2 ^ 31 bytes, a write and a read of the same sectors behind it return the count of
-- the sectors, and the bytes read are those that were written.
pub block_read_sectors-block_write_sectors :
    {S : Type 0} (kalloc : ℕ → S → Run (ℕ × S)) (base : ℕ) (heap : S) {dev : BlockDevice}
    {heap' : S} (src buf sector count : ℕ) (m : Memory)
    → block_device_new kalloc base heap ≡ done (dev, heap')
    → sector * sector_size < 2 ^ 32
    → count * sector_size < 2 ^ 31
    → src + count * sector_size ≤ base
    → buf + count * sector_size ≤ base
    → (m1 m2 : Memory) × (block_write_sectors dev sector count src m ≡ done (count, m1))
      × (block_read_sectors dev sector count buf m1 ≡ done (count, m2))
      × ((i : ℕ) → i < count * sector_size → m2 (buf + i) ≡ m (src + i))
unfolding block_device_new block_read_sectors block_write_sectors
block_read_sectors-block_write_sectors {S} kalloc base heap {dev} {heap'} src buf sector count m run
      small fits src_low buf_low =
    let ((a, heap1), got, last) = >>=-eq-done (kalloc block_device_size heap) _ run in
    subst
      (λ (x : BlockDevice × S).
        (m1 m2 : Memory) × (x.0.write_sectors src sector count m ≡ done (count, m1))
        × (x.0.read_sectors buf sector count m1 ≡ done (count, m2))
        × ((i : ℕ) → i < count * sector_size → m2 (buf + i) ≡ m (src + i)))
      (done_injective last)
      (ramdisk_read-ramdisk_write base src buf sector count m small fits src_low buf_low)
