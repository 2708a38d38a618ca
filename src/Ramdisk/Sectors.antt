-- ===== src/Ramdisk/Sectors.antt =====
-- Writing and reading sectors of kernel/drivers/ramdisk.c.
use sky_os.Base.{ℕ, ◌+◌, ◌*◌, ◌^◌, ◌≤◌, ◌<◌, ◌≡◌, refl, inl, inr, ◌∙◌, arith, u32}
use sky_os.Base.Runs.{done}
use sky_os.Strings.{Memory, memcpy}
use sky_os.Strings.Copy.{memcpy_lem}
use sky_os.Ramdisk.{sector_size, ramdisk_read, ramdisk_write}

module _ (base sector count : ℕ) (m : Memory) {m' : Memory} (place : sector * sector_size < 2 ^ 32)
    (fits : count * sector_size < 2 ^ 31) where
  ramdisk_write-memcpy :
      (src : ℕ)
      → memcpy (base + sector * sector_size) src (count * sector_size) m ≡ done m'
      → ramdisk_write base src sector count m ≡ done (count, m')
  unfolding ramdisk_write
  ramdisk_write-memcpy src run =
      let e : u32 (sector * sector_size) ≡ sector * sector_size = omega arith in
      let e' : u32 (count * sector_size) ≡ count * sector_size = omega arith in rw (e, e', run) refl

  ramdisk_read-memcpy :
      (buf : ℕ)
      → memcpy buf (base + sector * sector_size) (count * sector_size) m ≡ done m'
      → ramdisk_read base buf sector count m ≡ done (count, m')
  unfolding ramdisk_read
  ramdisk_read-memcpy buf run =
      let e : u32 (sector * sector_size) ≡ sector * sector_size = omega arith in
      let e' : u32 (count * sector_size) ≡ count * sector_size = omega arith in rw (e, e', run) refl

-- For buffers before the disk, sectors whose place a 32-bit word counts and fewer than 2 ^ 31 bytes,
-- a write and a read of the same sectors behind it return the count of the sectors, and the bytes
-- read are those that were written.
pub ramdisk_read-ramdisk_write :
    (base src buf sector count : ℕ) (m : Memory)
    → sector * sector_size < 2 ^ 32
    → count * sector_size < 2 ^ 31
    → src + count * sector_size ≤ base
    → buf + count * sector_size ≤ base
    → (m1 m2 : Memory) × (ramdisk_write base src sector count m ≡ done (count, m1))
      × (ramdisk_read base buf sector count m1 ≡ done (count, m2))
      × ((i : ℕ) → i < count * sector_size → m2 (buf + i) ≡ m (src + i))
ramdisk_read-ramdisk_write base src buf sector count m small fits src_low buf_low =
    let disk = base + sector * sector_size in
    let n = count * sector_size in
    let (m1, run1, written) = memcpy_lem disk src n m fits (inr (omega arith)) in
    let (m2, run2, read) = memcpy_lem buf disk n m1 fits (inl (omega arith)) in
    (
      m1,
      m2,
      ramdisk_write-memcpy base sector count m small fits src run1,
      ramdisk_read-memcpy base sector count m1 small fits buf run2,
      λ i lt. read.set i lt ∙ written.set i lt,
    )
