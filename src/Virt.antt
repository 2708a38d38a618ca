-- ===== src/Virt.antt =====
-- kernel/arch/virt.c: the memory map of the board. A device is its number in the enumeration.
pub mod Regions
use sky_os.Base.{ℕ, ◌==◌, if◌then◌else◌}

abbrev pub virt_debug : ℕ
virt_debug = 0

abbrev pub virt_mrom : ℕ
virt_mrom = 1

abbrev pub virt_test : ℕ
virt_test = 2

abbrev pub virt_clint : ℕ
virt_clint = 3

abbrev pub virt_plic : ℕ
virt_plic = 4

abbrev pub virt_uart0 : ℕ
virt_uart0 = 5

abbrev pub virt_virtio : ℕ
virt_virtio = 6

abbrev pub virt_dram : ℕ
virt_dram = 7

abbrev pub virt_pcie_mmio : ℕ
virt_pcie_mmio = 8

abbrev pub virt_pcie_pio : ℕ
virt_pcie_pio = 9

abbrev pub virt_pcie_ecam : ℕ
virt_pcie_ecam = 10

abbrev pub virt_plic_enable_base : ℕ
virt_plic_enable_base = 0x2000

abbrev pub virt_plic_enable_stride : ℕ
virt_plic_enable_stride = 0x80

abbrev pub virt_plic_context_base : ℕ
virt_plic_context_base = 0x200000

abbrev pub virt_plic_context_stride : ℕ
virt_plic_context_stride = 0x1000

-- `struct MemmapEntry`
pub record MemmapEntry : Type 0 where
  pub base : ℕ
  pub size : ℕ

abbrev pub region : (base size : ℕ) → MemmapEntry
region base size = record { base = base; size = size }

-- `virt_memmap`, in the order of its initializer; there are no entries behind the last.
unfoldable pub virt_memmap : ℕ → MemmapEntry
virt_memmap d =
    if d == virt_debug
    then region 0x0 0x100
    else if d == virt_mrom
    then region 0x1000 0x11000
    else if d == virt_test
    then region 0x100000 0x1000
    else if d == virt_clint
    then region 0x2000000 0x10000
    else if d == virt_plic
    then region 0xC000000 0x4000000
    else if d == virt_uart0
    then region 0x10000000 0x100
    else if d == virt_virtio
    then region 0x10001000 0x1000
    else if d == virt_dram
    then region 0x80000000 0x0
    else if d == virt_pcie_mmio
    then region 0x40000000 0x40000000
    else if d == virt_pcie_pio
    then region 0x03000000 0x00010000
    else region 0x30000000 0x10000000
