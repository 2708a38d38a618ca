-- ===== src/Exec/Elf.antt =====
-- kernel/include/elf.h: the headers of a program, as they lie in memory.
use sky_os.Base.{ℕ, zero, suc, ◌+◌, ◌*◌}

abbrev pub elf_magic : ℕ
elf_magic = 0x464C457F

abbrev pub elf_prog_load : ℕ
elf_prog_load = 1

abbrev pub elf_prog_flag_exec : ℕ
elf_prog_flag_exec = 1

abbrev pub elf_prog_flag_write : ℕ
elf_prog_flag_write = 2

abbrev pub elf_prog_flag_read : ℕ
elf_prog_flag_read = 4

-- `sizeof(struct proghdr)`
abbrev pub proghdr_size : ℕ
proghdr_size = 56

-- `struct elfhdr`; `elf` are the twelve bytes behind the magic number.
pub record ElfHdr : Type 0 where
  pub magic : ℕ
  pub elf : ℕ → ℕ
  pub type : ℕ
  pub machine : ℕ
  pub version : ℕ
  pub entry : ℕ
  pub phoff : ℕ
  pub shoff : ℕ
  pub flags : ℕ
  pub ehsize : ℕ
  pub phentsize : ℕ
  pub phnum : ℕ
  pub shentsize : ℕ
  pub shnum : ℕ
  pub shstrndx : ℕ

-- `struct proghdr`
pub record ProgHdr : Type 0 where
  pub type : ℕ
  pub flags : ℕ
  pub off : ℕ
  pub vaddr : ℕ
  pub paddr : ℕ
  pub filesz : ℕ
  pub memsz : ℕ
  pub align : ℕ

-- The `n` bytes at `a` as a number, the lowest first.
unfoldable pub load : (n a : ℕ) → (ℕ → ℕ) → ℕ
load zero a bytes = 0
load (suc n) a bytes = bytes a + 256 * load n (a + 1) bytes

-- The fields at their places in the structures.
unfoldable pub load_elfhdr : ℕ → (ℕ → ℕ) → ElfHdr
load_elfhdr a bytes = record {
  magic = load 4 a bytes;
  elf = λ i. bytes (a + 4 + i);
  type = load 2 (a + 16) bytes;
  machine = load 2 (a + 18) bytes;
  version = load 4 (a + 20) bytes;
  entry = load 8 (a + 24) bytes;
  phoff = load 8 (a + 32) bytes;
  shoff = load 8 (a + 40) bytes;
  flags = load 4 (a + 48) bytes;
  ehsize = load 2 (a + 52) bytes;
  phentsize = load 2 (a + 54) bytes;
  phnum = load 2 (a + 56) bytes;
  shentsize = load 2 (a + 58) bytes;
  shnum = load 2 (a + 60) bytes;
  shstrndx = load 2 (a + 62) bytes;
}

unfoldable pub load_proghdr : ℕ → (ℕ → ℕ) → ProgHdr
load_proghdr a bytes = record {
  type = load 4 a bytes;
  flags = load 4 (a + 4) bytes;
  off = load 8 (a + 8) bytes;
  vaddr = load 8 (a + 16) bytes;
  paddr = load 8 (a + 24) bytes;
  filesz = load 8 (a + 32) bytes;
  memsz = load 8 (a + 40) bytes;
  align = load 8 (a + 48) bytes;
}
