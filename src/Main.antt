-- ===== src/Main.antt =====
-- kernel/main.c: the start of the kernel, up to the first process, and the traps behind it. The linker
-- sets the addresses, and the file system mounts its volume on the device, or fails.
mod Examples
pub mod Invariant
pub mod Tables
use sky_os.Base.{ℕ, ◌≡◌, ◌==◌, if◌then◌else◌, Option, none, some}
use sky_os.Base.Runs.{Run, done, panic, ◌>>=◌}
use sky_os.Isa.{Context}
use sky_os.Vms.{pgsize}
use sky_os.Buddy.{BuddyState}
use sky_os.Pmm.{pmm_init, kalloc}
use sky_os.Ramdisk.{ramdisk_base}
use sky_os.BlockDevice.{BlockDevice, block_device_new}
use sky_os.Process.{World}
use sky_os.Boot.{vms_init}
use sky_os.Trap.{trap_init, trap_start}
use sky_os.Exec.{Fat, execve}

-- What the linker and the boot assembly set, and what the hardware and the library do.
pub record Platform : Type 1 where
  pub kernel_start : ℕ
  pub kernel_end : ℕ
  pub sscratch_stack : ℕ
  pub trap_entry : ℕ
  pub mmu : (satp sstatus : ℕ) → (ℕ → ℕ) → ℕ → Option ℕ
  pub mount : BlockDevice → Option Fat

-- Behind `execve`, if it came back: a loop without end, as of a panic.
abbrev pub end {ℓ} : {A : Type ℓ} → Run A
end = panic

-- "idle"
abbrev pub idle_name : ℕ → ℕ
idle_name i =
    if i == 0
    then 105
    else if i == 1
    then 100
    else if i == 2
    then 108
    else if i == 3
    then 101
    else 0

module _ (p : Platform) where
  open p use {kernel_start, kernel_end, sscratch_stack, trap_entry, mmu, mount}

  -- `kalloc` of the pages behind the kernel.
  abbrev pub kernel_kalloc : ℕ → BuddyState → Run (ℕ × BuddyState)
  kernel_kalloc size s = kalloc kernel_end size s

  -- `filesystem_init` as the kernel uses it.
  abbrev pub mount_disk : World BuddyState → Run (Fat × World BuddyState)
  mount_disk w = do
    (device, heap) ← block_device_new kernel_kalloc (ramdisk_base kernel_start) w.heap
    elim (mount device) [ none ↦ panic | some fat ↦ done (fat, record w { heap = heap }) ]

  -- The logo, the levels of the log and `ramdisk_init` only print; `end` is not reached, as `execve`
  -- ends in the process.
  unfoldable pub main : World BuddyState → Run (World BuddyState)
  main w = do
    let w1 = record w { heap = pmm_init w.heap }
    w2 ← vms_init (kernel_kalloc pgsize) kernel_start kernel_end w1
    let w3 = record w2 { machine = trap_init sscratch_stack trap_entry w2.machine }
    (fat, w4) ← mount_disk w3
    execve kernel_kalloc fat idle_name w4

  -- No process is there yet.
  pub record Cold (w : World BuddyState) : Type 0 where
    pub pidmap : (i : ℕ) → w.kernel.pidmap i ≡ 0
    pub tables : (i : ℕ) → (w.kernel.task i).pgtable ≡ 0

  -- The states between the traps: a process has its memory and its registers as it likes, and a trap
  -- of the kernel itself may come in the middle of a message.
  pub data Reach : World BuddyState → Type 0 where
    boot : {w w' : World BuddyState} → Cold w → main w ≡ done w' → Reach w'
    trap :
        {w w' : World BuddyState} (ctx : Context) (scause sepc stval time log_lock : ℕ)
        (bytes : ℕ → ℕ)
        → Reach w
        → trap_start mmu kernel_kalloc ctx (record w {
          machine = record w.machine { scause = scause; sepc = sepc; stval = stval; time = time };
          bytes = bytes;
          log_lock = log_lock;
        })
          ≡ done w'
        → Reach w'
