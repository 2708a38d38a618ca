-- ===== src/Lib.antt =====
-- skyOS: a small RISC-V kernel in C. This library models its memory management, its processes, traps
-- and system calls, its start and the routines below them, with theorems about what they promise.
--
-- The parts and how they interact. The buddy allocator (kernel/mm/buddy.c) keeps the free physical
-- pages in circular lists (kernel/include/list.h), one for each order. The page tables
-- (kernel/mm/vms.c) take their pages from kalloc (kernel/mm/pmm.c), which asks the buddy allocator. The
-- scheduler (kernel/proc/sched.c) keeps the processes, each with a page table, maps their areas, and on
-- a timer interrupt chooses the next one. A trap (kernel/proc/trap.c) saves the registers of the current
-- process, goes to the timer or to a system call (kernel/proc/syscall.c), and returns to the process that
-- is current then; fork copies a process and execve loads one from the file system. kernel/main.c starts
-- the parts in order. The disk in memory (kernel/drivers/ramdisk.c) copies bytes with the functions of
-- kernel/common/strings.c.
--
-- The modules.
--   Base       shared names, Boolean tests, machine words, lists of addresses, memories, and `Run`,
--              the outcomes of code that can fail: done, panic, a fault (an access outside the object
--              that the code names, or a shift outside its type) and out_of_fuel.
--   ListHead   kernel/include/list.h. The links of all nodes are two memories indexed by address;
--              init_list_head, list_add, list_append, list_del and list_empty are the stores of the
--              source. Ring says which list of entries a head stands for.
--   Buddy      kernel/mm/buddy.c with kernel/include/buddy.h and the sizes of kernel/include/pmm.h.
--              The state is pages, the links and the counters of buddy_lists; each function of the
--              source has the same name. Tiles and Chunks describe a memory cut into chunks,
--              Queues and Invariant the free lists over it; Halving and Split are the splitting
--              loop, Claim and Allocate buddy_allocate, Merging, Coalesce, Release and Free
--              buddy_free_page, Init the boot, Size size2order, Statistics buddy_statistics. Owned
--              says who holds which pages, Reach is about histories of calls, Failures about calls that
--              leave the arrays. Bench holds the two self tests, and Examples runs them.
--   Vms        kernel/mm/vms.c with kernel/include/vms.h. The state is the memory of page table
--              entries and the state of the allocator, which is an interface (Kalloc). Entries is
--              about the bits of an entry, Walk about one page, Covers and Pages about a range, Macros
--              about rounding and the pieces of a page number; Ledger is an allocator that hands out no
--              byte twice.
--   Sched      kernel/proc/sched.c with kernel/include/sched.h. The state is the table of processes
--              with pidmap, current_task and jiffies, and of the machine what switch_to and do_timer
--              set. Pids is about identifiers, Areas about vma_insert and umap, Choice about schedule,
--              Ticks about the timer, Progress about interrupt after interrupt.
--   Isa        kernel/arch/isa.c with kernel/include/isa.h: the control registers are the fields of
--              Machine; Flags is about their bits. Context is struct context.
--   Process    the rest of kernel/proc/sched.c but execve, on a World: the kernel, the machine, the page
--              table entries, the bytes of memory, the allocator, and what is printed. Creation is about
--              alloc_process, Copies, Memory and Clone about copy_mem_from, Fresh about what a new
--              process leaves alone. Separate says that the page tables are on pages of their own, and
--              Tables, here and in the parts below, that each function keeps this.
--   Syscall    kernel/proc/syscall.c; Fork is about the processes of sys_fork, Clone about their memory,
--              Calls about the other calls.
--   Trap       kernel/proc/trap.c: trap_start from the saved registers to the return. Interrupts is about
--              the timer, Exceptions about system calls, Invariant about all traps.
--   Exec       execve of kernel/proc/sched.c; Elf has the headers of kernel/include/elf.h, Steps and
--              Start follow execve to the switch to the new process.
--   Boot       vms_init of kernel/mm/vms.c; Identity is about the mapping of the kernel.
--   Main       kernel/main.c on the buddy allocator, and the states between the traps (Invariant).
--   Pmm        kernel/mm/pmm.c. Pages is about what kalloc returns, and makes the buddy allocator the
--              allocator of the page tables; Handed makes it a Ledger.
--   Strings    kernel/common/strings.c on a memory of bytes. Scan is about the functions that read,
--              Copy about those that write; a string is a list of bytes other than 0.
--   Lock       kernel/sync/lock.c: the spinlock, as steps of any number of harts; Exclusion is about who
--              owns it.
--   Ramdisk    kernel/drivers/ramdisk.c on the byte memory of Strings; Sectors is its round
--              trip, Place its address.
--   BlockDevice kernel/drivers/block_dev.c with kernel/include/openfat/blockdev.h, over Ramdisk.
--   FileSystem kernel/fs/fstest.c, over the openfat library as an interface; Tree is about
--              print_tree.
--   Sbi        kernel/include/sbi.h: the calls of the firmware, which is a parameter.
--   Console    kernel/drivers/console.c, over Sbi and Lock on one hart.
--   Log        kernel/common/log.c with kernel/include/log.h, over Lock and Console on one hart, and
--              kernel/common/logo.c. Messages is about what the firmware gets.
--   Virt       kernel/arch/virt.c: the memory map of the board.
--   User       user/idle.c and user/strings.c.
--   SimpleAllocator  kernel/mm/simple_allocator.c, with the lock of Lock on one hart;
--              FirstFree is about simple_allocate, Trial about simple_test.
--
-- Bounds and fuel. A uint is a number below 2 ^ 32 and a uint64 one below 2 ^ 64; the wrap-around is
-- written out, also for the signed products of size2order, where C promises nothing. The search of
-- buddy_allocate has one round for each order, a merge raises the order, and a split lowers it, so
-- that their fuel is the number of orders; an outcome without a value is a panic or a fault. map has a
-- round for each page and one for the last test, and the loop of execve 2 ^ 16 rounds, since the number
-- of headers has 16 bits. The fuel of print_tree is a parameter. The loops over strings
-- have a round for each byte and one for the 0. Addresses do not wrap around in the string functions.
-- A count of memset or memcpy from 2 ^ 31 on is a fault, since their index is an `int`.
--
-- A timer interrupt in supervisor mode may come in the middle of a message. The state has the lock of
-- the log for this (log_lock), and an interrupt that finds it held does not end; it also tells whether
-- current_task is NULL, as it is until execve (has_current), where every trap is a fault.
--
-- Parameters: the addresses that the linker sets; the translation of addresses by the hardware, as the
-- kernel meets it when it reads the memory of a process; the firmware; the openfat library; what
-- the printf library makes of a format and its arguments, also where a path of the volume is the format.
--
-- Not modelled: what the messages of the other parts say; the assembly, of which the model has the
-- registers before and after it; the TLB; the openfat and printf libraries, which are copies of other
-- projects; harts that run at the same time, but for the lock.
pub mod Base
pub mod ListHead
pub mod Buddy
pub mod Vms
pub mod Sched
pub mod BlockDevice
pub mod Boot
pub mod Console
pub mod Exec
pub mod FileSystem
pub mod Isa
pub mod Lock
pub mod Log
pub mod Main
pub mod Pmm
pub mod Process
pub mod Ramdisk
pub mod Sbi
pub mod SimpleAllocator
pub mod Strings
pub mod Syscall
pub mod Trap
pub mod User
pub mod Virt
