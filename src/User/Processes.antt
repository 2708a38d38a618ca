-- ===== src/User/Processes.antt =====
-- Which of the loops of user/idle.c a process runs after the fork of kernel/proc/syscall.c, and
-- `memset` of user/strings.c.
use sky_os.Base.{ℕ, zero, suc, ◌≡◌, ◌≢◌, refl, ◌∙◌, sym, ap, arith, Option}
use sky_os.Base.Runs.{Run, done}
use sky_os.Strings.{Memory, set_bytes, memset}
use sky_os.Isa.{Context}
use sky_os.Process.{World}
use sky_os.Syscall.{syscall_write, syscall_fork, sys_fork}
use sky_os.Syscall.Fork.{sys_fork-Forked}
use sky_os.User.{user_syscall_write, user_syscall_fork, user_set_bytes, user_memset, idle}

-- The numbers of the user programs are those of the kernel.
same_numbers : (user_syscall_write ≡ syscall_write) × (user_syscall_fork ≡ syscall_fork)
same_numbers = (refl, refl)

user_set_bytes-set_bytes :
    (dst c n : ℕ) (m : Memory) → user_set_bytes dst c n m ≡ set_bytes dst c n m
unfolding user_set_bytes set_bytes
user_set_bytes-set_bytes dst c zero m = refl
user_set_bytes-set_bytes dst c (suc i) m = rw (user_set_bytes-set_bytes dst c i m) refl

-- The memset of the user programs is that of the kernel.
pub user_memset-memset : (dst c n : ℕ) (m : Memory) → user_memset dst c n m ≡ memset dst c n m
unfolding user_memset memset
user_memset-memset dst c n m = rw (user_set_bytes-set_bytes dst c n m) refl

-- When fork from a live process returns and the identifier 0 was in use, the idle program prints
-- the line 0 in the parent and another line in the child.
pub idle-sys_fork :
    {S : Type 0} (mmu : (satp sstatus : ℕ) → (ℕ → ℕ) → ℕ → Option ℕ) (kalloc : ℕ → S → Run (ℕ × S))
    (w : World S) {pid : ℕ} {w' : World S} (fork2 : ℕ)
    → w.kernel.pidmap w.kernel.current_task ≢ 0
    → w.kernel.pidmap 0 ≢ 0
    → sys_fork mmu kalloc w ≡ done (pid, w')
    → (idle (w'.kernel.task w.kernel.current_task).context.a0 fork2 ≡ 0)
      × (idle (w'.kernel.task pid).context.a0 fork2 ≢ 0)
unfolding idle
idle-sys_fork mmu kalloc w {pid} {w'} fork2 live first run =
    let f = (sys_fork-Forked mmu kalloc w live run).0 in
    let parent = ap (λ (c : Context). c.a0) f.parent_context in
    let child = ap (λ (c : Context). c.a0) f.child_context in
    let ne : pid ≢ 0 = λ e. first (ap w.kernel.pidmap (sym e) ∙ f.was_free) in
    (ground (arith, parent, ne), λ e. ground (arith, child, e))
