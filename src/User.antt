-- ===== src/User.antt =====
-- The user program of user/idle.c, with user/strings.c. A process runs `main` on its own; what it sees
-- of the kernel are the results of its calls of fork.
mod Examples
pub mod Processes
use sky_os.Base.{ℕ, zero, suc, ◌+◌, ◌^◌, ◌==◌, ltb, if◌then◌else◌, u8, write}
use sky_os.Base.Runs.{Run, done, ◌>>◌, inside}
use sky_os.Strings.{Memory}

-- The numbers of kernel/include/syscall_define.h once more, in user/include/syscall.h.
abbrev pub user_syscall_write : ℕ
user_syscall_write = 64

abbrev pub user_syscall_fork : ℕ
user_syscall_fork = 32

-- The loop of `memset` of user/strings.c after `n` rounds.
unfoldable pub user_set_bytes : (dst c n : ℕ) → Memory → Memory
user_set_bytes dst c zero m = m
user_set_bytes dst c (suc i) m = write (user_set_bytes dst c i m) (dst + i) (u8 c)

-- The index is an `int`, which leaves its range after 2 ^ 31 rounds.
unfoldable pub user_memset : (dst c n : ℕ) → Memory → Run Memory
user_memset dst c n m = inside (ltb n (2 ^ 31)) >> done (user_set_bytes dst c n m)

-- The number in the line that the process prints for ever, by what its calls of fork return: `i` is
-- 0 and never changes, so that none of the three loops ends.
unfoldable pub idle : (fork1 fork2 : ℕ) → ℕ
idle fork1 fork2 = if fork1 == 0 then (if fork2 == 0 then 2 else 1) else 0
