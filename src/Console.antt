-- ===== src/Console.antt =====
-- kernel/drivers/console.c: characters to and from the firmware, under the lock of the console, on one
-- hart.
pub mod Output
use sky_os.Base.{ℕ, ◌==◌, if◌then◌else◌, u8}
use sky_os.Base.Runs.{Run, done, panic, ◌>>=◌}
use sky_os.Lock.{Spinlock, holding, test_and_set, clear}
use sky_os.Sbi.{Firmware, sbi_console_putchar, sbi_console_getchar}

module _ (firmware : Firmware) where
  -- `struct console`, with the firmware behind it.
  pub record Console : Type 0 where
    pub console_lock : Spinlock
    pub firmware_state : firmware.State

  abbrev pub acquire : Console → Run Console
  acquire c =
      if holding c.console_lock == 0
      then done (record c { console_lock = (test_and_set c.console_lock).1 })
      else panic

  abbrev pub release : Console → Run Console
  release c =
      if holding c.console_lock == 0
      then panic
      else done (record c { console_lock = clear c.console_lock })

  unfoldable pub putchar : ℕ → Console → Run Console
  putchar ch c = do
    c1 ← acquire c
    release (record c1 { firmware_state = sbi_console_putchar firmware (u8 ch) c1.firmware_state })

  -- Its parameter is not used.
  unfoldable pub getchar : ℕ → Console → ℕ × Console
  getchar ch c =
      let (v, s) = sbi_console_getchar firmware c.firmware_state in
      (u8 v, record c { firmware_state = s })
