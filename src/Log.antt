-- ===== src/Log.antt =====
-- kernel/common/log.c and kernel/include/log.h: messages on the console, under the lock of the log, on
-- one hart; kernel/common/logo.c, `console_init` of kernel/drivers/console.c, `ramdisk_init` and
-- `vms_test` only write such messages. What the printf library makes of a format is a parameter.
mod Examples
pub mod Messages
use Prim.Native.String.{String}
use sky_os.Base.{ℕ, zero, suc, ◌+◌, ◌*◌, ◌^◌, Bool, false, List, [], ◌∷◌, ◌==◌, leb, if◌then◌else◌}
use sky_os.Base.Runs.{Run, done, panic, fault, out_of_fuel, ◌>>=◌}
use sky_os.Lock.{Spinlock, init_lock, holding, test_and_set, clear}
use sky_os.Sbi.{Firmware}
use sky_os.Console.{Console}
use sky_os.Console.Output.{put_all}

-- The arguments of a format.
pub data Argument : Type 0 where
  string : String → Argument
  number : ℕ → Argument

abbrev pub log_trace_level : ℕ
log_trace_level = 0

abbrev pub log_debug_level : ℕ
log_debug_level = 1

abbrev pub log_info_level : ℕ
log_info_level = 2

abbrev pub log_warn_level : ℕ
log_warn_level = 3

abbrev pub log_error_level : ℕ
log_error_level = 4

abbrev pub log_fatal_level : ℕ
log_fatal_level = 5

-- `log_Event`, with the arguments that `ap` walks.
pub record LogEvent : Type 0 where
  pub ap : List Argument
  pub fmt : String
  pub file : String
  pub line : ℕ
  pub level : ℕ

abbrev pub level_strings : List String
level_strings = "TRACE" ∷ "DEBUG" ∷ "INFO" ∷ "WARN" ∷ "ERROR" ∷ "FATAL" ∷ []

abbrev pub level_colors : List String
level_colors =
    "\u{1b}[94m" ∷ "\u{1b}[36m" ∷ "\u{1b}[32m" ∷ "\u{1b}[33m" ∷ "\u{1b}[31m" ∷ "\u{1b}[35m" ∷ []

-- A read of such a table.
abbrev pub string_at : List String → ℕ → Run String
string_at [] i = fault
string_at (x ∷ xs) zero = done x
string_at (x ∷ xs) (suc i) = string_at xs i

pub log_level_string : ℕ → Run String
log_level_string level = string_at level_strings level

-- The format of a message's head.
abbrev pub head_format : String
head_format = "%s%-5s\u{1b}[0m \u{1b}[90m%s:%d:\u{1b}[0m "

module _ (firmware : Firmware) (formatted : String → List Argument → List ℕ) where
  -- `LOG_L`, with the console that the messages go to.
  pub record Log : Type 0 where
    pub log_lock : Spinlock
    pub level : ℕ
    pub quiet : Bool
    pub console : Console firmware

  pub printf : String → List Argument → Log → Run Log
  printf fmt arguments l = do
    c ← put_all firmware (formatted fmt arguments) l.console
    done (record l { console = c })

  -- With LOG_USE_COLOR.
  pub stdout_callback : LogEvent → Log → Run Log
  stdout_callback ev l = do
    color ← string_at level_colors ev.level
    name ← string_at level_strings ev.level
    l1 ←
        printf head_format
          (Argument.string color
            ∷ Argument.string name
            ∷ Argument.string ev.file
            ∷ Argument.number ev.line
            ∷ [])
          l
    l2 ← printf ev.fmt ev.ap l1
    printf "\n" [] l2

  -- `acquire` and `release`, with what their panic does.
  abbrev pub lock : (Log → Run Log) → Log → Run Log
  lock panics l =
      if holding l.log_lock == 0
      then done (record l { log_lock = (test_and_set l.log_lock).1 })
      else panics l

  abbrev pub unlock : (Log → Run Log) → Log → Run Log
  unlock panics l =
      if holding l.log_lock == 0 then panics l else done (record l { log_lock = clear l.log_lock })

  pub log_set_level : ℕ → Log → Log
  log_set_level level l = record l { level = level }

  pub log_set_quiet : Bool → Log → Log
  log_set_quiet enable l = record l { quiet = enable }

  pub log_init : Log → Log
  log_init l = record l { log_lock = init_lock }

  pub console_init : Log → Log
  unfolding log_init
  console_init l = log_init l

  abbrev pub is_shown : ℕ → Log → Bool
  is_shown level l = if l.quiet then false else leb l.level level

  -- `while (1)` behind the message of a panic.
  abbrev ends : Log → Run Log
  ends l = panic

  -- The panic of a lock is a message itself, and then a loop without end: the fuel is the number of
  -- messages inside one another.
  pub log_log :
      (fuel level : ℕ) (file : String) (line : ℕ) (fmt : String) (ap : List Argument)
      → Log
      → Run Log
  log_log zero level file line fmt ap l = out_of_fuel
  log_log (suc fuel) level file line fmt ap l = do
    let panics : ℕ → String → Log → Run Log = λ line' message l'.
        log_log fuel log_error_level "kernel/sync/lock.c" line' message [] l' >>= ends
    let ev : LogEvent = record { ap = ap; fmt = fmt; file = file; line = line; level = level }
    l1 ← lock (panics 16 "re-lock") l
    l2 ← if is_shown level l1 then stdout_callback ev l1 else done l1
    unlock (panics 27 "re-release") l2

  module _ (fuel : ℕ) (file : String) (line : ℕ) (fmt : String) (ap : List Argument) where
    abbrev pub log_trace : Log → Run Log
    log_trace = log_log fuel log_trace_level file line fmt ap

    abbrev pub log_debug : Log → Run Log
    log_debug = log_log fuel log_debug_level file line fmt ap

    abbrev pub log_info : Log → Run Log
    log_info = log_log fuel log_info_level file line fmt ap

    abbrev pub log_warn : Log → Run Log
    log_warn = log_log fuel log_warn_level file line fmt ap

    abbrev pub log_error : Log → Run Log
    log_error = log_log fuel log_error_level file line fmt ap

    abbrev pub log_fatal : Log → Run Log
    log_fatal = log_log fuel log_fatal_level file line fmt ap

  abbrev pub logo_text : String
  logo_text =
      "\n     _             ___  ____    _ \n ___| | ___   _   / _ \\/ ___|  | |\n/ __| |/ / | | | | | | \\___ \\  | |\n\\__ \\   <| |_| | | |_| |___) | |_|\n|___/_|\\_\\__,  |  \\___/|____/  (_)\n          |___/                   \n"

  pub logo : (fuel : ℕ) → Log → Run Log
  logo fuel l = log_info fuel "kernel/common/logo.c" 3 logo_text [] l

  pub ramdisk_init : (fuel ramdisk_base : ℕ) → Log → Run Log
  ramdisk_init fuel ramdisk_base l =
      log_info fuel "kernel/drivers/ramdisk.c" 14 "ramdisk addr: 0x%x"
        (Argument.number ramdisk_base ∷ []) l

  -- It reads `i` through a pointer to it.
  pub vms_test : (fuel k_pgtable : ℕ) → Log → Run Log
  vms_test fuel k_pgtable l = do
    l1 ←
        log_debug fuel "kernel/mm/vms.c" 100 "vms check kernel map: tmp = %lx, success"
          (Argument.number k_pgtable ∷ []) l
    l2 ←
        log_debug fuel "kernel/mm/vms.c" 101 "vms check kernel map: i = %d, success"
          (Argument.number 5 ∷ []) l1
    log_debug fuel "kernel/mm/vms.c" 102 "vms check done!" [] l2
