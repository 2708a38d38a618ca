-- ===== src/Log/Examples.antt =====
-- Runs of kernel/common/log.c, with a printf that writes the numbers among its arguments.
use Prim.Native.String.{String}
use sky_os.Base.{ℕ, ◌≡◌, refl, arith, true, false, List, [], ◌∷◌, map}
use sky_os.Base.Runs.{done, out_of_fuel, ◌>>=◌}
use sky_os.Sbi.{sbi_console_putchar}
use sky_os.Console.{putchar}
use sky_os.Console.Output.{recorder, output_call, put_all}
use sky_os.Log.{
  Argument, LogEvent, Log, printf, stdout_callback, log_level_string, log_set_level, log_set_quiet,
  log_log, console_init, vms_test, logo, ramdisk_init,
}
use sky_os.Log.Messages.{idle_log, log_all, log_all-shown_text, log_log-held}

abbrev numbers : String → List Argument → List ℕ
numbers fmt [] = []
numbers fmt (Argument.string s ∷ args) = numbers fmt args
numbers fmt (Argument.number n ∷ args) = n ∷ numbers fmt args

-- A warning and a message for the developers, behind `log_set_level(LOG_INFO)`.
abbrev two_messages : List LogEvent
two_messages =
    record { ap = Argument.number 7 ∷ []; fmt = "a0: %d"; file = "trap.c"; line = 40; level = 3 }
    ∷ record {
      ap = Argument.number 9 ∷ [];
      fmt = "pid: %d";
      file = "sched.c";
      line = 50;
      level = 1;
    }
    ∷ []

log_all-shown_text_example :
    log_all numbers two_messages (idle_log numbers 2 false [])
    ≡ done (idle_log numbers 2 false (output_call 40 ∷ output_call 7 ∷ []))
log_all-shown_text_example =
    log_all-shown_text numbers two_messages 2 false [] (omega arith, (omega arith, tt))

abbrev held_log : Log recorder numbers
held_log = record (idle_log numbers 0 true []) { log_lock = 1 }

log_log-held_example : log_log recorder numbers 1000 1 "trap.c" 40 "timer" [] held_log ≡ out_of_fuel
log_log-held_example =
    log_log-held recorder numbers 1000 1 "trap.c" 40 "timer" [] held_log (omega arith)

-- The first lines of `main`: the level, the logo and the address of the disk.
start_messages :
    (logo recorder numbers 1 (log_set_level recorder numbers 2 (idle_log numbers 0 false []))
      >>= vms_test recorder numbers 1 0
      >>= ramdisk_init recorder numbers 1 128)
    ≡ done (idle_log numbers 2 false (map output_call (3 ∷ 14 ∷ 128 ∷ [])))
unfolding log_set_level log_log logo vms_test ramdisk_init stdout_callback printf put_all putchar
    sbi_console_putchar
start_messages = refl

quiet_messages :
    logo recorder numbers 1
      (log_set_quiet recorder numbers true (console_init recorder numbers held_log))
    ≡ done (idle_log numbers 0 true [])
unfolding log_set_quiet console_init log_log logo
quiet_messages = refl

level_names : (log_level_string 4 ≡ done "ERROR")
unfolding log_level_string
level_names = refl
