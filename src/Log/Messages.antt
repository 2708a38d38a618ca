-- ===== src/Log/Messages.antt =====
-- What kernel/common/log.c writes, on a firmware that keeps its calls.
use Prim.Native.String.{String}
use sky_os.Base.{
  ℕ, zero, suc, ◌≡◌, ◌≢◌, refl, arith, ◌==◌, Bool, false, if◌then◌else◌, List, [], ◌∷◌, ◌++◌,
  Bool-cases, leb, true, false, inl, inr, map, ◌<◌, All,
}
use mathlib.Core.List.{append_assoc, append-nil, map-append}
use sky_os.Base.Runs.{Run, done, out_of_fuel, result, ◌>>=◌}
use sky_os.Sbi.{SbiCall, Firmware}
use sky_os.Console.Output.{recorder, output_call, put_all-putchar}
use sky_os.Log.{
  Argument, LogEvent, level_strings, level_colors, string_at, head_format, Log, printf,
  stdout_callback, log_log,
}

module _ (formatted : String → List Argument → List ℕ) where
  -- The characters of a message.
  abbrev pub message : LogEvent → List ℕ
  message ev =
      formatted head_format (
        Argument.string (result "" (string_at level_colors ev.level))
        ∷ Argument.string (result "" (string_at level_strings ev.level))
        ∷ Argument.string ev.file
        ∷ Argument.number ev.line
        ∷ [])
      ++ formatted ev.fmt ev.ap
      ++ formatted "\n" []

  -- The log with its locks released, after some calls of the firmware.
  abbrev pub idle_log : (threshold : ℕ) (quiet : Bool) → List SbiCall → Log recorder formatted
  idle_log threshold quiet calls = record {
    log_lock = 0;
    level = threshold;
    quiet = quiet;
    console = record { console_lock = 0; firmware_state = calls };
  }

  -- The messages of a list, one after the other.
  abbrev pub log_all : List LogEvent → Log recorder formatted → Run (Log recorder formatted)
  log_all [] l = done l
  log_all (ev ∷ evs) l =
      log_log recorder formatted 1 ev.level ev.file ev.line ev.fmt ev.ap l >>= log_all evs

  -- Whether a message is to be shown.
  abbrev pub wanted : (threshold : ℕ) (quiet : Bool) → LogEvent → Bool
  wanted threshold true ev = false
  wanted threshold false ev = leb threshold ev.level

  -- The characters of those that are.
  abbrev pub shown_text : (threshold : ℕ) (quiet : Bool) → List LogEvent → List ℕ
  shown_text threshold quiet [] = []
  shown_text threshold quiet (ev ∷ evs) =
      let rest = shown_text threshold quiet evs in
      if wanted threshold quiet ev then message ev ++ rest else rest

  string_at-result :
      (i : ℕ)
      → i < 6
      → (string_at level_colors i ≡ done (result "" (string_at level_colors i)))
        × (string_at level_strings i ≡ done (result "" (string_at level_strings i)))
  string_at-result zero h = (refl, refl)
  string_at-result (suc zero) h = (refl, refl)
  string_at-result (suc (suc zero)) h = (refl, refl)
  string_at-result (suc (suc (suc zero))) h = (refl, refl)
  string_at-result (suc (suc (suc (suc zero)))) h = (refl, refl)
  string_at-result (suc (suc (suc (suc (suc zero))))) h = (refl, refl)
  string_at-result (suc (suc (suc (suc (suc (suc i)))))) h = absurd (omega arith)

  -- A format goes to the console in its order.
  printf_lem :
      (fmt : String) (args : List Argument) (l : Log recorder formatted)
      → l.console.console_lock ≡ 0
      → printf recorder formatted fmt args l
        ≡ done (record l {
          console = record {
            console_lock = 0;
            firmware_state = l.console.firmware_state ++ map output_call (formatted fmt args);
          };
        })
  unfolding printf
  printf_lem fmt args l free = rw free (rw (put_all-putchar (formatted fmt args)) refl)

  stdout_callback-message :
      (ev : LogEvent) (l : Log recorder formatted)
      → ev.level < 6
      → l.console.console_lock ≡ 0
      → stdout_callback recorder formatted ev l
        ≡ done (record l {
          console = record {
            console_lock = 0;
            firmware_state = l.console.firmware_state ++ map output_call (message ev);
          };
        })
  unfolding stdout_callback
  stdout_callback-message ev l small free =
      let (color, name) = string_at-result ev.level small in
      rw (color, name, printf_lem) (simp (printf_lem, map-append, append_assoc))

  log_log-shown :
      (fuel : ℕ) (ev : LogEvent) (threshold : ℕ) (quiet : Bool) (calls : List SbiCall)
      → ev.level < 6
      → log_log recorder formatted
          (suc fuel)
          ev.level
          ev.file
          ev.line
          ev.fmt
          ev.ap
          (idle_log threshold quiet calls)
        ≡ done (
            idle_log threshold quiet
              (if wanted threshold quiet ev then calls ++ map output_call (message ev) else calls))
  unfolding log_log stdout_callback
  log_log-shown fuel ev threshold true calls small = refl
  log_log-shown fuel ev threshold false calls small = elim (Bool-cases (leb threshold ev.level)) [
    | inl shown ↦ rw shown (
        rw
          (stdout_callback-message ev (record (idle_log threshold false calls) { log_lock = 1 })
            small refl)
          refl)
    | inr hidden ↦ rw hidden refl
  ]

  -- From a log with its locks released, messages of the six levels, each with fuel for itself
  -- only, end with the locks released, and the firmware gets one call for each character of those
  -- that are not below the threshold, unless the log is quiet, in their order and nothing in
  -- between.
  pub log_all-shown_text :
      (evs : List LogEvent) (threshold : ℕ) (quiet : Bool) (calls : List SbiCall)
      → All (λ ev. ev.level < 6) evs
      → log_all evs (idle_log threshold quiet calls)
        ≡ done
            (idle_log threshold quiet (calls ++ map output_call (shown_text threshold quiet evs)))
  log_all-shown_text [] threshold quiet calls small = rw (append-nil calls) refl
  log_all-shown_text (ev ∷ evs) threshold quiet calls (s, small) =
      elim (Bool-cases (wanted threshold quiet ev)) [
        | inl shown ↦
            rw
              (
                log_log-shown 0 ev threshold quiet calls s,
                shown,
                log_all-shown_text evs threshold quiet (calls ++ map output_call (message ev))
                    small,
              )
              (simp (map-append, append_assoc))
        | inr hidden ↦
            rw
              (
                log_log-shown 0 ev threshold quiet calls s,
                hidden,
                log_all-shown_text evs threshold quiet calls small,
              )
              refl
      ]

-- A message while the lock of the log is held, as from an interrupt inside of a message: whatever
-- its level is, it panics, whose message panics again, and no number of messages inside one
-- another is enough.
pub log_log-held :
    (firmware : Firmware) (formatted : String → List Argument → List ℕ) (fuel level : ℕ)
    (file : String) (line : ℕ) (fmt : String) (ap : List Argument) (l : Log firmware formatted)
    → l.log_lock ≢ 0
    → log_log firmware formatted fuel level file line fmt ap l ≡ out_of_fuel
unfolding log_log
log_log-held firmware formatted zero level file line fmt ap l held = refl
log_log-held firmware formatted (suc fuel) level file line fmt ap l held =
    let taken : (l.log_lock == 0) ≡ false = ground arith in
    rw (taken, log_log-held firmware formatted fuel 4 "kernel/sync/lock.c" 16 "re-lock" [] l held)
      refl
