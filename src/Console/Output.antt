-- ===== src/Console/Output.antt =====
-- Text through `_putchar` of kernel/drivers/console.c.
use sky_os.Base.{ℕ, ◌≡◌, refl, arith, List, [], ◌∷◌, ◌++◌, map, u8, sign_extend}
use mathlib.Core.List.{append_assoc, append-nil}
use sky_os.Base.Runs.{Run, done, ◌>>=◌}
use sky_os.Sbi.{SbiCall, Firmware, sbi_console_putchar, sbi_console_putchar_number}
use sky_os.Console.{Console, putchar}

-- One character after the other.
unfoldable pub put_all : (firmware : Firmware) → List ℕ → Console firmware → Run (Console firmware)
put_all firmware [] c = done c
put_all firmware (ch ∷ text) c = putchar firmware ch c >>= put_all firmware text

-- A firmware that keeps the calls in their order.
abbrev pub recorder : Firmware
recorder = record { State = List SbiCall; ecall = λ call calls. (0, calls ++ call ∷ []) }

-- The call for a character.
abbrev pub output_call : ℕ → SbiCall
output_call ch = record {
  which = sbi_console_putchar_number;
  arg0 = u8 ch;
  arg1 = 0;
  arg2 = 0;
  arg3 = 0;
}

-- With the lock released, a text goes to the firmware as one call for each character, in their
-- order, and the lock is released again.
pub put_all-putchar :
    (text : List ℕ) (calls : List SbiCall)
    → put_all recorder text (record { console_lock = 0; firmware_state = calls })
      ≡ done (record { console_lock = 0; firmware_state = calls ++ map output_call text })
unfolding put_all putchar sbi_console_putchar
put_all-putchar [] calls = rw (append-nil calls) refl
put_all-putchar (ch ∷ text) calls =
    let e : sign_extend (u8 ch) ≡ u8 ch = ground arith in
    rw
      (
        e,
        put_all-putchar text (calls ++ output_call ch ∷ []),
        append_assoc calls (output_call ch ∷ []) (map output_call text),
      )
      refl
