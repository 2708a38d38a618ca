-- ===== src/Sbi.antt =====
-- kernel/include/sbi.h: the calls of the firmware. What the firmware does on an `ecall` is a
-- parameter: it takes the registers of the call and gives back `a0`.
use sky_os.Base.{ℕ, u32, sign_extend}

-- The registers of an `ecall`: a7 and a0 to a3.
pub record SbiCall : Type 0 where
  pub which : ℕ
  pub arg0 : ℕ
  pub arg1 : ℕ
  pub arg2 : ℕ
  pub arg3 : ℕ

pub record Firmware : Type 1 where
  pub State : Type 0
  pub ecall : SbiCall → State → ℕ × State

abbrev pub sbi_set_timer_number : ℕ
sbi_set_timer_number = 0

abbrev pub sbi_console_putchar_number : ℕ
sbi_console_putchar_number = 1

abbrev pub sbi_console_getchar_number : ℕ
sbi_console_getchar_number = 2

abbrev pub sbi_clear_ipi_number : ℕ
sbi_clear_ipi_number = 3

abbrev pub sbi_send_ipi_number : ℕ
sbi_send_ipi_number = 4

abbrev pub sbi_remote_fence_i_number : ℕ
sbi_remote_fence_i_number = 5

abbrev pub sbi_remote_sfence_vma_number : ℕ
sbi_remote_sfence_vma_number = 6

abbrev pub sbi_remote_sfence_vma_asid_number : ℕ
sbi_remote_sfence_vma_asid_number = 7

abbrev pub sbi_shutdown_number : ℕ
sbi_shutdown_number = 8

module _ (firmware : Firmware) where
  open firmware use {State, ecall}

  abbrev pub sbi_call : (which arg0 arg1 arg2 arg3 : ℕ) → State → ℕ × State
  sbi_call which arg0 arg1 arg2 arg3 s =
      ecall (record { which = which; arg0 = arg0; arg1 = arg1; arg2 = arg2; arg3 = arg3 }) s

  abbrev pub sbi_call_0 : ℕ → State → ℕ × State
  sbi_call_0 which s = sbi_call which 0 0 0 0 s

  abbrev pub sbi_call_1 : (which arg0 : ℕ) → State → ℕ × State
  sbi_call_1 which arg0 s = sbi_call which arg0 0 0 0 s

  abbrev pub sbi_call_2 : (which arg0 arg1 : ℕ) → State → ℕ × State
  sbi_call_2 which arg0 arg1 s = sbi_call which arg0 arg1 0 0 s

  abbrev pub sbi_call_3 : (which arg0 arg1 arg2 : ℕ) → State → ℕ × State
  sbi_call_3 which arg0 arg1 arg2 s = sbi_call which arg0 arg1 arg2 0 s

  abbrev pub sbi_call_4 : (which arg0 arg1 arg2 arg3 : ℕ) → State → ℕ × State
  sbi_call_4 which arg0 arg1 arg2 arg3 s = sbi_call which arg0 arg1 arg2 arg3 s

  unfoldable pub sbi_console_putchar : ℕ → State → State
  sbi_console_putchar ch s = (sbi_call_1 sbi_console_putchar_number (sign_extend ch) s).1

  unfoldable pub sbi_console_getchar : State → ℕ × State
  sbi_console_getchar s = let (a0, s') = sbi_call_0 sbi_console_getchar_number s in (u32 a0, s')

  unfoldable pub sbi_set_timer : ℕ → State → State
  sbi_set_timer stime_value s = (sbi_call_1 sbi_set_timer_number stime_value s).1

  unfoldable pub sbi_shutdown : State → State
  sbi_shutdown s = (sbi_call_0 sbi_shutdown_number s).1

  unfoldable pub sbi_clear_ipi : State → State
  sbi_clear_ipi s = (sbi_call_0 sbi_clear_ipi_number s).1

  unfoldable pub sbi_send_ipi : ℕ → State → State
  sbi_send_ipi hart_mask s = (sbi_call_1 sbi_send_ipi_number hart_mask s).1

  unfoldable pub sbi_remote_fence_i : ℕ → State → State
  sbi_remote_fence_i hart_mask s = (sbi_call_1 sbi_remote_fence_i_number hart_mask s).1

  unfoldable pub sbi_remote_sfence_vma : (hart_mask start size : ℕ) → State → State
  sbi_remote_sfence_vma hart_mask start size s =
      (sbi_call_3 sbi_remote_sfence_vma_number hart_mask start size s).1

  unfoldable pub sbi_remote_sfence_vma_asid : (hart_mask start size asid : ℕ) → State → State
  sbi_remote_sfence_vma_asid hart_mask start size asid s =
      (sbi_call_4 sbi_remote_sfence_vma_asid_number hart_mask start size asid s).1

  -- `mv a6` before the call is not seen by it.
  unfoldable pub sbi_set_extern_interrupt : ℕ → State → State
  sbi_set_extern_interrupt func_pointer s = (sbi_call_1 0x0A000004 func_pointer s).1

  unfoldable pub sbi_set_mie : State → State
  sbi_set_mie s = (sbi_call_0 0x0A000005 s).1
