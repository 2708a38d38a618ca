-- ===== src/Isa.antt =====
-- kernel/arch/isa.c with kernel/include/isa.h, and `struct context` of kernel/include/sched.h: the
-- registers. The inline assembly of a function reads or writes one control register; a write stores
-- the value as it is. The machine has besides them the timer of the firmware and the context on the
-- stack from which the return from a trap loads the registers.
pub mod Flags
use sky_os.Base.{ℕ, ◌+◌, ◌-◌, ◌*◌, ◌/◌, ◌%◌, ◌^◌, Bool, ◌==◌, if◌then◌else◌, shr}

-- `struct context`: the registers of a process.
pub record Context : Type 0 where
  pub ra : ℕ
  pub sp : ℕ
  pub gp : ℕ
  pub tp : ℕ
  pub t0 : ℕ
  pub t1 : ℕ
  pub t2 : ℕ
  pub s0 : ℕ
  pub s1 : ℕ
  pub a0 : ℕ
  pub a1 : ℕ
  pub a2 : ℕ
  pub a3 : ℕ
  pub a4 : ℕ
  pub a5 : ℕ
  pub a6 : ℕ
  pub a7 : ℕ
  pub s2 : ℕ
  pub s3 : ℕ
  pub s4 : ℕ
  pub s5 : ℕ
  pub s6 : ℕ
  pub s7 : ℕ
  pub s8 : ℕ
  pub s9 : ℕ
  pub s10 : ℕ
  pub s11 : ℕ
  pub t3 : ℕ
  pub t4 : ℕ
  pub t5 : ℕ
  pub t6 : ℕ
  pub sepc : ℕ

-- The control registers, the timer and the stack of `sscratch`.
pub record Machine : Type 0 where
  pub sie : ℕ
  pub sip : ℕ
  pub sstatus : ℕ
  pub stvec : ℕ
  pub scause : ℕ
  pub sepc : ℕ
  pub sscratch : ℕ
  pub stval : ℕ
  pub time : ℕ
  pub satp : ℕ
  pub timer : ℕ
  pub sscratch_stack : Context

abbrev pub sie_get : Machine → ℕ
sie_get m = m.sie

abbrev pub sie_set : ℕ → Machine → Machine
sie_set v m = record m { sie = v }

abbrev pub sip_get : Machine → ℕ
sip_get m = m.sip

abbrev pub sip_set : ℕ → Machine → Machine
sip_set v m = record m { sip = v }

abbrev pub sstatus_get : Machine → ℕ
sstatus_get m = m.sstatus

abbrev pub sstatus_set : ℕ → Machine → Machine
sstatus_set v m = record m { sstatus = v }

abbrev pub stvec_get : Machine → ℕ
stvec_get m = m.stvec

abbrev pub stvec_set : ℕ → Machine → Machine
stvec_set v m = record m { stvec = v }

abbrev pub scause_get : Machine → ℕ
scause_get m = m.scause

abbrev pub sepc_get : Machine → ℕ
sepc_get m = m.sepc

abbrev pub sepc_set : ℕ → Machine → Machine
sepc_set v m = record m { sepc = v }

abbrev pub sscratch_set : ℕ → Machine → Machine
sscratch_set v m = record m { sscratch = v }

abbrev pub sscratch_get : Machine → ℕ
sscratch_get m = m.sscratch

abbrev pub stval_get : Machine → ℕ
stval_get m = m.stval

abbrev pub mtime_get : Machine → ℕ
mtime_get m = m.time

abbrev pub satp_get : Machine → ℕ
satp_get m = m.satp

abbrev pub satp_set : ℕ → Machine → Machine
satp_set v m = record m { satp = v }

-- The positions of the bits of `sie` and `sstatus`.
abbrev pub sie_seie : ℕ
sie_seie = 9

abbrev pub sie_stie : ℕ
sie_stie = 5

abbrev pub sie_ssie : ℕ
sie_ssie = 1

-- Those of `sip`; SIP_SSIP is SIE_STIE in the source.
abbrev pub sip_seip : ℕ
sip_seip = sie_seie

abbrev pub sip_stip : ℕ
sip_stip = sie_stie

abbrev pub sip_ssip : ℕ
sip_ssip = sie_stie

abbrev pub sstatus_sie : ℕ
sstatus_sie = 1

abbrev pub sstatus_spp : ℕ
sstatus_spp = 8

abbrev pub sstatus_sum : ℕ
sstatus_sum = 18

-- The bit at a position, `v | (1 << bit)` and `v & ~(1 << bit)`.
abbrev pub flag : (bit v : ℕ) → ℕ
flag bit v = shr v bit % 2

unfoldable pub set_flag : (bit v : ℕ) → ℕ
set_flag bit v = if flag bit v == 0 then v + 2 ^ bit else v

unfoldable pub clear_flag : (bit v : ℕ) → ℕ
clear_flag bit v = if flag bit v == 0 then v else v - 2 ^ bit

-- The translation of the model has no cache.
abbrev pub flush_tlb : Machine → Machine
flush_tlb m = m

unfoldable pub intr_off : Machine → Machine
intr_off m = sstatus_set (clear_flag sstatus_sie (sstatus_get m)) m

unfoldable pub intr_on : Machine → Machine
intr_on m = sstatus_set (set_flag sstatus_sie (sstatus_get m)) m

-- `sbi_set_timer` of kernel/include/sbi.h: the firmware takes the time of the next timer interrupt.
abbrev pub sbi_set_timer : ℕ → Machine → Machine
sbi_set_timer stime_value m = record m { timer = stime_value }
