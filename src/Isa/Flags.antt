-- ===== src/Isa/Flags.antt =====
-- The bits of a control register of kernel/arch/isa.c.
use sky_os.Base.{ℕ, ◌≡◌, ◌≢◌, ◌⊎◌, inl, inr, arith}
use sky_os.Isa.{flag, set_flag, clear_flag, sstatus_sie, sstatus_spp, sstatus_sum}

-- The six bits that the kernel uses are low ones.
abbrev pub IsFlag : ℕ → Type 0
IsFlag bit = (bit ≡ sstatus_sie) ⊎ ((bit ≡ sstatus_spp) ⊎ (bit ≡ sstatus_sum))

-- Clearing a flag of `sstatus` and setting it again clears and sets this bit and leaves the other
-- two.
pub clear_flag-set_flag :
    (bit v : ℕ)
    → IsFlag bit
    → (flag bit (set_flag bit v) ≡ 1)
      × (flag bit (clear_flag bit v) ≡ 0)
      × ((other : ℕ)
          → IsFlag other
          → other ≢ bit
          → (flag other (set_flag bit v) ≡ flag other v)
            × (flag other (clear_flag bit v) ≡ flag other v))
unfolding set_flag clear_flag
clear_flag-set_flag bit v (inl e) =
    (rw e (ground arith), rw e (ground arith), λ other f ne. rw e (ground (arith, f)))
clear_flag-set_flag bit v (inr (inl e)) =
    (rw e (ground arith), rw e (ground arith), λ other f ne. rw e (ground (arith, f)))
clear_flag-set_flag bit v (inr (inr e)) =
    (rw e (ground arith), rw e (ground arith), λ other f ne. rw e (ground (arith, f)))
