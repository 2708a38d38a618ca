-- ===== src/Vms/Macros.antt =====
-- The rounding of addresses and the parts of a page number in kernel/include/vms.h.
use sky_os.Base.{ℕ, ◌+◌, ◌-◌, ◌*◌, ◌%◌, ◌^◌, ◌≤◌, ◌<◌, ◌≡◌, arith}
use sky_os.Vms.{pgsize, pte2ppn, pground_up, pground_down, pte2ppn0, pte2ppn1, pte2ppn2}

-- Below the last page, PGROUNDUP is the least start of a page that is not below an address,
-- PGROUNDDOWN the greatest that is not above it, and the one comes from the other.
pub pground_up-pground_down :
    (a : ℕ)
    → a + pgsize ≤ 2 ^ 64
    → (pground_up a % pgsize ≡ 0)
      × (a ≤ pground_up a)
      × (pground_up a < a + pgsize)
      × (pground_down a % pgsize ≡ 0)
      × (pground_down a ≤ a)
      × (a < pground_down a + pgsize)
      × (pground_up a ≡ pground_down (a + (pgsize - 1)))
unfolding pground_up pground_down
pground_up-pground_down a fits =
    (omega arith, omega arith, omega arith, omega arith, omega arith, omega arith, omega arith)

-- The pieces 0 and 2 of a page number overlap the piece 1: piece 2 starts at bit 9 of the page
-- number, with the nine bits of piece 1.
pub pte2ppn2_lem :
    (e : ℕ)
    → (pte2ppn e % 2 ^ 35 ≡ pte2ppn0 e + 2 ^ 9 * pte2ppn2 e) × (pte2ppn1 e ≡ pte2ppn2 e % 2 ^ 9)
unfolding pte2ppn0 pte2ppn1 pte2ppn2
pte2ppn2_lem e = (omega arith, omega arith)
