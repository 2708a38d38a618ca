-- ===== src/ListHead/Member.antt =====
-- `to_struct` of kernel/include/list.h.
use sky_os.Base.{ℕ, ◌+◌, ◌^◌, ◌<◌, ◌≡◌, arith}
use sky_os.ListHead.{to_struct}

-- The structure around a member is found again from the address of the member.
to_struct-member : (a offset : ℕ) → a + offset < 2 ^ 64 → to_struct (a + offset) offset ≡ a
unfolding to_struct
to_struct-member a offset fits = omega arith
