-- ===== src/Base/Words.antt =====
-- Machine words: a `uint` or `uint32` is a number below 2 ^ 32, a `uint64` one below 2 ^ 64. The
-- operations keep the wrap-around of C.
use Prim.Native.Nat.{ℕ, ◌+◌, ◌-◌, ◌/◌, ◌%◌, ◌^◌}
use sky_os.Base.Tests.{ltb, if◌then◌else◌}

abbrev pub u8 : ℕ → ℕ
u8 x = x % 256

abbrev pub u16 : ℕ → ℕ
u16 x = x % 2 ^ 16

abbrev pub u32 : ℕ → ℕ
u32 x = x % 2 ^ 32

abbrev pub u64 : ℕ → ℕ
u64 x = x % 2 ^ 64

-- `x--` on a 32-bit and on a 64-bit word.
abbrev pub dec32 : ℕ → ℕ
dec32 x = (x + 2 ^ 32 - 1) % 2 ^ 32

abbrev pub dec64 : ℕ → ℕ
dec64 x = (x + 2 ^ 64 - 1) % 2 ^ 64

-- x >> k
abbrev pub shr : ℕ → ℕ → ℕ
shr x k = x / 2 ^ k

-- A 32-bit `int` read as a `uint64`: the sign bit is copied upwards.
abbrev pub sign_extend : ℕ → ℕ
sign_extend x = let w = x % 2 ^ 32 in if ltb w (2 ^ 31) then w else w + (2 ^ 64 - 2 ^ 32)
