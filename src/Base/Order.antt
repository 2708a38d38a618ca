-- ===== src/Base/Order.antt =====
-- Recursion on a number that falls.
use Prim.Native.Nat.{ℕ, zero, suc, ◌<◌}
use native.Mathlib.Omega.{arith}
use mathlib.Core.WellFounded.{Acc, WellFounded}

Acc-lt : (bound n : ℕ) → n < bound → Acc ◌<◌ n
Acc-lt zero n h = elim h [ ]
Acc-lt (suc bound) n h = Acc.intro n (λ m below. Acc-lt bound m (omega arith))

unfoldable pub lt_wf : WellFounded ◌<◌
unfolding Acc-lt
lt_wf = record { apply = λ n. Acc-lt (suc n) n (omega arith) }
