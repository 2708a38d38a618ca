-- ===== src/Base/Memory.antt =====
-- A memory of cells of one kind, indexed by address or by array index.
use Prim.Native.Nat.{ℕ}
use sky_os.Base.Tests.{◌==◌, if◌then◌else◌}

-- The memory after the store of `v` at `a`.
abbrev pub write {ℓ} : {V : Type ℓ} → (ℕ → V) → ℕ → V → ℕ → V
write m a v x = if x == a then v else m x
