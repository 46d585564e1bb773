-- ===== src/Prelude/Int.antt =====
-- Python's integers where a check looks at the sign, under the library's names: `negsuc n` is -(n + 1).
use Prim.Native.Nat.{ℕ}
use mathlib.Core.Option.{Option, none, some}
use shiroe.Prelude.Tests.{ltb, if◌then◌else◌}

pub data ℤ : Type 0 where
  pos : ℕ → ℤ
  negsuc : ℕ → ℤ

-- the integer, unless it is below the bound
unfoldable pub at_least : ℕ → ℤ → Option ℕ
at_least bound (pos n) = if ltb n bound then none else some n
at_least bound (negsuc n) = none
