-- ===== src/Prelude/Int.antt =====
-- Python's ints: `negsuc n` is -(n + 1).
use fortigate_vpn_linux_gui.Prelude.Tests.{◌==◌}
use fortigate_vpn_linux_gui.Prelude.Text.{decimal}
use Prim.Native.Nat.{ℕ, suc}
use Prim.Native.String.{String, ◌++◌ as ◌<>◌}
use mathlib.Core.Bool.{Bool, false}

pub data ℤ : Type 0 where
  pos : ℕ → ℤ
  negsuc : ℕ → ℤ

abbrev pub is_zero : ℤ → Bool
is_zero (pos n) = n == 0
is_zero (negsuc n) = false

unfoldable pub decimal_ℤ : ℤ → String
unfolding decimal
decimal_ℤ (pos n) = decimal n
decimal_ℤ (negsuc n) = "-" <> decimal (suc n)
