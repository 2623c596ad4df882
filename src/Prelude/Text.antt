-- ===== src/Prelude/Text.antt =====
-- Decimal text of a number, as an f-string prints it, and the left-to-right application that
-- writes a method's statements in the order of the source.
use Prim.Native.Nat.{ℕ, zero, suc, ◌/◌, ◌%◌}
use Prim.Native.String.{String, ◌++◌ as ◌<>◌}
use mathlib.Core.List.{List, [], ◌∷◌}
use fortigate_vpn_linux_gui.Prelude.Tests.{ltb, if◌then◌else◌}

abbrev text_at : List String → ℕ → String
text_at [] n = ""
text_at (d ∷ ds) zero = d
text_at (d ∷ ds) (suc n) = text_at ds n

abbrev digit : ℕ → String
digit = text_at ("0" ∷ "1" ∷ "2" ∷ "3" ∷ "4" ∷ "5" ∷ "6" ∷ "7" ∷ "8" ∷ "9" ∷ [])

decimal_fuel : ℕ → ℕ → String
decimal_fuel zero n = ""
decimal_fuel (suc f) n =
    let rest = decimal_fuel f (n / 10) in if ltb n 10 then digit n else rest <> digit (n % 10)

-- The quotient by ten falls below the fuel at each round, so `n + 1` rounds are enough.
unfoldable pub decimal : ℕ → String
unfolding decimal_fuel
decimal n = decimal_fuel (suc n) n

infixl 2 ◌▷◌
abbrev pub ◌▷◌ {ℓ κ} : {A : Type ℓ} {B : Type κ} → A → (A → B) → B
x ▷ f = f x
