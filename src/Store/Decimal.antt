-- ===== src/Store/Decimal.antt =====
-- The decimal form of an unsigned number, which keys and the tip's height are written in.
use vision_core.Prelude.{ℕ, zero, suc, ◌+◌, ◌/◌, ◌%◌, true, false, [], ◌∷◌, ◌++◌, ltb}
use vision_core.Prelude.Text.{Text}

-- The digits, the last one on its own; the fuel is a bound on their number.
unfoldable pub digits : ℕ → ℕ → Text
digits zero n = (b'0' + n % 10) ∷ []
digits (suc fuel) n = elim (ltb n 10) [
  | true ↦ (b'0' + n) ∷ []
  | false ↦ digits fuel (n / 10) ++ (b'0' + n % 10) ∷ []
]

unfoldable pub decimal : ℕ → Text
unfolding digits
decimal n = digits n n
