-- ===== src/Text/Decimal.antt =====
-- str(n)
use jobbot.Prelude.{ℕ, zero, suc, ◌+◌, ◌/◌, ◌%◌, [], ◌∷◌, ◌++◌, ltb, if◌then◌else◌}
use jobbot.Text.{Text}

-- The decimal digits of a number; the number itself is fuel enough, as each round divides by ten.
abbrev digits : (fuel n : ℕ) → Text
digits zero n = []
digits (suc fuel) n =
    let before = digits fuel (n / 10) in
    if ltb n 10 then (48 + n) ∷ [] else before ++ (48 + n % 10) ∷ []

unfoldable pub str : ℕ → Text
str n = digits (suc n) n
