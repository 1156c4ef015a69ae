-- ===== src/Text/Upper.antt =====
-- s.upper() on ASCII.
use jobbot.Prelude.{ℕ, ◌-◌, ◌&&◌, map, leb, if◌then◌else◌}
use jobbot.Text.{Text}

abbrev pub upper_code : ℕ → ℕ
upper_code c = if leb b'a' c && leb c b'z' then c - 32 else c

unfoldable pub upper : Text → Text
upper s = map upper_code s
