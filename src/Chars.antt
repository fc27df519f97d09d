-- ===== src/Chars.antt =====
-- The character tests and conversions of `<cctype>` that the generator calls, in the "C" locale.
use proteus_java.Common.{ℕ, ◌+◌, ◌-◌, Bool, ◌&&◌, leb, if◌then◌else◌}

unfoldable pub is_upper : ℕ → Bool
is_upper c = leb b'A' c && leb c b'Z'

unfoldable pub is_lower : ℕ → Bool
is_lower c = leb b'a' c && leb c b'z'

unfoldable pub to_lower : ℕ → ℕ
unfolding is_upper
to_lower c = if is_upper c then c + 32 else c

unfoldable pub to_upper : ℕ → ℕ
unfolding is_lower
to_upper c = if is_lower c then c - 32 else c
