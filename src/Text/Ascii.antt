-- ===== src/Text/Ascii.antt =====
-- The character classes of <cctype> in the C locale that src/main/c uses.
use seasocks.Prelude.{ℕ, ◌+◌, Bool, ◌&&◌, ◌||◌, leb, ◌==◌, if◌then◌else◌}

abbrev pub is_space : ℕ → Bool
is_space b = b == 32 || (leb 9 b && leb b 13)

abbrev pub is_upper : ℕ → Bool
is_upper b = leb b'A' b && leb b b'Z'

abbrev pub to_lower : ℕ → ℕ
to_lower b = if is_upper b then b + 32 else b

abbrev pub is_digit : ℕ → Bool
is_digit b = leb b'0' b && leb b b'9'

abbrev pub is_xdigit : ℕ → Bool
is_xdigit b = is_digit b || (leb b'a' b && leb b b'f') || (leb b'A' b && leb b b'F')
