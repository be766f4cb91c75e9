-- ===== src/Requests/Partial.antt =====
-- src/main/c/Connection.cpp: `parseRange` and `parseRanges`. A `long` has 64 bits.
pub mod RoundTrip
mod Tests
use seasocks.Prelude.{
  ℕ, zero, suc, ◌-◌, ◌^◌, not, List, [], ◌∷◌, Option, none, some, length, take, drop, ◌==◌,
  if◌then◌else◌, Bytes, codes,
}
use seasocks.Prelude.Int.{ℤ, pos}
use seasocks.Text.Numbers.{stoi}
use seasocks.Text.Strings.{find_char, split, starts_with}
use seasocks.Connection.Ranges.{Range}

-- The result, or an exception of `std::stoi`.
pub data Ranging (A : Type 0) : Type 0 where
  ranging : A → Ranging A
  bad_range thrown : Ranging A

infixl 5 ◌>>=◌
abbrev pub ◌>>=◌ : {A B : Type 0} → Ranging A → (A → Ranging B) → Ranging B
ranging a >>= f = f a
bad_range >>= f = bad_range
thrown >>= f = thrown

abbrev pub number : Bytes → Ranging ℤ
number text = elim (stoi text) [ none ↦ thrown | some n ↦ ranging n ]

abbrev pub long_max : ℤ
long_max = pos (2 ^ 63 - 1)

-- From the text and the place of the minus.
unfoldable pub parse_range_at : Bytes → Option ℕ → Ranging Range
parse_range_at text none = bad_range
parse_range_at text (some zero) = do
  start ← number text
  ranging (record { start = start; end = long_max })
parse_range_at text (some (suc n)) = do
  start ← number (take (suc n) text)
  end ← if suc n == length text - 1 then ranging long_max else number (drop (suc (suc n)) text)
  ranging (record { start = start; end = end })

unfoldable pub parse_range : Bytes → Ranging Range
unfolding parse_range_at find_char
parse_range text = parse_range_at text (find_char b'-' text)

unfoldable pub parse_all : List Bytes → Ranging (List Range)
unfolding parse_range
parse_all [] = ranging []
parse_all (text ∷ texts) = do r ← parse_range text; rs ← parse_all texts; ranging (r ∷ rs)

abbrev pub some_ranges : List Range → Ranging (List Range)
some_ranges [] = bad_range
some_ranges (r ∷ rs) = ranging (r ∷ rs)

abbrev pub bytes_prefix : Bytes
bytes_prefix = codes "bytes="

unfoldable pub parse_ranges : Bytes → Ranging (List Range)
unfolding parse_all split starts_with
parse_ranges range =
    if not (starts_with range bytes_prefix)
    then bad_range
    else parse_all (split (drop (length bytes_prefix) range) b',') >>= some_ranges
