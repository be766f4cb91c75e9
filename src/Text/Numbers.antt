-- ===== src/Text/Numbers.antt =====
-- What the sources use of `std::stoi`, which is the standard library's: white space, a sign and decimal digits, and an exception
-- for a text without digits or a number that is no `int`.
pub mod Printed
use seasocks.Prelude.{
  ℕ, ◌+◌, ◌-◌, ◌*◌, ◌^◌, Bool, true, false, [], ◌∷◌, Option, none, some, ltb, leb, ◌==◌,
  if◌then◌else◌, Bytes,
}
use seasocks.Prelude.Int.{ℤ, pos, negsuc}
use seasocks.Text.Ascii.{is_digit}
use seasocks.Text.Words.{skip_whitespace}

unfoldable pub digits_of : Bytes → Bytes
digits_of [] = []
digits_of (b ∷ bs) = let rest = digits_of bs in if is_digit b then b ∷ rest else []

unfoldable pub decimal : ℕ → Bytes → ℕ
decimal acc [] = acc
decimal acc (b ∷ bs) = decimal (acc * 10 + (b - b'0')) bs

-- The value of an `int` of 32 bits; `none` is an exception.
unfoldable pub signed : Bool → Bytes → Option ℤ
unfolding decimal
signed negative [] = none
signed false (d ∷ ds) = let n = decimal 0 (d ∷ ds) in if ltb n (2 ^ 31) then some (pos n) else none
signed true (d ∷ ds) =
    let n = decimal 0 (d ∷ ds) in
    if n == 0 then some (pos 0) else if leb n (2 ^ 31) then some (negsuc (n - 1)) else none

unfoldable pub stoi_from : Bytes → Option ℤ
unfolding signed digits_of
stoi_from [] = none
stoi_from (b ∷ bs) =
    if b == b'-'
    then signed true (digits_of bs)
    else if b == b'+'
    then signed false (digits_of bs)
    else signed false (digits_of (b ∷ bs))

unfoldable pub stoi : Bytes → Option ℤ
unfolding stoi_from skip_whitespace
stoi text = stoi_from (skip_whitespace text)
