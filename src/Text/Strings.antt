-- ===== src/Text/Strings.antt =====
-- src/main/c/StringUtil.cpp: `split` and `replace`. The suffix of the text from the source's `pos` on is
-- the argument of the loops.
pub mod Split
pub mod Find
pub mod Join
pub mod Replace
mod Tests
use seasocks.Prelude.{
  ℕ, zero, suc, ◌+◌, Bool, true, false, List, [], ◌∷◌, ◌++◌, Option, none, some, ◌>>=◌, length,
  take, drop, ◌==◌, if◌then◌else◌, Bytes,
}

-- `find` of a character.
unfoldable pub find_char : ℕ → Bytes → Option ℕ
find_char c [] = none
find_char c (b ∷ bs) =
    let later = find_char c bs in if b == c then some 0 else later >>= λ n. some (suc n)

unfoldable pub split_step : (Bytes → List Bytes) → Bytes → Option ℕ → List Bytes
split_step more s none = s ∷ []
split_step more s (some n) = take n s ∷ more (drop (suc n) s)

unfoldable pub split_loop : ℕ → ℕ → Bytes → List Bytes
unfolding split_step
split_loop c zero s = []
split_loop c (suc fuel) s = split_step (split_loop c fuel) s (find_char c s)

unfoldable pub split : Bytes → ℕ → List Bytes
unfolding split_loop
split [] c = []
split (b ∷ bs) c = split_loop c (suc (length (b ∷ bs))) (b ∷ bs)

unfoldable pub starts_with : Bytes → Bytes → Bool
starts_with s [] = true
starts_with [] (x ∷ xs) = false
starts_with (b ∷ bs) (x ∷ xs) = let rest = starts_with bs xs in if b == x then rest else false

-- `find` of a string that is not empty.
unfoldable pub find_string : Bytes → Bytes → Option ℕ
find_string find [] = none
find_string find (b ∷ bs) =
    let later = find_string find bs in
    if starts_with (b ∷ bs) find then some 0 else later >>= λ n. some (suc n)

unfoldable pub replace_step : (Bytes → Bytes) → Bytes → Bytes → Bytes → Option ℕ → Bytes
replace_step more find by s none = s
replace_step more find by s (some n) = take n s ++ (by ++ more (drop (n + length find) s))

unfoldable pub replace_loop : ℕ → Bytes → Bytes → Bytes → Bytes
unfolding replace_step
replace_loop zero find by s = s
replace_loop (suc fuel) find by s =
    replace_step (replace_loop fuel find by) find by s (find_string find s)

unfoldable pub replace : Bytes → Bytes → Bytes → Bytes
unfolding replace_loop
replace s [] by = s
replace s (f ∷ fs) by = replace_loop (suc (length s)) (f ∷ fs) by s
