-- ===== src/Text/Strings/Find.antt =====
-- Where `find` of a character, which src/main/c/StringUtil.cpp and src/main/c/Connection.cpp use, finds it.
use seasocks.Prelude.{drop, suc, ℕ, ◌≡◌, refl, [], ◌∷◌, ◌++◌, none, some, length, Bytes, arith}
use seasocks.Text.Strings.{find_char}
use seasocks.Text.Strings.Split.{Without}

pub find_char-query :
    (c : ℕ) (path q : Bytes) → Without c path → find_char c (path ++ (c ∷ q)) ≡ some (length path)
unfolding find_char
find_char-query c [] q h = ground arith
find_char-query c (b ∷ path) q h = ground (arith, find_char-query c path q h.1)

pub find_char-path : (c : ℕ) (path : Bytes) → Without c path → find_char c (path ++ []) ≡ none
unfolding find_char
find_char-path c [] h = refl
find_char-path c (b ∷ path) h = ground (arith, find_char-path c path h.1)

pub drop_behind :
    (key : Bytes) (c : ℕ) (rest : Bytes) → drop (suc (length key)) (key ++ (c ∷ rest)) ≡ rest
drop_behind [] c rest = refl
drop_behind (b ∷ key) c rest = drop_behind key c rest
