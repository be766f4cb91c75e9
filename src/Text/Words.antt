-- ===== src/Text/Words.antt =====
-- src/main/c/StringUtil.cpp: `skipWhitespace`, `skipNonWhitespace`, `shift`, `trimWhitespace`, `endsWith`
-- and, with src/main/c/seasocks/StrCompare.h, `caseInsensitiveSame`. A `char*` is the bytes in front of
-- its terminator.
pub mod Shift
pub mod Compare
mod Tests
use seasocks.Prelude.{
  ℕ, ◌+◌, ◌*◌, ◌%◌, ◌^◌, ◌-◌, Bool, true, false, ◌&&◌, List, [], ◌∷◌, ◌++◌, Option, none, some,
  length, drop, ltb, ◌==◌, if◌then◌else◌, Bytes,
}
use seasocks.Text.Ascii.{is_space, to_lower}

-- A C string in a buffer ends at its first zero byte.
unfoldable pub c_str : Bytes → Bytes
c_str [] = []
c_str (b ∷ bs) = let rest = c_str bs in if b == 0 then [] else b ∷ rest

unfoldable pub skip_whitespace : Bytes → Bytes
skip_whitespace [] = []
skip_whitespace (b ∷ bs) = let rest = skip_whitespace bs in if is_space b then rest else b ∷ bs

unfoldable pub skip_non_whitespace : Bytes → Bytes
skip_non_whitespace [] = []
skip_non_whitespace (b ∷ bs) =
    let rest = skip_non_whitespace bs in if is_space b then b ∷ bs else rest

-- The bytes that `skipNonWhitespace` passes.
unfoldable pub word_of : Bytes → Bytes
word_of [] = []
word_of (b ∷ bs) = let rest = word_of bs in if is_space b then [] else b ∷ rest

-- `*endOfWord++ = 0`, unless the text ends there.
abbrev pub behind_end : Bytes → Bytes
behind_end [] = []
behind_end (b ∷ bs) = bs

abbrev pub shift_start : Bytes → Option Bytes × Bytes
shift_start [] = (none, [])
shift_start (b ∷ bs) = (some (word_of (b ∷ bs)), behind_end (skip_non_whitespace (b ∷ bs)))

-- The next word, and what stands behind it.
unfoldable pub shift : Bytes → Option Bytes × Bytes
shift str = shift_start (skip_whitespace str)

unfoldable pub reverse : Bytes → Bytes
reverse [] = []
reverse (b ∷ bs) = reverse bs ++ (b ∷ [])

-- `start < end` fails only where all is white space.
unfoldable pub trim_whitespace : Bytes → Bytes
unfolding reverse
trim_whitespace str = reverse (skip_whitespace (reverse (skip_whitespace str)))

unfoldable pub same_bytes : Bytes → Bytes → Bool
same_bytes [] [] = true
same_bytes [] (y ∷ ys) = false
same_bytes (x ∷ xs) [] = false
same_bytes (x ∷ xs) (y ∷ ys) = x == y && same_bytes xs ys

-- `endsWith`.
unfoldable pub ends_with : Bytes → Bytes → Bool
unfolding same_bytes
ends_with target what =
    if ltb (length target) (length what)
    then false
    else same_bytes (drop (length target - length what) target) what

-- `compareCaseInsensitive`: the sizes are the same and the bytes equal in lower case.
unfoldable pub case_insensitive_same : Bytes → Bytes → Bool
case_insensitive_same [] [] = true
case_insensitive_same [] (y ∷ ys) = false
case_insensitive_same (x ∷ xs) [] = false
case_insensitive_same (x ∷ xs) (y ∷ ys) = to_lower x == to_lower y && case_insensitive_same xs ys

-- `CaseInsensitiveHash` of src/main/c/internal/HeaderMap.h, in a `size_t`. Bytes are below 128 here:
-- a `char` may have a sign.
unfoldable pub hash_from : ℕ → Bytes → ℕ
hash_from h [] = h
hash_from h (b ∷ bs) = hash_from ((h * 13 + to_lower b) % 2 ^ 64) bs

unfoldable pub case_insensitive_hash : Bytes → ℕ
unfolding hash_from
case_insensitive_hash string = hash_from 0 string
