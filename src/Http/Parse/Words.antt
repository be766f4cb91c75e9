-- ===== src/Http/Parse/Words.antt =====
-- `extractLine`, `skipWhitespace` and `shift` (src/main/c/Connection.cpp, src/main/c/StringUtil.cpp) on lines and words
-- that are written with nothing else.
use seasocks.Prelude.{
  ℕ, ◌≡◌, refl, ap, ◌∙◌, if◌then◌else◌, false, ◌&&◌, ◌==◌, [], ◌∷◌, ◌++◌, some, Bytes, arith, All,
}
use seasocks.Connection.Responder.{crlf}
use seasocks.Text.Ascii.{is_space}
use seasocks.Text.Strings.Split.{Without}
use seasocks.Text.Words.{
  shift_start, behind_end, c_str, shift, skip_whitespace, skip_non_whitespace, word_of,
}
use seasocks.Http.Parse.{extract_line, put_first}

-- A value as `skipWhitespace` leaves it.
abbrev pub NoBlank : Bytes → Type 0
NoBlank [] = Unit {0}
NoBlank (b ∷ bs) = is_space b ≡ false

pub extract_line-text :
    (line rest : Bytes)
    → Without b'\r' line
    → extract_line (line ++ (crlf ++ rest)) ≡ some (line, rest)
unfolding extract_line
extract_line-text [] rest h = refl
extract_line-text (b ∷ []) rest h = ground arith
extract_line-text (b ∷ b' ∷ line) rest h =
    ap (λ o. if b == b'\r' && b' == b'\n' then some ([], line ++ (crlf ++ rest)) else put_first b o)
      (extract_line-text (b' ∷ line) rest h.1)
    ∙ ground arith

pub c_str-text : (s : Bytes) → Without 0 s → c_str s ≡ s
unfolding c_str
c_str-text [] h = refl
c_str-text (b ∷ bs) h = ground (arith, c_str-text bs h.1)

pub skip_whitespace-NoBlank : (s : Bytes) → NoBlank s → skip_whitespace s ≡ s
unfolding skip_whitespace
skip_whitespace-NoBlank [] h = refl
skip_whitespace-NoBlank (b ∷ bs) h = rw h

-- The word of a text of a word and perhaps a blank and more.
abbrev pub Word : Bytes → Type 0
Word s = All (λ b. is_space b ≡ false) s

pub word_of-blank : (word rest : Bytes) → Word word → word_of (word ++ (b' ' ∷ rest)) ≡ word
unfolding word_of
word_of-blank [] rest h = refl
word_of-blank (b ∷ word) rest h = rw h.0 (ap (◌∷◌ b) (word_of-blank word rest h.1))

pub word_of-end : (word : Bytes) → Word word → word_of word ≡ word
unfolding word_of
word_of-end [] h = refl
word_of-end (b ∷ word) h = rw h.0 (ap (◌∷◌ b) (word_of-end word h.1))

pub skip_non_whitespace-blank :
    (word rest : Bytes) → Word word → skip_non_whitespace (word ++ (b' ' ∷ rest)) ≡ b' ' ∷ rest
unfolding skip_non_whitespace
skip_non_whitespace-blank [] rest h = refl
skip_non_whitespace-blank (b ∷ word) rest h = rw h.0 (skip_non_whitespace-blank word rest h.1)

pub skip_non_whitespace-end : (word : Bytes) → Word word → skip_non_whitespace word ≡ []
unfolding skip_non_whitespace
skip_non_whitespace-end [] h = refl
skip_non_whitespace-end (b ∷ word) h = rw h.0 (skip_non_whitespace-end word h.1)

pub shift-blank :
    (b : ℕ) (word rest : Bytes)
    → Word (b ∷ word)
    → shift ((b ∷ word) ++ (b' ' ∷ rest)) ≡ (some (b ∷ word), rest)
unfolding shift
shift-blank b word rest h =
    ap shift_start (skip_whitespace-NoBlank ((b ∷ word) ++ (b' ' ∷ rest)) h.0) ∙ (λ i. (
      some (word_of-blank (b ∷ word) rest h i),
      behind_end (skip_non_whitespace-blank (b ∷ word) rest h i),
    ))

pub shift-end : (b : ℕ) (word : Bytes) → Word (b ∷ word) → shift (b ∷ word) ≡ (some (b ∷ word), [])
unfolding shift
shift-end b word h = ap shift_start (skip_whitespace-NoBlank (b ∷ word) h.0) ∙ (λ i.
    (some (word_of-end (b ∷ word) h i), behind_end (skip_non_whitespace-end (b ∷ word) h i)))
