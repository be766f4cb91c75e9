-- ===== src/Text/Words/Shift.antt =====
-- What `shift` of src/main/c/StringUtil.cpp takes from a text.
use seasocks.Prelude.{
  ℕ, ◌≡◌, ◌≢◌, refl, ap, ◌∙◌, ◌⊎◌, inl, inr, true, false, [], ◌∷◌, ◌++◌, append-nil, Option, none,
  some, length, Bytes, All, Bool-cases,
}
use seasocks.Text.Ascii.{is_space}
use seasocks.Text.Words.{
  skip_whitespace, skip_non_whitespace, word_of, behind_end, shift_start, shift,
}

abbrev pub Blank : Bytes → Type 0
Blank s = All (λ b. is_space b ≡ true) s

abbrev pub Word : Bytes → Type 0
Word s = All (λ b. is_space b ≡ false) s

-- A word ends at one blank, or at the text's end, with nothing left.
abbrev pub Ends : Bytes → Bytes → Type 0
Ends ending rest = ((length ending ≡ 1) × Blank ending) ⊎ ((ending ≡ []) × (rest ≡ []))

-- What stands in front of the text that is left: blanks, a word that is not empty, and its end.
pub record Shifted (str word rest : Bytes) : Type 0 where
  pub blanks : Bytes
  pub ending : Bytes
  pub parts : str ≡ blanks ++ (word ++ (ending ++ rest))
  pub are_blank : Blank blanks
  pub is_word : Word word
  pub some_word : word ≢ []
  pub ends : Ends ending rest

abbrev pub ShiftResult : Bytes → Option Bytes × Bytes → Type 0
ShiftResult str (none, rest) = Blank str × (rest ≡ [])
ShiftResult str (some word, rest) = Shifted str word rest

-- The blanks that are passed, and that the text behind them does not begin with one.
record Skipped (str rest : Bytes) : Type 0 where
  blanks : Bytes
  parts : str ≡ blanks ++ rest
  are_blank : Blank blanks

abbrev Begins : Bytes → Type 0
Begins [] = Unit
Begins (b ∷ bs) = is_space b ≡ false

skip_whitespace-Skipped : (s : Bytes) → Skipped s (skip_whitespace s) × Begins (skip_whitespace s)
unfolding skip_whitespace
skip_whitespace-Skipped [] = (record { blanks = []; parts = refl; are_blank = tt }, tt)
skip_whitespace-Skipped (b ∷ bs) = elim (Bool-cases (is_space b)) [
  | inl blank ↦ rw blank (
      let (s, begins) = skip_whitespace-Skipped bs in
      (
        record {
          blanks = b ∷ s.blanks;
          parts = ap (◌∷◌ b) s.parts;
          are_blank = (blank, s.are_blank);
        },
        begins,
      ))
  | inr letter ↦ rw letter (record { blanks = []; parts = refl; are_blank = tt }, letter)
]

-- A word, and the blank behind it.
record Cut (s word rest : Bytes) : Type 0 where
  ending : Bytes
  parts : s ≡ word ++ (ending ++ rest)
  ends : Ends ending rest
  is_word : Word word

word_of-Cut : (s : Bytes) → Cut s (word_of s) (behind_end (skip_non_whitespace s))
unfolding word_of skip_non_whitespace
word_of-Cut [] = record { ending = []; parts = refl; ends = inr (refl, refl); is_word = tt }
word_of-Cut (b ∷ bs) = elim (Bool-cases (is_space b)) [
  | inl blank ↦
      rw blank
        (record { ending = b ∷ []; parts = refl; ends = inl (refl, (blank, tt)); is_word = tt })
  | inr letter ↦ rw letter (
      let c = word_of-Cut bs in
      record {
        ending = c.ending;
        parts = ap (◌∷◌ b) c.parts;
        ends = c.ends;
        is_word = (letter, c.is_word);
      })
]

word_of-cons : (b : ℕ) (bs : Bytes) → is_space b ≡ false → word_of (b ∷ bs) ≢ []
unfolding word_of
word_of-cons b bs letter = rw letter (λ e. cc)

shift_start-Shifted :
    (str start : Bytes) → Skipped str start → Begins start → ShiftResult str (shift_start start)
shift_start-Shifted str [] s begins = (rw (s.parts ∙ append-nil s.blanks) s.are_blank, refl)
shift_start-Shifted str (b ∷ bs) s begins =
    let c = word_of-Cut (b ∷ bs) in
    record {
      blanks = s.blanks;
      ending = c.ending;
      parts = s.parts ∙ ap (◌++◌ s.blanks) c.parts;
      are_blank = s.are_blank;
      is_word = c.is_word;
      some_word = word_of-cons b bs begins;
      ends = c.ends;
    }

-- Where shift finds a word, the text is blanks, that word, which has no blank and is not empty, and
-- either one blank and what is left, or the text's end, with nothing left; where it finds none, all
-- of the text is blank and nothing is left.
pub shift-Shifted : (str : Bytes) → ShiftResult str (shift str)
unfolding shift
shift-Shifted str =
    let (s, begins) = skip_whitespace-Skipped str in
    shift_start-Shifted str (skip_whitespace str) s begins
