-- ===== src/Text/Strings/Replace.antt =====
-- `replace` of src/main/c/StringUtil.cpp.
use seasocks.Prelude.{
  ℕ, zero, suc, ◌+◌, ◌<◌, ◌≡◌, refl, ap, ◌∙◌, inl, inr, true, false, List, [], ◌∷◌, ◌++◌, Option,
  none, some, ◌>>=◌, length, length-drop, take, drop, ◌==◌, Bytes, All, arith, Bool-cases,
}
use seasocks.Text.Strings.{starts_with, find_string, replace_step, replace_loop, replace}

-- The pieces with a text between them.
abbrev pub join_with : Bytes → Bytes → List Bytes → Bytes
join_with by p [] = p
join_with by p (q ∷ qs) = p ++ (by ++ join_with by q qs)

starts_with-drop : (s x : Bytes) → starts_with s x ≡ true → s ≡ x ++ drop (length x) s
unfolding starts_with
starts_with-drop s [] h = refl
starts_with-drop [] (x ∷ xs) h = absurd (cc)
starts_with-drop (b ∷ bs) (x ∷ xs) h = elim (Bool-cases (b == x)) [
  | inl same ↦
      ap (λ t. b ∷ t) (starts_with-drop bs xs (rw same at h))
      ∙ ap (λ b. b ∷ (xs ++ drop (length xs) bs)) (ground arith)
  | inr other ↦ absurd (ground arith)
]

starts_with-take : (n : ℕ) (s x : Bytes) → starts_with (take n s) x ≡ true → starts_with s x ≡ true
unfolding starts_with
starts_with-take n s [] h = refl
starts_with-take zero s (x ∷ xs) h = absurd (cc)
starts_with-take (suc n) [] (x ∷ xs) h = h
starts_with-take (suc n) (b ∷ bs) (x ∷ xs) h = elim (Bool-cases (b == x)) [
  | inl same ↦ rw same (starts_with-take n bs xs (rw same at h))
  | inr other ↦ absurd (ground arith)
]

abbrev Found : Bytes → Bytes → Option ℕ → Type 0
Found x s none = find_string x s ≡ none
Found x s (some n) =
    (s ≡ take n s ++ (x ++ drop (n + length x) s))
    × (n < length s)
    × (find_string x (take n s) ≡ none)

Found-later :
    (x : Bytes) (b : ℕ) (bs : Bytes) (r : Option ℕ)
    → starts_with (b ∷ bs) x ≡ false
    → Found x bs r
    → Found x (b ∷ bs) (r >>= λ n. some (suc n))
unfolding find_string
Found-later x b bs none other h = rw (other, h)
Found-later x b bs (some n) other h =
    let k : suc (n + length x) ≡ suc n + length x = omega arith in
    let shorter : starts_with (b ∷ take n bs) x ≡ false =
      elim (Bool-cases (starts_with (b ∷ take n bs) x)) [
        | inl here ↦
            let whole : starts_with (b ∷ bs) x ≡ true = starts_with-take (suc n) (b ∷ bs) x here in
            cc
        | inr missing ↦ missing
      ] in
    (
      ap (◌∷◌ b) h.0 ∙ ap (λ k. b ∷ (take n bs ++ (x ++ drop k (b ∷ bs)))) k,
      omega (arith, h.1),
      rw (shorter, h.2),
    )

find_string-Found : (x s : Bytes) → Found x s (find_string x s)
unfolding find_string
find_string-Found x [] = refl
find_string-Found x (b ∷ bs) = elim (Bool-cases (starts_with (b ∷ bs) x)) [
  | inl here ↦ rw here (
      let k : length x ≡ 0 + length x = omega arith in
      (starts_with-drop (b ∷ bs) x here ∙ ap (λ k. x ++ drop k (b ∷ bs)) k, omega arith, refl))
  | inr other ↦ rw other (Found-later x b bs (find_string x bs) other (find_string-Found x bs))
]

-- The text is pieces with `find` between them and in none of them, and the result is the same pieces
-- with `by` between.
pub record Replaced (find by s out : Bytes) : Type 0 where
  pub first : Bytes
  pub more : List Bytes
  pub before : s ≡ join_with find first more
  pub after : out ≡ join_with by first more
  pub none_in_first : find_string find first ≡ none
  pub none_in_more : All (λ p. find_string find p ≡ none) more

replace_step-Replaced :
    (again : Bytes → Bytes) (find by s : Bytes) (r : Option ℕ)
    → Found find s r
    → ((n : ℕ)
        → r ≡ some n
        → Replaced find by (drop (n + length find) s) (again (drop (n + length find) s)))
    → Replaced find by s (replace_step again find by s r)
unfolding replace_step
replace_step-Replaced again find by s none h rest = record {
  first = s;
  more = [];
  before = refl;
  after = refl;
  none_in_first = h;
  none_in_more = tt;
}
replace_step-Replaced again find by s (some n) h rest =
    let p = rest n refl in
    record {
      first = take n s;
      more = p.first ∷ p.more;
      before = h.0 ∙ ap (λ t. take n s ++ (find ++ t)) p.before;
      after = ap (λ t. take n s ++ (by ++ t)) p.after;
      none_in_first = h.2;
      none_in_more = (p.none_in_first, p.none_in_more);
    }

replace_loop-Replaced :
    (fuel : ℕ) (find by s : Bytes)
    → 0 < length find
    → length s < fuel
    → Replaced find by s (replace_loop fuel find by s)
unfolding replace_loop
replace_loop-Replaced zero find by s some_find h = absurd (omega arith)
replace_loop-Replaced (suc fuel) find by s some_find h =
    replace_step-Replaced (replace_loop fuel find by) find by s (find_string find s)
      (find_string-Found find s)
      λ n e.
        let f : Found find s (some n) = rw e at (find_string-Found find s) in
        replace_loop-Replaced fuel find by (drop (n + length find) s) some_find
          (omega (arith, f.1, length-drop (n + length find) s))

-- replace puts the new text in the place of the occurrences of the one to find, which is not empty,
-- and leaves what is between them: the text is pieces joined by the one to find, which is in none
-- of them, and the result is the same pieces joined by the new text.
pub replace-Replaced :
    (s find by : Bytes) → 0 < length find → Replaced find by s (replace s find by)
unfolding replace
replace-Replaced s [] by h = absurd (omega arith)
replace-Replaced s (f ∷ fs) by h =
    replace_loop-Replaced (suc (length s)) (f ∷ fs) by s h (omega arith)
