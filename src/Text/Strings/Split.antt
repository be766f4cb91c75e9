-- ===== src/Text/Strings/Split.antt =====
-- `split` of src/main/c/StringUtil.cpp is the inverse of joining.
use seasocks.Prelude.{
  ℕ, zero, suc, ◌<◌, ◌≡◌, ◌≢◌, refl, ap, sym, ◌∙◌, inl, inr, List, [], ◌∷◌, ◌++◌, Option, none,
  some, ◌>>=◌, length, length-drop, take, drop, ◌==◌, Bytes, All, arith, Bool-cases,
}
use seasocks.Text.Strings.{find_char, split_step, split_loop, split}

abbrev pub Without : ℕ → Bytes → Type 0
Without c s = All (λ b. b ≢ c) s

-- The pieces with the character between them.
unfoldable pub join : ℕ → List Bytes → Bytes
join c [] = []
join c (p ∷ []) = p
join c (p ∷ (q ∷ ps)) = p ++ (c ∷ join c (q ∷ ps))

abbrev Found : ℕ → Bytes → Option ℕ → Type 0
Found c s none = Without c s
Found c s (some n) = (s ≡ take n s ++ (c ∷ drop (suc n) s)) × Without c (take n s) × (n < length s)

Found-later :
    (c b : ℕ) (bs : Bytes) (r : Option ℕ)
    → b ≢ c
    → Found c bs r
    → Found c (b ∷ bs) (r >>= λ n. some (suc n))
Found-later c b bs none other h = (other, h)
Found-later c b bs (some n) other h = (ap (◌∷◌ b) h.0, (other, h.1), omega (arith, h.2))

find_char-Found : (c : ℕ) (s : Bytes) → Found c s (find_char c s)
unfolding find_char
find_char-Found c [] = tt
find_char-Found c (b ∷ bs) = elim (Bool-cases (b == c)) [
  | inl same ↦ rw same (ap (λ b. b ∷ bs) (ground arith), tt, omega arith)
  | inr other ↦ rw other (Found-later c b bs (find_char c bs) (ground arith) (find_char-Found c bs))
]

-- Whether there is a first piece.
abbrev pub IsCons : List Bytes → Type 0
IsCons [] = ⊥
IsCons (p ∷ ps) = Unit

join-cons :
    (c : ℕ) (p : Bytes) (ps : List Bytes) → IsCons ps → join c (p ∷ ps) ≡ p ++ (c ∷ join c ps)
unfolding join
join-cons c p [] h = absurd h
join-cons c p (q ∷ ps) h = refl

-- What the loop makes of a text.
record Pieces (c : ℕ) (s : Bytes) (ps : List Bytes) : Type 0 where
  some_piece : IsCons ps
  joined : join c ps ≡ s
  apart : All (Without c) ps

split_step-Pieces :
    (c : ℕ) (more : Bytes → List Bytes) (s : Bytes) (r : Option ℕ)
    → Found c s r
    → ((n : ℕ) → r ≡ some n → Pieces c (drop (suc n) s) (more (drop (suc n) s)))
    → Pieces c s (split_step more s r)
unfolding split_step join
split_step-Pieces c more s none h rest = record { some_piece = tt; joined = refl; apart = (h, tt) }
split_step-Pieces c more s (some n) h rest =
    let p = rest n refl in
    record {
      some_piece = tt;
      joined =
          join-cons c (take n s) (more (drop (suc n) s)) p.some_piece
          ∙ ap (λ t. take n s ++ (c ∷ t)) p.joined
          ∙ sym h.0;
      apart = (h.1, p.apart);
    }

split_loop-Pieces : (c fuel : ℕ) (s : Bytes) → length s < fuel → Pieces c s (split_loop c fuel s)
unfolding split_loop
split_loop-Pieces c zero s h = absurd (omega arith)
split_loop-Pieces c (suc fuel) s h =
    split_step-Pieces c (split_loop c fuel) s (find_char c s) (find_char-Found c s) λ n e.
      let f : Found c s (some n) = rw e at (find_char-Found c s) in
      split_loop-Pieces c fuel (drop (suc n) s) (omega (arith, f.2, length-drop (suc n) s))

-- The pieces of a text, joined by the character, are the text, and the character is in none of
-- them.
pub join-split : (s : Bytes) (c : ℕ) → (join c (split s c) ≡ s) × All (Without c) (split s c)
unfolding split join
join-split [] c = (refl, tt)
join-split (b ∷ bs) c =
    let p = split_loop-Pieces c (suc (length (b ∷ bs))) (b ∷ bs) (omega arith) in
    (p.joined, p.apart)
