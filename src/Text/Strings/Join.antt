-- ===== src/Text/Strings/Join.antt =====
-- `split` of src/main/c/StringUtil.cpp takes apart what was joined.
use seasocks.Prelude.{
  ℕ, zero, suc, ◌<◌, ◌≡◌, ◌≢◌, refl, ap, ◌∙◌, List, [], ◌∷◌, ◌++◌, none, length, length-append,
  take-append, Bytes, All, All-append, arith,
}
use seasocks.Text.Strings.{find_char, split_step, split_loop, split}
use seasocks.Text.Strings.Split.{Without, join}
use seasocks.Text.Strings.Find.{find_char-query, drop_behind}

find_char-Without : (c : ℕ) (s : Bytes) → Without c s → find_char c s ≡ none
unfolding find_char
find_char-Without c [] h = refl
find_char-Without c (b ∷ bs) h = ground (arith, find_char-Without c bs h.1)

split_loop-join :
    (c : ℕ) (ps : List Bytes) (fuel : ℕ) (p : Bytes)
    → All (Without c) (p ∷ ps)
    → length (join c (p ∷ ps)) < fuel
    → split_loop c fuel (join c (p ∷ ps)) ≡ p ∷ ps
unfolding split_loop split_step join
split_loop-join c ps zero p h enough = absurd (omega arith)
split_loop-join c [] (suc fuel) p h enough =
    ap (split_step (split_loop c fuel) p) (find_char-Without c p h.0)
split_loop-join c (q ∷ qs) (suc fuel) p h enough =
    let rest : Bytes = join c (q ∷ qs) in
    ap (split_step (split_loop c fuel) (p ++ (c ∷ rest))) (find_char-query c p rest h.0)
    ∙ (λ i. take-append p (c ∷ rest) i ∷ split_loop c fuel (drop_behind p c rest i))
    ∙ ap (◌∷◌ p) (split_loop-join c qs fuel q h.1 (omega (arith, length-append p (c ∷ rest))))

split-split_loop : (c : ℕ) (s : Bytes) → s ≢ [] → split s c ≡ split_loop c (suc (length s)) s
unfolding split
split-split_loop c [] h = absurd (h refl)
split-split_loop c (b ∷ bs) h = refl

pub split-join :
    (c : ℕ) (p : Bytes) (ps : List Bytes)
    → All (Without c) (p ∷ ps)
    → join c (p ∷ ps) ≢ []
    → split (join c (p ∷ ps)) c ≡ p ∷ ps
split-join c p ps h some_text =
    split-split_loop c (join c (p ∷ ps)) some_text ∙ split_loop-join c ps _ p h (omega arith)

pub append-ne : (s : Bytes) (c : ℕ) (rest : Bytes) → (s ++ (c ∷ rest)) ≢ []
append-ne [] c rest e = cc
append-ne (b ∷ s) c rest e = cc

pub join-Without : (c d : ℕ) (ps : List Bytes) → d ≢ c → All (Without c) ps → Without c (join d ps)
unfolding join
join-Without c d [] h k = tt
join-Without c d (p ∷ []) h k = k.0
join-Without c d (p ∷ (q ∷ qs)) h k =
    All-append (λ b. b ≢ c) p (d ∷ join d (q ∷ qs)) k.0 (h, join-Without c d (q ∷ qs) h k.1)
