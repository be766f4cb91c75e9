-- ===== src/Text/Words/Compare.antt =====
-- The comparison of header names, src/main/c/seasocks/StrCompare.h, and their hash.
use seasocks.Prelude.{
  ℕ, ◌+◌, ◌*◌, ◌%◌, ◌^◌, ◌≡◌, refl, sym, ◌∙◌, inl, inr, true, [], ◌∷◌, ◌==◌, ==_iff, Bytes,
  Bool-cases,
}
use seasocks.Text.Ascii.{to_lower}
use seasocks.Text.Words.{case_insensitive_same, hash_from, case_insensitive_hash}

-- Two names that are the same but for their case.
abbrev pub Same : Bytes → Bytes → Type 0
Same a b = case_insensitive_same a b ≡ true

Same-cons :
    (x y : ℕ) (xs ys : Bytes) → Same (x ∷ xs) (y ∷ ys) → (to_lower x ≡ to_lower y) × Same xs ys
unfolding case_insensitive_same
Same-cons x y xs ys h = elim (Bool-cases (to_lower x == to_lower y)) [
  | inl same ↦ ((==_iff _ _).0 same, rw same at h)
  | inr other ↦ absurd (let h' = rw other at h in cc)
]

cons-Same :
    (x y : ℕ) (xs ys : Bytes) → to_lower x ≡ to_lower y → Same xs ys → Same (x ∷ xs) (y ∷ ys)
unfolding case_insensitive_same
cons-Same x y xs ys e h = rw ((==_iff (to_lower x) (to_lower y)).1 e, h)

Same-refl : (a : Bytes) → Same a a
unfolding case_insensitive_same
Same-refl [] = refl
Same-refl (x ∷ xs) = cons-Same x x xs xs refl (Same-refl xs)

Same-sym : (a b : Bytes) → Same a b → Same b a
unfolding case_insensitive_same
Same-sym [] [] h = refl
Same-sym [] (y ∷ ys) h = absurd (cc)
Same-sym (x ∷ xs) [] h = absurd (cc)
Same-sym (x ∷ xs) (y ∷ ys) h =
    let (e, t) = Same-cons x y xs ys h in cons-Same y x ys xs (sym e) (Same-sym xs ys t)

Same-trans : (a b c : Bytes) → Same a b → Same b c → Same a c
unfolding case_insensitive_same
Same-trans [] [] c h k = k
Same-trans [] (y ∷ ys) c h k = absurd (cc)
Same-trans (x ∷ xs) [] c h k = absurd (cc)
Same-trans (x ∷ xs) (y ∷ ys) [] h k = absurd (cc)
Same-trans (x ∷ xs) (y ∷ ys) (z ∷ zs) h k =
    let (e, t) = Same-cons x y xs ys h in
    let (e', t') = Same-cons y z ys zs k in cons-Same x z xs zs (e ∙ e') (Same-trans xs ys zs t t')

hash_from-Same : (a b : Bytes) (h : ℕ) → Same a b → hash_from h a ≡ hash_from h b
unfolding hash_from case_insensitive_same
hash_from-Same [] [] h s = refl
hash_from-Same [] (y ∷ ys) h s = absurd (cc)
hash_from-Same (x ∷ xs) [] h s = absurd (cc)
hash_from-Same (x ∷ xs) (y ∷ ys) h s =
    let (e, t) = Same-cons x y xs ys s in
    rw e (hash_from-Same xs ys ((h * 13 + to_lower y) % 2 ^ 64) t)

-- An equivalence on names under which equal names have equal hashes: what a map that hashes needs.
pub record IsHashed (same : Bytes → Bytes → Type 0) (hash : Bytes → ℕ) : Type 0 where
  pub reflexive : (a : Bytes) → same a a
  pub symmetric : (a b : Bytes) → same a b → same b a
  pub transitive : (a b c : Bytes) → same a b → same b c → same a c
  pub same_hash : (a b : Bytes) → same a b → hash a ≡ hash b

-- The comparison of header names that ignores case is reflexive, symmetric and transitive, and
-- names that are the same under it have the same hash, as a map that hashes its keys needs.
pub Same-IsHashed : IsHashed Same case_insensitive_hash
unfolding case_insensitive_hash
Same-IsHashed = record {
  reflexive = Same-refl;
  symmetric = Same-sym;
  transitive = Same-trans;
  same_hash = λ a b s. hash_from-Same a b 0 s;
}
