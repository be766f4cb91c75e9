-- ===== src/Json/Strings.antt =====
-- Texts as `jsonToStream` of src/main/c/util/Json.cpp writes them.
use seasocks.Prelude.{
  ℕ, zero, suc, ◌<◌, ◌≤◌, ◌≡◌, refl, ap, ◌∙◌, true, false, ◌||◌, [], ◌∷◌, ◌++◌, append_assoc, some,
  ◌>>=◌, length, length-append, leb, ◌==◌, Bytes, All, arith,
}
use seasocks.Text.Strings.Split.{Without}
use seasocks.Http.Parse.Words.{c_str-text}
use seasocks.Json.{json_char, json_chars, json_text}
use seasocks.Json.Reader.{read_char, escape, more_chars, read_chars, read_text}

-- A byte that is no control character, or one of the five that have an escape of their own.
abbrev pub IsPlain : ℕ → Type 0
IsPlain c = (leb 32 c || (c == 8) || (c == 9) || (c == 10) || (c == 12) || (c == 13)) ≡ true

-- `std::hex` is not put.
json_char-decimal : (c : ℕ) → IsPlain c → (json_char c false).1 ≡ false
unfolding json_char
json_char-decimal c h = ground (arith, h)

read_char-json_char :
    (c : ℕ) (rest : Bytes)
    → IsPlain c
    → read_char ((json_char c false).0 ++ rest) ≡ some (some c, rest)
unfolding json_char read_char escape
read_char-json_char c rest h = ground (arith, h)

json_char-some : (c : ℕ) → 1 ≤ length (json_char c false).0
unfolding json_char
json_char-some c = ground arith

json_chars-decimal : (cs : Bytes) → All IsPlain cs → (json_chars cs false).1 ≡ false
unfolding json_chars
json_chars-decimal [] h = refl
json_chars-decimal (c ∷ cs) h =
    ap (λ b. (json_chars cs b).1) (json_char-decimal c h.0) ∙ json_chars-decimal cs h.1

json_chars-cons :
    (c : ℕ) (cs : Bytes)
    → IsPlain c
    → (json_chars (c ∷ cs) false).0 ≡ (json_char c false).0 ++ (json_chars cs false).0
unfolding json_chars
json_chars-cons c cs h =
    ap (λ b. (json_char c false).0 ++ (json_chars cs b).0) (json_char-decimal c h)

json_chars-length : (cs : Bytes) → All IsPlain cs → length cs ≤ length (json_chars cs false).0
unfolding json_chars
json_chars-length [] h = omega arith
json_chars-length (c ∷ cs) h = omega (
  arith,
  ap length (json_chars-cons c cs h.0),
  json_chars-length cs h.1,
  json_char-some c,
  length-append (json_char c false).0 (json_chars cs false).0,
)

read_chars-json_chars :
    (cs : Bytes) (fuel : ℕ) (rest : Bytes)
    → All IsPlain cs
    → length cs < fuel
    → read_chars fuel ((json_chars cs false).0 ++ (b'"' ∷ rest)) ≡ some (cs, rest)
unfolding read_chars json_chars read_char
read_chars-json_chars cs zero rest h enough = absurd (omega arith)
read_chars-json_chars [] (suc fuel) rest h enough = refl
read_chars-json_chars (c ∷ cs) (suc fuel) rest h enough =
    let more : Bytes = (json_chars cs false).0 in
    ap (λ s. read_char s >>= more_chars (read_chars fuel))
      (ap (λ t. t ++ (b'"' ∷ rest)) (json_chars-cons c cs h.0)
        ∙ append_assoc (json_char c false).0 more (b'"' ∷ rest))
    ∙ ap (λ o. o >>= more_chars (read_chars fuel))
        (read_char-json_char c (more ++ (b'"' ∷ rest)) h.0)
    ∙ ap (λ o. o >>= λ r. some (c ∷ r.0, r.1))
        (read_chars-json_chars cs fuel rest h.1 (omega arith))

IsPlain-Without : (t : Bytes) → All IsPlain t → Without 0 t
IsPlain-Without [] h = tt
IsPlain-Without (c ∷ t) h = (ground (arith, h.0), IsPlain-Without t h.1)

-- A text behind its first quotation mark.
abbrev pub text_body : Bytes → Bytes
text_body t = (json_chars t false).0 ++ (b'"' ∷ [])

pub json_text-plain : (t : Bytes) → All IsPlain t → json_text t false ≡ (b'"' ∷ text_body t, false)
unfolding json_text
json_text-plain t h =
    ap (λ t. (b'"' ∷ text_body t, (json_chars t false).1)) (c_str-text t (IsPlain-Without t h))
    ∙ ap (λ b. (b'"' ∷ text_body t, b)) (json_chars-decimal t h)

pub read_text-text_body :
    (t rest : Bytes) → All IsPlain t → read_text (text_body t ++ rest) ≡ some (t, rest)
read_text-text_body t rest h =
    let written : Bytes = (json_chars t false).0 in
    (λ i. let s = append_assoc written (b'"' ∷ []) rest i in read_chars (suc (length s)) s)
    ∙ read_chars-json_chars t (suc (length (written ++ (b'"' ∷ rest)))) rest h
        (omega (arith, length-append written (b'"' ∷ rest), json_chars-length t h))
