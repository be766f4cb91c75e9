-- ===== src/Text/Base64.antt =====
-- src/main/c/internal/Base64.cpp: `base64Encode`, and a decoder of RFC 4648 to compare it with.
mod Tests
use mathlib.Core.Path.{ap₂}
use Prim.Native.Nat.{bit_or}
use seasocks.Prelude.{
  ℕ, ◌+◌, ◌-◌, ◌*◌, ◌/◌, ◌%◌, ◌<◌, ◌≡◌, refl, ap, sym, ◌∙◌, inl, inr, Bool, true, false, not, [],
  ◌∷◌, get_or, ltb, ◌==◌, ==_iff, if◌then◌else◌, Bytes, IsByte, codes, All, arith, Bool-cases,
}
use seasocks.Prelude.Bits.{holds_below, holds_below_at}

-- `cb64`, read at an index below 64.
unfoldable pub cb64 : ℕ → ℕ
cb64 i = get_or (codes "ABCDEFGHIJKLMNOPQRSTUVWXYZabcdefghijklmnopqrstuvwxyz0123456789+/") i 0

-- The characters of three bytes; a byte that is missing counts as 0.
unfoldable pub char0 : ℕ → ℕ
unfolding cb64
char0 b0 = cb64 (b0 / 4)

unfoldable pub char1 : ℕ → ℕ → ℕ
unfolding cb64
char1 b0 b1 = cb64 (bit_or (b0 % 4 * 16) (b1 / 16))

unfoldable pub char2 : ℕ → ℕ → ℕ
unfolding cb64
char2 b1 b2 = cb64 (bit_or (b1 % 16 * 4) (b2 / 64))

unfoldable pub char3 : ℕ → ℕ
unfolding cb64
char3 b2 = cb64 (b2 % 64)

unfoldable pub base64_encode : Bytes → Bytes
unfolding char0 char1 char2 char3
base64_encode [] = []
base64_encode (b0 ∷ []) = char0 b0 ∷ char1 b0 0 ∷ b'=' ∷ b'=' ∷ []
base64_encode (b0 ∷ b1 ∷ []) = char0 b0 ∷ char1 b0 b1 ∷ char2 b1 0 ∷ b'=' ∷ []
base64_encode (b0 ∷ b1 ∷ b2 ∷ bs) =
    char0 b0 ∷ char1 b0 b1 ∷ char2 b1 b2 ∷ char3 b2 ∷ base64_encode bs

-- The six bits of a character.
unfoldable pub sextet : ℕ → ℕ
sextet c =
    if c == b'+'
    then 62
    else if c == b'/'
    then 63
    else if ltb c b'A'
    then c - b'0' + 52
    else if ltb c b'a'
    then c - b'A'
    else c - b'a' + 26

unfoldable pub base64_decode : Bytes → Bytes
base64_decode (c0 ∷ c1 ∷ c2 ∷ c3 ∷ cs) =
    let more = base64_decode cs in
    let b0 = sextet c0 * 4 + sextet c1 / 16 in
    let b1 = sextet c1 % 16 * 16 + sextet c2 / 4 in
    let b2 = sextet c2 % 4 * 64 + sextet c3 in
    if c2 == b'=' then b0 ∷ [] else if c3 == b'=' then b0 ∷ b1 ∷ [] else b0 ∷ b1 ∷ b2 ∷ more
base64_decode _ = []

sextet_table : holds_below 64 (λ i. sextet (cb64 i) == i) ≡ true
unfolding holds_below sextet cb64
sextet_table = refl

padding_table : holds_below 64 (λ i. not (cb64 i == b'=')) ≡ true
unfolding holds_below cb64
padding_table = refl

or16_table : holds_below 64 (λ n. bit_or (n / 16 * 16) (n % 16) == n) ≡ true
unfolding holds_below
or16_table = refl

or4_table : holds_below 64 (λ n. bit_or (n / 4 * 4) (n % 4) == n) ≡ true
unfolding holds_below
or4_table = refl

sextet-cb64 : (i : ℕ) → i < 64 → sextet (cb64 i) ≡ i
sextet-cb64 i h = (==_iff _ _).0 (holds_below_at 64 _ i sextet_table h)

cb64_unpadded : (i : ℕ) → i < 64 → (cb64 i == b'=') ≡ false
cb64_unpadded i h = elim (Bool-cases (cb64 i == b'=')) [
  | inl pad ↦
      absurd
        (let t = rw pad at (holds_below_at 64 (λ i. not (cb64 i == b'=')) i padding_table h) in cc)
  | inr char ↦ char
]

or16 : (a b : ℕ) → a < 4 → b < 16 → bit_or (a * 16) b ≡ a * 16 + b
or16 a b h k =
    let n = a * 16 + b in
    let high : n / 16 ≡ a = omega arith in
    let low : n % 16 ≡ b = omega arith in
    rw (high, low) at
      ((==_iff (bit_or (n / 16 * 16) (n % 16)) n).0
        (holds_below_at 64 _ n or16_table (omega arith)))

or4 : (a b : ℕ) → a < 16 → b < 4 → bit_or (a * 4) b ≡ a * 4 + b
or4 a b h k =
    let n = a * 4 + b in
    let high : n / 4 ≡ a = omega arith in
    let low : n % 4 ≡ b = omega arith in
    rw (high, low) at
      ((==_iff (bit_or (n / 4 * 4) (n % 4)) n).0 (holds_below_at 64 _ n or4_table (omega arith)))

sextet-char0 : (b : ℕ) → b < 256 → sextet (char0 b) ≡ b / 4
unfolding char0
sextet-char0 b h = sextet-cb64 (b / 4) (omega arith)

sextet-char1 : (b c : ℕ) → b < 256 → c < 256 → sextet (char1 b c) ≡ b % 4 * 16 + c / 16
unfolding char1
sextet-char1 b c h k =
    ap (λ i. sextet (cb64 i)) (or16 (b % 4) (c / 16) (omega arith) (omega arith))
    ∙ sextet-cb64 _ (omega arith)

sextet-char2 :
    (b c : ℕ)
    → b < 256
    → c < 256
    → (sextet (char2 b c) ≡ b % 16 * 4 + c / 64) × ((char2 b c == b'=') ≡ false)
unfolding char2
sextet-char2 b c h k =
    let e = or4 (b % 16) (c / 64) (omega arith) (omega arith) in
    (
      ap (λ i. sextet (cb64 i)) e ∙ sextet-cb64 _ (omega arith),
      ap (λ i. cb64 i == b'=') e ∙ cb64_unpadded (b % 16 * 4 + c / 64) (omega arith),
    )

sextet-char3 : (b : ℕ) → b < 256 → (sextet (char3 b) ≡ b % 64) × ((char3 b == b'=') ≡ false)
unfolding char3
sextet-char3 b h = (sextet-cb64 (b % 64) (omega arith), cb64_unpadded (b % 64) (omega arith))

-- Bytes that are encoded in Base64 are read back by a decoder of RFC 4648.
pub base64_decode-base64_encode :
    (bytes : Bytes) → All IsByte bytes → base64_decode (base64_encode bytes) ≡ bytes
unfolding base64_decode base64_encode
base64_decode-base64_encode [] h = refl
base64_decode-base64_encode (b0 ∷ []) h =
    rw (sextet-char0 b0 h.0, sextet-char1 b0 0 h.0 (omega arith)) (ap (λ b. b ∷ []) (omega arith))
base64_decode-base64_encode (b0 ∷ b1 ∷ []) h =
    let (s2, p2) = sextet-char2 b1 0 h.1.0 (omega arith) in
    rw (p2, sextet-char0 b0 h.0, sextet-char1 b0 b1 h.0 h.1.0, s2)
      (ap₂ (λ b c. b ∷ c ∷ []) (omega arith) (omega arith))
base64_decode-base64_encode (b0 ∷ b1 ∷ b2 ∷ bs) h =
    let (s2, p2) = sextet-char2 b1 b2 h.1.0 h.1.1.0 in
    let (s3, p3) = sextet-char3 b2 h.1.1.0 in
    rw
      (
        p2,
        p3,
        sextet-char0 b0 h.0,
        sextet-char1 b0 b1 h.0 h.1.0,
        s2,
        s3,
        base64_decode-base64_encode bs h.1.1.1,
      )
      (three (omega arith) (omega arith) (omega arith))
  where
    three : {x y z x' y' z' : ℕ} → x ≡ x' → y ≡ y' → z ≡ z' → (x ∷ y ∷ z ∷ bs) ≡ (x' ∷ y' ∷ z' ∷ bs)
    three e f g = rw (e, f, g)
