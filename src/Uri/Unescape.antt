-- ===== src/Uri/Unescape.antt =====
-- `unescape` of src/main/c/util/CrackedUri.cpp reads what a client has encoded.
use seasocks.Prelude.{
  ℕ, zero, suc, ◌+◌, ◌*◌, ◌-◌, ◌/◌, ◌%◌, ◌<◌, ◌≡◌, ◌≢◌, refl, ap, sym, ◌∙◌, inl, inr, Bool, true,
  false, not, ◌||◌, List, [], ◌∷◌, ◌++◌, append_assoc, map, Option, none, some, ◌>>=◌, length, take,
  drop, get_or, ltb, ◌==◌, if◌then◌else◌, Bytes, codes, All, arith, Bool-cases,
}
use seasocks.Text.Ascii.{is_xdigit}
use seasocks.Text.Strings.{find_char, find_string, starts_with, replace}
use seasocks.Text.Strings.Replace.{join_with, replace-Replaced}
use seasocks.Uri.{Cracking, cracked, throw, from_hex, unescape_step, unescape_loop, unescape}

-- How a client writes one byte: as it is, a space as a plus, or a percent sign and two hexadecimal
-- digits, each in upper case or not.
pub data Piece : Type 0 where
  plain : ℕ → Piece
  plus : Piece
  coded : ℕ → Bool → Bool → Piece

unfoldable pub hex_digit : Bool → ℕ → ℕ
hex_digit upper d = if ltb d 10 then b'0' + d else (if upper then b'A' else b'a') + (d - 10)

abbrev pub piece_text : Piece → Bytes
piece_text (plain b) = b ∷ []
piece_text plus = b'+' ∷ []
piece_text (coded b high low) = b'%' ∷ (hex_digit high (b / 16) ∷ (hex_digit low (b % 16) ∷ []))

abbrev pub piece_byte : Piece → ℕ
piece_byte (plain b) = b
piece_byte plus = b' '
piece_byte (coded b high low) = b

abbrev pub text : List Piece → Bytes
text [] = []
text (p ∷ ps) = piece_text p ++ text ps

-- Only bytes without a meaning in a URI stand as they are.
abbrev pub IsPlain : ℕ → Type 0
IsPlain b = (b ≢ b'%') × (b ≢ b'+') × (b ≢ b'/') × (b ≢ b'?') × (b ≢ b'&') × (b ≢ b'=')

abbrev pub IsPiece : Piece → Type 0
IsPiece (plain b) = IsPlain b
IsPiece plus = Unit
IsPiece (coded b high low) = b < 256

abbrev spaced : ℕ → ℕ
spaced b = if b == b'+' then b' ' else b

spaced-none : (s : Bytes) → find_string (codes "+") s ≡ none → map spaced s ≡ s
unfolding find_string starts_with
spaced-none [] h = refl
spaced-none (b ∷ s) h = elim (Bool-cases (b == b'+')) [
  | inl here ↦ absurd (ground arith)
  | inr other ↦ rw other (ap (◌∷◌ b) (spaced-none s (ground arith)))
]

spaced-append : (s t : Bytes) → map spaced (s ++ t) ≡ map spaced s ++ map spaced t
spaced-append [] t = refl
spaced-append (b ∷ s) t = ap (◌∷◌ (spaced b)) (spaced-append s t)

spaced-join :
    (p : Bytes) (ps : List Bytes)
    → find_string (codes "+") p ≡ none
    → All (λ p. find_string (codes "+") p ≡ none) ps
    → map spaced (join_with (codes "+") p ps) ≡ join_with (codes " ") p ps
spaced-join p [] h k = spaced-none p h
spaced-join p (q ∷ qs) h k =
    spaced-append p (b'+' ∷ join_with (codes "+") q qs)
    ∙ (λ i. spaced-none p h i ++ (b' ' ∷ spaced-join q qs k.0 k.1 i))

replace-spaced : (s : Bytes) → replace s (codes "+") (codes " ") ≡ map spaced s
replace-spaced s =
    let r = replace-Replaced s (codes "+") (codes " ") (omega arith) in
    r.after
    ∙ sym (ap (map spaced) r.before ∙ spaced-join r.first r.more r.none_in_first r.none_in_more)

-- What the loop sees of a piece.
abbrev spaced_text : Piece → Bytes
spaced_text (plain b) = b ∷ []
spaced_text plus = b' ' ∷ []
spaced_text (coded b high low) = piece_text (coded b high low)

abbrev text_spaced : List Piece → Bytes
text_spaced [] = []
text_spaced (p ∷ ps) = spaced_text p ++ text_spaced ps

hex_digit-spaced : (upper : Bool) (d : ℕ) → d < 16 → spaced (hex_digit upper d) ≡ hex_digit upper d
unfolding hex_digit
hex_digit-spaced true d h = ground arith
hex_digit-spaced false d h = ground arith

pub hex_digit-xdigit : (upper : Bool) (d : ℕ) → d < 16 → is_xdigit (hex_digit upper d) ≡ true
unfolding hex_digit
hex_digit-xdigit true d h = ground arith
hex_digit-xdigit false d h = ground arith

from_hex-hex_digit : (upper : Bool) (d : ℕ) → d < 16 → from_hex (hex_digit upper d) ≡ d
unfolding hex_digit from_hex
from_hex-hex_digit true d h = ground arith
from_hex-hex_digit false d h = ground arith

spaced-piece : (p : Piece) → IsPiece p → map spaced (piece_text p) ≡ spaced_text p
spaced-piece (plain b) h = ground (arith, h.1)
spaced-piece plus h = refl
spaced-piece (coded b high low) h = λ i.
    b'%'
    ∷ (hex_digit-spaced high (b / 16) (omega arith) i
        ∷ (hex_digit-spaced low (b % 16) (omega arith) i ∷ []))

spaced-text : (ps : List Piece) → All IsPiece ps → map spaced (text ps) ≡ text_spaced ps
spaced-text [] h = refl
spaced-text (p ∷ ps) h =
    spaced-append (piece_text p) (text ps) ∙ (λ i. spaced-piece p h.0 i ++ spaced-text ps h.1 i)

less : (m n : ℕ) → ltb (suc m) (suc n) ≡ ltb m n
less m n = ground arith

-- A byte that is no percent sign is passed.
unescape_step-later :
    (more : Bytes → Bytes → Cracking Bytes) (front : Bytes) (b : ℕ) (s : Bytes) (r : Option ℕ)
    → unescape_step more front (b ∷ s) (r >>= λ n. some (suc n))
      ≡ unescape_step more (front ++ (b ∷ [])) s r
unfolding unescape_step
unescape_step-later more front b s none = ap cracked (sym (append_assoc front (b ∷ []) s))
unescape_step-later more front b s (some n) =
    let high = get_or s (suc n) 0 in
    let low = get_or s (suc (suc n)) 0 in
    let byte = from_hex high * 16 + from_hex low in
    sym (λ i.
      if sym (less (length s) (suc (suc n))) i
      then throw (codes "Truncated uri: '") (append_assoc front (b ∷ []) s i)
      else if not (is_xdigit high) || not (is_xdigit low)
      then throw (codes "Bad digit in uri: '") (append_assoc front (b ∷ []) s i)
      else more (append_assoc front (b ∷ []) (take n s ++ (byte ∷ [])) i)
          (drop (suc (suc (suc n))) s))

unescape_loop-plain :
    (fuel : ℕ) (front : Bytes) (b : ℕ) (s : Bytes)
    → b ≢ b'%'
    → unescape_loop (suc fuel) front (b ∷ s) ≡ unescape_loop (suc fuel) (front ++ (b ∷ [])) s
unfolding unescape_loop find_char
unescape_loop-plain fuel front b s h =
    let other : (b == b'%') ≡ false = ground arith in
    rw other (unescape_step-later (unescape_loop fuel) front b s (find_char b'%' s))

unescape_loop-coded :
    (fuel : ℕ) (front : Bytes) (high low : ℕ) (s : Bytes)
    → is_xdigit high ≡ true
    → is_xdigit low ≡ true
    → unescape_loop (suc fuel) front (b'%' ∷ (high ∷ (low ∷ s)))
      ≡ unescape_loop fuel (front ++ ((from_hex high * 16 + from_hex low) ∷ [])) s
unfolding unescape_loop find_char unescape_step
unescape_loop-coded fuel front high low s h k =
    let whole : ltb (length (b'%' ∷ (high ∷ (low ∷ s)))) 2 ≡ false = ground arith in
    rw (whole, h, k) refl

unescape_loop-piece :
    (fuel : ℕ) (front : Bytes) (p : Piece) (s : Bytes) (out : Bytes)
    → IsPiece p
    → ((fuel : ℕ)
        → length s < suc fuel
        → unescape_loop (suc fuel) (front ++ (piece_byte p ∷ [])) s ≡ cracked out)
    → length (spaced_text p ++ s) < suc fuel
    → unescape_loop (suc fuel) front (spaced_text p ++ s) ≡ cracked out
unescape_loop-piece fuel front (plain b) s out h rest enough =
    unescape_loop-plain fuel front b s h.0 ∙ rest fuel (omega arith)
unescape_loop-piece fuel front plus s out h rest enough =
    unescape_loop-plain fuel front b' ' s (omega arith) ∙ rest fuel (omega arith)
unescape_loop-piece zero front (coded b high low) s out h rest enough = absurd (omega arith)
unescape_loop-piece (suc fuel) front (coded b high low) s out h rest enough =
    let big : b / 16 < 16 = omega arith in
    let small : b % 16 < 16 = omega arith in
    let byte : from_hex (hex_digit high (b / 16)) * 16 + from_hex (hex_digit low (b % 16)) ≡ b =
      omega (arith, from_hex-hex_digit high (b / 16) big, from_hex-hex_digit low (b % 16) small) in
    unescape_loop-coded (suc fuel) front (hex_digit high (b / 16)) (hex_digit low (b % 16)) s
      (hex_digit-xdigit high (b / 16) big) (hex_digit-xdigit low (b % 16) small)
    ∙ ap (λ b. unescape_loop (suc fuel) (front ++ (b ∷ [])) s) byte
    ∙ rest fuel (omega arith)

unescape_loop-text :
    (ps : List Piece) (front : Bytes) (fuel : ℕ)
    → All IsPiece ps
    → length (text_spaced ps) < suc fuel
    → unescape_loop (suc fuel) front (text_spaced ps) ≡ cracked (front ++ map piece_byte ps)
unfolding unescape_loop find_char unescape_step
unescape_loop-text [] front fuel h enough = refl
unescape_loop-text (p ∷ ps) front fuel h enough =
    unescape_loop-piece fuel front p (text_spaced ps) (front ++ map piece_byte (p ∷ ps)) h.0
      (λ fuel enough.
        unescape_loop-text ps (front ++ (piece_byte p ∷ [])) fuel h.1 enough
        ∙ ap cracked (append_assoc front (piece_byte p ∷ []) (map piece_byte ps)))
      enough

-- `unescape` gives the bytes that were encoded.
pub unescape-text :
    (ps : List Piece) → All IsPiece ps → unescape (text ps) ≡ cracked (map piece_byte ps)
unfolding unescape
unescape-text ps h =
    (λ i.
      let s = (replace-spaced (text ps) ∙ spaced-text ps h) i in
      unescape_loop (suc (length s)) [] s)
    ∙ unescape_loop-text ps [] (length (text_spaced ps)) h (omega arith)
