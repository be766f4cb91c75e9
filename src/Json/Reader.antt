-- ===== src/Json/Reader.antt =====
-- A reader of JSON by RFC 8259, of the values that src/main/c/seasocks/util/Json.h writes, without white
-- space, fractions, and code points above 127.
use seasocks.Prelude.{
  ℕ, zero, suc, Bool, true, false, ◌&&◌, [], ◌∷◌, Option, none, some, ◌>>=◌, length, drop, ltb,
  ◌==◌, if◌then◌else◌, Bytes, codes,
}
use seasocks.Text.Ascii.{is_xdigit}
use seasocks.Text.Digits.{value}
use seasocks.Text.Numbers.{digits_of}
use seasocks.Text.Strings.{starts_with}

mutual
  pub data Value : Type 0 where
    string : Bytes → Value
    truth : Bool → Value
    whole : ℕ → Value
    array : Values → Value
    object : Members → Value

  pub data Values : Type 0 where
    no_value : Values
    item : Value → Values → Values

  pub data Members : Type 0 where
    no_member : Members
    member : Bytes → Value → Members → Members

-- `\uXXXX` behind its `u`.
unfoldable pub unicode : Bytes → Option (Option ℕ × Bytes)
unicode (a ∷ (b ∷ (c ∷ (d ∷ rest)))) =
    let code = value 16 0 (a ∷ (b ∷ (c ∷ (d ∷ [])))) in
    if is_xdigit a && is_xdigit b && is_xdigit c && is_xdigit d && ltb code 128
    then some (some code, rest)
    else none
unicode _ = none

-- Behind a backslash.
unfoldable pub escape : Bytes → Option (Option ℕ × Bytes)
unfolding unicode
escape [] = none
escape (e ∷ rest) =
    if e == b'"'
    then some (some b'"', rest)
    else if e == b'\\'
    then some (some b'\\', rest)
    else if e == b'/'
    then some (some b'/', rest)
    else if e == b'b'
    then some (some 8, rest)
    else if e == b'f'
    then some (some 12, rest)
    else if e == b'n'
    then some (some 10, rest)
    else if e == b'r'
    then some (some 13, rest)
    else if e == b't'
    then some (some 9, rest)
    else if e == b'u'
    then unicode rest
    else none

-- A character of a string, or its end.
unfoldable pub read_char : Bytes → Option (Option ℕ × Bytes)
unfolding escape
read_char [] = none
read_char (c ∷ rest) =
    if c == b'"'
    then some (none, rest)
    else if c == b'\\'
    then escape rest
    else if ltb c 32
    then none
    else some (some c, rest)

abbrev pub more_chars : (Bytes → Option (Bytes × Bytes)) → Option ℕ × Bytes → Option (Bytes × Bytes)
more_chars more (none, rest) = some ([], rest)
more_chars more (some c, rest) = more rest >>= λ r. some (c ∷ r.0, r.1)

unfoldable pub read_chars : ℕ → Bytes → Option (Bytes × Bytes)
unfolding read_char
read_chars zero s = none
read_chars (suc fuel) s = read_char s >>= more_chars (read_chars fuel)

-- A string behind its quotation mark.
abbrev pub read_text : Bytes → Option (Bytes × Bytes)
read_text s = read_chars (suc (length s)) s

abbrev pub read_number : Bytes → Bytes → Option (Value × Bytes)
read_number [] s = none
read_number (d ∷ ds) s = some (whole (value 10 0 (d ∷ ds)), drop (length (d ∷ ds)) s)

-- Neither string nor array nor object.
unfoldable pub read_atom : Bytes → Option (Value × Bytes)
unfolding starts_with digits_of
read_atom s =
    if starts_with s (codes "true")
    then some (truth true, drop 4 s)
    else if starts_with s (codes "false")
    then some (truth false, drop 5 s)
    else read_number (digits_of s) s

-- Behind a byte that must be there.
abbrev pub behind : ℕ → Bytes → Option Bytes
behind c [] = none
behind c (b ∷ rest) = if b == c then some rest else none

-- Behind a value: a comma and more, or the end.
abbrev pub after {ℓ} :
    {A : Type ℓ} → ℕ → A → (Bytes → Option (A × Bytes)) → Bytes → Option (A × Bytes)
after close nothing more [] = none
after close nothing more (c ∷ rest) =
    if c == b',' then more rest else if c == close then some (nothing, rest) else none

-- The first value of an array or an object, or its end.
abbrev pub first {ℓ} :
    {A : Type ℓ} → ℕ → A → (Bytes → Option (A × Bytes)) → Bytes → Option (A × Bytes)
first close nothing more [] = none
first close nothing more (c ∷ rest) = if c == close then some (nothing, rest) else more (c ∷ rest)

unfoldable mutual
  unfolding read_chars read_atom

  pub read_value : ℕ → Bytes → Option (Value × Bytes)
  read_value zero s = none
  read_value (suc fuel) [] = none
  read_value (suc fuel) (c ∷ rest) =
      if c == b'"'
      then read_text rest >>= (λ t. some (string t.0, t.1))
      else if c == b'['
      then first b']' no_value (read_items fuel) rest >>= (λ vs. some (array vs.0, vs.1))
      else if c == b'{'
      then first b'}' no_member (read_members fuel) rest >>= (λ ms. some (object ms.0, ms.1))
      else read_atom (c ∷ rest)

  pub read_items : ℕ → Bytes → Option (Values × Bytes)
  read_items zero s = none
  read_items (suc fuel) s = read_value fuel s >>= λ v.
      after b']' no_value (read_items fuel) v.1 >>= λ vs. some (item v.0 vs.0, vs.1)

  pub read_members : ℕ → Bytes → Option (Members × Bytes)
  read_members zero s = none
  read_members (suc fuel) s = behind b'"' s >>= λ s. read_text s >>= λ key.
      behind b':' key.1 >>= λ s. read_value fuel s >>= λ v.
      after b'}' no_member (read_members fuel) v.1 >>= λ ms. some (member key.0 v.0 ms.0, ms.1)
