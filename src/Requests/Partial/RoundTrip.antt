-- ===== src/Requests/Partial/RoundTrip.antt =====
-- A header of ranges as RFC 7233 writes it is read back by `parseRanges` of src/main/c/Connection.cpp.
use seasocks.Prelude.{
  ℕ, suc, ◌-◌, ◌^◌, ◌<◌, ◌≡◌, ◌≢◌, refl, ap, ◌∙◌, true, false, not, List, [], ◌∷◌, ◌++◌, none, some,
  map, length, length-append, take-append, drop, ◌==◌, if◌then◌else◌, Bytes, All, All-append, arith,
}
use seasocks.Prelude.Int.{ℤ, pos, negsuc}
use seasocks.Text.Ascii.{is_digit}
use seasocks.Text.Digits.{to_string}
use seasocks.Text.Numbers.Printed.{
  Decimal, to_string-Decimal, to_string-ne, stoi-to_string, stoi-minus,
}
use seasocks.Text.Strings.{find_char, split, starts_with}
use seasocks.Text.Strings.Split.{Without, join}
use seasocks.Text.Strings.Find.{find_char-query, drop_behind}
use seasocks.Text.Strings.Join.{split-join, append-ne}
use seasocks.Connection.Ranges.{Range}
use seasocks.Requests.Partial.{
  Ranging, ranging, bad_range, thrown, ◌>>=◌, number, long_max, parse_range_at, parse_range,
  parse_all, some_ranges, bytes_prefix, parse_ranges,
}

-- What a client asks for: both ends, from a place on, or the last `suc n` bytes.
pub data Asked : Type 0 where
  between : ℕ → ℕ → Asked
  from : ℕ → Asked
  last : ℕ → Asked

abbrev pub range_text : Asked → Bytes
range_text (between a b) = to_string a ++ (b'-' ∷ to_string b)
range_text (from a) = to_string a ++ (b'-' ∷ [])
range_text (last n) = b'-' ∷ to_string (suc n)

abbrev pub range_of : Asked → Range
range_of (between a b) = record { start = pos a; end = pos b }
range_of (from a) = record { start = pos a; end = long_max }
range_of (last n) = record { start = negsuc n; end = long_max }

-- The numbers are those of an `int`.
abbrev pub IsAsked : Asked → Type 0
IsAsked (between a b) = (a < 2 ^ 31) × (b < 2 ^ 31)
IsAsked (from a) = a < 2 ^ 31
IsAsked (last n) = n < 2 ^ 31

Decimal-Without : (c : ℕ) (s : Bytes) → is_digit c ≡ false → Decimal s → Without c s
Decimal-Without c [] e h = tt
Decimal-Without c (b ∷ bs) e h = ((λ same. absurd (ground arith)), Decimal-Without c bs e h.1)

number-to_string : (n : ℕ) → n < 2 ^ 31 → number (to_string n) ≡ ranging (pos n)
number-to_string n h =
    ap (λ o. elim o as (λ _. Ranging ℤ) [ none ↦ thrown | some n ↦ ranging n ]) (stoi-to_string n h)

number-minus : (n : ℕ) → n < 2 ^ 31 → number (b'-' ∷ to_string (suc n)) ≡ ranging (negsuc n)
number-minus n h =
    ap (λ o. elim o as (λ _. Ranging ℤ) [ none ↦ thrown | some n ↦ ranging n ]) (stoi-minus n h)

-- A text with a number in front of its minus.
parse_range-number :
    (d : ℕ) (ds : Bytes) (rest : Bytes) (a : ℤ)
    → Decimal (d ∷ ds)
    → number (d ∷ ds) ≡ ranging a
    → parse_range ((d ∷ ds) ++ (b'-' ∷ rest)) ≡ (
        (if length (d ∷ ds) == length ((d ∷ ds) ++ (b'-' ∷ rest)) - 1
          then ranging long_max
          else number rest)
        >>= λ b. ranging (record { start = a; end = b }))
unfolding parse_range parse_range_at
parse_range-number d ds rest a h e =
    let text : Bytes = (d ∷ ds) ++ (b'-' ∷ rest) in
    let open_ended = length (d ∷ ds) == length text - 1 in
    let finish : Bytes → ℤ → Ranging Range = λ behind start.
      (if open_ended then ranging long_max else number behind) >>= λ b.
      ranging (record { start = start; end = b }) in
    ap (parse_range_at text)
      (find_char-query b'-' (d ∷ ds) rest (Decimal-Without b'-' (d ∷ ds) refl h))
    ∙ (ap (λ t. number t >>= finish (drop (suc (length (d ∷ ds))) text))
          (take-append (d ∷ ds) (b'-' ∷ rest))
        ∙ (ap (λ r. r >>= finish (drop (suc (length (d ∷ ds))) text)) e
            ∙ ap (λ t. finish t a) (drop_behind (d ∷ ds) b'-' rest)))

-- The same for a text that is a number, whatever its first digit.
parse_range-digits :
    (s : Bytes) (rest : Bytes) (a : ℤ)
    → s ≢ []
    → Decimal s
    → number s ≡ ranging a
    → parse_range (s ++ (b'-' ∷ rest)) ≡ (
        (if length s == length (s ++ (b'-' ∷ rest)) - 1 then ranging long_max else number rest)
        >>= λ b. ranging (record { start = a; end = b }))
parse_range-digits [] rest a ne h e = absurd (ne refl)
parse_range-digits (d ∷ ds) rest a ne h e = parse_range-number d ds rest a h e

at_end : (s rest : Bytes) → rest ≢ [] → (length s == length (s ++ (b'-' ∷ rest)) - 1) ≡ false
at_end s [] ne = absurd (ne refl)
at_end s (r ∷ rest) ne = ground (arith, length-append s (b'-' ∷ (r ∷ rest)))

at_end-nil : (s : Bytes) → (length s == length (s ++ (b'-' ∷ [])) - 1) ≡ true
at_end-nil s = ground (arith, length-append s (b'-' ∷ []))

parse_range-last :
    (n : ℕ)
    → n < 2 ^ 31
    → parse_range (b'-' ∷ to_string (suc n)) ≡ ranging (record { start = negsuc n; end = long_max })
unfolding parse_range parse_range_at find_char
parse_range-last n h =
    ap (λ x. x >>= λ start. ranging (record { start = start; end = long_max })) (number-minus n h)

parse_range-text : (r : Asked) → IsAsked r → parse_range (range_text r) ≡ ranging (range_of r)
parse_range-text (between a b) h =
    parse_range-digits (to_string a) (to_string b) (pos a) (to_string-ne a) (to_string-Decimal a)
      (number-to_string a h.0)
    ∙ (ap
          (λ t. (if t then ranging long_max else number (to_string b)) >>= λ b.
            ranging (record { start = pos a; end = b }))
          (at_end (to_string a) (to_string b) (to_string-ne b))
        ∙ ap (λ n. n >>= λ b. ranging (record { start = pos a; end = b })) (number-to_string b h.1))
parse_range-text (from a) h =
    parse_range-digits (to_string a) [] (pos a) (to_string-ne a) (to_string-Decimal a)
      (number-to_string a h)
    ∙ ap
        (λ t. (if t then ranging long_max else number []) >>= λ b.
          ranging (record { start = pos a; end = b }))
        (at_end-nil (to_string a))
parse_range-text (last n) h = parse_range-last n h

parse_all-texts :
    (rs : List Asked) → All IsAsked rs → parse_all (map range_text rs) ≡ ranging (map range_of rs)
unfolding parse_all
parse_all-texts [] h = refl
parse_all-texts (r ∷ rs) h =
    ap (λ x. x >>= λ r. parse_all (map range_text rs) >>= λ rs. ranging (r ∷ rs))
      (parse_range-text r h.0)
    ∙ ap (λ x. x >>= λ rs. ranging (range_of r ∷ rs)) (parse_all-texts rs h.1)

range_text-Without : (r : Asked) → Without b',' (range_text r)
range_text-Without (between a b) =
    All-append (λ c. c ≢ b',') (to_string a) (b'-' ∷ to_string b)
      (Decimal-Without b',' (to_string a) refl (to_string-Decimal a))
      ((λ e. absurd (omega arith)), Decimal-Without b',' (to_string b) refl (to_string-Decimal b))
range_text-Without (from a) =
    All-append (λ c. c ≢ b',') (to_string a) (b'-' ∷ [])
      (Decimal-Without b',' (to_string a) refl (to_string-Decimal a))
      ((λ e. absurd (omega arith)), tt)
range_text-Without (last n) = (
  (λ e. absurd (omega arith)),
  Decimal-Without b',' (to_string (suc n)) refl (to_string-Decimal (suc n)),
)

texts-Without : (rs : List Asked) → All (Without b',') (map range_text rs)
texts-Without [] = tt
texts-Without (r ∷ rs) = (range_text-Without r, texts-Without rs)

range_text-ne : (r : Asked) → range_text r ≢ []
range_text-ne (between a b) = append-ne (to_string a) b'-' (to_string b)
range_text-ne (from a) = append-ne (to_string a) b'-' []
range_text-ne (last n) = λ e. cc

join-ne : (r : Asked) (rs : List Asked) → join b',' (map range_text (r ∷ rs)) ≢ []
unfolding join
join-ne r [] = range_text-ne r
join-ne r (q ∷ rs) = append-ne (range_text r) b',' (join b',' (map range_text (q ∷ rs)))

starts_with-append : (x s : Bytes) → starts_with (x ++ s) x ≡ true
unfolding starts_with
starts_with-append [] [] = refl
starts_with-append [] (b ∷ s) = refl
starts_with-append (b ∷ x) s = ground (arith, starts_with-append x s)

-- A Range header of one range or more, each with both ends, or from a byte on, or for the last
-- bytes, with numbers below 2 ^ 31, is read back by parseRanges as these ranges, in order; open
-- ends are the greatest long, and the last n bytes start at -n.
pub parse_ranges-text :
    (r : Asked) (rs : List Asked)
    → All IsAsked (r ∷ rs)
    → parse_ranges (bytes_prefix ++ join b',' (map range_text (r ∷ rs)))
      ≡ ranging (map range_of (r ∷ rs))
unfolding parse_ranges
parse_ranges-text r rs h =
    let text : Bytes = join b',' (map range_text (r ∷ rs)) in
    ap
      (λ t.
        if not t
        then bad_range
        else parse_all (split (drop (length bytes_prefix) (bytes_prefix ++ text)) b',')
          >>= some_ranges)
      (starts_with-append bytes_prefix text)
    ∙ (ap (λ ps. parse_all ps >>= some_ranges)
          (split-join b',' (range_text r) (map range_text rs) (texts-Without (r ∷ rs))
            (join-ne r rs))
        ∙ ap (λ x. x >>= some_ranges) (parse_all-texts (r ∷ rs) h))
