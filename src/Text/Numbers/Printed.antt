-- ===== src/Text/Numbers/Printed.antt =====
-- `std::stoi` reads what `std::to_string` prints.
use seasocks.Prelude.{
  ℕ, zero, suc, ◌+◌, ◌-◌, ◌*◌, ◌/◌, ◌%◌, ◌^◌, ◌<◌, ◌≡◌, ◌≢◌, refl, ap, sym, ◌∙◌, inl, inr,
  Bool-cases, true, false, [], ◌∷◌, ◌++◌, some, ◌==◌, ltb, Bytes, All, All-append, arith,
}
use seasocks.Prelude.Int.{pos, negsuc}
use seasocks.Text.Ascii.{is_digit, is_space}
use seasocks.Text.Words.{skip_whitespace}
use seasocks.Text.Digits.{digit, digit_value, print_fuel, to_string, value, value-to_string}
use seasocks.Text.Numbers.{digits_of, decimal, signed, stoi_from, stoi}

abbrev pub Decimal : Bytes → Type 0
Decimal s = All (λ b. is_digit b ≡ true) s

digit-Decimal : (d : ℕ) → d < 10 → is_digit (digit d) ≡ true
unfolding digit
digit-Decimal d h = ground arith

print_fuel-Decimal : (f n : ℕ) → Decimal (print_fuel f 10 n)
unfolding print_fuel
print_fuel-Decimal zero n = tt
print_fuel-Decimal (suc f) n = elim (Bool-cases (ltb n 10)) [
  | inl small ↦ rw small (ground arith, tt)
  | inr large ↦ rw large (
      All-append (λ b. is_digit b ≡ true) (print_fuel f 10 (n / 10)) (digit (n % 10) ∷ [])
        (print_fuel-Decimal f (n / 10)) (digit-Decimal (n % 10) (omega arith), tt))
]

pub to_string-Decimal : (n : ℕ) → Decimal (to_string n)
unfolding to_string
to_string-Decimal n = print_fuel-Decimal (suc n) n

append_ne : (s : Bytes) (b : ℕ) → (s ++ (b ∷ [])) ≢ []
append_ne [] b e = cc
append_ne (x ∷ s) b e = cc

pub to_string-ne : (n : ℕ) → to_string n ≢ []
unfolding to_string print_fuel
to_string-ne n = elim (Bool-cases (ltb n 10)) [
  | inl small ↦ rw small (λ e. cc)
  | inr large ↦ rw large (append_ne (print_fuel n 10 (n / 10)) (digit (n % 10)))
]

digits_of-Decimal : (s : Bytes) → Decimal s → digits_of s ≡ s
unfolding digits_of
digits_of-Decimal [] h = refl
digits_of-Decimal (b ∷ bs) h = rw h.0 (ap (◌∷◌ b) (digits_of-Decimal bs h.1))

digit_value-Decimal : (b : ℕ) → is_digit b ≡ true → digit_value b ≡ b - b'0'
unfolding digit_value
digit_value-Decimal b h = ground arith

decimal-value : (acc : ℕ) (s : Bytes) → Decimal s → decimal acc s ≡ value 10 acc s
unfolding decimal
decimal-value acc [] h = refl
decimal-value acc (b ∷ bs) h =
    decimal-value (acc * 10 + (b - b'0')) bs h.1
    ∙ ap (λ v. value 10 (acc * 10 + v) bs) (sym (digit_value-Decimal b h.0))

decimal-to_string : (n : ℕ) → decimal 0 (to_string n) ≡ n
decimal-to_string n = decimal-value 0 (to_string n) (to_string-Decimal n) ∙ value-to_string n

signed_positive :
    (s : Bytes) (n : ℕ) → s ≢ [] → decimal 0 s ≡ n → n < 2 ^ 31 → signed false s ≡ some (pos n)
unfolding signed
signed_positive [] n some_digit e small = absurd (some_digit refl)
signed_positive (d ∷ ds) n some_digit e small = rw e (ground arith)

signed_negative :
    (s : Bytes) (n : ℕ)
    → s ≢ []
    → decimal 0 s ≡ suc n
    → n < 2 ^ 31
    → signed true s ≡ some (negsuc n)
unfolding signed
signed_negative [] n some_digit e small = absurd (some_digit refl)
signed_negative (d ∷ ds) n some_digit e small = rw e (ground arith)

digit_facts :
    (b : ℕ)
    → is_digit b ≡ true
    → (is_space b ≡ false) × ((b == b'-') ≡ false) × ((b == b'+') ≡ false)
digit_facts b h = (ground arith, ground arith, ground arith)

stoi_from-Decimal : (s : Bytes) → Decimal s → s ≢ [] → stoi_from s ≡ signed false (digits_of s)
unfolding stoi_from
stoi_from-Decimal [] h some_digit = absurd (some_digit refl)
stoi_from-Decimal (b ∷ bs) h some_digit = let f = digit_facts b h.0 in rw (f.1) (rw (f.2) refl)

skip_whitespace-Decimal : (s : Bytes) → Decimal s → skip_whitespace s ≡ s
unfolding skip_whitespace
skip_whitespace-Decimal [] h = refl
skip_whitespace-Decimal (b ∷ bs) h = let f = digit_facts b h.0 in rw (f.0) refl

stoi-Decimal : (s : Bytes) → Decimal s → s ≢ [] → stoi s ≡ signed false s
unfolding stoi
stoi-Decimal s h some_digit =
    ap stoi_from (skip_whitespace-Decimal s h)
    ∙ (stoi_from-Decimal s h some_digit ∙ ap (signed false) (digits_of-Decimal s h))

pub stoi-to_string : (n : ℕ) → n < 2 ^ 31 → stoi (to_string n) ≡ some (pos n)
stoi-to_string n small =
    stoi-Decimal (to_string n) (to_string-Decimal n) (to_string-ne n)
    ∙ signed_positive (to_string n) n (to_string-ne n) (decimal-to_string n) small

pub stoi-minus : (n : ℕ) → n < 2 ^ 31 → stoi (b'-' ∷ to_string (suc n)) ≡ some (negsuc n)
unfolding stoi stoi_from skip_whitespace
stoi-minus n small =
    ap (signed true) (digits_of-Decimal (to_string (suc n)) (to_string-Decimal (suc n)))
    ∙ signed_negative (to_string (suc n)) n (to_string-ne (suc n)) (decimal-to_string (suc n)) small
