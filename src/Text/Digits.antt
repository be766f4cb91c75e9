-- ===== src/Text/Digits.antt =====
-- Numbers in decimal and hexadecimal: `std::to_string` of src/main/c/seasocks/ToString.h, and the
-- streams with `std::hex` of src/main/c/Connection.cpp.
use native.Mathlib.Nat.{div-lt_self, mod-lt, div-add-mod'}
use seasocks.Prelude.{
  ℕ, zero, suc, ◌+◌, ◌-◌, ◌*◌, ◌/◌, ◌%◌, ◌<◌, ◌≤◌, ◌≡◌, refl, ap, ◌∙◌, [], ◌∷◌, ◌++◌, ltb,
  if◌then◌else◌, Bytes, codes, arith, Bool-cases, inl, inr, ◌⊎◌, All, All-append,
}

-- Digits are lower case, as `std::hex` writes them.
unfoldable pub digit : ℕ → ℕ
digit d = if ltb d 10 then b'0' + d else b'a' + (d - 10)

unfoldable pub print_fuel : ℕ → ℕ → ℕ → Bytes
unfolding digit
print_fuel zero base n = []
print_fuel (suc f) base n =
    let more = print_fuel f base (n / base) in
    if ltb n base then digit n ∷ [] else more ++ (digit (n % base) ∷ [])

unfoldable pub to_string : ℕ → Bytes
unfolding print_fuel
to_string n = print_fuel (suc n) 10 n

unfoldable pub to_hex : ℕ → Bytes
unfolding print_fuel
to_hex n = print_fuel (suc n) 16 n

-- The value of a digit, and of a run of digits behind what stands in front of them.
unfoldable pub digit_value : ℕ → ℕ
digit_value c = if ltb c b'a' then c - b'0' else c - b'a' + 10

abbrev pub value : ℕ → ℕ → Bytes → ℕ
value base acc [] = acc
value base acc (c ∷ cs) = value base (acc * base + digit_value c) cs

pub digit_value-digit : (d : ℕ) → d < 16 → digit_value (digit d) ≡ d
unfolding digit_value digit
digit_value-digit d h = ground arith

value-append :
    (base acc : ℕ) (xs ys : Bytes) → value base acc (xs ++ ys) ≡ value base (value base acc xs) ys
value-append base acc [] ys = refl
value-append base acc (x ∷ xs) ys = value-append base (acc * base + digit_value x) xs ys

to_string_2024 : to_string 2024 ≡ codes "2024"
unfolding to_string
to_string_2024 = refl

to_hex_beef : to_hex 48879 ≡ codes "beef"
unfolding to_hex
to_hex_beef = refl

value-print_fuel :
    (base f n : ℕ) → 1 < base → base ≤ 16 → n < f → value base 0 (print_fuel f base n) ≡ n
unfolding print_fuel
value-print_fuel base zero n h k lt = absurd (omega arith)
value-print_fuel base (suc f) n h k lt = elim (Bool-cases (ltb n base)) [
  | inl small ↦ rw small (omega (arith, digit_value-digit n (ground arith)))
  | inr large ↦
      let less : n / base < f = omega (arith, div-lt_self {n = n} {k = base} (ground arith) h) in
      rw large (
        value-append base 0 (print_fuel f base (n / base)) (digit (n % base) ∷ [])
        ∙ omega (
          arith,
          ap (λ (t : ℕ). t * base) (value-print_fuel base f (n / base) h k less),
          digit_value-digit (n % base) (omega (arith, mod-lt n {m = base} (omega arith))),
          div-add-mod' n base,
        ))
]

-- What is printed reads back.
pub value-to_hex : (n : ℕ) → value 16 0 (to_hex n) ≡ n
unfolding to_hex
value-to_hex n = value-print_fuel 16 (suc n) n (omega arith) (omega arith) (omega arith)

pub value-to_string : (n : ℕ) → value 10 0 (to_string n) ≡ n
unfolding to_string
value-to_string n = value-print_fuel 10 (suc n) n (omega arith) (omega arith) (omega arith)

-- A hexadecimal digit as it is printed.
abbrev pub IsDigit : ℕ → Type 0
IsDigit c = ((b'0' ≤ c) × (c ≤ b'9')) ⊎ ((b'a' ≤ c) × (c ≤ b'f'))

digit-IsDigit : (d : ℕ) → d < 16 → IsDigit (digit d)
unfolding digit
digit-IsDigit d h = ground arith

print_fuel-IsDigit : (base f n : ℕ) → 0 < base → base ≤ 16 → All IsDigit (print_fuel f base n)
unfolding print_fuel
print_fuel-IsDigit base zero n h k = tt
print_fuel-IsDigit base (suc f) n h k = elim (Bool-cases (ltb n base)) [
  | inl small ↦ rw small (digit-IsDigit n (ground arith), tt)
  | inr large ↦ rw large (
      All-append IsDigit (print_fuel f base (n / base)) (digit (n % base) ∷ [])
        (print_fuel-IsDigit base f (n / base) h k)
        (digit-IsDigit (n % base) (omega (arith, mod-lt n {m = base} h)), tt))
]

pub to_hex-IsDigit : (n : ℕ) → All IsDigit (to_hex n)
unfolding to_hex
to_hex-IsDigit n = print_fuel-IsDigit 16 (suc n) n (omega arith) (omega arith)
