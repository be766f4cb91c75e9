-- ===== src/Prelude/Bits.antt =====
-- Exclusive or of numbers by their lowest digit, and unmasking a byte twice.
use Prim.Native.Nat.{bit_or, bit_xor, digits, differ, bit_xor-bitwise}
use mathlib.Core.Path.{ap₂}
use native.Mathlib.Nat.{
  pow-succ', one-le-pow, mod-one, mod-eq_of_lt, mod-lt, div-add-mod, mul-add-mod_self_left,
}
use seasocks.Prelude.{
  ℕ, zero, suc, ◌+◌, ◌*◌, ◌/◌, ◌%◌, ◌^◌, ◌≤◌, ◌<◌, ◌≡◌, refl, ap, ◌∙◌, ◌≡⟨◌⟩◌, ◌∎, arith, Bool,
  true, ◌&&◌, ◌==◌, ==_iff,
}

abbrev xor_digits : ℕ → ℕ → ℕ → ℕ
xor_digits = digits (λ b. b) differ

xor_digits_fuel : (n m a b : ℕ) → a ≤ n → a ≤ m → xor_digits n a b ≡ xor_digits m a b
xor_digits_fuel zero zero a b p q = refl
xor_digits_fuel zero (suc m) zero b p q = refl
xor_digits_fuel zero (suc m) (suc a) b p q = absurd (omega arith)
xor_digits_fuel (suc n) zero zero b p q = refl
xor_digits_fuel (suc n) zero (suc a) b p q = absurd (omega arith)
xor_digits_fuel (suc n) (suc m) zero b p q = refl
xor_digits_fuel (suc n) (suc m) (suc a) b p q =
    rw (xor_digits_fuel n m (suc a / 2) (b / 2) (omega arith) (omega arith))

differ-digit : (x y : ℕ) → x < 2 → y < 2 → differ x y ≡ (x + y) % 2
differ-digit zero zero h k = refl
differ-digit zero (suc zero) h k = refl
differ-digit zero (suc (suc y)) h k = absurd (omega arith)
differ-digit (suc zero) zero h k = refl
differ-digit (suc zero) (suc zero) h k = refl
differ-digit (suc zero) (suc (suc y)) h k = absurd (omega arith)
differ-digit (suc (suc x)) y h k = absurd (omega arith)

xor_step_suc :
    (a b : ℕ) → bit_xor (suc a) b ≡ bit_xor (suc a / 2) (b / 2) * 2 + differ (suc a % 2) (b % 2)
xor_step_suc a b = omega (
  arith,
  bit_xor-bitwise (suc a) b,
  bit_xor-bitwise (suc a / 2) (b / 2),
  xor_digits_fuel a (suc a / 2) (suc a / 2) (b / 2) (omega arith) (omega arith),
)

zero-bit_xor : (b : ℕ) → bit_xor 0 b ≡ b
zero-bit_xor b = bit_xor-bitwise 0 b

pub bit_xor_step : (a b : ℕ) → bit_xor a b ≡ bit_xor (a / 2) (b / 2) * 2 + (a + b) % 2
bit_xor_step zero b = omega (arith, zero-bit_xor b, zero-bit_xor (b / 2))
bit_xor_step (suc a) b =
    omega (arith, xor_step_suc a b, differ-digit (suc a % 2) (b % 2) (omega arith) (omega arith))

bit_xor_fuel : (n a b : ℕ) → a ≤ n → b ≤ n → bit_xor (bit_xor a b) b ≡ a
bit_xor_fuel zero zero zero h k = refl
bit_xor_fuel zero zero (suc b) h k = absurd (omega arith)
bit_xor_fuel zero (suc a) b h k = absurd (omega arith)
bit_xor_fuel (suc n) a b h k = omega (
  arith,
  bit_xor_step a b,
  bit_xor_step (bit_xor a b) b,
  ap (λ (t : ℕ). bit_xor t (b / 2)) (halved a b),
  bit_xor_fuel n (a / 2) (b / 2) (omega arith) (omega arith),
)
  where
    halved : (a b : ℕ) → bit_xor a b / 2 ≡ bit_xor (a / 2) (b / 2)
    halved a b = omega (arith, bit_xor_step a b)

-- Masking twice gives the number back.
pub bit_xor_twice : (a b : ℕ) → bit_xor (bit_xor a b) b ≡ a
bit_xor_twice a b = bit_xor_fuel (a + b) a b (omega arith) (omega arith)

double-mod : (m x d : ℕ) → 0 < m → d < 2 → (2 * x + d) % (2 * m) ≡ 2 * (x % m) + d
double-mod m x d hm hd =
    (2 * x + d) % (2 * m)
    ≡⟨ ap (λ (t : ℕ). t % (2 * m)) split ⟩ (2 * m * (x / m) + (2 * (x % m) + d)) % (2 * m)
    ≡⟨ mul-add-mod_self_left (2 * m) (x / m) (2 * (x % m) + d) ⟩ (2 * (x % m) + d) % (2 * m)
    ≡⟨ mod-eq_of_lt (omega (arith, mod-lt x hm)) ⟩ 2 * (x % m) + d ∎
  where
    split : 2 * x + d ≡ 2 * m * (x / m) + (2 * (x % m) + d)
    split = omega (arith, div-add-mod x m)

abbrev Low : ℕ → Type 0
Low m = (a b : ℕ) → bit_xor a b % m ≡ bit_xor (a % m) (b % m)

Low-double : (m : ℕ) → 0 < m → Low m → Low (2 * m)
Low-double m h low a b = omega (
  arith,
  ap (λ (t : ℕ). t % (2 * m)) step,
  double-mod m (bit_xor (a / 2) (b / 2)) ((a + b) % 2) h (omega arith),
  low (a / 2) (b / 2),
  half a,
  half b,
  bit_xor_step (a % (2 * m)) (b % (2 * m)),
  ap₂ bit_xor (halved a) (halved b),
)
  where
    step : bit_xor a b ≡ 2 * bit_xor (a / 2) (b / 2) + (a + b) % 2
    step = omega (arith, bit_xor_step a b)

    half : (a : ℕ) → a % (2 * m) ≡ 2 * (a / 2 % m) + a % 2
    half a =
        ap (λ (t : ℕ). t % (2 * m)) (omega arith) ∙ double-mod m (a / 2) (a % 2) h (omega arith)

    halved : (a : ℕ) → a % (2 * m) / 2 ≡ a / 2 % m
    halved a = omega (arith, half a)

Low-pow : (k : ℕ) → Low (2 ^ k)
Low-pow zero a b = omega (arith, mod-one (bit_xor a b), ap₂ bit_xor (mod-one a) (mod-one b))
Low-pow (suc k) a b =
    rw (pow-succ' 2 k) (Low-double (2 ^ k) (one-le-pow k 2 (omega arith)) (Low-pow k) a b)

-- The low byte of an exclusive or comes from the low bytes alone.
pub bit_xor_byte : (a b : ℕ) → bit_xor a b % 256 ≡ bit_xor (a % 256) (b % 256)
bit_xor_byte a b = Low-pow 8 a b

pub bit_xor-lt : (a b : ℕ) → a < 256 → b < 256 → bit_xor a b < 256
bit_xor-lt a b h k = omega (arith, bit_xor_byte a b, ap₂ bit_xor (mod-eq_of_lt h) (mod-eq_of_lt k))

bit_xor-zero_fuel : (n a : ℕ) → a ≤ n → bit_xor a 0 ≡ a
bit_xor-zero_fuel zero zero h = refl
bit_xor-zero_fuel zero (suc a) h = absurd (omega arith)
bit_xor-zero_fuel (suc n) a h =
    omega (arith, bit_xor_step a 0, bit_xor-zero_fuel n (a / 2) (omega arith))

pub bit_xor-zero : (a : ℕ) → bit_xor a 0 ≡ a
bit_xor-zero a = bit_xor-zero_fuel a a (omega arith)

-- A test that holds at every number below a bound.
unfoldable pub holds_below : ℕ → (ℕ → Bool) → Bool
holds_below zero test = true
holds_below (suc n) test = test n && holds_below n test

pub holds_below_at :
    (n : ℕ) (test : ℕ → Bool) (x : ℕ) → holds_below n test ≡ true → x < n → test x ≡ true
unfolding holds_below
holds_below_at zero test x all h = absurd (omega arith)
holds_below_at (suc n) test x all h = ground (arith, holds_below_at n test x)

-- The first byte of a frame: the FIN bit over an opcode, and RSV1 over both.
fin_table : holds_below 16 (λ o. bit_or 0x80 o == 128 + o) ≡ true
unfolding holds_below
fin_table = refl

rsv1_table : holds_below 16 (λ o. bit_or (bit_or 0x80 o) 0x40 == 192 + o) ≡ true
unfolding holds_below
rsv1_table = refl

pub fin_byte : (o : ℕ) → o < 16 → bit_or 0x80 o ≡ 128 + o
fin_byte o h = (==_iff _ _).0 (holds_below_at 16 _ o fin_table h)

pub rsv1_byte : (o : ℕ) → o < 16 → bit_or (bit_or 0x80 o) 0x40 ≡ 192 + o
rsv1_byte o h = (==_iff _ _).0 (holds_below_at 16 _ o rsv1_table h)
