-- ===== src/Hybi/Reads.antt =====
-- What the reads of src/main/c/HybiPacketDecoder.cpp find in a buffer that holds a frame.
use Prim.Native.Nat.{bit_xor}
use mathlib.Core.Path.{ap₂}
use native.Mathlib.Nat.{
  mod-eq_of_lt, mod-lt, mod-one, div-add-mod, mul-add-mod_self_left, mul-le-mul_right, pow-succ',
  one-le-pow,
}
use seasocks.Prelude.{
  ℕ, zero, suc, ◌+◌, ◌-◌, ◌*◌, ◌/◌, ◌%◌, ◌^◌, ◌<◌, ◌≤◌, ◌≡◌, refl, ap, ◌∙◌, ◌≡⟨◌⟩◌, ◌∎, [], ◌∷◌,
  ◌++◌, some, get_elem?, length, Bytes, IsByte, All, arith,
}
use seasocks.Prelude.Bits.{bit_xor_twice, bit_xor_byte, bit_xor-zero, bit_xor-lt}
use seasocks.Hybi.Frame.{Key, IsKey, key_value, key_bytes, key_at, masked, be_bytes}
use seasocks.Hybi.{read_be, unmask, unmask_byte}

-- The bytes `xs` stand in the buffer from position `ptr` on.
abbrev pub Stands : Bytes → ℕ → Bytes → Type 0
Stands buffer ptr [] = Unit
Stands buffer ptr (x ∷ xs) = (get_elem? buffer ptr ≡ some x) × Stands buffer (ptr + 1) xs

pub Stands-left :
    (buffer : Bytes) (ptr : ℕ) (xs ys : Bytes) → Stands buffer ptr (xs ++ ys) → Stands buffer ptr xs
Stands-left buffer ptr [] ys h = tt
Stands-left buffer ptr (x ∷ xs) ys h = (h.0, Stands-left buffer (ptr + 1) xs ys h.1)

pub Stands-right :
    (buffer : Bytes) (ptr : ℕ) (xs ys : Bytes)
    → Stands buffer ptr (xs ++ ys)
    → Stands buffer (ptr + length xs) ys
Stands-right buffer ptr [] ys h = let e : ptr + 0 ≡ ptr = omega arith in rw e h
Stands-right buffer ptr (x ∷ xs) ys h =
    let e : ptr + suc (length xs) ≡ ptr + 1 + length xs = omega arith in
    rw e (Stands-right buffer (ptr + 1) xs ys h.1)

Stands-cons :
    (x : ℕ) (buffer : Bytes) (ptr : ℕ) (xs : Bytes)
    → Stands buffer ptr xs
    → Stands (x ∷ buffer) (suc ptr) xs
Stands-cons x buffer ptr [] h = tt
Stands-cons x buffer ptr (y ∷ xs) h =
    let e : suc ptr + 1 ≡ suc (ptr + 1) = omega arith in
    (h.0, rw e (Stands-cons x buffer (ptr + 1) xs h.1))

Stands-front : (xs rest : Bytes) → Stands (xs ++ rest) 0 xs
Stands-front [] rest = tt
Stands-front (x ∷ xs) rest = (refl, Stands-cons x (xs ++ rest) 0 xs (Stands-front xs rest))

pub Stands-middle : (before xs rest : Bytes) → Stands (before ++ (xs ++ rest)) (length before) xs
Stands-middle [] xs rest = Stands-front xs rest
Stands-middle (b ∷ before) xs rest =
    Stands-cons b (before ++ (xs ++ rest)) (length before) xs (Stands-middle before xs rest)

-- The digit that byte `k` adds.
mod-digit : (p n : ℕ) → 0 < p → n % (256 * p) ≡ n / p % 256 * p + n % p
mod-digit p n h =
    n % (256 * p)
    ≡⟨ ap (λ (t : ℕ). t % (256 * p)) split ⟩
      (256 * p * (n / p / 256) + (n / p % 256 * p + n % p)) % (256 * p)
    ≡⟨ mul-add-mod_self_left (256 * p) (n / p / 256) (n / p % 256 * p + n % p) ⟩
      (n / p % 256 * p + n % p) % (256 * p)
    ≡⟨ mod-eq_of_lt small ⟩ n / p % 256 * p + n % p ∎
  where
    digit : n / p ≡ 256 * (n / p / 256) + n / p % 256
    digit = omega arith

    split : n ≡ 256 * p * (n / p / 256) + (n / p % 256 * p + n % p)
    split = omega (arith, div-add-mod n p, ap (λ (t : ℕ). p * t) digit)

    top : n / p % 256 * p ≤ 255 * p
    top = mul-le-mul_right p (omega arith)

    small : n / p % 256 * p + n % p < 256 * p
    small = omega (arith, top, mod-lt n h)

-- A big-endian integer is read back, with what was read before it in front.
read_be-Stands :
    (k : ℕ) (buffer : Bytes) (ptr acc n : ℕ)
    → Stands buffer ptr (be_bytes k n)
    → read_be k buffer ptr acc ≡ some (acc * 256 ^ k + n % 256 ^ k)
unfolding read_be
read_be-Stands zero buffer ptr acc n s = ap some (omega (arith, mod-one n))
read_be-Stands (suc k) buffer ptr acc n s = rw s.0 (
    read_be-Stands k buffer (ptr + 1) (acc * 256 + n / 256 ^ k % 256) n s.1
    ∙ ap some (
        omega (
          arith,
          pow-succ' 256 k,
          ap (λ (t : ℕ). acc * t) (pow-succ' 256 k),
          ap (λ (t : ℕ). n % t) (pow-succ' 256 k),
          mod-digit (256 ^ k) n (one-le-pow k 256 (omega arith)),
        )))

pub read_be_lem :
    (k : ℕ) (buffer : Bytes) (ptr n : ℕ)
    → n < 256 ^ k
    → Stands buffer ptr (be_bytes k n)
    → read_be k buffer ptr 0 ≡ some n
read_be_lem k buffer ptr n h s =
    read_be-Stands k buffer ptr 0 n s ∙ ap some (omega (arith, mod-eq_of_lt h))

unmask_low : (b c m : ℕ) → b < 256 → c < 256 → m % 256 ≡ c → bit_xor (bit_xor b c) m % 256 ≡ b
unmask_low b c m hb hc e =
    bit_xor_byte (bit_xor b c) m
    ∙ ap₂ bit_xor (mod-eq_of_lt (bit_xor-lt b c hb hc)) e
    ∙ bit_xor_twice b c

-- The key's byte is the low byte of the shifted mask.
key_at-shift :
    (k : Key) (i : ℕ)
    → IsKey k
    → (key_value k / 2 ^ ((3 - i % 4) * 8) % 256 ≡ key_at k i) × (key_at k i < 256)
key_at-shift k i v = at (i % 4) refl
  where
    at :
        (r : ℕ)
        → i % 4 ≡ r
        → (key_value k / 2 ^ ((3 - i % 4) * 8) % 256 ≡ key_at k i) × (key_at k i < 256)
    at zero e = rw e (omega arith, omega arith)
    at (suc zero) e = rw e (omega arith, omega arith)
    at (suc (suc zero)) e = rw e (omega arith, omega arith)
    at (suc (suc (suc zero))) e = rw e (omega arith, omega arith)
    at (suc (suc (suc (suc r)))) e = absurd (omega arith)

-- Unmasking what the key has masked.
unmask_byte-key_at :
    (k : Key) (i b : ℕ)
    → IsKey k
    → b < 256
    → unmask_byte (key_value k) i (bit_xor b (key_at k i)) ≡ b
unfolding unmask_byte
unmask_byte-key_at k i b v h =
    let (e, lt) = key_at-shift k i v in unmask_low b (key_at k i) _ h lt e

pub unmask-masked :
    (payload buffer : Bytes) (k : Key) (i ptr : ℕ)
    → IsKey k
    → All IsByte payload
    → Stands buffer ptr (masked k i payload)
    → unmask (length payload) buffer (key_value k) i ptr ≡ some payload
unfolding unmask masked
unmask-masked [] buffer k i ptr v h s = refl
unmask-masked (b ∷ bs) buffer k i ptr v h s =
    rw (s.0, unmask-masked bs buffer k (i + 1) (ptr + 1) v h.1 s.1)
      (ap some (ap (λ c. c ∷ bs) (unmask_byte-key_at k i b v h.0)))

abbrev pub no_key : Key
no_key = record { k0 = 0; k1 = 0; k2 = 0; k3 = 0 }

key_at-no_key : (i : ℕ) → key_at no_key i ≡ 0
key_at-no_key i = ground arith

pub masked-no_key : (i : ℕ) (payload : Bytes) → masked no_key i payload ≡ payload
unfolding masked
masked-no_key i [] = refl
masked-no_key i (b ∷ bs) = rw (key_at-no_key i, bit_xor-zero b, masked-no_key (i + 1) bs) refl

pub length-masked :
    (k : Key) (i : ℕ) (payload : Bytes) → length (masked k i payload) ≡ length payload
unfolding masked
length-masked k i [] = refl
length-masked k i (b ∷ bs) = ap suc (length-masked k (i + 1) bs)

pub read_key :
    (buffer : Bytes) (ptr : ℕ) (k : Key)
    → Stands buffer ptr (key_bytes k)
    → read_be 4 buffer ptr 0 ≡ some (key_value k)
unfolding read_be
read_key buffer ptr k s = rw (s.0, s.1.0, s.1.1.0, s.1.1.1.0) (ap some (omega arith))
