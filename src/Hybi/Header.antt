-- ===== src/Hybi/Header.antt =====
-- The reads of a frame's header by src/main/c/HybiPacketDecoder.cpp.
use native.Mathlib.Nat.{add-zero}
use seasocks.Prelude.{
  ℕ, ◌+◌, ◌*◌, ◌/◌, ◌%◌, ◌^◌, ◌<◌, ◌≤◌, ◌≡◌, refl, ◌∙◌, inl, inr, ◌∷◌, ◌++◌, Option, none, some,
  get_elem?, length, Bytes, IsByte, All, arith, Bool, Bool-cases, ltb,
}
use seasocks.Hybi.Frame.{Key, IsKey, key_value, key_bytes, masked, length_field, frame, first_byte}
use seasocks.Hybi.Reads.{
  length-masked, read_key, Stands, Stands-left, Stands-right, read_be_lem, unmask-masked, no_key,
  masked-no_key,
}
use seasocks.Hybi.{read_be, unmask, read_length, read_mask}

module _ (buffer : Bytes) (ptr : ℕ) where
  read_length_two :
      (n m : ℕ)
      → m ≡ 126
      → 4 ≤ length buffer
      → read_be 2 buffer ptr 0 ≡ some n
      → read_length buffer m ptr ≡ some (some (n, ptr + 2))
  unfolding read_length
  read_length_two n m e h r = rw (e, r) (ground arith)

  read_length_eight :
      (n m : ℕ)
      → m ≡ 127
      → 10 ≤ length buffer
      → read_be 8 buffer ptr 0 ≡ some n
      → read_length buffer m ptr ≡ some (some (n, ptr + 8))
  unfolding read_length
  read_length_eight n m e h r = rw (e, r) (ground arith)

  read_length_one : (n m : ℕ) → m ≡ n → n < 126 → read_length buffer m ptr ≡ some (some (n, ptr))
  unfolding read_length
  read_length_one n m e h = rw e (ground arith)

-- The field of the length, at the frame's second byte.
pub record LengthRead (buffer : Bytes) (ptr mask_bit n : ℕ) : Type 0 where
  pub second : ℕ
  pub at : get_elem? buffer ptr ≡ some second
  pub bit : second / 128 ≡ mask_bit
  pub reads :
      read_length buffer (second % 128) (ptr + 1)
      ≡ some (some (n, ptr + length (length_field mask_bit n)))

module _ (buffer : Bytes) (ptr mask_bit n : ℕ) (hb : mask_bit < 2) (hn : n < 2 ^ 64)
    (hp : 0 < ptr) where
  some_pair :
      (a b : ℕ)
      → a ≡ b
      → ◌≡◌ {A = Option (Option (ℕ × ℕ))} (some (some (n, a))) (some (some (n, b)))
  some_pair a b e = rw e

  pub read_length_lem :
      ptr + length (length_field mask_bit n) ≤ length buffer
      → Stands buffer ptr (length_field mask_bit n)
      → LengthRead buffer ptr mask_bit n
  unfolding length_field
  read_length_lem fits s = elim (Bool-cases (ltb n 126)) [
    | inl short ↦ record {
      second = mask_bit * 128 + n;
      at = (rw short at s).0;
      bit = ground arith;
      reads =
          read_length_one buffer (ptr + 1) n ((mask_bit * 128 + n) % 128) (ground arith)
            (ground arith)
          ∙ rw short (some_pair _ _ (omega arith));
    }
    | inr more ↦ elim (Bool-cases (ltb n 65536)) [
      | inl two ↦
          let (at, tail) = rw (more, two) at s in
          let room = rw (more, two) at fits in
          record {
            second = mask_bit * 128 + 126;
            at = at;
            bit = omega arith;
            reads =
                read_length_two buffer (ptr + 1) n _ (omega arith) (omega arith)
                  (read_be_lem 2 buffer (ptr + 1) n (ground arith) tail)
                ∙ rw (more, two) (some_pair _ _ (omega arith));
          }
      | inr eight ↦
          let (at, tail) = rw (more, eight) at s in
          let room = rw (more, eight) at fits in
          record {
            second = mask_bit * 128 + 127;
            at = at;
            bit = omega arith;
            reads =
                read_length_eight buffer (ptr + 1) n _ (omega arith) (omega arith)
                  (read_be_lem 8 buffer (ptr + 1) n (omega arith) tail)
                ∙ rw (more, eight) (some_pair _ _ (omega arith));
          }
    ]
  ]

abbrev pub key_length : Option Key → ℕ
key_length none = 0
key_length (some k) = 4

abbrev pub KeyOk : Option Key → Type 0
KeyOk none = Unit
KeyOk (some k) = IsKey k

-- What `frame` puts behind the first byte, by the key.
abbrev pub mask_bit_of : Option Key → ℕ
mask_bit_of none = 0
mask_bit_of (some k) = 1

abbrev pub body : Option Key → Bytes → Bytes
body none payload = payload
body (some k) payload = key_bytes k ++ masked k 0 payload

pub frame-body :
    (deflate : Bool) (opcode : ℕ) (key : Option Key) (payload : Bytes)
    → frame deflate opcode key payload
      ≡ first_byte deflate opcode
        ∷ (length_field (mask_bit_of key) (length payload) ++ body key payload)
unfolding frame
frame-body deflate opcode none payload = refl
frame-body deflate opcode (some k) payload = refl

pub length-body :
    (key : Option Key) (payload : Bytes)
    → length (body key payload) ≡ key_length key + length payload
length-body none payload = omega arith
length-body (some k) payload = omega (arith, length-masked k 0 payload)

-- The mask and the unmasked payload.
pub record BodyRead (buffer : Bytes) (ptr bit next : ℕ) (payload : Bytes) : Type 0 where
  pub mask : ℕ
  pub reads_mask : read_mask buffer bit ptr ≡ some (some (mask, next))
  pub reads_payload : unmask (length payload) buffer mask 0 next ≡ some payload

pub read_body :
    (key : Option Key) (buffer payload : Bytes) (ptr : ℕ)
    → KeyOk key
    → All IsByte payload
    → ptr + length (body key payload) ≤ length buffer
    → Stands buffer ptr (body key payload)
    → BodyRead buffer ptr (mask_bit_of key) (ptr + key_length key) payload
unfolding read_mask
read_body none buffer payload ptr v b fits s = record {
  mask = 0;
  reads_mask = rw add-zero;
  reads_payload =
      rw add-zero (
        unmask-masked payload buffer no_key 0 ptr (omega arith) b (rw (masked-no_key 0 payload) s));
}
read_body (some k) buffer payload ptr v b fits s = record {
  mask = key_value k;
  reads_mask =
      ground (
        arith,
        read_key buffer ptr k (Stands-left buffer ptr (key_bytes k) (masked k 0 payload) s),
      );
  reads_payload =
      unmask-masked payload buffer k 0 (ptr + 4) v b
        (Stands-right buffer ptr (key_bytes k) (masked k 0 payload) s);
}

pub mask_bit_of-lt : (key : Option Key) → mask_bit_of key < 2
mask_bit_of-lt none = omega arith
mask_bit_of-lt (some k) = omega arith
