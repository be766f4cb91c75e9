-- ===== src/Hybi/Frame.antt =====
-- Frames as RFC 6455 lays them out, independently of the decoder in
-- src/main/c/HybiPacketDecoder.cpp and of the sender in src/main/c/Connection.cpp.
use Prim.Native.Nat.{bit_xor}
use seasocks.Prelude.{
  ℕ, zero, suc, ◌+◌, ◌*◌, ◌/◌, ◌%◌, ◌^◌, ◌<◌, ◌≡◌, refl, Bool, false, [], ◌∷◌, ◌++◌, Option, none,
  some, length, ltb, ◌==◌, if◌then◌else◌, Bytes,
}

-- The low `k` bytes of a number, most significant first.
abbrev pub be_bytes : ℕ → ℕ → Bytes
be_bytes zero n = []
be_bytes (suc k) n = (n / 256 ^ k % 256) ∷ be_bytes k n

-- A masking key.
pub record Key : Type 0 where
  pub k0 : ℕ
  pub k1 : ℕ
  pub k2 : ℕ
  pub k3 : ℕ

pub record IsKey (k : Key) : Type 0 where
  pub byte0 : k.k0 < 256
  pub byte1 : k.k1 < 256
  pub byte2 : k.k2 < 256
  pub byte3 : k.k3 < 256

abbrev pub key_bytes : Key → Bytes
key_bytes k = k.k0 ∷ k.k1 ∷ k.k2 ∷ k.k3 ∷ []

-- The key as the number that a receiver reads.
abbrev pub key_value : Key → ℕ
key_value k = ((k.k0 * 256 + k.k1) * 256 + k.k2) * 256 + k.k3

-- The byte of the key that masks byte `i` of the payload.
abbrev pub key_at : Key → ℕ → ℕ
key_at k i =
    if i % 4 == 0 then k.k0 else if i % 4 == 1 then k.k1 else if i % 4 == 2 then k.k2 else k.k3

-- The payload from byte `i` on, masked.
unfoldable pub masked : Key → ℕ → Bytes → Bytes
masked k i [] = []
masked k i (b ∷ bs) = bit_xor b (key_at k i) ∷ masked k (i + 1) bs

-- The field of the payload's length, under the mask bit.
unfoldable pub length_field : ℕ → ℕ → Bytes
length_field mask_bit n =
    if ltb n 126
    then (mask_bit * 128 + n) ∷ []
    else if ltb n 65536
    then (mask_bit * 128 + 126) ∷ be_bytes 2 n
    else (mask_bit * 128 + 127) ∷ be_bytes 8 n

-- FIN is set, and RSV1 where the payload is compressed.
abbrev pub first_byte : Bool → ℕ → ℕ
first_byte deflate opcode = 128 + (if deflate then 64 else 0) + opcode

-- A whole frame; what a server sends has no key, what a client sends has one.
unfoldable pub frame : Bool → ℕ → Option Key → Bytes → Bytes
unfolding length_field masked
frame deflate opcode none payload =
    first_byte deflate opcode ∷ (length_field 0 (length payload) ++ payload)
frame deflate opcode (some k) payload =
    first_byte deflate opcode
    ∷ (length_field 1 (length payload) ++ (key_bytes k ++ masked k 0 payload))

-- A text frame of two bytes, masked.
masked_frame :
    frame false 1 (some (record { k0 = 1; k1 = 2; k2 = 3; k3 = 4 })) (b'H' ∷ b'i' ∷ [])
    ≡ 0x81 ∷ 0x82 ∷ 1 ∷ 2 ∷ 3 ∷ 4 ∷ 0x49 ∷ 0x6b ∷ []
unfolding frame length_field masked
masked_frame = refl
