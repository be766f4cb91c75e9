-- ===== src/Hybi/Truncated.antt =====
-- src/main/c/HybiPacketDecoder.cpp on any bytes: where a call leaves the decoder, and its reads at
-- the end of the buffer.
use seasocks.Hybi.Decode.{bytes_left_lem}
use seasocks.Prelude.{
  ℕ, zero, suc, ◌+◌, ◌*◌, ◌/◌, ◌%◌, ◌^◌, ◌<◌, ◌≤◌, ◌≡◌, refl, get_elem?_lt, ◌⊎◌, inl, inr, Option,
  none, some, get_elem?, length, ◌==◌, Bytes, arith, ◌>>=◌, Bool, Bool-cases, ltb, leb,
  Option-cases,
}
use seasocks.Hybi.{
  Decoded, no_message, error, read_be, unmask, read_length, read_mask, bytes_left, waiting,
  decode_payload, decode_masked, decode_sized, decode_frame, decode_first, decode_next_message,
}

read_be-fits :
    (k : ℕ) (buffer : Bytes) (ptr acc v : ℕ)
    → ptr ≤ length buffer
    → read_be k buffer ptr acc ≡ some v
    → ptr + k ≤ length buffer
unfolding read_be
read_be-fits zero buffer ptr acc v h e = omega arith
read_be-fits (suc k) buffer ptr acc v h e = elim (Option-cases (get_elem? buffer ptr)) [
  | inl out ↦ cc (rw out at e)
  | inr (b, at) ↦ omega (
    arith,
    read_be-fits k buffer (ptr + 1) (acc * 256 + b) v (omega (arith, get_elem?_lt buffer ptr at))
        (rw at at e),
  )
]

-- Where a frame's decoding leaves the decoder: it waits or refuses in place, or it has taken at
-- least the two bytes of a header, and no more than the buffer holds.
abbrev pub Leaves : ℕ → Bytes → Option Decoded → Type 0
Leaves start buffer none = Unit
Leaves start buffer (some d) =
    ((d.message_start ≡ start) × ((d.state ≡ no_message) ⊎ (d.state ≡ error)))
    ⊎ ((start + 2 ≤ d.message_start) × (d.message_start ≤ length buffer))

Leaves-bind {ℓ} :
    {A : Type ℓ} (start : ℕ) (buffer : Bytes) (m : Option A) (f : A → Option Decoded)
    → ((a : A) → m ≡ some a → Leaves start buffer (f a))
    → Leaves start buffer (m >>= f)
Leaves-bind start buffer none f h = tt
Leaves-bind start buffer (some a) f h = h a refl

-- The positions that the header's fields hand on.
abbrev pub Behind : ℕ → Bytes → Option (ℕ × ℕ) → Type 0
Behind ptr buffer none = Unit
Behind ptr buffer (some (n, next)) = (ptr ≤ next) × (next ≤ length buffer)

abbrev pub BehindRead : ℕ → Bytes → Option (Option (ℕ × ℕ)) → Type 0
BehindRead ptr buffer none = Unit
BehindRead ptr buffer (some r) = Behind ptr buffer r

read_be-BehindRead :
    (ptr k : ℕ) (buffer : Bytes)
    → ptr ≤ length buffer
    → BehindRead ptr buffer (read_be k buffer ptr 0 >>= λ n. some (some (n, ptr + k)))
read_be-BehindRead ptr k buffer h = elim (Option-cases (read_be k buffer ptr 0)) [
  | inl out ↦ rw out tt
  | inr (v, at) ↦ rw at (omega arith, read_be-fits k buffer ptr 0 v h at)
]

pub read_length-BehindRead :
    (buffer : Bytes) (n ptr : ℕ)
    → ptr ≤ length buffer
    → BehindRead ptr buffer (read_length buffer n ptr)
unfolding read_length
read_length-BehindRead buffer n ptr h = elim (Bool-cases (n == 126)) [
  | inl two ↦ elim (Bool-cases (ltb (length buffer) 4)) [
    | inl short ↦ rw (two, short) tt
    | inr room ↦ rw (two, room) (read_be-BehindRead ptr 2 buffer h)
  ]
  | inr more ↦ elim (Bool-cases (n == 127)) [
    | inl eight ↦ elim (Bool-cases (ltb (length buffer) 10)) [
      | inl short ↦ rw (more, eight, short) tt
      | inr room ↦ rw (more, eight, room) (read_be-BehindRead ptr 8 buffer h)
    ]
    | inr one ↦ rw (more, one) (omega arith, h)
  ]
]

pub read_mask-BehindRead :
    (buffer : Bytes) (bit ptr : ℕ)
    → ptr ≤ length buffer
    → BehindRead ptr buffer (read_mask buffer bit ptr)
unfolding read_mask
read_mask-BehindRead buffer bit ptr h = elim (Bool-cases (bit == 0)) [
  | inl plain ↦ rw plain (omega arith, h)
  | inr masked ↦ elim (Bool-cases (ltb (length buffer) (ptr + 4))) [
    | inl short ↦ rw (masked, short) tt
    | inr room ↦ rw (masked, room) (read_be-BehindRead ptr 4 buffer h)
  ]
]

module _ (start : ℕ) (deflate : Bool) (buffer : Bytes) (small : length buffer < 2 ^ 64) where
  decode_payload-Leaves :
      (opcode n mask ptr : ℕ)
      → start + 2 ≤ ptr
      → ptr ≤ length buffer
      → Leaves start buffer (decode_payload start deflate buffer opcode n mask ptr)
  unfolding decode_payload waiting
  decode_payload-Leaves opcode n mask ptr lo hi =
      elim (Bool-cases (ltb (bytes_left buffer ptr) n)) [
        | inl wait ↦ rw wait (inl (refl, inl refl))
        | inr fits ↦ rw fits (
            Leaves-bind start buffer (unmask n buffer mask 0 ptr) _
              λ payload e. inr (omega arith, ground (arith, bytes_left_lem buffer ptr hi small)))
      ]

  decode_masked-Leaves :
      (opcode n ptr : ℕ) (r : Option (ℕ × ℕ))
      → start + 2 ≤ ptr
      → Behind ptr buffer r
      → Leaves start buffer (decode_masked start deflate buffer opcode n r)
  unfolding decode_masked waiting
  decode_masked-Leaves opcode n ptr none lo h = inl (refl, inl refl)
  decode_masked-Leaves opcode n ptr (some (mask, next)) lo h =
      decode_payload-Leaves opcode n mask next (omega arith) h.1

  decode_sized-Leaves :
      (opcode bit ptr : ℕ) (r : Option (ℕ × ℕ))
      → start + 2 ≤ ptr
      → Behind ptr buffer r
      → Leaves start buffer (decode_sized start deflate buffer opcode bit r)
  unfolding decode_sized waiting
  decode_sized-Leaves opcode bit ptr none lo h = inl (refl, inl refl)
  decode_sized-Leaves opcode bit ptr (some (n, next)) lo h =
      Leaves-bind start buffer (read_mask buffer bit next) _ λ r e.
        decode_masked-Leaves opcode n next r (omega arith)
          (rw e at (read_mask-BehindRead buffer bit next h.1))

  decode_frame-Leaves :
      (first second : ℕ)
      → start + 2 ≤ length buffer
      → Leaves start buffer (decode_frame start deflate buffer first second)
  unfolding decode_frame
  decode_frame-Leaves first second h =
      Leaves-bind start buffer (read_length buffer (second % 128) (start + 2)) _ λ r e.
        decode_sized-Leaves (first % 16) (second / 128) (start + 2) r (omega arith)
          (rw e at (read_length-BehindRead buffer (second % 128) (start + 2) h))

decode_first-Leaves :
    (buffer : Bytes) (start first second : ℕ)
    → length buffer < 2 ^ 64
    → start + 2 ≤ length buffer
    → Leaves start buffer (decode_first buffer start first second)
unfolding decode_first
decode_first-Leaves buffer start first second small h = elim (Bool-cases (first / 128 == 0)) [
  | inl clear ↦ rw clear (inl (refl, inr refl))
  | inr fin ↦ elim (Bool-cases (first / 16 % 4 == 0)) [
    | inl plain ↦
        rw (fin, plain)
          (decode_frame-Leaves start (first / 64 % 2 == 1) buffer small first second h)
    | inr reserved ↦ rw (fin, reserved) (inl (refl, inr refl))
  ]
]

-- On any buffer of less than 2 ^ 32 bytes, a call that completes either stays at the message's
-- start, waiting for bytes or refusing the frame, or moves on by two bytes at least and not past
-- the end of the buffer.
pub decode_next_message-Leaves :
    (buffer : Bytes) (start : ℕ)
    → length buffer < 2 ^ 32
    → Leaves start buffer (decode_next_message (record { buffer = buffer; message_start = start }))
unfolding decode_next_message waiting
decode_next_message-Leaves buffer start small =
    let small' : length buffer < 2 ^ 64 = omega arith in
    elim (Bool-cases (leb (length buffer) (start + 1))) [
      | inl short ↦ rw short (inl (refl, inl refl))
      | inr more ↦ rw more (
          Leaves-bind start buffer (get_elem? buffer start) _ λ first e.
            Leaves-bind start buffer (get_elem? buffer (start + 1)) _ λ second e'.
              decode_first-Leaves buffer start first second small'
                (omega (arith, get_elem?_lt buffer (start + 1) e')))
    ]
