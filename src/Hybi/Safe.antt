-- ===== src/Hybi/Safe.antt =====
-- src/main/c/HybiPacketDecoder.cpp: reads outside the buffer. The tests of the buffer's size count from
-- the buffer's start and not from the message's.
use seasocks.Prelude.{
  ℕ, zero, suc, ◌+◌, ◌*◌, ◌/◌, ◌%◌, ◌^◌, ◌<◌, ◌≤◌, ◌≡◌, ◌≢◌, refl, get_elem?-lt, get_elem?-ge, ◌∙◌,
  inl, inr, [], ◌∷◌, ◌++◌, append-nil, Option, none, some, length, length-append, ◌==◌, Bytes,
  arith, ◌>>=◌, Bool, Bool-cases, ltb, leb,
}
use seasocks.Hybi.Decode.{bytes_left_lem, decode_next_message_lem, decode_first_lem}
use seasocks.Hybi.Reads.{Stands-middle}
use seasocks.Hybi.Frame.{first_byte}
use seasocks.Hybi.Truncated.{Behind, read_length-BehindRead, read_mask-BehindRead}
use seasocks.Hybi.{
  read_be, unmask, read_length, read_mask, bytes_left, decode_payload, decode_masked, decode_sized,
  decode_frame, decode_first, decode_next_message,
}

bind-total {ℓ κ} :
    {A : Type ℓ} {B : Type κ} (m : Option A) (f : A → Option B)
    → m ≢ none
    → ((a : A) → m ≡ some a → f a ≢ none)
    → (m >>= f) ≢ none
bind-total none f h k = absurd (h refl)
bind-total (some a) f h k = k a refl

module _ (buffer : Bytes) (small : length buffer < 2 ^ 32) where
  read_be-total : (k ptr acc : ℕ) → ptr + k ≤ length buffer → read_be k buffer ptr acc ≢ none
  unfolding read_be
  read_be-total zero ptr acc h = λ e. cc
  read_be-total (suc k) ptr acc h =
      let (b, at) = get_elem?-lt buffer ptr (omega arith) in
      rw at (read_be-total k (ptr + 1) (acc * 256 + b) (omega arith))

  unmask-total : (n mask i ptr : ℕ) → ptr + n ≤ length buffer → unmask n buffer mask i ptr ≢ none
  unfolding unmask
  unmask-total zero mask i ptr h = λ e. cc
  unmask-total (suc n) mask i ptr h =
      let (b, at) = get_elem?-lt buffer ptr (omega arith) in
      rw at (
        bind-total (unmask n buffer mask (i + 1) (ptr + 1)) _
          (unmask-total n mask (i + 1) (ptr + 1) (omega arith)) (λ rest e e'. cc))

  read_length-total : (n : ℕ) → 2 ≤ length buffer → read_length buffer n 2 ≢ none
  unfolding read_length
  read_length-total n h = elim (Bool-cases (n == 126)) [
    | inl two ↦ elim (Bool-cases (ltb (length buffer) 4)) [
      | inl short ↦ rw (two, short) (λ e. cc)
      | inr room ↦
          rw (two, room) (bind-total _ _ (read_be-total 2 2 0 (ground arith)) (λ v e e'. cc))
    ]
    | inr more ↦ elim (Bool-cases (n == 127)) [
      | inl eight ↦ elim (Bool-cases (ltb (length buffer) 10)) [
        | inl short ↦ rw (more, eight, short) (λ e. cc)
        | inr room ↦
            rw (more, eight, room)
              (bind-total _ _ (read_be-total 8 2 0 (ground arith)) (λ v e e'. cc))
      ]
      | inr one ↦ rw (more, one) (λ e. cc)
    ]
  ]

  read_mask-total : (bit ptr : ℕ) → read_mask buffer bit ptr ≢ none
  unfolding read_mask
  read_mask-total bit ptr = elim (Bool-cases (bit == 0)) [
    | inl plain ↦ rw plain (λ e. cc)
    | inr masked ↦ elim (Bool-cases (ltb (length buffer) (ptr + 4))) [
      | inl short ↦ rw (masked, short) (λ e. cc)
      | inr room ↦
          rw (masked, room) (bind-total _ _ (read_be-total 4 ptr 0 (ground arith)) (λ v e e'. cc))
    ]
  ]

  decode_payload-total :
      (start : ℕ) (deflate : Bool) (opcode n mask ptr : ℕ)
      → ptr ≤ length buffer
      → decode_payload start deflate buffer opcode n mask ptr ≢ none
  unfolding decode_payload
  decode_payload-total start deflate opcode n mask ptr h =
      elim (Bool-cases (ltb (bytes_left buffer ptr) n)) [
        | inl wait ↦ rw wait (λ e. cc)
        | inr fits ↦ rw fits (
            bind-total _ _
              (unmask-total n mask 0 ptr
                (ground (arith, bytes_left_lem buffer ptr h (omega arith))))
              (λ v e e'. cc))
      ]

  decode_masked-total :
      (start : ℕ) (deflate : Bool) (opcode n ptr : ℕ) (r : Option (ℕ × ℕ))
      → Behind ptr buffer r
      → decode_masked start deflate buffer opcode n r ≢ none
  unfolding decode_masked
  decode_masked-total start deflate opcode n ptr none h = λ e. cc
  decode_masked-total start deflate opcode n ptr (some (mask, next)) h =
      decode_payload-total start deflate opcode n mask next h.1

  decode_sized-total :
      (start : ℕ) (deflate : Bool) (opcode bit ptr : ℕ) (r : Option (ℕ × ℕ))
      → Behind ptr buffer r
      → decode_sized start deflate buffer opcode bit r ≢ none
  unfolding decode_sized
  decode_sized-total start deflate opcode bit ptr none h = λ e. cc
  decode_sized-total start deflate opcode bit ptr (some (n, next)) h =
      bind-total (read_mask buffer bit next) _ (read_mask-total bit next) λ r e.
        decode_masked-total start deflate opcode n next r
          (rw e at (read_mask-BehindRead buffer bit next h.1))

  decode_frame-total :
      (deflate : Bool) (first second : ℕ)
      → 2 ≤ length buffer
      → decode_frame 0 deflate buffer first second ≢ none
  unfolding decode_frame
  decode_frame-total deflate first second h =
      bind-total (read_length buffer (second % 128) 2) _ (read_length-total (second % 128) h) λ r e.
        decode_sized-total 0 deflate (first % 16) (second / 128) 2 r
          (rw e at (read_length-BehindRead buffer (second % 128) 2 h))

  decode_first-total :
      (first second : ℕ) → 2 ≤ length buffer → decode_first buffer 0 first second ≢ none
  unfolding decode_first
  decode_first-total first second h = elim (Bool-cases (first / 128 == 0)) [
    | inl clear ↦ rw clear (λ e. cc)
    | inr fin ↦ elim (Bool-cases (first / 16 % 4 == 0)) [
      | inl plain ↦ rw (fin, plain) (decode_frame-total (first / 64 % 2 == 1) first second h)
      | inr reserved ↦ rw (fin, reserved) (λ e. cc)
    ]
  ]

  -- At the start of a buffer of less than 2 ^ 32 bytes the decoder reads nothing outside the
  -- buffer.
  pub decode_next_message_at_start :
      decode_next_message (record { buffer = buffer; message_start = 0 }) ≢ none
  unfolding decode_next_message
  decode_next_message_at_start = elim (Bool-cases (leb (length buffer) 1)) [
    | inl short ↦ rw short (λ e. cc)
    | inr more ↦ rw more (
        let (first, at) = get_elem?-lt buffer 0 (ground arith) in
        let (second, at') = get_elem?-lt buffer 1 (ground arith) in
        rw (at, at') (decode_first-total first second (ground arith)))
  ]

read_length_overrun :
    (buffer : Bytes) (ptr n : ℕ)
    → n ≡ 126
    → 4 ≤ length buffer
    → length buffer ≤ ptr
    → read_length buffer n ptr ≡ none
unfolding read_length read_be
read_length_overrun buffer ptr n e h k = rw (e, get_elem?-ge buffer ptr k) (ground arith)

decode_frame_overrun :
    (buffer : Bytes) (start first second : ℕ) (deflate : Bool)
    → read_length buffer (second % 128) (start + 2) ≡ none
    → decode_frame start deflate buffer first second ≡ none
unfolding decode_frame
decode_frame_overrun buffer start first second deflate e = rw e

-- Behind earlier messages of two bytes or more, a frame that ends just before its length field of
-- two bytes makes the decoder read past the end of the buffer: it tests the size of the whole
-- buffer where the bytes behind the message's start are meant.
pub decode_next_message_overrun :
    (before : Bytes) (deflate : Bool) (opcode mask_bit : ℕ)
    → 2 ≤ length before
    → opcode < 16
    → mask_bit < 2
    → decode_next_message (record {
      buffer = before ++ (first_byte deflate opcode ∷ (mask_bit * 128 + 126) ∷ []);
      message_start = length before;
    })
      ≡ none
decode_next_message_overrun before deflate opcode mask_bit h ho hb =
    let header = first_byte deflate opcode ∷ (mask_bit * 128 + 126) ∷ [] in
    let buffer = before ++ header in
    let size = length-append before header in
    let s = Stands-middle before header [] in
    let stands = rw append-nil at s in
    decode_next_message_lem buffer (length before) (first_byte deflate opcode)
      (mask_bit * 128 + 126) (omega arith) stands.0 stands.1.0
    ∙ decode_first_lem buffer (length before) (mask_bit * 128 + 126) opcode deflate ho
    ∙ decode_frame_overrun buffer (length before) (first_byte deflate opcode) (mask_bit * 128 + 126)
        deflate
        (read_length_overrun buffer (length before + 2) _ (omega arith) (omega arith) (omega arith))
