-- ===== src/Hybi/Decode.antt =====
-- src/main/c/HybiPacketDecoder.cpp decodes what RFC 6455 frames, wherever it stands in the buffer.
use mathlib.Core.Path.{ap₂}
use seasocks.Prelude.{
  ℕ, suc, ◌+◌, ◌-◌, ◌/◌, ◌%◌, ◌^◌, ◌<◌, ◌≤◌, ◌≡◌, ap, subst, get_elem?_lt, ◌∙◌, ◌++◌, Option, some,
  get_elem?, length, length-append, Bytes, IsByte, All, arith, Bool, true, false, leb,
}
use seasocks.Hybi.Frame.{Key, length_field, frame, first_byte}
use seasocks.Hybi.Header.{
  read_length_lem, read_body, mask_bit_of, mask_bit_of-lt, body, frame-body, length-body,
  key_length, KeyOk,
}
use seasocks.Hybi.Reads.{Stands, Stands-left, Stands-right, Stands-middle}
use seasocks.Hybi.{
  Decoded, state_of_opcode, unmask, read_length, read_mask, bytes_left, decode_masked, decode_sized,
  decode_frame, decode_first, decode_next_message,
}

-- What a whole frame decodes to.
abbrev pub decoded : Bool → ℕ → Bytes → ℕ → Decoded
decoded deflate opcode payload next = record {
  state = state_of_opcode opcode;
  message = payload;
  deflate_needed = deflate;
  message_start = next;
}

pub bytes_left_lem :
    (buffer : Bytes) (ptr : ℕ)
    → ptr ≤ length buffer
    → length buffer < 2 ^ 64
    → bytes_left buffer ptr ≡ length buffer - ptr
unfolding bytes_left
bytes_left_lem buffer ptr h k = omega arith

decode_frame_lem :
    (buffer payload : Bytes) (start first second n ptr mask ptr' : ℕ) (deflate : Bool)
    → read_length buffer (second % 128) (start + 2) ≡ some (some (n, ptr))
    → read_mask buffer (second / 128) ptr ≡ some (some (mask, ptr'))
    → unmask n buffer mask 0 ptr' ≡ some payload
    → ptr' + n ≤ length buffer
    → length buffer < 2 ^ 64
    → decode_frame start deflate buffer first second
      ≡ some (decoded deflate (first % 16) payload (ptr' + n))
unfolding decode_frame
decode_frame_lem buffer payload start first second n ptr mask ptr' deflate l m u fits small =
    rw (l, decode_sized, m, decode_masked, u) (ground (arith, bytes_left_lem buffer ptr'))

pub decode_first_lem :
    (buffer : Bytes) (start second opcode : ℕ) (deflate : Bool)
    → opcode < 16
    → decode_first buffer start (first_byte deflate opcode) second
      ≡ decode_frame start deflate buffer (first_byte deflate opcode) second
unfolding decode_first
decode_first_lem buffer start second opcode true h = ground arith
decode_first_lem buffer start second opcode false h = ground arith

first_byte-mod :
    (deflate : Bool) (opcode : ℕ) → opcode < 16 → first_byte deflate opcode % 16 ≡ opcode
first_byte-mod deflate opcode h = ground arith

pub decode_next_message_lem :
    (buffer : Bytes) (start first second : ℕ)
    → start + 1 < length buffer
    → get_elem? buffer start ≡ some first
    → get_elem? buffer (start + 1) ≡ some second
    → decode_next_message (record { buffer = buffer; message_start = start })
      ≡ decode_first buffer start first second
unfolding decode_next_message
decode_next_message_lem buffer start first second h a b =
    let more : leb (length buffer) (start + 1) ≡ false = ground arith in rw (more, a, b)

pub length-frame :
    (deflate : Bool) (opcode : ℕ) (key : Option Key) (payload : Bytes)
    → length (frame deflate opcode key payload)
      ≡ suc (
          length (length_field (mask_bit_of key) (length payload))
          + (key_length key + length payload))
length-frame deflate opcode key payload =
    ap length (frame-body deflate opcode key payload)
    ∙ ap suc (
        length-append (length_field (mask_bit_of key) (length payload)) (body key payload)
        ∙ ap (λ (t : ℕ). length (length_field (mask_bit_of key) (length payload)) + t)
            (length-body key payload))

module _ (deflate : Bool) (opcode : ℕ) (key : Option Key) (payload : Bytes) (ho : opcode < 16)
    (v : KeyOk key) (b : All IsByte payload) (hn : length payload < 2 ^ 64) where
  decode-Stands :
      (buffer : Bytes) (start : ℕ)
      → length buffer < 2 ^ 64
      → start + length (frame deflate opcode key payload) ≤ length buffer
      → Stands buffer start (frame deflate opcode key payload)
      → decode_next_message (record { buffer = buffer; message_start = start })
        ≡ some (decoded deflate opcode payload (start + length (frame deflate opcode key payload)))
  decode-Stands buffer start small fits s =
      let bit = mask_bit_of key in
      let lf = length_field bit (length payload) in
      let (first, tail) = rw (frame-body deflate opcode key payload) at s in
      let size = length-frame deflate opcode key payload in
      let behind = length-body key payload in
      let r =
        read_length_lem buffer (start + 1) bit (length payload) (mask_bit_of-lt key) hn
          (omega arith) (omega arith) (Stands-left buffer (start + 1) lf (body key payload) tail) in
      let bd =
        read_body key buffer payload (start + 1 + length lf) v b (omega arith)
          (Stands-right buffer (start + 1) lf (body key payload) tail) in
      decode_next_message_lem buffer start (first_byte deflate opcode) r.second
        (omega (arith, get_elem?_lt buffer (start + 1) r.at)) first r.at
      ∙ decode_first_lem buffer start r.second opcode deflate ho
      ∙ decode_frame_lem buffer payload start (first_byte deflate opcode) r.second (length payload)
          (start + 1 + length lf) bd.mask (start + 1 + length lf + key_length key) deflate
          (subst
            (λ p.
              read_length buffer (r.second % 128) p
              ≡ some (some (length payload, start + 1 + length lf)))
            (omega arith) r.reads)
          (rw r.bit bd.reads_mask) bd.reads_payload (omega arith) small
      ∙ ap₂ (λ o p. some (decoded deflate o payload p)) (first_byte-mod deflate opcode ho)
          (omega arith)

-- A frame of RFC 6455 that stands whole in the buffer, whatever stands before and behind it, is
-- decoded to its opcode's state, its payload and its compression bit, and the next message starts
-- behind it; the opcode has four bits, payload and masking key are of bytes, and the buffer is
-- shorter than 2 ^ 32.
pub decode-frame :
    (deflate : Bool) (opcode : ℕ) (key : Option Key) (payload before rest : Bytes)
    → opcode < 16
    → KeyOk key
    → All IsByte payload
    → length (before ++ (frame deflate opcode key payload ++ rest)) < 2 ^ 32
    → decode_next_message (record {
      buffer = before ++ (frame deflate opcode key payload ++ rest);
      message_start = length before;
    })
      ≡ some (
          decoded deflate opcode payload
            (length before + length (frame deflate opcode key payload)))
decode-frame deflate opcode key payload before rest ho v b small =
    let f = frame deflate opcode key payload in
    let size = length-append before (f ++ rest) in
    let size' = length-append f rest in
    let whole = length-frame deflate opcode key payload in
    let short : length payload < 2 ^ 64 = omega arith in
    decode-Stands deflate opcode key payload ho v b short (before ++ (f ++ rest)) (length before)
      (omega arith) (omega arith) (Stands-middle before f rest)
