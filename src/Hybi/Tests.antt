-- ===== src/Hybi/Tests.antt =====
-- The decoder of src/main/c/HybiPacketDecoder.cpp on frames from src/test/c/HybiTests.cpp and RFC 6455.
use seasocks.Prelude.{◌≡◌, refl, ◌+◌, ◌++◌, true, false, [], ◌∷◌, none, some, length, arith, Bytes}
use seasocks.Hybi.Frame.{Key, frame, length_field, masked}
use seasocks.Hybi.Decode.{decode-frame, decoded}
use seasocks.Hybi.Truncated.{Leaves, decode_next_message-Leaves}
use seasocks.Hybi.Safe.{decode_next_message_overrun}
use seasocks.Hybi.{
  text_message, decode_next_message, decode_first, decode_frame, state_of_opcode, unmask,
  unmask_byte, read_mask, read_length, read_be, bytes_left,
}

abbrev hello : Bytes
hello = 0x48 ∷ 0x65 ∷ 0x6c ∷ 0x6c ∷ 0x6f ∷ []

abbrev hello_key : Key
hello_key = record { k0 = 0x37; k1 = 0xfa; k2 = 0x21; k3 = 0x3d }

abbrev masked_hello : Bytes
masked_hello = 0x81 ∷ 0x85 ∷ 0x37 ∷ 0xfa ∷ 0x21 ∷ 0x3d ∷ 0x7f ∷ 0x9f ∷ 0x4d ∷ 0x51 ∷ 0x58 ∷ []

frame-hello : frame false 1 (some hello_key) hello ≡ masked_hello
unfolding frame length_field masked
frame-hello = refl

decode_hello :
    decode_next_message (record { buffer = masked_hello; message_start = 0 })
    ≡ some (record {
      state = text_message;
      message = hello;
      deflate_needed = false;
      message_start = 11;
    })
unfolding decode_next_message decode_first decode_frame state_of_opcode unmask unmask_byte read_mask
    read_length read_be bytes_left
decode_hello = refl

decode-frame_example :
    decode_next_message (record {
      buffer = (0x89 ∷ 0 ∷ []) ++ (frame true 2 (some hello_key) hello ++ (0x81 ∷ []));
      message_start = 2;
    })
    ≡ some (decoded true 2 hello (2 + length (frame true 2 (some hello_key) hello)))
unfolding frame length_field masked
decode-frame_example =
    decode-frame true 2 (some hello_key) hello (0x89 ∷ 0 ∷ []) (0x81 ∷ []) (omega arith)
      (omega arith) (omega arith) (omega arith)

decode_next_message-Leaves_example :
    Leaves 0 masked_hello
      (decode_next_message (record { buffer = masked_hello; message_start = 0 }))
decode_next_message-Leaves_example = decode_next_message-Leaves masked_hello 0 (omega arith)

-- A ping without payload, and the first two bytes of a text frame.
decode_next_message_overrun_example :
    decode_next_message (record { buffer = 0x89 ∷ 0 ∷ 0x81 ∷ 0xfe ∷ []; message_start = 2 }) ≡ none
decode_next_message_overrun_example =
    decode_next_message_overrun (0x89 ∷ 0 ∷ []) false 1 1 (omega arith) (omega arith) (omega arith)
