-- ===== src/Hybi.antt =====
-- src/main/c/internal/HybiPacketDecoder.h and src/main/c/HybiPacketDecoder.cpp: the decoder of WebSocket
-- frames. A read outside the buffer, which is undefined in the source, is `none` here.
pub mod Opcode
pub mod Frame
pub mod Reads
pub mod Header
pub mod Decode
pub mod Truncated
pub mod Safe
mod Tests
use Prim.Native.Nat.{bit_xor}
use seasocks.Prelude.{
  ℕ, zero, suc, ◌+◌, ◌-◌, ◌*◌, ◌/◌, ◌%◌, ◌^◌, Bool, true, false, not, List, [], ◌∷◌, Option, none,
  some, ◌>>=◌, get_elem?, length, ltb, leb, ◌==◌, if◌then◌else◌, Bytes,
}

pub data MessageState : Type 0 where
  no_message text_message binary_message error ping pong close : MessageState

-- The decoder object: the buffer that it was built on and the start of the next message.
pub record HybiPacketDecoder : Type 0 where
  pub buffer : Bytes
  pub message_start : ℕ

-- What one call leaves: the state returned, `messageOut`, `deflateNeeded` and the new start.
pub record Decoded : Type 0 where
  pub state : MessageState
  pub message : Bytes
  pub deflate_needed : Bool
  pub message_start : ℕ

-- `memcpy` of an integer of `n` bytes from the buffer, and its swap to host order.
unfoldable pub read_be : ℕ → Bytes → ℕ → ℕ → Option ℕ
read_be zero buffer ptr acc = some acc
read_be (suc n) buffer ptr acc = do
  b ← get_elem? buffer ptr
  read_be n buffer (ptr + 1) (acc * 256 + b)

-- One byte of the payload: `(_buffer[ptr++] ^ (mask >> byteShift)) & 0xff`.
unfoldable pub unmask_byte : ℕ → ℕ → ℕ → ℕ
unmask_byte mask i b = bit_xor b (mask / 2 ^ ((3 - i % 4) * 8)) % 256

-- The loop over the payload, with the rounds left. Its counter is an `unsigned`, so this is the
-- loop of the source for payloads of less than 2 ^ 32 bytes.
unfoldable pub unmask : ℕ → Bytes → ℕ → ℕ → ℕ → Option Bytes
unmask zero buffer mask i ptr = some []
unmask (suc left) buffer mask i ptr = do
  b ← get_elem? buffer ptr
  rest ← unmask left buffer mask (i + 1) (ptr + 1)
  some (unmask_byte mask i b ∷ rest)

-- The final switch.
unfoldable pub state_of_opcode : ℕ → MessageState
state_of_opcode opcode =
    if opcode == Opcode.text
    then text_message
    else if opcode == Opcode.binary
    then binary_message
    else if opcode == Opcode.ping
    then ping
    else if opcode == Opcode.pong
    then pong
    else if opcode == Opcode.close
    then close
    else error

-- The length field and the position behind it; the inner `none` is an early `NoMessage`.
unfoldable pub read_length : Bytes → ℕ → ℕ → Option (Option (ℕ × ℕ))
read_length buffer length7 ptr =
    if length7 == 126
    then if ltb (length buffer) 4
      then some none
      else (do n ← read_be 2 buffer ptr 0; some (some (n, ptr + 2)))
    else if length7 == 127
    then if ltb (length buffer) 10
      then some none
      else (do n ← read_be 8 buffer ptr 0; some (some (n, ptr + 8)))
    else some (some (length7, ptr))

-- The mask, 0 where the frame has none, and the position behind it.
unfoldable pub read_mask : Bytes → ℕ → ℕ → Option (Option (ℕ × ℕ))
read_mask buffer mask_bit ptr =
    if mask_bit == 0
    then some (some (0, ptr))
    else if ltb (length buffer) (ptr + 4)
    then some none
    else (do m ← read_be 4 buffer ptr 0; some (some (m, ptr + 4)))

-- `_buffer.size() - ptr` in size_t.
unfoldable pub bytes_left : Bytes → ℕ → ℕ
bytes_left buffer ptr = (length buffer + 2 ^ 64 - ptr) % 2 ^ 64

module _ (start : ℕ) (deflate_needed : Bool) where
  unfoldable pub waiting : Decoded
  waiting = record {
    state = no_message;
    message = [];
    deflate_needed = deflate_needed;
    message_start = start;
  }

  decode_payload : Bytes → ℕ → ℕ → ℕ → ℕ → Option Decoded
  unfolding waiting
  decode_payload buffer opcode payload_length mask ptr =
      if ltb (bytes_left buffer ptr) payload_length then some waiting else (do
        message ← unmask payload_length buffer mask 0 ptr
        some (record {
          state = state_of_opcode opcode;
          message = message;
          deflate_needed = deflate_needed;
          message_start = ptr + payload_length;
        }))

  decode_masked : Bytes → ℕ → ℕ → Option (ℕ × ℕ) → Option Decoded
  unfolding decode_payload waiting
  decode_masked buffer opcode payload_length none = some waiting
  decode_masked buffer opcode payload_length (some (mask, ptr)) =
      decode_payload buffer opcode payload_length mask ptr

  decode_sized : Bytes → ℕ → ℕ → Option (ℕ × ℕ) → Option Decoded
  unfolding decode_masked waiting
  decode_sized buffer opcode mask_bit none = some waiting
  decode_sized buffer opcode mask_bit (some (payload_length, ptr)) = do
    masked ← read_mask buffer mask_bit ptr
    decode_masked buffer opcode payload_length masked

  -- From the opcode on. `second` is `_buffer[_messageStart + 1]`.
  pub decode_frame : Bytes → ℕ → ℕ → Option Decoded
  unfolding decode_sized
  decode_frame buffer first second = do
    sized ← read_length buffer (second % 128) (start + 2)
    decode_sized buffer (first % 16) (second / 128) sized

abbrev rejected : ℕ → Decoded
rejected start = record {
  state = error;
  message = [];
  deflate_needed = false;
  message_start = start;
}

-- The tests of the FIN bit and of the reserved bits 0x30, on the frame's first byte.
unfoldable pub decode_first : Bytes → ℕ → ℕ → ℕ → Option Decoded
unfolding decode_frame
decode_first buffer start first second =
    if first / 128 == 0
    then some (rejected start)
    else if not (first / 16 % 4 == 0)
    then some (rejected start)
    else decode_frame start (first / 64 % 2 == 1) buffer first second

unfoldable pub decode_next_message : HybiPacketDecoder → Option Decoded
unfolding waiting
decode_next_message d =
    if leb (length d.buffer) (d.message_start + 1)
    then some (waiting d.message_start false)
    else (do
      first ← get_elem? d.buffer d.message_start
      second ← get_elem? d.buffer (d.message_start + 1)
      decode_first d.buffer d.message_start first second)
