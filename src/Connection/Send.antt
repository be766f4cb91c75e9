-- ===== src/Connection/Send.antt =====
-- src/main/c/Connection.cpp: `send`, `sendHybi` and `sendHybiData`, which write WebSocket messages.
pub mod Frames
pub mod Received
use Prim.Native.Nat.{bit_or}
use seasocks.Prelude.{
  ℕ, suc, ◌+◌, ◌/◌, ◌^◌, ◌%◌, Bool, true, false, not, List, [], ◌∷◌, length, ltb, if◌then◌else◌,
  Bytes,
}
use seasocks.Hybi.Opcode
use seasocks.Connection.{
  Connection, Host, State, handling_hixie_websocket, M, ◌>>=◌, ◌>>◌, return, drop_result,
}
use seasocks.Connection.Output.{write, write_or_return}

-- `htons` of a length below 2 ^ 16 as the two bytes that are written, and `__bswap_64` as eight.
abbrev pub htons_bytes : ℕ → Bytes
htons_bytes n = n / 256 % 256 ∷ n % 256 ∷ []

abbrev pub bswap_64_bytes : ℕ → Bytes
bswap_64_bytes n =
    n / 256 ^ 7 % 256
    ∷ n / 256 ^ 6 % 256
    ∷ n / 256 ^ 5 % 256
    ∷ n / 256 ^ 4 % 256
    ∷ n / 256 ^ 3 % 256
    ∷ n / 256 ^ 2 % 256
    ∷ n / 256 % 256
    ∷ n % 256
    ∷ []

-- `deflate` is zlib's: the compressed bytes of a message, as the so manieth call of
-- `ZlibContext::deflate` returns them. Its exception is left out.
module _ (host : Host) (deflate : ℕ → Bytes → Bytes) where
  unfoldable pub send_hybi_data : Bytes → M (Unit {0})
  send_hybi_data response =
      let n = length response in
      let send_response = drop_result (write host response true) in
      if ltb n 126
      then write_or_return host (n ∷ []) send_response
      else if ltb n 65536
      then write_or_return host (126 ∷ []) (write_or_return host (htons_bytes n) send_response)
      else write_or_return host (127 ∷ []) (write_or_return host (bswap_64_bytes n) send_response)

  -- The message as it is sent; the flag is `_perMessageDeflate`.
  unfoldable pub compress_if : Bool → Bytes → M Bytes
  compress_if true response c =
      (deflate c.deflate_calls response, record c { deflate_calls = suc c.deflate_calls })
  compress_if false response c = (response, c)

  unfoldable pub send_compressed : Bytes → M (Unit {0})
  unfolding compress_if
  send_compressed response c = (compress_if c.per_message_deflate response >>= send_hybi_data) c

  unfoldable pub send_hybi : ℕ → Bytes → M (Unit {0})
  unfolding send_compressed
  send_hybi opcode response c =
      let first = bit_or 0x80 opcode in
      let first_byte = if c.per_message_deflate then bit_or first 0x40 else first in
      write_or_return host (first_byte ∷ []) (send_compressed response) c

  send_hixie : Bytes → M (Unit {0})
  send_hixie text =
      write_or_return host (0 ∷ [])
        (write_or_return host text (drop_result (write host (0xff ∷ []) true)))

  unfoldable pub send_text_in : State → Bytes → M (Unit {0})
  unfolding send_hixie
  send_text_in handling_hixie_websocket text = send_hixie text
  send_text_in _ text = send_hybi Opcode.text text

  unfoldable pub send_binary_in : State → Bytes → M (Unit {0})
  send_binary_in handling_hixie_websocket bytes = return tt
  send_binary_in _ bytes = send_hybi Opcode.binary bytes

  -- The overload for `const char*`: `text` is what stands in front of the terminator.
  unfoldable pub send_text : Bytes → M (Unit {0})
  send_text text c = if c.is_shutdown then (tt, c) else send_text_in c.state text c

  -- The overload for bytes. Hixie has no binary messages.
  unfoldable pub send_binary : Bytes → M (Unit {0})
  send_binary bytes c = if c.is_shutdown then (tt, c) else send_binary_in c.state bytes c
