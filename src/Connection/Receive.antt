-- ===== src/Connection/Receive.antt =====
-- src/main/c/Connection.cpp: `handleHybiWebSocket`, which reads WebSocket messages from the input
-- buffer and hands them to the handler.
pub mod Ends
pub mod Delivers
pub mod Hixie
mod Tests
use seasocks.Prelude.{
  ℕ, zero, suc, ◌+◌, Bool, true, false, List, [], ◌∷◌, ◌++◌, Option, none, some, length, take, drop,
  ltb, ◌==◌, if◌then◌else◌, Bytes,
}
use seasocks.Text.Words.{c_str}
use seasocks.Hybi.Opcode
use seasocks.Hybi.{
  MessageState, no_message, text_message, binary_message, error, ping, pong, close, Decoded,
  decode_next_message,
}
use seasocks.Connection.{Connection, Host, M, ◌>>=◌, ◌>>◌, return}
use seasocks.Connection.Output.{is_empty, close_internal}
use seasocks.Connection.Send.{send_hybi}

-- WebSocket.h: the callbacks of a handler, which may call methods of the connection.
pub record Handler : Type 0 where
  pub on_text : Bytes → M (Unit {0})
  pub on_binary : Bytes → M (Unit {0})

-- How a call ends: it returns, it reads outside the buffer, or the model's fuel is used up.
pub data Outcome : Type 0 where
  returned : Connection → Outcome
  out_of_bounds out_of_fuel : Outcome

-- What follows one message: another round, the end of the loop, or the method's return.
pub data Next : Type 0 where
  again break leave : Next

unfoldable pub handle_text : Option Handler → Bytes → M (Unit {0})
handle_text none message = return tt
handle_text (some h) message = h.on_text (c_str message)

unfoldable pub handle_binary : Option Handler → Bytes → M (Unit {0})
handle_binary none message = return tt
handle_binary (some h) message = h.on_binary message

unfoldable pub close_and : Next → M Next
unfolding close_internal
close_and n c = (n, (close_internal c).1)

abbrev pub max_websocket_message_size : ℕ
max_websocket_message_size = 16384

-- The end of both methods: what was decoded goes, and what is left must not be too long.
unfoldable pub erase_decoded : ℕ → Connection → Connection
unfolding close_internal
erase_decoded n c =
    let d : Connection = record c { in_buf = drop n c.in_buf } in
    if ltb max_websocket_message_size (length d.in_buf) then (close_internal d).1 else d

module _ (host : Host) (deflate : ℕ → Bytes → Bytes) (inflate : ℕ → Bytes → Option Bytes)
    (handler : Option Handler) where
  -- The switch on the decoder's answer.
  unfoldable pub dispatch : MessageState → Bytes → M Next
  dispatch no_message message = return break
  dispatch text_message message = do handle_text handler message; return again
  dispatch binary_message message = do handle_binary handler message; return again
  dispatch error message = close_and leave
  dispatch ping message = do send_hybi host deflate Opcode.pong message; return again
  dispatch pong message = return again
  dispatch close message = close_and leave

  unfoldable pub dispatch_inflated : MessageState → Option Bytes → M Next
  dispatch_inflated state none = close_and leave
  dispatch_inflated state (some message) = dispatch state message

  -- `inflate` is zlib's: what the so manieth call makes of a message, `none` on an error.
  unfoldable pub inflate_if : Bool → Bool → MessageState → Bytes → M Next
  unfolding dispatch_inflated
  inflate_if false negotiated state message c = dispatch state message c
  inflate_if true false state message c = close_and leave c
  inflate_if true true state message c =
      dispatch_inflated state (inflate c.inflate_calls message)
        (record c { inflate_calls = suc c.inflate_calls })

  unfoldable pub handle_decoded : Decoded → M Next
  unfolding inflate_if
  handle_decoded d c = inflate_if d.deflate_needed c.per_message_deflate d.state d.message c

  unfoldable pub after_round : (ℕ → Connection → Outcome) → ℕ → Next → Connection → Outcome
  unfolding erase_decoded
  after_round loop start again c = loop start c
  after_round loop start break c = returned (erase_decoded start c)
  after_round loop start leave c = returned c

  unfoldable pub one_round : (ℕ → Connection → Outcome) → Option Decoded → Connection → Outcome
  unfolding after_round
  one_round loop none c = out_of_bounds
  one_round loop (some d) c = let r = handle_decoded d c in after_round loop d.message_start r.0 r.1

  -- The loop, with the decoder's position.
  unfoldable pub hybi_loop : ℕ → ℕ → Connection → Outcome
  unfolding one_round
  hybi_loop zero start c = out_of_fuel
  hybi_loop (suc fuel) start c =
      one_round (hybi_loop fuel)
        (decode_next_message (record { buffer = c.in_buf; message_start = start })) c

  unfoldable pub handle_hybi_web_socket : Connection → Outcome
  unfolding hybi_loop
  handle_hybi_web_socket c =
      if is_empty c.in_buf then returned c else hybi_loop (length c.in_buf) 0 c
