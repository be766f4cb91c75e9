-- ===== src/Connection.antt =====
-- src/main/c/seasocks/Connection.h: the state of a connection, and what it calls of the operating
-- system and of its server.
pub mod Output
pub mod Stream
pub mod Flush
pub mod Write
pub mod Mode
pub mod Appends
pub mod Outputs
pub mod Send
pub mod Receive
pub mod Responder
pub mod Ranges
pub mod Errors
pub mod Example
mod Tests
use seasocks.Prelude.{ℕ, ◌≤◌, ◌≡◌, Bool, true, false, Bytes, []}
use seasocks.Response.{TransferEncoding, raw}

-- `enum class State`.
pub data State : Type 0 where
  invalid reading_headers reading_websocket_key3 : State
  handling_hixie_websocket handling_hybi_websocket : State
  buffering_post_data awaiting_response_begin : State
  sending_response_headers sending_response_body : State

-- The members that output and WebSocket input use. `fd_open` is `_fd != -1`. `wire` and `send_calls` stand for
-- the socket: the bytes that it has taken, and the number of calls of `::send` so far; likewise
-- `poll_calls` counts the calls that (un)subscribe to write events, and `deflate_calls` and
-- `inflate_calls` those of `ZlibContext`.
pub record Connection : Type 0 where
  pub fd_open : Bool
  pub is_shutdown : Bool
  pub had_send_error : Bool
  pub close_on_empty : Bool
  pub registered_for_write_events : Bool
  pub bytes_sent : ℕ
  pub out_buf : Bytes
  pub shutdown_by_user : Bool
  pub transfer_encoding : TransferEncoding
  pub chunk : ℕ
  pub has_response : Bool
  pub per_message_deflate : Bool
  pub state : State
  pub wire : Bytes
  pub send_calls : ℕ
  pub poll_calls : ℕ
  pub deflate_calls : ℕ
  pub in_buf : Bytes
  pub inflate_calls : ℕ

-- What `::send` answers: a count of bytes, -1 with EAGAIN or EWOULDBLOCK, or -1 with another error.
pub data SendResult : Type 0 where
  sent : ℕ → SendResult
  would_block send_failed : SendResult

-- The operating system and the server, by the number of the call: what `::send` answers for so many
-- bytes, whether the server changes the events of the descriptor, and the server's limit.
pub record Host : Type 0 where
  pub send : ℕ → ℕ → SendResult
  pub subscribe : ℕ → Bool
  pub unsubscribe : ℕ → Bool
  pub client_buffer_size : ℕ

-- `::send` does not take more bytes than it is given.
pub record SendsAtMost (host : Host) : Type 0 where
  pub at_most : (i n k : ℕ) → host.send i n ≡ sent k → k ≤ n

-- A method: it returns a value and the new state.
abbrev pub M : Type 0 → Type 0
M A = Connection → A × Connection

infixl 5 ◌>>=◌ ◌>>◌
abbrev pub ◌>>=◌ : {A B : Type 0} → M A → (A → M B) → M B
◌>>=◌ m f c = let r = m c in f r.0 r.1

abbrev pub ◌>>◌ : {B : Type 0} → M (Unit {0}) → M B → M B
◌>>◌ m k c = let r = m c in k r.1

abbrev pub return : {A : Type 0} → A → M A
return a c = (a, c)

-- A call whose result the source drops.
abbrev pub drop_result : {A : Type 0} → M A → M (Unit {0})
drop_result m c = let r = m c in (tt, r.1)

-- A connection as the constructor leaves it.
abbrev pub initial : Connection
initial = record {
  fd_open = true;
  is_shutdown = false;
  had_send_error = false;
  close_on_empty = false;
  registered_for_write_events = false;
  bytes_sent = 0;
  out_buf = [];
  shutdown_by_user = false;
  transfer_encoding = raw;
  chunk = 0;
  has_response = false;
  per_message_deflate = false;
  state = reading_headers;
  wire = [];
  send_calls = 0;
  poll_calls = 0;
  deflate_calls = 0;
  in_buf = [];
  inflate_calls = 0;
}
