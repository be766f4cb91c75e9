-- ===== src/Connection/Responder.antt =====
-- src/main/c/Connection.cpp: `begin`, `header`, `payload` and `finish`, which a response calls through
-- its writer. Dates and the version are arguments; logging is left out.
pub mod Chunks
pub mod Body
pub mod Head
pub mod Steps
pub mod Calls
pub mod Finish
pub mod Machine
mod Tests
use seasocks.Prelude.{
  ℕ, suc, ◌+◌, ◌%◌, ◌^◌, Bool, true, false, not, ◌&&◌, List, [], ◌∷◌, ◌++◌, length, ◌==◌,
  if◌then◌else◌, Bytes, codes,
}
use seasocks.Text.Digits.{to_string, to_hex}
use seasocks.Response.{TransferEncoding, raw, chunked}
use seasocks.Response.Code.{ResponseCode, to_int, name}
use seasocks.Connection.{
  Connection, Host, State, reading_headers, awaiting_response_begin, sending_response_headers,
  sending_response_body, M, ◌>>=◌, ◌>>◌, return, drop_result,
}
use seasocks.Connection.Output.{write, flush, buffer_line, buffer_line_chars, close_when_empty}

abbrev pub crlf : Bytes
crlf = b'\r' ∷ b'\n' ∷ []

-- `toString` and `std::hex` of a size behind an earlier chunk's end.
unfoldable pub chunk_header : ℕ → ℕ → Bytes
chunk_header chunk size = (if chunk == 0 then [] else crlf) ++ (to_hex size ++ crlf)

module _ (host : Host) where
  abbrev pub buffer_line_ : Bytes → M (Unit {0})
  buffer_line_ line = drop_result (buffer_line host line)

  abbrev pub buffer_line_chars_ : Bytes → M (Unit {0})
  buffer_line_chars_ line = drop_result (buffer_line_chars host line)

  abbrev pub set_state : State → M (Unit {0})
  set_state s c = (tt, record c { state = s })

  -- `bufferResponseAndCommonHeaders`, at a date and for a version of the program.
  unfoldable pub buffer_response_and_common_headers : Bytes → Bytes → ResponseCode → M (Unit {0})
  buffer_response_and_common_headers version now code = do
    buffer_line_ (codes "HTTP/1.1 " ++ (to_string (to_int code) ++ (codes " " ++ name code)))
    buffer_line_ (codes "Server: " ++ version)
    buffer_line_ (codes "Date: " ++ now)
    buffer_line_chars_ (codes "Access-Control-Allow-Origin: *")

  pub begin_encoding : TransferEncoding → M (Unit {0})
  begin_encoding raw c = (tt, record c { transfer_encoding = raw })
  begin_encoding chunked c =
      buffer_line_chars_ (codes "Transfer-encoding: chunked")
        (record c { transfer_encoding = chunked })

  pub begin_in : State → Bytes → Bytes → ResponseCode → TransferEncoding → M (Unit {0})
  unfolding begin_encoding
  begin_in awaiting_response_begin version now code encoding = do
    set_state sending_response_headers
    buffer_response_and_common_headers version now code
    begin_encoding encoding
  begin_in _ version now code encoding = return tt

  unfoldable pub begin : Bytes → Bytes → ResponseCode → TransferEncoding → M (Unit {0})
  unfolding begin_in
  begin version now code encoding c = begin_in c.state version now code encoding c

  pub header_in : State → Bytes → Bytes → M (Unit {0})
  header_in sending_response_headers key value = buffer_line_ (key ++ (codes ": " ++ value))
  header_in _ key value = return tt

  unfoldable pub header : Bytes → Bytes → M (Unit {0})
  unfolding header_in
  header key value c = header_in c.state key value c

  -- `_chunk` is an `unsigned`.
  unfoldable pub write_chunk_header : ℕ → M (Unit {0})
  unfolding chunk_header
  write_chunk_header size c =
      drop_result (write host (chunk_header c.chunk size) false)
        (record c { chunk = (c.chunk + 1) % 2 ^ 32 })

  pub chunk_header_if : TransferEncoding → ℕ → M (Unit {0})
  chunk_header_if raw size = return tt
  chunk_header_if chunked size = if size == 0 then return tt else write_chunk_header size

  pub payload_body : Bytes → Bool → M (Unit {0})
  unfolding chunk_header_if
  payload_body bytes flush_it c =
      (do
        chunk_header_if c.transfer_encoding (length bytes)
        drop_result (write host bytes flush_it))
        c

  pub payload_in : State → Bytes → Bool → M (Unit {0})
  unfolding payload_body
  payload_in sending_response_headers bytes flush_it = do
    buffer_line_chars_ []
    set_state sending_response_body
    payload_body bytes flush_it
  payload_in sending_response_body bytes flush_it = payload_body bytes flush_it
  payload_in _ bytes flush_it = return tt

  unfoldable pub payload : Bytes → Bool → M (Unit {0})
  unfolding payload_in
  payload bytes flush_it c = payload_in c.state bytes flush_it c

  pub last_chunk_if : TransferEncoding → M (Unit {0})
  last_chunk_if raw = return tt
  last_chunk_if chunked = do write_chunk_header 0; drop_result (write host crlf false)

  pub finish_close : Bool → M (Unit {0})
  finish_close true = return tt
  finish_close false = close_when_empty

  pub finish_body : Bool → M (Unit {0})
  unfolding last_chunk_if finish_close
  finish_body keep_connection_open c =
      (do
        last_chunk_if c.transfer_encoding
        drop_result (flush host)
        finish_close keep_connection_open
        λ d. (tt, record d { state = reading_headers; has_response = false }))
        c

  pub finish_in : State → Bool → M (Unit {0})
  unfolding finish_body
  finish_in sending_response_headers keep_connection_open = do
    buffer_line_chars_ []
    finish_body keep_connection_open
  finish_in sending_response_body keep_connection_open = finish_body keep_connection_open
  finish_in _ keep_connection_open = return tt

  unfoldable pub finish : Bool → M (Unit {0})
  unfolding finish_in
  finish keep_connection_open c = finish_in c.state keep_connection_open c
