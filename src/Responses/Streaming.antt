-- ===== src/Responses/Streaming.antt =====
-- src/main/c/seasocks/StreamingResponse.h, StreamingResponse.cpp and SimpleResponse.h.
use seasocks.Prelude.{
  ℕ, zero, suc, Bool, true, false, not, ◌||◌, Option, none, some, ◌>>=◌, length, take, drop, leb,
  if◌then◌else◌, Bytes,
}
use seasocks.Response.{TransferEncoding}
use seasocks.Response.Code.{ResponseCode}
use seasocks.Connection.{M, ◌>>◌, return}
use seasocks.Responses.{ResponseWriter, Headers, write_headers}

-- A `std::istream`: the bytes before its end, which is an error or not.
pub record Stream : Type 0 where
  pub rest : Bytes
  pub breaks : Bool

-- What `read` leaves: the bytes read, `good` and `eof`.
pub record ReadResult : Type 0 where
  pub got : Bytes
  pub is_good : Bool
  pub is_eof : Bool
  pub left : Stream

unfoldable pub read : ℕ → Stream → ReadResult
read size s =
    if leb size (length s.rest)
    then record {
      got = take size s.rest;
      is_good = true;
      is_eof = false;
      left = record s { rest = drop size s.rest };
    }
    else record {
      got = s.rest;
      is_good = false;
      is_eof = not s.breaks;
      left = record s { rest = drop size s.rest };
    }

-- `SimpleResponse`, and what `StreamingResponse` asks of those that embed the library; `closed` is set
-- by `cancel`.
pub record StreamingResponse : Type 0 where
  pub response_code : ResponseCode
  pub stream : Stream
  pub headers : Headers
  pub keep_connection_alive : Bool
  pub flush_instantly : Bool
  pub buffer_size : ℕ
  pub transfer_encoding : TransferEncoding
  pub closed : Bool

unfoldable pub cancel : StreamingResponse → StreamingResponse
cancel r = record r { closed = true }

module _ (writer : ResponseWriter) (r : StreamingResponse) where
  abbrev pub push : ReadResult → M (Unit {0})
  push res =
      if res.is_good || res.is_eof then writer.payload res.got r.flush_instantly else return tt

  -- The loop over the stream, and `finish`; `none` is a loop that has not ended.
  unfoldable pub stream_loop : ℕ → Bool → Stream → Option (M (Unit {0}))
  unfolding read
  stream_loop fuel true s = some (writer.finish r.keep_connection_alive)
  stream_loop zero false s = none
  stream_loop (suc fuel) false s =
      let res = read r.buffer_size s in
      stream_loop fuel (not res.is_good) res.left >>= λ more. some (push res >> more)

  unfoldable pub streaming_handle : ℕ → Option (M (Unit {0}))
  unfolding stream_loop write_headers
  streaming_handle fuel = stream_loop fuel r.closed r.stream >>= λ more.
      some
        (do writer.begin r.response_code r.transfer_encoding; write_headers writer r.headers; more)
