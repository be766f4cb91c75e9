-- ===== src/Connection/Responder/Tests.antt =====
-- Responses of src/main/c/Connection.cpp on a concrete host.
use mathlib.Core.List.{flatten}
use seasocks.Prelude.{codes, ◌≡◌, refl, true, false, [], ◌∷◌, ◌++◌, some, Bytes, arith}
use seasocks.Connection.{Connection, initial, sending_response_body, reading_headers}
use seasocks.Connection.Output.{
  flush, write, closed, write_rest, write_direct, safe_send, after_send, flush_events, flush_close,
  flush_sent, close_internal,
}
use seasocks.Response.{chunked}
use seasocks.Text.Digits.{to_hex, print_fuel, digit}
use seasocks.Connection.Responder.{
  payload, payload_in, payload_body, chunk_header_if, write_chunk_header, chunk_header, finish,
  finish_in, finish_body, last_chunk_if, finish_close,
}
use seasocks.Connection.Responder.Chunks.{chunk_coded, dechunk, dechunk-chunk_coded}
use seasocks.Connection.Responder.Finish.{respond, respond-dechunk}
use seasocks.Connection.Example.{host, most}
use seasocks.Connection.Responder.Machine.{Follows, next_state, run, finish_call, run-Follows}

abbrev hi : Bytes
hi = 0x48 ∷ 0x69 ∷ []

dechunk-chunk_coded_example : dechunk 3 (chunk_coded (hi ∷ [] ∷ []) ++ hi) ≡ some (hi, hi)
unfolding flatten
dechunk-chunk_coded_example = dechunk-chunk_coded (hi ∷ [] ∷ []) hi 3 (omega arith)

abbrev in_body : Connection
in_body = record initial {
  state = sending_response_body;
  transfer_encoding = chunked;
  has_response = true;
}

responded : Connection
responded = record in_body {
  state = reading_headers;
  has_response = false;
  out_buf = codes "2\r\nHi\r\n0\r\n\r\n";
  chunk = 2;
  registered_for_write_events = true;
  send_calls = 1;
  poll_calls = 1;
}

respond-hi : (respond host most ((hi, false) ∷ []) true in_body).1 ≡ responded
unfolding respond payload payload_in payload_body chunk_header_if write_chunk_header chunk_header
    to_hex print_fuel digit finish finish_in finish_body last_chunk_if finish_close write write_rest
    write_direct flush safe_send after_send flush_events flush_close flush_sent closed
    close_internal responded
respond-hi = refl

respond-dechunk_example : dechunk 2 (codes "2\r\nHi\r\n0\r\n\r\n") ≡ some (hi, [])
unfolding responded closed flatten
respond-dechunk_example =
    respond-dechunk host most in_body ((hi, false) ∷ []) true responded refl refl refl refl
      (omega arith) respond-hi refl

run-Follows_example :
    Follows in_body
      (next_state sending_response_body (finish_call true))
      (run host (finish_call true) in_body).1
run-Follows_example = run-Follows host (finish_call true) in_body
