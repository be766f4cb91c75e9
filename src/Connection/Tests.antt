-- ===== src/Connection/Tests.antt =====
-- Writes and WebSocket messages of src/main/c/Connection.cpp on a concrete host.
use seasocks.Prelude.{◌≡◌, refl, true, false, [], ◌∷◌, none, some, Bytes, arith}
use seasocks.Connection.{Connection, initial, handling_hybi_websocket}
use seasocks.Connection.Output.{
  flush, write, closed, write_rest, write_direct, safe_send, after_send, flush_events, flush_close,
  flush_sent, close_internal,
}
use seasocks.Hybi.Frame.{frame}
use seasocks.Hybi.Decode.{decoded}
use seasocks.Hybi.Opcode
use seasocks.Hybi.{decode_next_message}
use seasocks.Connection.Appends.{Appends}
use seasocks.Connection.Send.{
  send_hybi, send_text, send_binary, send_text_in, send_binary_in, compress_if, send_hybi_data,
}
use seasocks.Connection.Send.Frames.{hybi_payload, send_hybi-Appends}
use seasocks.Connection.Send.Received.{send_text-decode, send_binary-decode}
use seasocks.Connection.Write.{Written, write-Written}
use seasocks.Connection.Example.{host, most, doubled}

abbrev blocked : Connection
blocked = record initial { out_buf = 1 ∷ 2 ∷ 3 ∷ 4 ∷ 5 ∷ []; send_calls = 1 }

write-Written_example :
    let w = write host (1 ∷ 2 ∷ 3 ∷ 4 ∷ 5 ∷ []) true (record initial { send_calls = 1 }) in
    Written host (record initial { send_calls = 1 }) (1 ∷ 2 ∷ 3 ∷ 4 ∷ 5 ∷ []) w.0 w.1
write-Written_example =
    write-Written host most (record initial { send_calls = 1 }) (1 ∷ 2 ∷ 3 ∷ 4 ∷ 5 ∷ []) true refl

abbrev hybi : Connection
hybi = record initial { state = handling_hybi_websocket; wire = 7 ∷ 7 ∷ [] }

abbrev hybi_deflate : Connection
hybi_deflate = record hybi { per_message_deflate = true }

-- A text of two bytes on such a connection, which the first `::send` leaves in the buffer.
sent_text : Connection
sent_text = record hybi {
  out_buf = 0x81 ∷ 2 ∷ 0x48 ∷ 0x69 ∷ [];
  registered_for_write_events = true;
  send_calls = 1;
  poll_calls = 1;
}

sent_binary : Connection
sent_binary = record hybi_deflate {
  out_buf = 0xc2 ∷ 4 ∷ 0x48 ∷ 0x48 ∷ 0x69 ∷ 0x69 ∷ [];
  registered_for_write_events = true;
  send_calls = 1;
  poll_calls = 1;
  deflate_calls = 1;
}

abbrev hi : Bytes
hi = 0x48 ∷ 0x69 ∷ []

send_text-hi : (send_text host doubled hi hybi).1 ≡ sent_text
unfolding send_text send_text_in send_hybi compress_if send_hybi_data write write_rest write_direct
    flush safe_send after_send flush_events flush_close flush_sent closed close_internal sent_text
send_text-hi = refl

send_binary-hi : (send_binary host doubled hi hybi_deflate).1 ≡ sent_binary
unfolding send_binary send_binary_in send_hybi compress_if send_hybi_data write write_rest
    write_direct flush safe_send after_send flush_events flush_close flush_sent closed
    close_internal sent_binary
send_binary-hi = refl

send_hybi-Appends_example :
    Appends 1024 hybi
      (frame false 2 none (hybi_payload doubled hybi hi))
      (send_hybi host doubled 2 hi hybi).1
send_hybi-Appends_example = send_hybi-Appends host doubled most hybi 2 hi (omega arith) refl

send_text-decode_example :
    decode_next_message (record { buffer = 7 ∷ 7 ∷ 0x81 ∷ 2 ∷ 0x48 ∷ 0x69 ∷ []; message_start = 2 })
    ≡ some (decoded false Opcode.text hi 6)
unfolding sent_text closed
send_text-decode_example =
    send_text-decode host doubled most hybi refl refl refl hi sent_text send_text-hi (omega arith)
      refl (omega arith)

send_binary-decode_example :
    decode_next_message
      (record { buffer = 7 ∷ 7 ∷ 0xc2 ∷ 4 ∷ 0x48 ∷ 0x48 ∷ 0x69 ∷ 0x69 ∷ []; message_start = 2 })
    ≡ some (decoded true Opcode.binary (doubled 0 hi) 8)
unfolding sent_binary closed
send_binary-decode_example =
    send_binary-decode host doubled most hybi_deflate refl refl refl hi sent_binary send_binary-hi
      (omega arith) refl (omega arith)
