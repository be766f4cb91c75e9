-- ===== src/Connection/Responder/Machine.antt =====
-- The order of a response's calls in src/main/c/Connection.cpp, as a state machine.
use seasocks.Prelude.{
  Bool-cases, inl, inr, ℕ, ◌≡◌, refl, ap, ◌∙◌, Bool, false, [], ◌∷◌, Option, none, some, length,
  Bytes, ◌==◌, arith,
}
use seasocks.Response.{TransferEncoding, raw, chunked}
use seasocks.Response.Code.{ResponseCode}
use seasocks.Connection.{
  Connection, Host, State, invalid, reading_headers, reading_websocket_key3,
  handling_hixie_websocket, handling_hybi_websocket, buffering_post_data, awaiting_response_begin,
  sending_response_headers, sending_response_body, M,
}
use seasocks.Connection.Output.{write, buffer_line_chars, buffer_line}
use seasocks.Connection.Mode.{write-mode}
use seasocks.Connection.Responder.{
  buffer_line_, buffer_line_chars_, buffer_response_and_common_headers, begin_encoding, begin_in,
  begin, header_in, header, write_chunk_header, chunk_header_if, payload_body, payload_in, payload,
  finish_body, finish_in, finish,
}

pub data Call : Type 0 where
  begin_call : Bytes → Bytes → ResponseCode → TransferEncoding → Call
  header_call : Bytes → Bytes → Call
  payload_call : Bytes → Bool → Call
  finish_call : Bool → Call

-- A response begins once, then sends headers, then its body, and ends from either.
unfoldable pub next_state : State → Call → Option State
next_state awaiting_response_begin (begin_call v n c e) = some sending_response_headers
next_state sending_response_headers (header_call k v) = some sending_response_headers
next_state sending_response_headers (payload_call b f) = some sending_response_body
next_state sending_response_body (payload_call b f) = some sending_response_body
next_state sending_response_headers (finish_call k) = some reading_headers
next_state sending_response_body (finish_call k) = some reading_headers
next_state _ _ = none

-- A call that is not allowed changes nothing at all.
abbrev pub Follows : Connection → Option State → Connection → Type 0
Follows c none d = d ≡ c
Follows c (some s) d = d.state ≡ s

module _ (host : Host) where
  unfoldable pub run : Call → M (Unit {0})
  run (begin_call version now code encoding) = begin host version now code encoding
  run (header_call key value) = header host key value
  run (payload_call bytes flush_it) = payload host bytes flush_it
  run (finish_call keep) = finish host keep

  write-state :
      (c : Connection) (bytes : Bytes) (flush_it : Bool)
      → (write host bytes flush_it c).1.state ≡ c.state
  write-state c bytes flush_it = ap (λ m. m.state) (write-mode host c bytes flush_it)

  buffer_line-state : (line : Bytes) (c : Connection) → (buffer_line_ host line c).1.state ≡ c.state
  unfolding buffer_line
  buffer_line-state line c = write-state c _ false

  buffer_line_chars-state :
      (line : Bytes) (c : Connection) → (buffer_line_chars_ host line c).1.state ≡ c.state
  unfolding buffer_line_chars
  buffer_line_chars-state line c = elim (Bool-cases (write host line false c).0) [
    | inl done ↦ rw done (write-state _ _ false ∙ write-state c line false)
    | inr stop ↦ rw stop (write-state c line false)
  ]

  headers-state :
      (version now : Bytes) (code : ResponseCode) (c : Connection)
      → (buffer_response_and_common_headers host version now code c).1.state ≡ c.state
  unfolding buffer_response_and_common_headers
  headers-state version now code c =
      buffer_line_chars-state _ _
      ∙ buffer_line-state _ _
      ∙ buffer_line-state _ _
      ∙ buffer_line-state _ _

  begin_encoding-state :
      (e : TransferEncoding) (c : Connection) → (begin_encoding host e c).1.state ≡ c.state
  unfolding begin_encoding
  begin_encoding-state raw c = refl
  begin_encoding-state chunked c =
      buffer_line_chars-state _ (record c { transfer_encoding = chunked })

  chunk_header-state :
      (size : ℕ) (c : Connection) → (write_chunk_header host size c).1.state ≡ c.state
  unfolding write_chunk_header
  chunk_header-state size c = write-state _ _ false

  chunk_header_if-state :
      (e : TransferEncoding) (bytes : Bytes) (c : Connection)
      → (chunk_header_if host e (length bytes) c).1.state ≡ c.state
  unfolding chunk_header_if
  chunk_header_if-state raw bytes c = refl
  chunk_header_if-state chunked [] c = refl
  chunk_header_if-state chunked (b ∷ bs) c =
      rw (zero_length b bs) (chunk_header-state (length (b ∷ bs)) c)
    where
      zero_length : (b : ℕ) (bs : Bytes) → (length (b ∷ bs) == 0) ≡ false
      zero_length b bs = ground arith

  payload_body-state :
      (bytes : Bytes) (flush_it : Bool) (c : Connection)
      → (payload_body host bytes flush_it c).1.state ≡ c.state
  unfolding payload_body
  payload_body-state bytes flush_it c =
      write-state _ bytes flush_it ∙ chunk_header_if-state c.transfer_encoding bytes c

  finish_body-state :
      (keep : Bool) (c : Connection) → (finish_body host keep c).1.state ≡ reading_headers
  unfolding finish_body
  finish_body-state keep c = refl

  begin-Follows :
      (s : State) (version now : Bytes) (code : ResponseCode) (encoding : TransferEncoding)
      (c : Connection)
      → c.state ≡ s
      → Follows c
          (next_state s (begin_call version now code encoding))
          (begin_in host s version now code encoding c).1
  unfolding next_state begin_in
  begin-Follows invalid version now code encoding c e = refl
  begin-Follows reading_headers version now code encoding c e = refl
  begin-Follows reading_websocket_key3 version now code encoding c e = refl
  begin-Follows handling_hixie_websocket version now code encoding c e = refl
  begin-Follows handling_hybi_websocket version now code encoding c e = refl
  begin-Follows buffering_post_data version now code encoding c e = refl
  begin-Follows awaiting_response_begin version now code encoding c e =
      begin_encoding-state encoding _ ∙ headers-state version now code _
  begin-Follows sending_response_headers version now code encoding c e = refl
  begin-Follows sending_response_body version now code encoding c e = refl

  header-Follows :
      (s : State) (key value : Bytes) (c : Connection)
      → c.state ≡ s
      → Follows c (next_state s (header_call key value)) (header_in host s key value c).1
  unfolding next_state header_in
  header-Follows invalid key value c e = refl
  header-Follows reading_headers key value c e = refl
  header-Follows reading_websocket_key3 key value c e = refl
  header-Follows handling_hixie_websocket key value c e = refl
  header-Follows handling_hybi_websocket key value c e = refl
  header-Follows buffering_post_data key value c e = refl
  header-Follows awaiting_response_begin key value c e = refl
  header-Follows sending_response_headers key value c e = buffer_line-state _ c ∙ e
  header-Follows sending_response_body key value c e = refl

  payload-Follows :
      (s : State) (bytes : Bytes) (flush_it : Bool) (c : Connection)
      → c.state ≡ s
      → Follows c
          (next_state s (payload_call bytes flush_it))
          (payload_in host s bytes flush_it c).1
  unfolding next_state payload_in
  payload-Follows invalid bytes flush_it c e = refl
  payload-Follows reading_headers bytes flush_it c e = refl
  payload-Follows reading_websocket_key3 bytes flush_it c e = refl
  payload-Follows handling_hixie_websocket bytes flush_it c e = refl
  payload-Follows handling_hybi_websocket bytes flush_it c e = refl
  payload-Follows buffering_post_data bytes flush_it c e = refl
  payload-Follows awaiting_response_begin bytes flush_it c e = refl
  payload-Follows sending_response_headers bytes flush_it c e =
      let d = (buffer_line_chars_ host [] c).1 in
      payload_body-state bytes flush_it (record d { state = sending_response_body })
  payload-Follows sending_response_body bytes flush_it c e = payload_body-state bytes flush_it c ∙ e

  finish-Follows :
      (s : State) (keep : Bool) (c : Connection)
      → c.state ≡ s
      → Follows c (next_state s (finish_call keep)) (finish_in host s keep c).1
  unfolding next_state finish_in
  finish-Follows invalid keep c e = refl
  finish-Follows reading_headers keep c e = refl
  finish-Follows reading_websocket_key3 keep c e = refl
  finish-Follows handling_hixie_websocket keep c e = refl
  finish-Follows handling_hybi_websocket keep c e = refl
  finish-Follows buffering_post_data keep c e = refl
  finish-Follows awaiting_response_begin keep c e = refl
  finish-Follows sending_response_headers keep c e =
      finish_body-state keep (buffer_line_chars_ host [] c).1
  finish-Follows sending_response_body keep c e = finish_body-state keep c

  -- Each of the calls begin, header, payload and finish takes the connection to the state that the
  -- machine allows, and where it allows none the connection is left exactly as it was.
  pub run-Follows :
      (call : Call) (c : Connection) → Follows c (next_state c.state call) (run call c).1
  unfolding run begin header payload finish
  run-Follows (begin_call version now code encoding) c =
      begin-Follows c.state version now code encoding c refl
  run-Follows (header_call key value) c = header-Follows c.state key value c refl
  run-Follows (payload_call bytes flush_it) c = payload-Follows c.state bytes flush_it c refl
  run-Follows (finish_call keep) c = finish-Follows c.state keep c refl
