-- ===== src/Responses/Chunked.antt =====
-- What a client reads of the answer of src/main/c/seasocks/StreamingResponse.cpp with chunks.
use mathlib.Core.List.{flatten}
use seasocks.Prelude.{
  ℕ, zero, suc, ◌+◌, ◌^◌, ◌<◌, ◌≤◌, ◌≡◌, refl, ap, sym, ◌∙◌, subst, inl, inr, Bool, true, false,
  List, [], ◌∷◌, ◌++◌, append-nil, map, Option, some, ◌>>=◌, length, length-drop, length-map, take,
  drop, take-append-drop, leb, leb→le, Bytes, arith, Bool-cases,
}
use seasocks.Response.{chunked}
use seasocks.Connection.{
  Connection, SendsAtMost, awaiting_response_begin, sending_response_headers, M, ◌>>◌, return,
}
use seasocks.Connection.Mode.{Mode, mode}
use seasocks.Connection.Appends.{Appends, Appends-trans, Appends-refl}
use seasocks.Connection.Errors.Document.{lines}
use seasocks.Connection.Responder.{crlf, begin, payload}
use seasocks.Connection.Responder.Chunks.{chunk_coded, dechunk, dechunk-chunk_coded}
use seasocks.Connection.Responder.Finish.{respond}
use seasocks.Connection.Responder.Steps.{header_line, headers_text-lines, begin_lines}
use seasocks.Connection.Responder.Calls.{begin-Runs, respond_headers-Appends}
use seasocks.Requests.{Site}
use seasocks.Responses.{write_headers}
use seasocks.Responses.Writer.{connection_writer}
use seasocks.Responses.Answers.{writer, write_headers-Runs}
use seasocks.Responses.Streaming.{Stream, read, StreamingResponse, stream_loop, streaming_handle}

module _ (site : Site) (most : SendsAtMost site.host) (path : Bytes) (r : StreamingResponse) where
  -- The loop has ended, and its calls are payloads, one or more, which make up the bytes, and the end.
  record Pieced (bytes : Bytes) (o : Option (M (Unit {0}))) : Type 0 where
    first : Bytes × Bool
    more : List (Bytes × Bool)
    ended : o ≡ some (respond site.host most (first ∷ more) r.keep_connection_alive)
    whole : flatten (map (λ p. p.0) (first ∷ more)) ≡ bytes
    few : length (first ∷ more) ≤ length bytes + 1

  short-Pieced :
      (fuel : ℕ) (s : Stream)
      → s.breaks ≡ false
      → leb r.buffer_size (length s.rest) ≡ false
      → Pieced s.rest (stream_loop (writer site most path) r (suc fuel) false s)
  unfolding stream_loop read connection_writer respond flatten
  short-Pieced fuel s sound small =
      rw (small, sound)
        (record {
          first = (s.rest, r.flush_instantly);
          more = [];
          ended = refl;
          whole = append-nil s.rest;
          few = omega arith;
        })

  full-Pieced :
      (fuel : ℕ) (s : Stream)
      → leb r.buffer_size (length s.rest) ≡ true
      → 0 < r.buffer_size
      → Pieced (drop r.buffer_size s.rest) (
          stream_loop
            (writer site most path)
            r
            fuel
            false
            (record s { rest = drop r.buffer_size s.rest }))
      → Pieced s.rest (stream_loop (writer site most path) r (suc fuel) false s)
  unfolding stream_loop read connection_writer respond flatten
  full-Pieced fuel s large some_room p =
      let size : ℕ = r.buffer_size in
      rw large (record {
        first = (take size s.rest, r.flush_instantly);
        more = p.first ∷ p.more;
        ended =
            ap
              (λ o.
                o >>= λ more. some (payload site.host (take size s.rest) r.flush_instantly >> more))
              p.ended;
        whole = ap (◌++◌ (take size s.rest)) p.whole ∙ take-append-drop size s.rest;
        few =
            omega
              (arith, p.few, length-drop size s.rest, leb→le r.buffer_size (length s.rest) large);
      })

  stream_loop-Pieced :
      (fuel : ℕ) (s : Stream)
      → s.breaks ≡ false
      → 0 < r.buffer_size
      → length s.rest < fuel
      → Pieced s.rest (stream_loop (writer site most path) r fuel false s)
  stream_loop-Pieced zero s sound some_room enough = absurd (omega arith)
  stream_loop-Pieced (suc fuel) s sound some_room enough =
      elim (Bool-cases (leb r.buffer_size (length s.rest))) [
        | inl large ↦ full-Pieced fuel s large some_room (
            stream_loop-Pieced fuel (record s { rest = drop r.buffer_size s.rest }) sound some_room
              (omega (
                arith,
                length-drop r.buffer_size s.rest,
                leb→le r.buffer_size (length s.rest) large,
              )))
        | inr small ↦ short-Pieced fuel s sound small
      ]

  -- The handler returns, and what it has called appends the head, an empty line and a body from which
  -- a client reads the bytes.
  pub record Streamed (c : Connection) (o : Option (M (Unit {0}))) : Type 0 where
    pub calls : M (Unit {0})
    pub returns : o ≡ some calls
    pub body : Bytes
    pub chunks : ℕ
    pub reads : dechunk chunks body ≡ some (r.stream.rest, [])
    pub appends :
        Appends site.host.client_buffer_size c
          (lines (begin_lines site.version site.now r.response_code chunked)
            ++ (lines (map header_line r.headers) ++ (crlf ++ body)))
          (calls c).1

  open_stream :
      (fuel : ℕ)
      → r.closed ≡ false
      → stream_loop (writer site most path) r fuel r.closed r.stream
        ≡ stream_loop (writer site most path) r fuel false r.stream
  open_stream fuel e = ap (λ b. stream_loop (writer site most path) r fuel b r.stream) e

  heads-Appends :
      (c : Connection) (bytes : Bytes) (flush_it : Bool) (ps : List (Bytes × Bool))
      → r.transfer_encoding ≡ chunked
      → c.state ≡ awaiting_response_begin
      → c.had_send_error ≡ false
      → c.chunk ≡ 0
      → length ((bytes, flush_it) ∷ ps) < 2 ^ 32
      → Appends site.host.client_buffer_size c
          (lines (begin_lines site.version site.now r.response_code chunked)
            ++ (lines (map header_line r.headers)
                ++ (crlf ++ chunk_coded (map (λ p. p.0) ((bytes, flush_it) ∷ ps)))))
          ((begin site.host site.version site.now r.response_code chunked
              >> (write_headers (writer site most path) r.headers
                  >> respond site.host most ((bytes, flush_it) ∷ ps) r.keep_connection_alive))
            c).1
  unfolding connection_writer
  heads-Appends c bytes flush_it ps t at ok none_before few =
      let m : Mode = record (mode c) {
        state = sending_response_headers;
        transfer_encoding = chunked;
      } in
      let b =
        begin-Runs site.host most site.version site.now r.response_code chunked (mode c) at c ok
          refl in
      let c1 : Connection = (begin site.host site.version site.now r.response_code chunked c).1 in
      let w =
        write_headers-Runs site most path r.headers (return tt) m m [] refl
          (λ c ok e. record { appends = Appends-refl c; becomes = e }) c1
          (b.appends.same_error ∙ ok) b.becomes in
      let c2 : Connection = (write_headers (writer site most path) r.headers c1).1 in
      let coded : Bytes = chunk_coded (map (λ p. p.0) ((bytes, flush_it) ∷ ps)) in
      let rest =
        respond_headers-Appends site.host most c2 bytes flush_it ps r.keep_connection_alive
          (ap (λ m. m.state) w.becomes) (ap (λ m. m.transfer_encoding) w.becomes)
          (w.appends.same_error ∙ b.appends.same_error ∙ ok)
          (ap (λ m. m.chunk) w.becomes ∙ none_before) few in
      let heads =
        subst (λ l. Appends site.host.client_buffer_size c1 l c2)
          (headers_text-lines r.headers [] ∙ append-nil (lines (map header_line r.headers)))
          w.appends in
      Appends-trans b.appends (Appends-trans heads rest)

  -- A streaming response with chunks, not cancelled, whose stream ends without an error and whose
  -- buffer has room for a byte, returns, and what it has called on the connection's writer appends
  -- the head with its headers, an empty line and a body from which a client that reads chunks gets
  -- the bytes of the stream, and nothing behind them; where less is appended, the connection
  -- refuses data from then on. ::send takes no more than it is given, the connection waits for a
  -- response to begin, had no send error and has sent no chunk, and the stream is shorter than 2 ^
  -- 32 - 1 bytes.
  pub streaming_handle-Streamed :
      (fuel : ℕ) (c : Connection)
      → r.closed ≡ false
      → r.stream.breaks ≡ false
      → 0 < r.buffer_size
      → r.transfer_encoding ≡ chunked
      → length r.stream.rest < fuel
      → length r.stream.rest + 1 < 2 ^ 32
      → c.state ≡ awaiting_response_begin
      → c.had_send_error ≡ false
      → c.chunk ≡ 0
      → Streamed c (streaming_handle (writer site most path) r fuel)
  unfolding streaming_handle connection_writer
  streaming_handle-Streamed fuel c fresh sound some_room t enough small at ok none_before =
      let p = stream_loop-Pieced fuel r.stream sound some_room enough in
      let ps : List (Bytes × Bool) = p.first ∷ p.more in
      let run = respond site.host most ps r.keep_connection_alive in
      let texts : List Bytes = map (λ p. p.0) ps in
      record {
        calls =
            begin site.host site.version site.now r.response_code chunked
            >> (write_headers (writer site most path) r.headers >> run);
        returns = λ i. (open_stream fuel fresh ∙ p.ended) i >>= λ more. some (
            begin site.host site.version site.now r.response_code (t i)
            >> (write_headers (writer site most path) r.headers >> more));
        body = chunk_coded texts;
        chunks = length ps + 1;
        reads =
            ap (dechunk (length ps + 1)) (sym (append-nil (chunk_coded texts)))
            ∙ dechunk-chunk_coded texts [] (length ps + 1) (omega (arith, length-map ps (λ p. p.0)))
            ∙ ap (λ b. some (b, [])) p.whole;
        appends =
            heads-Appends c p.first.0 p.first.1 p.more t at ok none_before (omega (arith, p.few));
      }
