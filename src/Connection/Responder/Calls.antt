-- ===== src/Connection/Responder/Calls.antt =====
-- The calls of a writer on a connection, src/main/c/Connection.cpp, by what they append and the members
-- of the state machine behind them.
use seasocks.Prelude.{
  ◌^◌, ◌<◌, ◌≡◌, refl, ap, sym, ◌∙◌, subst, Bool, true, false, List, [], ◌∷◌, ◌++◌, append-nil, map,
  length, Bytes, codes, arith,
}
use seasocks.Response.{TransferEncoding, raw, chunked}
use seasocks.Response.Code.{ResponseCode}
use seasocks.Connection.{
  Connection, Host, SendsAtMost, awaiting_response_begin, reading_headers, sending_response_headers,
  sending_response_body, M, ◌>>◌, drop_result,
}
use seasocks.Connection.Output.{write, flush}
use seasocks.Connection.Mode.{Mode, mode, write-mode, flush-mode, close_when_empty-mode}
use seasocks.Connection.Appends.{Appends, Appends-trans, Appends-refl, write-Appends}
use seasocks.Connection.Outputs.{Appends-output, flush-Appends, close_when_empty-Appends}
use seasocks.Connection.Errors.Document.{lines}
use seasocks.Connection.Responder.{
  crlf, buffer_line_chars_, set_state, buffer_response_and_common_headers, begin_encoding, begin_in,
  begin, header_in, header, chunk_header_if, payload_body, payload_in, payload, last_chunk_if,
  finish_close, finish_body, finish_in, finish,
}
use seasocks.Connection.Responder.Body.{pending}
use seasocks.Connection.Responder.Chunks.{chunk_coded}
use seasocks.Connection.Responder.Finish.{respond, respond-Appends}
use seasocks.Connection.Responder.Head.{
  line-Writes, line_chars-Writes, response_lines, common-Writes,
}
use seasocks.Connection.Responder.Steps.{
  header_line, encoding_line, begin_lines, lines-append, Runs, Runs-then, Runs-cast, Runs-Writes,
  Runs-state, Runs-encoding, in_state, encoded, set_state-Runs,
}

module _ (host : Host) (most : SendsAtMost host) where
  begin_encoding-Runs :
      (t : TransferEncoding) (m : Mode)
      → Runs host most
          (begin_encoding host t)
          m
          (lines (encoding_line t))
          (record m { transfer_encoding = t })
  unfolding begin_encoding
  begin_encoding-Runs raw m c ok e = record {
    appends = Appends-output refl refl (Appends-refl c);
    becomes = ap (encoded host most raw) e;
  }
  begin_encoding-Runs chunked m c ok e =
      let text : Bytes = codes "Transfer-encoding: chunked" in
      let w = line_chars-Writes host most text in
      let c' = record c { transfer_encoding = chunked } in
      record {
        appends = Appends-output refl refl (
            subst (λ l. Appends host.client_buffer_size c' l (buffer_line_chars_ host text c').1)
              (sym (append-nil (text ++ crlf))) (w.0 c' ok));
        becomes = w.1 c' ∙ ap (encoded host most chunked) e;
      }

  -- `begin`.
  pub begin-Runs :
      (version now : Bytes) (code : ResponseCode) (t : TransferEncoding) (m : Mode)
      → m.state ≡ awaiting_response_begin
      → Runs host most
          (begin host version now code t)
          m
          (lines (begin_lines version now code t))
          (record m { state = sending_response_headers; transfer_encoding = t })
  unfolding begin begin_in
  begin-Runs version now code t m at =
      let common = buffer_response_and_common_headers host version now code in
      let body : Runs host most
          (set_state host sending_response_headers >> (common >> begin_encoding host t)) m
          (lines (response_lines version now code) ++ lines (encoding_line t))
          (record m { state = sending_response_headers; transfer_encoding = t }) =
        Runs-then host most (set_state-Runs host most sending_response_headers m) (
          Runs-then host most
            (Runs-Writes host most (in_state host most sending_response_headers m)
              (common-Writes host most version now code))
            (begin_encoding-Runs t (in_state host most sending_response_headers m))) in
      Runs-cast host most (sym (lines-append (response_lines version now code) (encoding_line t)))
        (Runs-state host most (λ s. begin_in host s version now code t) at body)

  -- `header`.
  pub header-Runs :
      (name value : Bytes) (m : Mode)
      → m.state ≡ sending_response_headers
      → Runs host most (header host name value) m (header_line (name, value) ++ crlf) m
  unfolding header header_in
  header-Runs name value m at =
      Runs-state host most (λ s. header_in host s name value) at
        (Runs-Writes host most m (line-Writes host most (header_line (name, value))))

  write-Runs :
      (bytes : Bytes) (flush_it : Bool) (m : Mode)
      → Runs host most (drop_result (write host bytes flush_it)) m bytes m
  write-Runs bytes flush_it m c ok e = record {
    appends = write-Appends host most c bytes flush_it ok;
    becomes = write-mode host c bytes flush_it ∙ e;
  }

  -- The empty line behind the headers.
  abbrev pub into_body : M (Unit {0})
  into_body = buffer_line_chars_ host [] >> set_state host sending_response_body

  pub into_body-Runs :
      (m : Mode) → Runs host most into_body m crlf (record m { state = sending_response_body })
  into_body-Runs m = Runs-cast host most (append-nil crlf) (
      Runs-then host most (Runs-Writes host most m (line_chars-Writes host most []))
        (set_state-Runs host most sending_response_body m))

  -- The first `payload`, of a response without chunks.
  pub payload_raw-Runs :
      (bytes : Bytes) (flush_it : Bool) (m : Mode)
      → m.state ≡ sending_response_headers
      → m.transfer_encoding ≡ raw
      → Runs host most
          (payload host bytes flush_it)
          m
          (crlf ++ bytes)
          (record m { state = sending_response_body })
  unfolding payload payload_in payload_body chunk_header_if
  payload_raw-Runs bytes flush_it m at t =
      Runs-state host most (λ s. payload_in host s bytes flush_it) at
        (Runs-then host most (into_body-Runs m) (
          Runs-encoding host most
            (λ t. chunk_header_if host t (length bytes) >> drop_result (write host bytes flush_it))
            t (write-Runs bytes flush_it (record m { state = sending_response_body }))))

  finish_close-Runs : (keep : Bool) (m : Mode) → Runs host most (finish_close host keep) m [] m
  unfolding finish_close
  finish_close-Runs true m c ok e = record { appends = Appends-refl c; becomes = e }
  finish_close-Runs false m c ok e = record {
    appends = close_when_empty-Appends c;
    becomes = close_when_empty-mode c ∙ e;
  }

  flush-Runs : (m : Mode) → Runs host most (drop_result (flush host)) m [] m
  flush-Runs m c ok e = record {
    appends = flush-Appends host most c;
    becomes = flush-mode host c ∙ e;
  }

  abbrev pub done : Mode → Mode
  done m = record m { state = reading_headers; has_response = false }

  abbrev reset : M (Unit {0})
  reset c = (tt, record c { state = reading_headers; has_response = false })

  reset-Runs : (m : Mode) → Runs host most reset m [] (done m)
  reset-Runs m c ok e = record {
    appends = Appends-output refl refl (Appends-refl c);
    becomes = ap done e;
  }

  no_last_chunk-Runs : (m : Mode) → Runs host most (last_chunk_if host raw) m [] m
  unfolding last_chunk_if
  no_last_chunk-Runs m c ok e = record { appends = Appends-refl c; becomes = e }

  -- `finish`, of a response without chunks that is in its body.
  pub finish_raw-Runs :
      (keep : Bool) (m : Mode)
      → m.state ≡ sending_response_body
      → m.transfer_encoding ≡ raw
      → Runs host most (finish host keep) m [] (done m)
  unfolding finish finish_in finish_body
  finish_raw-Runs keep m at t =
      Runs-state host most (λ s. finish_in host s keep) at
        (Runs-encoding host most
          (λ t.
            last_chunk_if host t >> (drop_result (flush host) >> (finish_close host keep >> reset)))
          t
          (Runs-then host most (no_last_chunk-Runs m) (
            Runs-then host most (flush-Runs m)
              (Runs-then host most (finish_close-Runs keep m) (reset-Runs m)))))

  -- The first `payload` sends the empty line, and is then one of the body.
  payload_headers :
      (bytes : Bytes) (flush_it : Bool) (c : Connection)
      → c.state ≡ sending_response_headers
      → payload host bytes flush_it c ≡ payload host bytes flush_it (into_body c).1
  unfolding payload payload_in
  payload_headers bytes flush_it c at = ap (λ s. payload_in host s bytes flush_it c) at

  -- The payloads, one or more, and the end of a response with chunks, behind its headers.
  pub respond_headers-Appends :
      (c : Connection) (bytes : Bytes) (flush_it : Bool) (ps : List (Bytes × Bool)) (keep : Bool)
      → c.state ≡ sending_response_headers
      → c.transfer_encoding ≡ chunked
      → c.had_send_error ≡ false
      → c.chunk ≡ 0
      → length ((bytes, flush_it) ∷ ps) < 2 ^ 32
      → Appends host.client_buffer_size c
          (crlf ++ chunk_coded (map (λ p. p.0) ((bytes, flush_it) ∷ ps)))
          (respond host most ((bytes, flush_it) ∷ ps) keep c).1
  unfolding respond
  respond_headers-Appends c bytes flush_it ps keep at t ok first few =
      let entered = into_body-Runs (mode c) c ok refl in
      let d : Connection = (into_body c).1 in
      let none_before : d.chunk ≡ 0 = ap (λ m. m.chunk) entered.becomes ∙ first in
      let coded : Bytes = chunk_coded (map (λ p. p.0) ((bytes, flush_it) ∷ ps)) in
      let body =
        respond-Appends host most d ((bytes, flush_it) ∷ ps) keep refl
          (ap (λ m. m.transfer_encoding) entered.becomes ∙ t) (entered.appends.same_error ∙ ok)
          (omega (arith, none_before, few)) in
      subst
        (λ e. Appends host.client_buffer_size c (crlf ++ coded) (respond host most ps keep e.1).1)
        (sym (payload_headers bytes flush_it c at))
        (Appends-trans entered.appends (
          subst
            (λ n.
              Appends host.client_buffer_size d (pending n ++ coded)
                (respond host most ((bytes, flush_it) ∷ ps) keep d).1)
            none_before body))
