-- ===== src/Connection/Responder/Finish.antt =====
-- What a response with chunks sends from its body to its end, src/main/c/Connection.cpp.
use mathlib.Core.List.{map, flatten}
use seasocks.Prelude.{
  ℕ, ◌+◌, ◌%◌, ◌^◌, ◌<◌, ◌≤◌, ◌≡◌, refl, ap, sym, ◌∙◌, Bool, true, false, List, [], ◌∷◌, ◌++◌,
  append_assoc, append-nil, some, drop, drop-append, length, length-map, ◌==◌, Bytes, arith, subst,
}
use seasocks.Text.Digits.{to_hex, print_fuel, digit}
use seasocks.Response.{chunked}
use seasocks.Connection.{
  Connection, Host, SendsAtMost, sending_response_body, reading_headers, M, ◌>>◌, drop_result,
}
use seasocks.Connection.Output.{flush}
use seasocks.Connection.Outputs.{Appends-output, flush-Appends, close_when_empty-Appends}
use seasocks.Connection.Appends.{Appends, Appends-trans, Appends-refl, write-Appends}
use seasocks.Connection.Stream.{stream}
use seasocks.Connection.Write.{refuses}
use seasocks.Connection.Send.Received.{Appends-all}
use seasocks.Connection.Responder.Chunks.{chunk_coded, dechunk, dechunk-chunk_coded}
use seasocks.Connection.Responder.Body.{
  pending, payload_out, next_chunk, Chunk, payload-Chunk, write_chunk_header-Appends,
}
use seasocks.Connection.Responder.{
  crlf, chunk_header, write_chunk_header, payload, last_chunk_if, finish_close, finish_body,
  finish_in, finish,
}

cast :
    {limit : ℕ} {c d : Connection} {xs ys : Bytes}
    → xs ≡ ys
    → Appends limit c xs d
    → Appends limit c ys d
cast {limit} {c} {d} e p = subst (λ bytes. Appends limit c bytes d) e p

chunk_header_last : (chunk : ℕ) → chunk_header chunk 0 ++ crlf ≡ pending chunk ++ chunk_coded []
unfolding chunk_header chunk_coded to_hex print_fuel digit
chunk_header_last chunk = append_assoc (pending chunk) (b'0' ∷ crlf) crlf

module _ (host : Host) (most : SendsAtMost host) where
  abbrev limit : ℕ
  limit = host.client_buffer_size

  last_chunk-Appends :
      (c : Connection)
      → c.had_send_error ≡ false
      → Appends limit c (pending c.chunk ++ chunk_coded []) (last_chunk_if host chunked c).1
  unfolding last_chunk_if
  last_chunk-Appends c ok =
      let h = write_chunk_header-Appends host most c 0 ok in
      cast (chunk_header_last c.chunk) (
        Appends-trans h
          (write-Appends host most (write_chunk_header host 0 c).1 crlf false (h.same_error ∙ ok)))

  finish_close-Appends :
      (keep : Bool) (c : Connection) → Appends limit c [] (finish_close host keep c).1
  unfolding finish_close
  finish_close-Appends true c = Appends-refl c
  finish_close-Appends false c = close_when_empty-Appends c

  -- `finish_body` behind the last chunk.
  finish_behind : M (Unit {0}) → Bool → M (Unit {0})
  finish_behind last keep c =
      (do
        last
        drop_result (flush host)
        finish_close host keep
        λ d. (tt, record d { state = reading_headers; has_response = false }))
        c

  finish_behind-Appends :
      (last : M (Unit {0})) (keep : Bool) (c : Connection) (bytes : Bytes)
      → Appends limit c bytes (last c).1
      → Appends limit c bytes (finish_behind last keep c).1
  unfolding finish_behind
  finish_behind-Appends last keep c bytes p =
      let b = (last c).1 in
      let d = (flush host b).1 in
      cast (append-nil bytes) (
        Appends-output refl refl (
          Appends-trans p
            (Appends-trans (flush-Appends host most b) (finish_close-Appends keep d))))

  finish-Appends :
      (c : Connection) (keep : Bool)
      → c.state ≡ sending_response_body
      → c.transfer_encoding ≡ chunked
      → c.had_send_error ≡ false
      → Appends limit c (pending c.chunk ++ chunk_coded []) (finish host keep c).1
  unfolding finish finish_in finish_body finish_behind
  finish-Appends c keep s t ok =
      subst (λ r. Appends limit c (pending c.chunk ++ chunk_coded []) r.1)
        (sym (
          ap (λ s. finish_in host s keep c) s
          ∙ ap (λ t. finish_behind (last_chunk_if host t) keep c) t))
        (finish_behind-Appends (last_chunk_if host chunked) keep c _ (last_chunk-Appends c ok))

  -- The calls of a response that is in its body: its payloads, each with its flush flag, then the end.
  unfoldable pub respond : List (Bytes × Bool) → Bool → M (Unit {0})
  respond [] keep = finish host keep
  respond ((bytes, flush_it) ∷ ps) keep = do payload host bytes flush_it; respond ps keep

  pending-coded :
      (chunk : ℕ) (bytes : Bytes) (flush_it : Bool) (ps : List Bytes)
      → chunk + 1 < 2 ^ 32
      → payload_out host most chunk bytes
          ++ (pending (next_chunk host most chunk bytes) ++ chunk_coded ps)
        ≡ pending chunk ++ chunk_coded (bytes ∷ ps)
  unfolding chunk_coded chunk_header
  pending-coded chunk [] flush_it ps h = refl
  pending-coded chunk (b ∷ bs) flush_it ps h =
      let later : ((chunk + 1) % 2 ^ 32 == 0) ≡ false = ground arith in
      rw later (
        append_assoc (chunk_header chunk (length (b ∷ bs))) _ _
        ∙ append_assoc (pending chunk) (to_hex (length (b ∷ bs)) ++ crlf) _
        ∙ ap (◌++◌ (pending chunk)) (append_assoc (to_hex (length (b ∷ bs))) crlf _))

  next_chunk_lem :
      (chunk : ℕ) (bytes : Bytes)
      → chunk + 1 < 2 ^ 32
      → next_chunk host most chunk bytes ≤ chunk + 1
  next_chunk_lem chunk [] h = omega arith
  next_chunk_lem chunk (b ∷ bs) h = omega arith

  -- Payloads and the end of a response with chunks append the chunked coding of the payloads,
  -- behind the end of the chunk before them, if any; where they append less, the connection refuses
  -- data from then on. The connection is in a response's body without a send error, and fewer than
  -- 2 ^ 32 chunks are sent.
  pub respond-Appends :
      (c : Connection) (ps : List (Bytes × Bool)) (keep : Bool)
      → c.state ≡ sending_response_body
      → c.transfer_encoding ≡ chunked
      → c.had_send_error ≡ false
      → c.chunk + length ps < 2 ^ 32
      → Appends host.client_buffer_size c
          (pending c.chunk ++ chunk_coded (map (λ p. p.0) ps))
          (respond ps keep c).1
  unfolding respond
  respond-Appends c [] keep s t ok h = finish-Appends c keep s t ok
  respond-Appends c ((bytes, flush_it) ∷ ps) keep s t ok h =
      let d = (payload host bytes flush_it c).1 in
      let p : Chunk host most c bytes d = payload-Chunk host most c bytes flush_it s t ok in
      let n = ap (λ m. m.chunk) p.counted in
      let small : c.chunk + 1 < 2 ^ 32 = omega arith in
      let out = payload_out host most c.chunk bytes in
      cast
        (ap (λ n. out ++ (pending n ++ chunk_coded (map (λ p. p.0) ps))) n
          ∙ pending-coded c.chunk bytes flush_it (map (λ p. p.0) ps) small)
        (Appends-trans p.chunk_out (
          respond-Appends d ps keep (ap (λ m. m.state) p.counted ∙ s)
            (ap (λ m. m.transfer_encoding) p.counted ∙ t) (p.chunk_out.same_error ∙ ok)
            (omega (arith, n, next_chunk_lem c.chunk bytes small))))

  -- A response with chunks that starts behind no other chunk, on a connection in a response's body
  -- that had no send error: a client that reads chunks from where the body begins in the stream of
  -- bytes finds the payloads, joined, and nothing behind them. The connection still takes data
  -- behind it, and fewer than 2 ^ 32 chunks are sent.
  pub respond-dechunk :
      (c : Connection) (ps : List (Bytes × Bool)) (keep : Bool) (d : Connection)
      → c.state ≡ sending_response_body
      → c.transfer_encoding ≡ chunked
      → c.had_send_error ≡ false
      → c.chunk ≡ 0
      → length ps < 2 ^ 32
      → (respond ps keep c).1 ≡ d
      → refuses d ≡ false
      → dechunk (length ps + 1) (drop (length (stream c)) (stream d))
        ≡ some (flatten (map (λ p. p.0) ps), [])
  respond-dechunk c ps keep d s t ok first many run alive =
      let body = chunk_coded (map (λ p. p.0) ps) in
      let none_before : pending c.chunk ++ body ≡ body = rw first in
      let p = cast none_before (respond-Appends c ps keep s t ok (omega arith)) in
      let whole = Appends-all (subst (λ d. Appends limit c body d) run p) alive in
      ap (λ t. dechunk (length ps + 1) (drop (length (stream c)) t)) whole
      ∙ ap (dechunk (length ps + 1)) (drop-append (stream c) body ∙ sym (append-nil body))
      ∙ dechunk-chunk_coded (map (λ p. p.0) ps) [] (length ps + 1)
          (omega (arith, length-map ps (λ p. p.0)))
