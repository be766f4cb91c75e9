-- ===== src/Connection/Responder/Body.antt =====
-- What the body of a chunked response appends to the stream, src/main/c/Connection.cpp.
use seasocks.Prelude.{
  ℕ, ◌+◌, ◌%◌, ◌^◌, ◌≡◌, refl, ap, sym, ◌∙◌, Bool, false, [], ◌∷◌, ◌++◌, length, ◌==◌,
  if◌then◌else◌, Bytes, arith, subst,
}
use seasocks.Response.{chunked}
use seasocks.Connection.{Connection, Host, SendsAtMost, sending_response_body, M, ◌>>◌, drop_result}
use seasocks.Connection.Output.{write}
use seasocks.Connection.Mode.{mode, write-mode}
use seasocks.Connection.Outputs.{Appends-output}
use seasocks.Connection.Appends.{Appends, Appends-trans, write-Appends}
use seasocks.Connection.Responder.{
  crlf, chunk_header, write_chunk_header, chunk_header_if, payload_body, payload_in, payload,
}

-- Where a chunk was sent before, its end is still to be sent.
abbrev pub pending : ℕ → Bytes
pending chunk = if chunk == 0 then [] else crlf

module _ (host : Host) (most : SendsAtMost host) where
  abbrev limit : ℕ
  limit = host.client_buffer_size

  pub write_chunk_header-Appends :
      (c : Connection) (size : ℕ)
      → c.had_send_error ≡ false
      → Appends limit c (chunk_header c.chunk size) (write_chunk_header host size c).1
  unfolding write_chunk_header
  write_chunk_header-Appends c size ok = Appends-output refl refl (
      write-Appends host most (record c { chunk = (c.chunk + 1) % 2 ^ 32 })
        (chunk_header c.chunk size) false ok)

  -- The members of the state machine behind it.
  pub write_chunk_header-mode :
      (c : Connection) (size : ℕ)
      → mode (write_chunk_header host size c).1 ≡ mode (record c { chunk = (c.chunk + 1) % 2 ^ 32 })
  unfolding write_chunk_header
  write_chunk_header-mode c size = write-mode host _ _ false

  -- A payload of a response with chunks.
  abbrev pub payload_out : ℕ → Bytes → Bytes
  payload_out chunk [] = []
  payload_out chunk (b ∷ bs) = chunk_header chunk (length (b ∷ bs)) ++ (b ∷ bs)

  abbrev pub next_chunk : ℕ → Bytes → ℕ
  next_chunk chunk [] = chunk
  next_chunk chunk (b ∷ bs) = (chunk + 1) % 2 ^ 32

  -- Behind the chunk's header, if any.
  write_payload : M (Unit {0}) → Bytes → Bool → M (Unit {0})
  write_payload chunk_of bytes flush_it = do chunk_of; drop_result (write host bytes flush_it)

  -- The payload was appended, in a chunk of its own, and only the number of chunks has changed.
  pub record Chunk (c : Connection) (bytes : Bytes) (d : Connection) : Type 0 where
    pub chunk_out : Appends limit c (payload_out c.chunk bytes) d
    pub counted : mode d ≡ mode (record c { chunk = next_chunk c.chunk bytes })

  payload_chunked :
      (c : Connection) (bytes : Bytes) (flush_it : Bool)
      → c.had_send_error ≡ false
      → Chunk c bytes
          (write_payload (chunk_header_if host chunked (length bytes)) bytes flush_it c).1
  unfolding write_payload chunk_header_if
  payload_chunked c [] flush_it ok = record {
    chunk_out = write-Appends host most c [] flush_it ok;
    counted = write-mode host c [] flush_it;
  }
  payload_chunked c (b ∷ bs) flush_it ok =
      let some_bytes : (length (b ∷ bs) == 0) ≡ false = ground arith in
      let h = write_chunk_header-Appends c (length (b ∷ bs)) ok in
      let d = (write_chunk_header host (length (b ∷ bs)) c).1 in
      rw some_bytes (record {
        chunk_out =
            Appends-trans h (write-Appends host most d (b ∷ bs) flush_it (h.same_error ∙ ok));
        counted = write-mode host d (b ∷ bs) flush_it ∙ write_chunk_header-mode c (length (b ∷ bs));
      })

  -- `payload` where the body of a response with chunks is being sent.
  pub payload-Chunk :
      (c : Connection) (bytes : Bytes) (flush_it : Bool)
      → c.state ≡ sending_response_body
      → c.transfer_encoding ≡ chunked
      → c.had_send_error ≡ false
      → Chunk c bytes (payload host bytes flush_it c).1
  unfolding payload payload_in payload_body write_payload
  payload-Chunk c bytes flush_it s t ok =
      subst (λ r. Chunk c bytes r.1)
        (sym (
          ap (λ s. payload_in host s bytes flush_it c) s
          ∙ ap (λ t. write_payload (chunk_header_if host t (length bytes)) bytes flush_it c) t))
        (payload_chunked c bytes flush_it ok)
