-- ===== src/Connection/Send/Frames.antt =====
-- src/main/c/Connection.cpp: what `sendHybi` writes is a frame of RFC 6455.
use Prim.Native.Nat.{bit_or}
use seasocks.Prelude.{
  ℕ, suc, ◌/◌, ◌%◌, ◌^◌, ◌<◌, ◌≡◌, refl, ap, inl, inr, Bool, true, false, [], ◌∷◌, ◌++◌, none,
  length, ltb, if◌then◌else◌, Bytes, arith, Bool-cases, subst,
}
use seasocks.Prelude.Bits.{fin_byte, rsv1_byte}
use seasocks.Hybi.Frame.{frame, length_field, first_byte}
use seasocks.Connection.{Connection, Host, SendsAtMost, M, ◌>>=◌, drop_result}
use seasocks.Connection.Output.{write, write_or_return}
use seasocks.Connection.Mode.{write-mode}
use seasocks.Connection.Outputs.{Appends-output}
use seasocks.Connection.Appends.{Appends, write-Appends, then-Appends}
use seasocks.Connection.Send.{
  send_hybi_data, send_hybi, compress_if, send_compressed, htons_bytes, bswap_64_bytes,
}

Appends-cast :
    {limit : ℕ} {c d : Connection} {xs ys : Bytes}
    → xs ≡ ys
    → Appends limit c xs d
    → Appends limit c ys d
Appends-cast {limit} {c} {d} e p = subst (λ bytes. Appends limit c bytes d) e p

-- What `sendHybi` puts in the frame, by whether it compresses.
module _ (deflate : ℕ → Bytes → Bytes) where
  abbrev pub payload_if : Bool → ℕ → Bytes → Bytes
  payload_if true call response = deflate call response
  payload_if false call response = response

  abbrev pub hybi_payload : Connection → Bytes → Bytes
  hybi_payload c = payload_if c.per_message_deflate c.deflate_calls

framed : Bytes → Bytes
framed payload = length_field 0 (length payload) ++ payload

module _ (host : Host) (deflate : ℕ → Bytes → Bytes) (most : SendsAtMost host) where
  abbrev limit : ℕ
  limit = host.client_buffer_size

  send_hybi_data-Appends :
      (c : Connection) (response : Bytes)
      → c.had_send_error ≡ false
      → Appends limit c
          (length_field 0 (length response) ++ response)
          (send_hybi_data host deflate response c).1
  unfolding send_hybi_data length_field
  send_hybi_data-Appends c response ok = elim (Bool-cases (ltb (length response) 126)) [
    | inl short ↦ rw short (
        Appends-cast (ap (λ t. t ∷ response) (omega arith))
          (then-Appends host most c (length response ∷ []) response send_response ok (last _)))
    | inr more ↦ elim (Bool-cases (ltb (length response) 65536)) [
      | inl two ↦
          rw (more, two)
            (Appends-cast
              (ap (λ t. 126 ∷ length response / 256 % 256 ∷ t % 256 ∷ response) (omega arith))
              (then-Appends host most c (126 ∷ []) (htons_bytes (length response) ++ response) _ ok
                (sized (htons_bytes (length response)) _)))
      | inr eight ↦
          rw (more, eight)
            (Appends-cast (ap (λ t. 127 ∷ (front ++ (t % 256 ∷ response))) (omega arith)) (
              then-Appends host most c (127 ∷ []) (bswap_64_bytes (length response) ++ response) _
                ok (sized (bswap_64_bytes (length response)) _)))
    ]
  ]
    where
      send_response : M (Unit {0})
      send_response = drop_result (write host response true)

      last :
          (d : Connection) → d.had_send_error ≡ false → Appends limit d response (send_response d).1
      last d h = write-Appends host most d response true h

      sized :
          (bytes : Bytes) (d : Connection)
          → d.had_send_error ≡ false
          → Appends limit d (bytes ++ response) (write_or_return host bytes send_response d).1
      sized bytes d h = then-Appends host most d bytes response send_response h (last _)

      front : Bytes
      front =
          length response / 256 ^ 7 % 256
          ∷ length response / 256 ^ 6 % 256
          ∷ length response / 256 ^ 5 % 256
          ∷ length response / 256 ^ 4 % 256
          ∷ length response / 256 ^ 3 % 256
          ∷ length response / 256 ^ 2 % 256
          ∷ length response / 256 % 256
          ∷ []

  compress_if-Appends :
      (b : Bool) (c : Connection) (response : Bytes)
      → c.had_send_error ≡ false
      → Appends limit c
          (framed (payload_if deflate b c.deflate_calls response))
          ((compress_if host deflate b response >>= send_hybi_data host deflate) c).1
  unfolding compress_if framed
  compress_if-Appends true c response ok = Appends-output refl refl (
      send_hybi_data-Appends (record c { deflate_calls = suc c.deflate_calls })
        (deflate c.deflate_calls response) ok)
  compress_if-Appends false c response ok = send_hybi_data-Appends c response ok

  send_compressed-Appends :
      (c : Connection) (response : Bytes)
      → c.had_send_error ≡ false
      → Appends limit c
          (framed (hybi_payload deflate c response))
          (send_compressed host deflate response c).1
  unfolding send_compressed
  send_compressed-Appends c response ok = compress_if-Appends c.per_message_deflate c response ok

  first_byte_lem :
      (opcode : ℕ) (packed : Bool)
      → opcode < 16
      → (if packed then bit_or (bit_or 0x80 opcode) 0x40 else bit_or 0x80 opcode)
        ≡ first_byte packed opcode
  first_byte_lem opcode true h = omega (arith, rsv1_byte opcode h)
  first_byte_lem opcode false h = omega (arith, fin_byte opcode h)

  -- sendHybi appends one unmasked frame of RFC 6455 with the opcode and the message, compressed and
  -- marked so where that was negotiated; where it appends less, the connection refuses data from
  -- then on. The opcode has four bits and there was no send error.
  pub send_hybi-Appends :
      (c : Connection) (opcode : ℕ) (response : Bytes)
      → opcode < 16
      → c.had_send_error ≡ false
      → Appends host.client_buffer_size c
          (frame c.per_message_deflate opcode none (hybi_payload deflate c response))
          (send_hybi host deflate opcode response c).1
  unfolding send_hybi frame framed
  send_hybi-Appends c opcode response ho ok =
      let first =
        if c.per_message_deflate then bit_or (bit_or 0x80 opcode) 0x40 else bit_or 0x80 opcode in
      let d = (write host (first ∷ []) false c).1 in
      Appends-cast
        (ap (λ t. t ∷ framed (hybi_payload deflate c response))
          (first_byte_lem opcode c.per_message_deflate ho))
        (then-Appends host most c (first ∷ []) (framed (hybi_payload deflate c response))
          (send_compressed host deflate response) ok
          λ ok'.
            Appends-cast
              (ap (λ m. framed (payload_if deflate m.per_message_deflate m.deflate_calls response))
                (write-mode host c (first ∷ []) false))
              (send_compressed-Appends d response ok'))
