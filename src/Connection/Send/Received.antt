-- ===== src/Connection/Send/Received.antt =====
-- src/main/c/Connection.cpp sends what src/main/c/HybiPacketDecoder.cpp decodes.
use seasocks.Prelude.{
  ℕ, ◌+◌, ◌^◌, ◌<◌, ◌≡◌, refl, ap, sym, ◌∙◌, inl, inr, false, [], ◌++◌, append-nil, none, some,
  length, length-append, if◌then◌else◌, Bytes, IsByte, All, arith, subst, take-length,
}
use seasocks.Hybi.Frame.{frame}
use seasocks.Hybi.Decode.{decode-frame, decoded}
use seasocks.Hybi.Opcode
use seasocks.Hybi.{decode_next_message}
use seasocks.Connection.{Connection, Host, SendsAtMost, State, handling_hybi_websocket, M}
use seasocks.Connection.Stream.{stream}
use seasocks.Connection.Write.{refuses}
use seasocks.Connection.Appends.{Appends}
use seasocks.Connection.Send.{send_hybi, send_text, send_binary, send_text_in, send_binary_in}
use seasocks.Connection.Send.Frames.{hybi_payload, send_hybi-Appends}

-- All of it was appended, where the connection still takes data.
pub Appends-all :
    {limit : ℕ} {c d : Connection} {bytes : Bytes}
    → Appends limit c bytes d
    → refuses d ≡ false
    → stream d ≡ stream c ++ bytes
Appends-all {limit} {c} {d} {bytes} p alive = elim p.gap_refuses [
  | inl all ↦ p.appended ∙ ap (◌++◌ (stream c)) (rw all (take-length bytes))
  | inr shut ↦ cc
]

module _ (host : Host) (deflate : ℕ → Bytes → Bytes) (most : SendsAtMost host) (c : Connection)
    (ok : c.had_send_error ≡ false) where
  received :
      (opcode : ℕ) (response : Bytes) (d : Connection)
      → opcode < 16
      → (send_hybi host deflate opcode response c).1 ≡ d
      → All IsByte (hybi_payload deflate c response)
      → refuses d ≡ false
      → length (stream d) < 2 ^ 32
      → decode_next_message (record { buffer = stream d; message_start = length (stream c) })
        ≡ some (
            decoded c.per_message_deflate opcode
              (hybi_payload deflate c response)
              (length (stream d)))
  received opcode response d ho run bytes alive small =
      let payload = hybi_payload deflate c response in
      let f = frame c.per_message_deflate opcode none payload in
      let p =
        subst (λ d. Appends host.client_buffer_size c f d) run
          (send_hybi-Appends host deflate most c opcode response ho ok) in
      let whole : stream d ≡ stream c ++ (f ++ []) =
        Appends-all p alive ∙ ap (◌++◌ (stream c)) (sym (append-nil f)) in
      let size : length (stream d) ≡ length (stream c) + length f =
        omega (arith, ap length whole, length-append (stream c) (f ++ []), length-append f []) in
      rw whole (
        decode-frame c.per_message_deflate opcode none payload (stream c) [] ho tt bytes
          (rw whole at small)
        ∙ ap (λ n. some (decoded c.per_message_deflate opcode payload n))
            (sym size ∙ ap length whole))

  in_hybi :
      (s : State)
      → s ≡ handling_hybi_websocket
      → (text : Bytes)
      → (send_text_in host deflate s text ≡ send_hybi host deflate Opcode.text text)
        × (send_binary_in host deflate s text ≡ send_hybi host deflate Opcode.binary text)
  unfolding send_text_in send_binary_in
  in_hybi s e text = rw e (refl, refl)

  module _ (hybi : c.state ≡ handling_hybi_websocket) (running : c.is_shutdown ≡ false) where
    unshut : (m : M (Unit {0})) → (m c).1 ≡ (if c.is_shutdown then (tt, c) else m c).1
    unshut m = ap (λ b. (if b then (tt, c) else m c).1) (sym running)

    -- A text message that is sent on a hybi connection which runs and had no send error decodes,
    -- from where it begins in the stream of bytes, to one text message: the text, or what zlib made
    -- of it, marked as compressed, where that was negotiated. What is sent is of bytes, the
    -- connection still takes data behind it, and its stream is below 2 ^ 32 bytes.
    pub send_text-decode :
        (text : Bytes) (d : Connection)
        → (send_text host deflate text c).1 ≡ d
        → All IsByte (hybi_payload deflate c text)
        → refuses d ≡ false
        → length (stream d) < 2 ^ 32
        → decode_next_message (record { buffer = stream d; message_start = length (stream c) })
          ≡ some (
              decoded c.per_message_deflate Opcode.text
                (hybi_payload deflate c text)
                (length (stream d)))
    unfolding send_text
    send_text-decode text d run bytes alive small =
        received Opcode.text text d (omega arith)
          (ap (λ m. (m c).1) (sym (in_hybi c.state hybi text).0)
            ∙ unshut (send_text_in host deflate c.state text)
            ∙ run)
          bytes alive small

    -- A binary message that is sent on a hybi connection which runs and had no send error decodes,
    -- from where it begins in the stream of bytes, to one binary message: the bytes, or what zlib
    -- made of them, marked as compressed, where that was negotiated. What is sent is of bytes, the
    -- connection still takes data behind it, and its stream is below 2 ^ 32 bytes.
    pub send_binary-decode :
        (message : Bytes) (d : Connection)
        → (send_binary host deflate message c).1 ≡ d
        → All IsByte (hybi_payload deflate c message)
        → refuses d ≡ false
        → length (stream d) < 2 ^ 32
        → decode_next_message (record { buffer = stream d; message_start = length (stream c) })
          ≡ some (
              decoded c.per_message_deflate Opcode.binary
                (hybi_payload deflate c message)
                (length (stream d)))
    unfolding send_binary
    send_binary-decode message d run bytes alive small =
        received Opcode.binary message d (omega arith)
          (ap (λ m. (m c).1) (sym (in_hybi c.state hybi message).1)
            ∙ unshut (send_binary_in host deflate c.state message)
            ∙ run)
          bytes alive small
