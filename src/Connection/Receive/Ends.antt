-- ===== src/Connection/Receive/Ends.antt =====
-- The loop of `handleHybiWebSocket`, src/main/c/Connection.cpp, ends.
use seasocks.Prelude.{
  ℕ, zero, suc, ◌+◌, ◌*◌, ◌^◌, ◌<◌, ◌≤◌, ◌≡◌, ◌≢◌, refl, ap, ◌∙◌, inl, inr, Bool, true, false, [],
  ◌∷◌, Option, none, some, length, ltb, Bytes, arith, Bool-cases,
}
use seasocks.Hybi.Opcode
use seasocks.Hybi.{
  MessageState, no_message, text_message, binary_message, error, ping, pong, close, Decoded,
  decode_next_message,
}
use seasocks.Hybi.Truncated.{Leaves, decode_next_message-Leaves}
use seasocks.Connection.{Connection, Host, M, ◌>>=◌, drop_result}
use seasocks.Connection.Output.{is_empty, close_internal, write, write_or_return}
use seasocks.Connection.Mode.{write-mode}
use seasocks.Connection.Send.{send_hybi, send_hybi_data, send_compressed, compress_if}
use seasocks.Connection.Receive.{
  Handler, Outcome, out_of_fuel, Next, again, break, leave, handle_text, handle_binary, close_and,
  dispatch, dispatch_inflated, inflate_if, handle_decoded, after_round, one_round, hybi_loop,
  handle_hybi_web_socket,
}

-- A method that leaves the input buffer alone.
abbrev pub KeepsInput : {A : Type 0} → M A → Type 0
KeepsInput m = (c : Connection) → (m c).1.in_buf ≡ c.in_buf

-- The callbacks of a handler do: the buffer is a private member.
abbrev pub HandlerKeeps : Option Handler → Type 0
HandlerKeeps none = Unit
HandlerKeeps (some h) =
    ((message : Bytes) → KeepsInput (h.on_text message))
    × ((message : Bytes) → KeepsInput (h.on_binary message))

module _ (host : Host) where
  write-KeepsInput : (bytes : Bytes) (flush_it : Bool) → KeepsInput (write host bytes flush_it)
  write-KeepsInput bytes flush_it c = ap (λ m. m.in_buf) (write-mode host c bytes flush_it)

  write_or_return-KeepsInput :
      (bytes : Bytes) (next : M (Unit {0}))
      → KeepsInput next
      → KeepsInput (write_or_return host bytes next)
  write_or_return-KeepsInput bytes next h c =
      let w = write-KeepsInput bytes false c in
      elim (Bool-cases (write host bytes false c).0) [
        | inl done ↦ rw done (h (write host bytes false c).1 ∙ w)
        | inr stop ↦ rw stop w
      ]

module _ (host : Host) (deflate : ℕ → Bytes → Bytes) where
  send_hybi_data-KeepsInput : (response : Bytes) → KeepsInput (send_hybi_data host deflate response)
  unfolding send_hybi_data
  send_hybi_data-KeepsInput response c = elim (Bool-cases (ltb (length response) 126)) [
    | inl short ↦ rw short (write_or_return-KeepsInput host _ _ body c)
    | inr more ↦ elim (Bool-cases (ltb (length response) 65536)) [
      | inl two ↦
          rw (more, two)
            (write_or_return-KeepsInput host _ _ (write_or_return-KeepsInput host _ _ body) c)
      | inr eight ↦
          rw (more, eight)
            (write_or_return-KeepsInput host _ _ (write_or_return-KeepsInput host _ _ body) c)
    ]
  ]
    where
      body : KeepsInput (drop_result (write host response true))
      body d = write-KeepsInput host response true d

  compress_if-KeepsInput :
      (b : Bool) (response : Bytes)
      → KeepsInput (compress_if host deflate b response >>= send_hybi_data host deflate)
  unfolding compress_if
  compress_if-KeepsInput true response c =
      send_hybi_data-KeepsInput (deflate c.deflate_calls response) _
  compress_if-KeepsInput false response c = send_hybi_data-KeepsInput response c

  pub send_hybi-KeepsInput :
      (opcode : ℕ) (response : Bytes) → KeepsInput (send_hybi host deflate opcode response)
  unfolding send_hybi send_compressed
  send_hybi-KeepsInput opcode response c =
      write_or_return-KeepsInput host _ (send_compressed host deflate response)
        (λ d. compress_if-KeepsInput d.per_message_deflate response d) c

pub is_empty-false : (bytes : Bytes) → is_empty bytes ≡ false → 0 < length bytes
is_empty-false [] e = absurd (cc)
is_empty-false (b ∷ bs) e = omega arith

-- The states after which the loop must not go on.
stalled : MessageState → Bool
stalled no_message = true
stalled error = true
stalled _ = false

module _ (host : Host) (deflate : ℕ → Bytes → Bytes) (inflate : ℕ → Bytes → Option Bytes) where
  pub handle_text-KeepsInput :
      (h : Option Handler) (message : Bytes) → HandlerKeeps h → KeepsInput (handle_text h message)
  unfolding handle_text
  handle_text-KeepsInput none message k c = refl
  handle_text-KeepsInput (some h) message k c = k.0 _ c

  pub handle_binary-KeepsInput :
      (h : Option Handler) (message : Bytes) → HandlerKeeps h → KeepsInput (handle_binary h message)
  unfolding handle_binary
  handle_binary-KeepsInput none message k c = refl
  handle_binary-KeepsInput (some h) message k c = k.1 _ c

  module _ (handler : Option Handler) (keeps : HandlerKeeps handler) where
    -- A round leaves the buffer, and does not go on where the decoder has stalled.
    pub record Round (s : MessageState) (c : Connection) (r : Next × Connection) : Type 0 where
      keeps_input : r.1.in_buf ≡ c.in_buf
      no_stall : stalled s ≡ true → r.0 ≢ again

    dispatch-Round :
        (s : MessageState) (message : Bytes) (c : Connection)
        → Round s c (dispatch host deflate inflate handler s message c)
    unfolding dispatch close_and close_internal stalled
    dispatch-Round no_message message c = record { keeps_input = refl; no_stall = λ _ e. cc }
    dispatch-Round text_message message c = record {
      keeps_input = handle_text-KeepsInput handler message keeps c;
      no_stall = λ e. cc;
    }
    dispatch-Round binary_message message c = record {
      keeps_input = handle_binary-KeepsInput handler message keeps c;
      no_stall = λ e. cc;
    }
    dispatch-Round error message c = record { keeps_input = refl; no_stall = λ _ e. cc }
    dispatch-Round ping message c = record {
      keeps_input = send_hybi-KeepsInput host deflate Opcode.pong message c;
      no_stall = λ e. cc;
    }
    dispatch-Round pong message c = record { keeps_input = refl; no_stall = λ e. cc }
    dispatch-Round close message c = record { keeps_input = refl; no_stall = λ e. cc }

    inflate_if-Round :
        (needed negotiated : Bool) (s : MessageState) (message : Bytes) (c : Connection)
        → Round s c (inflate_if host deflate inflate handler needed negotiated s message c)
    unfolding inflate_if dispatch_inflated close_and close_internal
    inflate_if-Round false negotiated s message c = dispatch-Round s message c
    inflate_if-Round true false s message c = record { keeps_input = refl; no_stall = λ _ e. cc }
    inflate_if-Round true true s message c = inflated (inflate c.inflate_calls message)
      where
        inflated :
            (r : Option Bytes)
            → Round s c (
                dispatch_inflated host deflate inflate handler s r
                  (record c { inflate_calls = suc c.inflate_calls }))
        inflated none = record { keeps_input = refl; no_stall = λ _ e. cc }
        inflated (some m) =
            let r = dispatch-Round s m (record c { inflate_calls = suc c.inflate_calls }) in
            record { keeps_input = r.keeps_input; no_stall = r.no_stall }

    pub handle_decoded-Round :
        (d : Decoded) (c : Connection)
        → Round d.state c (handle_decoded host deflate inflate handler d c)
    unfolding handle_decoded
    handle_decoded-Round d c =
        inflate_if-Round d.deflate_needed c.per_message_deflate d.state d.message c

    -- Behind a round, where the loop ends from any later position.
    module _ (loop : ℕ → Connection → Outcome) (start : ℕ) (c : Connection)
        (later : (next : ℕ) (e : Connection)
          → e.in_buf ≡ c.in_buf
          → start + 2 ≤ next
          → next ≤ length c.in_buf
          → loop next e ≢ out_of_fuel) where
      after_round-ends :
          (n : Next) (d : Decoded) (e : Connection)
          → Leaves start c.in_buf (some d)
          → e.in_buf ≡ c.in_buf
          → (stalled d.state ≡ true → n ≢ again)
          → after_round host deflate inflate handler loop d.message_start n e ≢ out_of_fuel
      unfolding after_round stalled
      after_round-ends again d e (inl stays) same go =
          absurd (go (elim stays.1 [ inl s ↦ ap stalled s | inr s ↦ ap stalled s ]) refl)
      after_round-ends again d e (inr moves) same go = later d.message_start e same moves.0 moves.1
      after_round-ends break d e l same go = λ p. cc
      after_round-ends leave d e l same go = λ p. cc

      one_round-ends :
          (r : Option Decoded)
          → Leaves start c.in_buf r
          → one_round host deflate inflate handler loop r c ≢ out_of_fuel
      unfolding one_round
      one_round-ends none l = λ p. cc
      one_round-ends (some d) l =
          let after = handle_decoded host deflate inflate handler d c in
          let r = handle_decoded-Round d c in
          after_round-ends after.0 d after.1 l r.keeps_input r.no_stall

    hybi_loop-ends :
        (fuel start : ℕ) (c : Connection)
        → length c.in_buf < 2 ^ 32
        → start ≤ length c.in_buf
        → length c.in_buf < start + 2 * fuel
        → hybi_loop host deflate inflate handler fuel start c ≢ out_of_fuel
    unfolding hybi_loop
    hybi_loop-ends zero start c small le enough = absurd (omega arith)
    hybi_loop-ends (suc fuel) start c small le enough =
        one_round-ends (hybi_loop host deflate inflate handler fuel) start c
          (λ next e same lo hi.
            let size = ap length same in
            hybi_loop-ends fuel next e (omega arith) (omega arith) (omega arith))
          (decode_next_message (record { buffer = c.in_buf; message_start = start }))
          (decode_next_message-Leaves c.in_buf start small)

    -- The loop over the messages of a buffer below 2 ^ 32 bytes ends within as many rounds as there
    -- are bytes, where the handler's callbacks leave the buffer alone.
    pub handle_hybi_web_socket-ends :
        (c : Connection)
        → length c.in_buf < 2 ^ 32
        → handle_hybi_web_socket host deflate inflate handler c ≢ out_of_fuel
    unfolding handle_hybi_web_socket
    handle_hybi_web_socket-ends c small = elim (Bool-cases (is_empty c.in_buf)) [
      | inl empty ↦ rw empty (λ p. cc)
      | inr full ↦ rw full (
          hybi_loop-ends (length c.in_buf) 0 c small (omega arith)
            (omega (arith, is_empty-false c.in_buf full)))
    ]
