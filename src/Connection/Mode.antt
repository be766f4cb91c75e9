-- ===== src/Connection/Mode.antt =====
-- What the output side of src/main/c/Connection.cpp leaves alone: the state machine's own members.
use seasocks.Prelude.{
  ℕ, ◌≡◌, refl, ◌∙◌, Bool, true, false, not, ◌&&◌, ◌||◌, ◌++◌, ◌+◌, Option, none, some, length,
  drop, leb, ◌==◌, if◌then◌else◌, Bytes, Bool-cases, inl, inr, suc,
}
use seasocks.Response.{TransferEncoding}
use seasocks.Connection.{Connection, State, Host, SendResult, sent, would_block, send_failed}
use seasocks.Connection.Output.{
  is_empty, closed, close_internal, close_when_empty, after_send, safe_send, flush_events,
  flush_close, flush_sent, flush, write_rest, write_direct, write,
}

pub record Mode : Type 0 where
  pub state : State
  pub per_message_deflate : Bool
  pub deflate_calls : ℕ
  pub transfer_encoding : TransferEncoding
  pub chunk : ℕ
  pub has_response : Bool
  pub in_buf : Bytes
  pub inflate_calls : ℕ

abbrev pub mode : Connection → Mode
mode c = record {
  state = c.state;
  per_message_deflate = c.per_message_deflate;
  deflate_calls = c.deflate_calls;
  transfer_encoding = c.transfer_encoding;
  chunk = c.chunk;
  has_response = c.has_response;
  in_buf = c.in_buf;
  inflate_calls = c.inflate_calls;
}

-- A state with another output side.
abbrev SameMode : Connection → Connection → Type 0
SameMode c d = mode d ≡ mode c

pub close_when_empty-mode : (c : Connection) → mode (close_when_empty c).1 ≡ mode c
unfolding close_when_empty close_internal
close_when_empty-mode c = elim (Bool-cases (is_empty c.out_buf)) [
  | inl empty ↦ rw empty
  | inr full ↦ rw full
]

module _ (host : Host) where
  after_send-mode :
      (c : Connection) (bytes : Bytes) (r : SendResult) → SameMode c (after_send bytes r c).1
  unfolding after_send close_internal
  after_send-mode c bytes (sent n) = refl
  after_send-mode c bytes would_block = refl
  after_send-mode c bytes send_failed = refl

  safe_send-mode : (c : Connection) (bytes : Bytes) → SameMode c (safe_send host bytes c).1
  unfolding safe_send
  safe_send-mode c bytes = elim (Bool-cases (not c.fd_open || c.had_send_error || c.is_shutdown)) [
    | inl ignored ↦ rw ignored
    | inr alive ↦ rw alive (
        after_send-mode (record c { send_calls = suc c.send_calls }) bytes
          (host.send c.send_calls (length bytes)))
  ]

  flush_events-mode : (c : Connection) → SameMode c (flush_events host c).1
  unfolding flush_events
  flush_events-mode c =
      elim (Bool-cases (not (is_empty c.out_buf) && not c.registered_for_write_events)) [
        | inl more ↦ elim (Bool-cases (host.subscribe c.poll_calls)) [
          | inl done ↦ rw (more, done)
          | inr failed ↦ rw (more, failed)
        ]
        | inr rest ↦ elim (Bool-cases (is_empty c.out_buf && c.registered_for_write_events)) [
          | inl less ↦ elim (Bool-cases (host.unsubscribe c.poll_calls)) [
            | inl done ↦ rw (rest, less, done)
            | inr failed ↦ rw (rest, less, failed)
          ]
          | inr fine ↦ rw (rest, fine)
        ]
      ]

  flush_close-mode : (c : Connection) (b : Bool) → SameMode c (flush_close host b c).1
  unfolding flush_close close_internal
  flush_close-mode c false = refl
  flush_close-mode c true =
      elim (Bool-cases (is_empty c.out_buf && not (closed c) && c.close_on_empty)) [
        | inl ready ↦ rw ready
        | inr wait ↦ rw wait
      ]

  flush_sent-mode : (c : Connection) (r : Option ℕ) → SameMode c (flush_sent host r c).1
  unfolding flush_sent
  flush_sent-mode c none = refl
  flush_sent-mode c (some n) =
      let d : Connection = record c { out_buf = drop n c.out_buf } in
      flush_close-mode (flush_events host d).1 (flush_events host d).0 ∙ flush_events-mode d

  pub flush-mode : (c : Connection) → mode (flush host c).1 ≡ mode c
  unfolding flush
  flush-mode c = elim (Bool-cases (is_empty c.out_buf)) [
    | inl empty ↦ rw empty
    | inr full ↦ rw full (
        flush_sent-mode (safe_send host c.out_buf c).1 (safe_send host c.out_buf c).0
        ∙ safe_send-mode c c.out_buf)
  ]

  write_rest-mode :
      (c : Connection) (rest : Bytes) (flush_it : Bool)
      → SameMode c (write_rest host rest flush_it c).1
  unfolding write_rest close_internal
  write_rest-mode c rest flush_it =
      elim (Bool-cases (leb host.client_buffer_size (length c.out_buf + length rest))) [
        | inl large ↦ rw large
        | inr room ↦ rw room (flush_if flush_it)
      ]
    where
      flush_if :
          (b : Bool)
          → let d : Connection = record c { out_buf = c.out_buf ++ rest } in
            SameMode c (if b then flush host d else (true, d)).1
      flush_if true = flush-mode (record c { out_buf = c.out_buf ++ rest })
      flush_if false = refl

  write_direct-mode :
      (c : Connection) (bytes : Bytes) (r : Option ℕ) → SameMode c (write_direct host bytes r c).1
  unfolding write_direct
  write_direct-mode c bytes none = refl
  write_direct-mode c bytes (some n) = elim (Bool-cases (n == length bytes)) [
    | inl all ↦ rw all
    | inr part ↦ rw part (write_rest-mode c (drop n bytes) true)
  ]

  -- Writing moves nothing of the state machine.
  pub write-mode :
      (c : Connection) (bytes : Bytes) (flush_it : Bool)
      → mode (write host bytes flush_it c).1 ≡ mode c
  unfolding write
  write-mode c bytes flush_it = elim (Bool-cases (closed c || c.close_on_empty)) [
    | inl shut ↦ rw shut
    | inr alive ↦ elim (Bool-cases (is_empty bytes)) [
      | inl none_left ↦ rw (alive, none_left) (flush_if flush_it)
      | inr more ↦ elim (Bool-cases (is_empty c.out_buf && flush_it)) [
        | inl fast ↦
            rw (alive, more, fast)
              (write_direct-mode (safe_send host bytes c).1 bytes (safe_send host bytes c).0
                ∙ safe_send-mode c bytes)
        | inr slow ↦ rw (alive, more, slow) (write_rest-mode c bytes flush_it)
      ]
    ]
  ]
    where
      flush_if : (b : Bool) → SameMode c (if b then flush host c else (true, c)).1
      flush_if true = flush-mode c
      flush_if false = refl
