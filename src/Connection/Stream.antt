-- ===== src/Connection/Stream.antt =====
-- The bytes of a connection, src/main/c/Connection.cpp: what the socket has taken and what is buffered
-- behind it make one stream, to which writes append.
use mathlib.Core.Path.{ap₂}
use seasocks.Prelude.{
  ℕ, suc, ◌+◌, ◌≤◌, ◌≡◌, refl, ap, sym, ◌∙◌, inl, inr, true, false, not, ◌||◌, ◌++◌, append-nil,
  append_assoc, length, take, drop, take-append-drop, length-append, length-take, length-drop,
  Bytes, arith, Bool-cases,
}
use seasocks.Connection.{
  Connection, Host, SendsAtMost, SendResult, sent, would_block, send_failed, ◌>>=◌,
}
use seasocks.Connection.Output.{
  is_empty, closed, close_internal, after_send, safe_send, flush_events, flush_close, flush_sent,
  flush,
}

abbrev pub stream : Connection → Bytes
stream c = c.wire ++ c.out_buf

-- The parts that a call leaves as they are, with the flags that it may only set.
pub record Keeps (c d : Connection) : Type 0 where
  pub same_wire : d.wire ≡ c.wire
  pub same_out : d.out_buf ≡ c.out_buf
  pub same_count : d.bytes_sent ≡ c.bytes_sent
  pub same_fd : d.fd_open ≡ c.fd_open
  pub same_wish : d.close_on_empty ≡ c.close_on_empty
  pub shut : c.is_shutdown ≡ true → d.is_shutdown ≡ true
  pub same_error : d.had_send_error ≡ c.had_send_error

module _ (host : Host) where
  flush_tail-Keeps : (c : Connection) → Keeps c ((flush_events host >>= flush_close host) c).1
  unfolding flush_events flush_close closed close_internal
  flush_tail-Keeps c = ground arith

-- What a flush does: bytes may go from the buffer to the socket, in order, and are counted.
pub record Flushed (c d : Connection) : Type 0 where
  pub whole : stream d ≡ stream c
  pub count : d.bytes_sent + length c.wire ≡ c.bytes_sent + length d.wire
  pub shorter : length d.out_buf ≤ length c.out_buf
  pub same_fd : d.fd_open ≡ c.fd_open
  pub same_wish : d.close_on_empty ≡ c.close_on_empty
  pub shut : c.is_shutdown ≡ true → d.is_shutdown ≡ true
  pub same_error : d.had_send_error ≡ c.had_send_error
  pub quiet : closed c ≡ true → d.wire ≡ c.wire

pub Flushed-refl : (c : Connection) → Flushed c c
Flushed-refl c = record {
  whole = refl;
  count = omega arith;
  shorter = omega arith;
  same_fd = refl;
  same_wish = refl;
  shut = λ e. e;
  same_error = refl;
  quiet = λ e. refl;
}

-- `n` bytes of the buffer have gone to the socket.
record Moved (c : Connection) (n : ℕ) (d : Connection) : Type 0 where
  some_fit : n ≤ length c.out_buf
  new_wire : d.wire ≡ c.wire ++ take n c.out_buf
  new_out : d.out_buf ≡ drop n c.out_buf
  new_count : d.bytes_sent ≡ c.bytes_sent + n
  same_fd : d.fd_open ≡ c.fd_open
  same_wish : d.close_on_empty ≡ c.close_on_empty
  same_shut : d.is_shutdown ≡ c.is_shutdown
  same_error : d.had_send_error ≡ c.had_send_error

Moved-stream : {c d : Connection} {n : ℕ} → Moved c n d → stream d ≡ stream c
Moved-stream {c} {d} {n} m =
    ap₂ ◌++◌ m.new_wire m.new_out
    ∙ append_assoc c.wire (take n c.out_buf) (drop n c.out_buf)
    ∙ ap (◌++◌ c.wire) (take-append-drop n c.out_buf)

module _ (host : Host) where
  tail-Flushed :
      (c d : Connection) (n : ℕ)
      → closed c ≡ false
      → Moved c n d
      → Flushed c ((flush_events host >>= flush_close host) d).1
  tail-Flushed c d n alive m =
      let k = flush_tail-Keeps host d in
      let wire = k.same_wire ∙ m.new_wire in
      let out = k.same_out ∙ m.new_out in
      record {
        whole = ap₂ ◌++◌ k.same_wire k.same_out ∙ Moved-stream m;
        count = omega (
          arith,
          k.same_count,
          m.new_count,
          m.some_fit,
          ap length wire,
          length-append c.wire (take n c.out_buf),
          length-take n c.out_buf,
        );
        shorter = omega (arith, ap length out, length-drop n c.out_buf);
        same_fd = k.same_fd ∙ m.same_fd;
        same_wish = k.same_wish ∙ m.same_wish;
        shut = λ e. k.shut (m.same_shut ∙ e);
        same_error = k.same_error ∙ m.same_error;
        quiet = λ e. cc;
      }

  answer-Flushed :
      (c : Connection) (r : SendResult)
      → closed c ≡ false
      → ((n : ℕ) → r ≡ sent n → n ≤ length c.out_buf)
      → Flushed c
          ((after_send c.out_buf r >>= flush_sent host)
            (record c { send_calls = suc c.send_calls })).1
  unfolding after_send flush_sent close_internal
  answer-Flushed c (sent n) alive le = tail-Flushed c _ n alive (record {
    some_fit = le n refl;
    new_wire = refl;
    new_out = refl;
    new_count = refl;
    same_fd = refl;
    same_wish = refl;
    same_shut = refl;
    same_error = refl;
  })
  answer-Flushed c would_block alive le = tail-Flushed c _ 0 alive (record {
    some_fit = omega arith;
    new_wire = sym (append-nil c.wire);
    new_out = refl;
    new_count = omega arith;
    same_fd = refl;
    same_wish = refl;
    same_shut = refl;
    same_error = refl;
  })
  answer-Flushed c send_failed alive le = record {
    whole = refl;
    count = omega arith;
    shorter = omega arith;
    same_fd = refl;
    same_wish = refl;
    shut = λ e. refl;
    same_error = refl;
    quiet = λ e. refl;
  }

  -- A flush moves bytes from the front of the buffer
  -- to the socket, loses and repeats none, and counts those sent; on a closed connection it sends
  -- nothing.
  pub flush-Flushed : SendsAtMost host → (c : Connection) → Flushed c (flush host c).1
  unfolding flush safe_send
  flush-Flushed most c = elim (Bool-cases (is_empty c.out_buf)) [
    | inl empty ↦ rw empty (Flushed-refl c)
    | inr full ↦ elim (Bool-cases (not c.fd_open || c.had_send_error || c.is_shutdown)) [
      | inl ignored ↦ rw (full, ignored, flush_sent) (Flushed-refl c)
      | inr alive ↦
          rw (full, alive)
            (answer-Flushed c (host.send c.send_calls (length c.out_buf))
              (unfold closed in ground arith)
              (λ n e. most.at_most c.send_calls (length c.out_buf) n e))
    ]
  ]
