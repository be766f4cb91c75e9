-- ===== src/Connection/Write.antt =====
-- `Connection::write` of src/main/c/Connection.cpp: what it appends to the stream of bytes, and when.
use mathlib.Core.Path.{ap₂}
use seasocks.Prelude.{
  ℕ, suc, ◌+◌, ◌<◌, ◌≤◌, ◌≡◌, refl, ap, sym, ◌∙◌, ◌⊎◌, inl, inr, Bool, true, false, not, ◌&&◌, ◌||◌,
  [], ◌∷◌, ◌++◌, append-nil, append_assoc, length, take, drop, take-length, take-add, length-append,
  length-take, length-drop, leb, ◌==◌, if◌then◌else◌, Bytes, arith, Bool-cases,
}
use seasocks.Connection.{
  Connection, Host, SendsAtMost, SendResult, sent, would_block, send_failed, ◌>>=◌,
}
use seasocks.Connection.Output.{
  is_empty, closed, close_internal, after_send, safe_send, flush, write_rest, write_direct, write,
}
use seasocks.Connection.Stream.{stream, Flushed, Flushed-refl, flush-Flushed}

-- Such a connection takes no more data.
abbrev pub refuses : Connection → Bool
refuses c = closed c || c.close_on_empty

is_empty_lem : (bs : Bytes) → is_empty bs ≡ true → bs ≡ []
is_empty_lem [] e = refl
is_empty_lem (b ∷ bs) e = cc

module _ (host : Host) where
  -- What a write of `bytes` does, with the result `ok`.
  pub record Written (c : Connection) (bytes : Bytes) (ok : Bool) (d : Connection) : Type 0 where
    pub taken : ℕ
    pub within : taken ≤ length bytes
    pub appended : stream d ≡ stream c ++ take taken bytes
    pub all_if_ok : ok ≡ true → taken ≡ length bytes
    pub gap_refuses : (taken ≡ length bytes) ⊎ (refuses d ≡ true)
    pub count : d.bytes_sent + length c.wire ≡ c.bytes_sent + length d.wire
    pub bounded :
        length c.out_buf < host.client_buffer_size → length d.out_buf < host.client_buffer_size
    pub same_error : d.had_send_error ≡ c.had_send_error
    pub still_refuses : refuses c ≡ true → refuses d ≡ true

  -- Nothing is written, by a connection that refuses from then on.
  nothing-Written :
      (c d : Connection) (bytes : Bytes)
      → d.wire ≡ c.wire
      → d.out_buf ≡ c.out_buf
      → d.bytes_sent ≡ c.bytes_sent
      → d.had_send_error ≡ c.had_send_error
      → refuses d ≡ true
      → Written c bytes false d
  nothing-Written c d bytes w o n e r = record {
    taken = 0;
    within = omega arith;
    appended = ap₂ ◌++◌ w o ∙ sym (append-nil (stream c));
    all_if_ok = λ e. cc;
    gap_refuses = inr r;
    count = omega (arith, n, ap length w);
    bounded = λ h. omega (arith, ap length o);
    same_error = e;
    still_refuses = λ _. r;
  }

  pub refuses-Flushed : {c d : Connection} → Flushed c d → refuses c ≡ true → refuses d ≡ true
  unfolding closed
  refuses-Flushed {c} {d} f e = ground (arith, f.same_fd, f.same_wish, f.shut)

  -- A flush behind the data appended.
  Flushed-Written :
      (c b d : Connection) (bytes : Bytes) (ok : Bool)
      → stream b ≡ stream c ++ bytes
      → b.wire ≡ c.wire
      → b.bytes_sent ≡ c.bytes_sent
      → (length c.out_buf < host.client_buffer_size → length b.out_buf < host.client_buffer_size)
      → b.had_send_error ≡ c.had_send_error
      → (refuses c ≡ true → refuses b ≡ true)
      → Flushed b d
      → Written c bytes ok d
  Flushed-Written c b d bytes ok s w n o e r f = record {
    taken = length bytes;
    within = omega arith;
    appended = f.whole ∙ s ∙ ap (◌++◌ (stream c)) (sym (take-length bytes));
    all_if_ok = λ _. refl;
    gap_refuses = inl refl;
    count = omega (arith, f.count, n, ap length w);
    bounded = λ h. omega (arith, o h, f.shorter);
    same_error = f.same_error ∙ e;
    still_refuses = λ h. refuses-Flushed f (r h);
  }

  module _ (most : SendsAtMost host) where
    write_rest-Written :
        (c : Connection) (rest : Bytes) (flush_it : Bool)
        → Written c rest (write_rest host rest flush_it c).0 (write_rest host rest flush_it c).1
    unfolding write_rest close_internal closed
    write_rest-Written c rest flush_it =
        elim (Bool-cases (leb host.client_buffer_size (length c.out_buf + length rest))) [
          | inl large ↦ rw large (nothing-Written c _ rest refl refl refl refl (ground arith))
          | inr room ↦ rw room (then_flush flush_it (ground arith))
        ]
      where
        buffered : Connection
        buffered = record c { out_buf = c.out_buf ++ rest }

        then_flush :
            (flush_it : Bool)
            → length c.out_buf + length rest < host.client_buffer_size
            → let r = if flush_it then flush host buffered else (true, buffered) in
              Written c rest r.0 r.1
        then_flush true h =
            Flushed-Written c buffered _ rest _ (sym (append_assoc c.wire c.out_buf rest)) refl refl
              (λ _. omega (arith, length-append c.out_buf rest)) refl (λ e. e)
              (flush-Flushed host most buffered)
        then_flush false h =
            Flushed-Written c buffered _ rest _ (sym (append_assoc c.wire c.out_buf rest)) refl refl
              (λ _. omega (arith, length-append c.out_buf rest)) refl (λ e. e)
              (Flushed-refl buffered)

    -- The rest of the data, behind `n` bytes that went directly.
    direct-Written :
        (c b d : Connection) (bytes : Bytes) (ok : Bool) (n : ℕ)
        → n ≤ length bytes
        → c.out_buf ≡ []
        → b.wire ≡ c.wire ++ take n bytes
        → b.out_buf ≡ []
        → b.bytes_sent ≡ c.bytes_sent + n
        → b.had_send_error ≡ c.had_send_error
        → refuses c ≡ false
        → Written b (drop n bytes) ok d
        → Written c bytes ok d
    direct-Written c b d bytes ok n le e w o s h alive r = record {
      taken = n + r.taken;
      within = omega (arith, r.within, length-drop n bytes);
      appended =
          r.appended
          ∙ ap (λ t. t ++ take r.taken (drop n bytes)) joined
          ∙ append_assoc (stream c) (take n bytes) (take r.taken (drop n bytes))
          ∙ ap (◌++◌ (stream c)) (take-add n r.taken bytes);
      all_if_ok = λ t. omega (arith, r.all_if_ok t, length-drop n bytes);
      gap_refuses = elim r.gap_refuses [
        | inl all ↦ inl (omega (arith, length-drop n bytes))
        | inr shut ↦ inr shut
      ];
      count = omega (
        arith,
        r.count,
        s,
        ap length w,
        length-append c.wire (take n bytes),
        length-take n bytes,
      );
      bounded = λ t. r.bounded (omega (arith, ap length o));
      same_error = r.same_error ∙ h;
      still_refuses = λ t. cc;
    }
      where
        joined : stream b ≡ stream c ++ take n bytes
        joined =
            ap₂ ◌++◌ w o
            ∙ append-nil (c.wire ++ take n bytes)
            ∙ ap (λ t. t ++ take n bytes) (sym (ap (◌++◌ c.wire) e ∙ append-nil c.wire))

    -- All of the data went directly.
    all-Written :
        (c b : Connection) (bytes : Bytes) (n : ℕ)
        → n ≡ length bytes
        → c.out_buf ≡ []
        → b.wire ≡ c.wire ++ take n bytes
        → b.out_buf ≡ []
        → b.bytes_sent ≡ c.bytes_sent + n
        → b.had_send_error ≡ c.had_send_error
        → refuses c ≡ false
        → Written c bytes true b
    all-Written c b bytes n all e w o s h alive =
        direct-Written c b b bytes true n (omega arith) e w o s h alive (record {
          taken = 0;
          within = omega arith;
          appended = sym (append-nil (stream b));
          all_if_ok = λ _. omega (arith, length-drop n bytes);
          gap_refuses = inl (omega (arith, length-drop n bytes));
          count = omega arith;
          bounded = λ t. t;
          same_error = refl;
          still_refuses = λ t. t;
        })

    fast-Written :
        (c : Connection) (bytes : Bytes) (r : SendResult)
        → c.out_buf ≡ []
        → refuses c ≡ false
        → ((n : ℕ) → r ≡ sent n → n ≤ length bytes)
        → let s =
            (after_send bytes r >>= write_direct host bytes)
              (record c { send_calls = suc c.send_calls }) in
          Written c bytes s.0 s.1
    unfolding after_send write_direct close_internal
    fast-Written c bytes (sent n) e alive le = elim (Bool-cases (n == length bytes)) [
      | inl all ↦ rw all (all-Written c _ bytes n (ground arith) e refl e refl refl alive)
      | inr part ↦ rw part (
          direct-Written c _ _ bytes _ n (le n refl) e refl e refl refl alive
            (write_rest-Written _ (drop n bytes) true))
    ]
    fast-Written c bytes would_block e alive le = elim (Bool-cases (0 == length bytes)) [
      | inl all ↦ rw all (
          all-Written c _ bytes 0 (ground arith) e (sym (append-nil c.wire)) e (omega arith) refl
            alive)
      | inr part ↦ rw part (
          direct-Written c _ _ bytes _ 0 (omega arith) e (sym (append-nil c.wire)) e (omega arith)
            refl alive (write_rest-Written _ bytes true))
    ]
    fast-Written c bytes send_failed e alive le =
        nothing-Written c _ bytes refl refl refl refl (unfold closed in ground arith)

    empty-Written :
        (c : Connection) (bytes : Bytes) (flush_it : Bool)
        → bytes ≡ []
        → let r = if flush_it then flush host c else (true, c) in Written c bytes r.0 r.1
    empty-Written c bytes true e =
        Flushed-Written c c _ bytes _ (sym (append-nil (stream c)) ∙ ap (◌++◌ (stream c)) (sym e))
          refl refl (λ h. h) refl (λ h. h) (flush-Flushed host most c)
    empty-Written c bytes false e =
        Flushed-Written c c _ bytes _ (sym (append-nil (stream c)) ∙ ap (◌++◌ (stream c)) (sym e))
          refl refl (λ h. h) refl (λ h. h) (Flushed-refl c)

    sent-Written :
        (c : Connection) (bytes : Bytes)
        → c.out_buf ≡ []
        → refuses c ≡ false
        → c.had_send_error ≡ false
        → let r = (safe_send host bytes >>= write_direct host bytes) c in Written c bytes r.0 r.1
    unfolding safe_send
    sent-Written c bytes e alive ok =
        let ready : (not c.fd_open || c.had_send_error || c.is_shutdown) ≡ false =
          unfold closed in ground arith in
        rw ready (
          fast-Written c bytes (host.send c.send_calls (length bytes)) e alive
            (λ n e. most.at_most c.send_calls (length bytes) n e))

    -- Where ::send takes no more than it is given, a write on a connection without a send error
    -- appends a prefix of its data to the stream of bytes, all of it where it returns true; where
    -- it takes less, the connection refuses all further data, so that the stream never has a gap.
    -- The bytes sent are counted, and the buffer stays below the server's limit.
    pub write-Written :
        (c : Connection) (bytes : Bytes) (flush_it : Bool)
        → c.had_send_error ≡ false
        → Written c bytes (write host bytes flush_it c).0 (write host bytes flush_it c).1
    unfolding write
    write-Written c bytes flush_it ok = elim (Bool-cases (refuses c)) [
      | inl shut ↦ rw shut (nothing-Written c c bytes refl refl refl refl shut)
      | inr alive ↦ elim (Bool-cases (is_empty bytes)) [
        | inl empty ↦ rw (alive, empty) (empty-Written c bytes flush_it (is_empty_lem bytes empty))
        | inr more ↦ elim (Bool-cases (is_empty c.out_buf && flush_it)) [
          | inl fast ↦
              rw (alive, more, fast)
                (sent-Written c bytes (is_empty_lem c.out_buf (ground arith)) alive ok)
          | inr slow ↦ rw (alive, more, slow) (write_rest-Written c bytes flush_it)
        ]
      ]
    ]
