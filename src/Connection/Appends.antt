-- ===== src/Connection/Appends.antt =====
-- The methods of src/main/c/Connection.cpp that write, by what they append to the stream of bytes.
use seasocks.Prelude.{
  ℕ, ◌+◌, ◌<◌, ◌≤◌, ◌≡◌, refl, ap, sym, ◌∙◌, ◌⊎◌, inl, inr, Bool, true, false, [], ◌++◌, append-nil,
  append_assoc, length, take, take-length, length-append, take-append_left, take-append_right,
  Bytes, arith, Bool-cases,
}
use seasocks.Connection.{Connection, Host, SendsAtMost, M}
use seasocks.Connection.Output.{closed, close_internal, write_rest, write, write_or_return}
use seasocks.Connection.Stream.{stream}
use seasocks.Connection.Write.{refuses, write-Written}

-- From `c` to `d` the bytes are appended, or a prefix of them and the connection then refuses data.
-- Bytes sent are counted, and the buffer stays below the limit.
pub record Appends (limit : ℕ) (c : Connection) (bytes : Bytes) (d : Connection) : Type 0 where
  pub taken : ℕ
  pub within : taken ≤ length bytes
  pub appended : stream d ≡ stream c ++ take taken bytes
  pub gap_refuses : (taken ≡ length bytes) ⊎ (refuses d ≡ true)
  pub silent : refuses c ≡ true → taken ≡ 0
  pub count : d.bytes_sent + length c.wire ≡ c.bytes_sent + length d.wire
  pub bounded : length c.out_buf < limit → length d.out_buf < limit
  pub same_error : d.had_send_error ≡ c.had_send_error
  pub still_refuses : refuses c ≡ true → refuses d ≡ true

module _ {limit : ℕ} where
  pub Appends-trans :
      {c d e : Connection} {xs ys : Bytes}
      → Appends limit c xs d
      → Appends limit d ys e
      → Appends limit c (xs ++ ys) e
  Appends-trans {c} {d} {e} {xs} {ys} p q = record {
    taken = p.taken + q.taken;
    within = omega (arith, p.within, q.within, length-append xs ys);
    appended =
        q.appended
        ∙ ap (λ t. t ++ take q.taken ys) p.appended
        ∙ append_assoc (stream c) _ _
        ∙ ap (◌++◌ (stream c)) joined;
    gap_refuses = elim p.gap_refuses [
      | inl all ↦ elim q.gap_refuses [
        | inl all' ↦ inl (omega (arith, length-append xs ys))
        | inr shut ↦ inr shut
      ]
      | inr shut ↦ inr (q.still_refuses shut)
    ];
    silent = λ h. omega (arith, p.silent h, q.silent (p.still_refuses h));
    count = omega (arith, p.count, q.count);
    bounded = λ h. q.bounded (p.bounded h);
    same_error = q.same_error ∙ p.same_error;
    still_refuses = λ h. q.still_refuses (p.still_refuses h);
  }
    where
      joined : take p.taken xs ++ take q.taken ys ≡ take (p.taken + q.taken) (xs ++ ys)
      joined = elim p.gap_refuses [
        | inl all ↦ rw all (
            ap (λ t. t ++ take q.taken ys) (take-length xs) ∙ sym (take-append_right q.taken xs ys))
        | inr shut ↦
            let z = q.silent shut in
            let plus : p.taken + q.taken ≡ p.taken = omega arith in
            rw (plus, z)
              (append-nil (take p.taken xs) ∙ sym (take-append_left p.taken xs ys p.within))
      ]

  pub Appends-refl : (c : Connection) → Appends limit c [] c
  Appends-refl c = record {
    taken = 0;
    within = omega arith;
    appended = sym (append-nil (stream c));
    gap_refuses = inl refl;
    silent = λ h. refl;
    count = omega arith;
    bounded = λ h. h;
    same_error = refl;
    still_refuses = λ h. h;
  }

  -- A connection that refuses is left as it is by whatever appends.
  pub Appends-refused :
      {c d : Connection} {xs : Bytes} (ys : Bytes)
      → refuses d ≡ true
      → Appends limit c xs d
      → Appends limit c (xs ++ ys) d
  Appends-refused {c} {d} {xs} ys shut p = record {
    taken = p.taken;
    within = omega (arith, p.within, length-append xs ys);
    appended = p.appended ∙ ap (◌++◌ (stream c)) (sym (take-append_left p.taken xs ys p.within));
    gap_refuses = inr shut;
    silent = p.silent;
    count = p.count;
    bounded = p.bounded;
    same_error = p.same_error;
    still_refuses = p.still_refuses;
  }

module _ (host : Host) (most : SendsAtMost host) where
  write-refused :
      (c : Connection) (bytes : Bytes) (flush_it : Bool)
      → refuses c ≡ true
      → write host bytes flush_it c ≡ (false, c)
  unfolding write
  write-refused c bytes flush_it h = rw h

  pub write-Appends :
      (c : Connection) (bytes : Bytes) (flush_it : Bool)
      → c.had_send_error ≡ false
      → Appends host.client_buffer_size c bytes (write host bytes flush_it c).1
  write-Appends c bytes flush_it ok = elim (Bool-cases (refuses c)) [
    | inl shut ↦
        rw (write-refused c bytes flush_it shut) (Appends-refused bytes shut (Appends-refl c))
    | inr alive ↦
        let w = write-Written host most c bytes flush_it ok in
        record {
          taken = w.taken;
          within = w.within;
          appended = w.appended;
          gap_refuses = w.gap_refuses;
          silent = λ h. cc;
          count = w.count;
          bounded = w.bounded;
          same_error = w.same_error;
          still_refuses = w.still_refuses;
        }
  ]

  -- A write that only buffers fails on a connection that refuses data from then on.
  pub write-false-refuses :
      (c : Connection) (bytes : Bytes)
      → (write host bytes false c).0 ≡ false
      → refuses (write host bytes false c).1 ≡ true
  unfolding write write_rest closed close_internal
  write-false-refuses c bytes e = ground arith

  -- Two writes in a row, the second only where the first succeeds.
  pub then-Appends :
      (c : Connection) (xs ys : Bytes) (next : M (Unit {0}))
      → c.had_send_error ≡ false
      → (let d = (write host xs false c).1 in
          d.had_send_error ≡ false → Appends host.client_buffer_size d ys (next d).1)
      → Appends host.client_buffer_size c (xs ++ ys) (write_or_return host xs next c).1
  then-Appends c xs ys next ok h =
      let w = write-Appends c xs false ok in
      elim (Bool-cases (write host xs false c).0) [
        | inl done ↦ rw done (Appends-trans w (h (w.same_error ∙ ok)))
        | inr stop ↦ rw stop (Appends-refused ys (write-false-refuses c xs stop) w)
      ]
