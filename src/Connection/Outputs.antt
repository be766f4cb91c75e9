-- ===== src/Connection/Outputs.antt =====
-- src/main/c/Connection.cpp: calls that append nothing, and which members the appended bytes depend on.
use mathlib.Core.Path.{ap₂}
use seasocks.Prelude.{
  ℕ, ◌<◌, ◌≡◌, refl, ap, sym, ◌∙◌, inl, inr, Bool, true, not, ◌||◌, [], ◌++◌, append-nil, length,
  take, Bytes, arith, Bool-cases, subst,
}
use seasocks.Connection.{Connection, Host, SendsAtMost}
use seasocks.Connection.Output.{is_empty, closed, close_internal, close_when_empty, flush}
use seasocks.Connection.Stream.{stream, flush-Flushed}
use seasocks.Connection.Appends.{Appends}
use seasocks.Connection.Write.{refuses, refuses-Flushed}

-- The members of the output side.
pub record Output : Type 0 where
  pub fd_open : Bool
  pub is_shutdown : Bool
  pub had_send_error : Bool
  pub close_on_empty : Bool
  pub bytes_sent : ℕ
  pub out_buf : Bytes
  pub wire : Bytes

abbrev pub output : Connection → Output
output c = record {
  fd_open = c.fd_open;
  is_shutdown = c.is_shutdown;
  had_send_error = c.had_send_error;
  close_on_empty = c.close_on_empty;
  bytes_sent = c.bytes_sent;
  out_buf = c.out_buf;
  wire = c.wire;
}

refuses-output : (c d : Connection) → output c ≡ output d → refuses c ≡ refuses d
unfolding closed
refuses-output c d e = ap (λ o. not o.fd_open || o.is_shutdown || o.close_on_empty) e

-- No other member counts.
pub Appends-output :
    {limit : ℕ} {c c' d d' : Connection} {bytes : Bytes}
    → output c ≡ output c'
    → output d ≡ output d'
    → Appends limit c' bytes d'
    → Appends limit c bytes d
Appends-output {limit} {c} {c'} {d} {d'} {bytes} e f p = record {
  taken = p.taken;
  within = p.within;
  appended =
      stream_of d d' f ∙ p.appended ∙ ap (λ t. t ++ take p.taken bytes) (sym (stream_of c c' e));
  gap_refuses = elim p.gap_refuses [
    | inl all ↦ inl all
    | inr shut ↦ inr (refuses-output d d' f ∙ shut)
  ];
  silent = λ h. p.silent (sym (refuses-output c c' e) ∙ h);
  count = omega (
    arith,
    p.count,
    ap (λ o. o.bytes_sent) e,
    ap (λ o. o.bytes_sent) f,
    ap (λ o. length o.wire) e,
    ap (λ o. length o.wire) f,
  );
  bounded = λ h.
      let low = p.bounded (subst (λ n. n < limit) (ap (λ o. length o.out_buf) e) h) in
      omega (arith, ap (λ o. length o.out_buf) f);
  same_error = ap (λ o. o.had_send_error) f ∙ p.same_error ∙ ap (λ o. o.had_send_error) (sym e);
  still_refuses = λ h. refuses-output d d' f ∙ p.still_refuses (sym (refuses-output c c' e) ∙ h);
}
  where
    stream_of : (c d : Connection) → output c ≡ output d → stream c ≡ stream d
    stream_of c d e = ap (λ o. o.wire ++ o.out_buf) e

module _ (host : Host) (most : SendsAtMost host) where
  -- A flush appends nothing: the bytes that it sends stay in the stream.
  pub flush-Appends : (c : Connection) → Appends host.client_buffer_size c [] (flush host c).1
  flush-Appends c =
      let f = flush-Flushed host most c in
      record {
        taken = 0;
        within = omega arith;
        appended = f.whole ∙ sym (append-nil (stream c));
        gap_refuses = inl refl;
        silent = λ h. refl;
        count = f.count;
        bounded = λ h. omega (arith, f.shorter);
        same_error = f.same_error;
        still_refuses = λ h. refuses-Flushed host f h;
      }

pub close_when_empty-Appends :
    {limit : ℕ} (c : Connection) → Appends limit c [] (close_when_empty c).1
unfolding close_when_empty close_internal closed
close_when_empty-Appends {limit} c = elim (Bool-cases (is_empty c.out_buf)) [
  | inl empty ↦
      rw empty (quiet (record c { is_shutdown = true }) refl refl refl refl (λ h. ground arith))
  | inr full ↦
      rw full (quiet (record c { close_on_empty = true }) refl refl refl refl (λ h. ground arith))
]
  where
    quiet :
        (d : Connection)
        → d.wire ≡ c.wire
        → d.out_buf ≡ c.out_buf
        → d.bytes_sent ≡ c.bytes_sent
        → d.had_send_error ≡ c.had_send_error
        → (refuses c ≡ true → refuses d ≡ true)
        → Appends limit c [] d
    quiet d w o n e r = record {
      taken = 0;
      within = omega arith;
      appended = ap₂ ◌++◌ w o ∙ sym (append-nil (stream c));
      gap_refuses = inl refl;
      silent = λ h. refl;
      count = omega (arith, n, ap length w);
      bounded = λ h. omega (arith, ap length o);
      same_error = e;
      still_refuses = r;
    }
