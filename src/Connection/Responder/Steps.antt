-- ===== src/Connection/Responder/Steps.antt =====
-- How the calls of src/main/c/Connection.cpp compose: what each appends, and the members of the state
-- machine behind it.
use seasocks.Prelude.{
  ℕ, ◌≡◌, refl, ap, sym, ◌∙◌, subst, false, List, [], ◌∷◌, ◌++◌, append_assoc, map, Bytes, codes,
}
use seasocks.Response.{TransferEncoding, raw, chunked}
use seasocks.Response.Code.{ResponseCode}
use seasocks.Connection.{Connection, State, Host, SendsAtMost, M, ◌>>◌}
use seasocks.Connection.Mode.{Mode, mode}
use seasocks.Connection.Appends.{Appends, Appends-trans, Appends-refl}
use seasocks.Connection.Outputs.{Appends-output}
use seasocks.Connection.Errors.Document.{lines}
use seasocks.Connection.Responder.{crlf, set_state}
use seasocks.Connection.Responder.Head.{Writes, response_lines}

abbrev pub header_line : Bytes × Bytes → Bytes
header_line (name, value) = name ++ (codes ": " ++ value)

-- The lines of the headers, and what follows them.
unfoldable pub headers_text : List (Bytes × Bytes) → Bytes → Bytes
headers_text [] behind = behind
headers_text (h ∷ hs) behind = (header_line h ++ crlf) ++ headers_text hs behind

pub headers_text-lines :
    (hs : List (Bytes × Bytes)) (behind : Bytes)
    → headers_text hs behind ≡ lines (map header_line hs) ++ behind
unfolding headers_text
headers_text-lines [] behind = refl
headers_text-lines (h ∷ hs) behind =
    ap (◌++◌ (header_line h ++ crlf)) (headers_text-lines hs behind)
    ∙ sym (append_assoc (header_line h ++ crlf) (lines (map header_line hs)) behind)

abbrev pub encoding_line : TransferEncoding → List Bytes
encoding_line raw = []
encoding_line chunked = codes "Transfer-encoding: chunked" ∷ []

-- The lines that `begin` buffers.
abbrev pub begin_lines : Bytes → Bytes → ResponseCode → TransferEncoding → List Bytes
begin_lines version now code e = response_lines version now code ++ encoding_line e

pub lines-append : (ls ms : List Bytes) → lines (ls ++ ms) ≡ lines ls ++ lines ms
lines-append [] ms = refl
lines-append (l ∷ ls) ms =
    ap (◌++◌ (l ++ crlf)) (lines-append ls ms)
    ∙ sym (append_assoc (l ++ crlf) (lines ls) (lines ms))

module _ (host : Host) (most : SendsAtMost host) where
  abbrev limit : ℕ
  limit = host.client_buffer_size

  pub record Does (c : Connection) (bytes : Bytes) (m : Mode) (d : Connection) : Type 0 where
    pub appends : Appends limit c bytes d
    pub becomes : mode d ≡ m

  -- A call takes a connection without a send error from one mode to another.
  abbrev pub Runs : M (Unit {0}) → Mode → Bytes → Mode → Type 0
  Runs call m bytes n =
      (c : Connection) → c.had_send_error ≡ false → mode c ≡ m → Does c bytes n (call c).1

  pub Runs-then :
      {call next : M (Unit {0})} {m n o : Mode} {xs ys : Bytes}
      → Runs call m xs n
      → Runs next n ys o
      → Runs (call >> next) m (xs ++ ys) o
  Runs-then {call} h g c ok e =
      let first = h c ok e in
      let second = g (call c).1 (first.appends.same_error ∙ ok) first.becomes in
      record { appends = Appends-trans first.appends second.appends; becomes = second.becomes }

  pub Runs-cast :
      {call : M (Unit {0})} {m n : Mode} {xs ys : Bytes}
      → xs ≡ ys
      → Runs call m xs n
      → Runs call m ys n
  Runs-cast {call} {m} {n} e h = subst (λ xs. Runs call m xs n) e h

  pub Runs-Writes :
      {call : M (Unit {0})} {bytes : Bytes} (m : Mode)
      → Writes host most call bytes
      → Runs call m bytes m
  Runs-Writes {call} m h c ok e = record { appends = h.0 c ok; becomes = h.1 c ∙ e }

  -- A call that looks at the state, or at the encoding.
  pub Runs-state :
      (call : State → M (Unit {0})) {m n : Mode} {s : State} {bytes : Bytes}
      → m.state ≡ s
      → Runs (call s) m bytes n
      → Runs (λ c. call c.state c) m bytes n
  Runs-state call {m} {n} {s} {bytes} at h c ok e =
      subst (λ s. Does c bytes n (call s c).1) (sym (ap (λ m. m.state) e ∙ at)) (h c ok e)

  pub Runs-encoding :
      (call : TransferEncoding → M (Unit {0})) {m n : Mode} {t : TransferEncoding} {bytes : Bytes}
      → m.transfer_encoding ≡ t
      → Runs (call t) m bytes n
      → Runs (λ c. call c.transfer_encoding c) m bytes n
  Runs-encoding call {m} {n} {t} {bytes} at h c ok e =
      subst (λ t. Does c bytes n (call t c).1) (sym (ap (λ m. m.transfer_encoding) e ∙ at))
        (h c ok e)

  abbrev pub in_state : State → Mode → Mode
  in_state s m = record m { state = s }

  abbrev pub encoded : TransferEncoding → Mode → Mode
  encoded t m = record m { transfer_encoding = t }

  pub set_state-Runs : (s : State) (m : Mode) → Runs (set_state host s) m [] (in_state s m)
  set_state-Runs s m c ok e = record {
    appends = Appends-output refl refl (Appends-refl c);
    becomes = ap (in_state s) e;
  }
