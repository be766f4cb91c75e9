-- ===== src/Requests/WebSocket/Emits.antt =====
-- What the calls that buffer a handshake in src/main/c/Connection.cpp append, one behind another.
use seasocks.Prelude.{
  ℕ, ◌≡◌, refl, ap, sym, ◌∙◌, subst, false, List, [], ◌∷◌, ◌++◌, append-nil, Option, none, some,
  Bytes, codes,
}
use seasocks.Response.Code.{web_socket_protocol_handshake}
use seasocks.Connection.{Connection, SendsAtMost, M}
use seasocks.Connection.Mode.{mode}
use seasocks.Connection.Appends.{Appends, Appends-trans, Appends-refl}
use seasocks.Connection.Responder.{
  crlf, buffer_line_, buffer_line_chars_, buffer_response_and_common_headers,
}
use seasocks.Connection.Errors.Document.{lines, Sends, buffer_line-Sends, buffer_line_chars-Sends}
use seasocks.Connection.Responder.Head.{
  buffer_line-mode, buffer_line_chars-mode, response_lines, common-Writes,
}
use seasocks.Requests.{Site, Session, S, ◌>>◌, return, on_connection}
use seasocks.Requests.WebSocket.{line, line_chars, upgrade_lines}

module _ (site : Site) (most : SendsAtMost site.host) where
  abbrev limit : ℕ
  limit = site.host.client_buffer_size

  -- A call that returns with bytes appended and nothing else changed.
  pub record Emitted (s : Session) (c : Connection) (bytes : Bytes)
      (o : Option (Unit {0} × Session)) : Type 0 where
    pub out : Connection
    pub result : o ≡ some (tt, record s { connection = out })
    pub appends : Appends limit c bytes out
    pub same_mode : mode out ≡ mode c

  abbrev pub Emits : Session → S (Unit {0}) → Bytes → Type 0
  Emits s m bytes =
      (c : Connection)
      → c.had_send_error ≡ false
      → mode c ≡ mode s.connection
      → Emitted s c bytes (m (record s { connection = c }))

  pub >>-Emits :
      (s : Session) (m k : S (Unit {0})) (xs ys : Bytes)
      → Emits s m xs
      → Emits s k ys
      → Emits s (m >> k) (xs ++ ys)
  >>-Emits s m k xs ys h g c ok same =
      let e = h c ok same in
      let f = g e.out (e.appends.same_error ∙ ok) (e.same_mode ∙ same) in
      record {
        out = f.out;
        result =
            ap
              (λ o. elim o as (λ _. Option (Unit {0} × Session)) [
                | none ↦ none
                | some (a, t) ↦ k t
              ])
              e.result
            ∙ f.result;
        appends = Appends-trans e.appends f.appends;
        same_mode = f.same_mode ∙ e.same_mode;
      }

  pub return-Emits : (s : Session) → Emits s (return tt) []
  return-Emits s c ok same = record {
    out = c;
    result = refl;
    appends = Appends-refl c;
    same_mode = refl;
  }

  -- Of a method of the connection.
  on_connection-Emits :
      (s : Session) (m : M (Unit {0})) (bytes : Bytes)
      → Sends site.host most m bytes
      → ((c : Connection) → mode (m c).1 ≡ mode c)
      → Emits s (on_connection m) bytes
  on_connection-Emits s m bytes h g c ok same = record {
    out = (m c).1;
    result = refl;
    appends = h c ok;
    same_mode = g c;
  }

  pub line-Emits : (s : Session) (text : Bytes) → Emits s (line site text) (text ++ crlf)
  line-Emits s text =
      on_connection-Emits s (buffer_line_ site.host text) (text ++ crlf)
        (buffer_line-Sends site.host most text) (buffer_line-mode site.host most text)

  pub line_chars-Emits :
      (s : Session) (text : Bytes) → Emits s (line_chars site text) (text ++ crlf)
  line_chars-Emits s text =
      on_connection-Emits s (buffer_line_chars_ site.host text) (text ++ crlf)
        (buffer_line_chars-Sends site.host most text) (buffer_line_chars-mode site.host most text)

  -- The lines that each response has.
  abbrev pub common_lines : List Bytes
  common_lines = response_lines site.version site.now web_socket_protocol_handshake

  common : S (Unit {0})
  common = on_connection (
      buffer_response_and_common_headers site.host site.version site.now
        web_socket_protocol_handshake)

  common-Emits : (s : Session) → Emits s common (lines common_lines)
  unfolding common
  common-Emits s =
      on_connection-Emits s
        (buffer_response_and_common_headers site.host site.version site.now
          web_socket_protocol_handshake)
        (lines common_lines)
        (common-Writes site.host most site.version site.now web_socket_protocol_handshake).0
        (common-Writes site.host most site.version site.now web_socket_protocol_handshake).1

  pub one_line :
      (s : Session) (m : S (Unit {0})) (text : Bytes)
      → Emits s m (text ++ crlf)
      → Emits s m (lines (text ∷ []))
  one_line s m text h = subst (λ l. Emits s m l) (sym (append-nil (text ++ crlf))) h

  pub upgrade-Emits :
      (s : Session)
      → Emits s (upgrade_lines site) (
          lines common_lines
          ++ lines (codes "Upgrade: websocket" ∷ codes "Connection: Upgrade" ∷ []))
  unfolding common
  upgrade-Emits s =
      let first : S (Unit {0}) = line_chars site (codes "Upgrade: websocket") in
      let second : S (Unit {0}) = line_chars site (codes "Connection: Upgrade") in
      >>-Emits s common (first >> second) (lines common_lines) _ (common-Emits s) (
        >>-Emits s first second (codes "Upgrade: websocket" ++ crlf) _
          (line_chars-Emits s (codes "Upgrade: websocket"))
          (one_line s second (codes "Connection: Upgrade")
            (line_chars-Emits s (codes "Connection: Upgrade"))))
