-- ===== src/Connection/Responder/Head.antt =====
-- What the first lines of each response append, src/main/c/Connection.cpp.
use seasocks.Prelude.{
  ◌≡◌, sym, ◌∙◌, subst, inl, inr, Bool-cases, false, List, [], ◌∷◌, ◌++◌, append-nil, Bytes, codes,
}
use seasocks.Text.Digits.{to_string}
use seasocks.Response.Code.{ResponseCode, to_int, name}
use seasocks.Connection.{Connection, Host, SendsAtMost, M}
use seasocks.Connection.{◌>>◌ as ◌>>M◌}
use seasocks.Connection.Output.{write, buffer_line, buffer_line_chars}
use seasocks.Connection.Mode.{mode, write-mode}
use seasocks.Connection.Appends.{Appends-trans}
use seasocks.Connection.Responder.{
  crlf, buffer_line_, buffer_line_chars_, buffer_response_and_common_headers,
}
use seasocks.Connection.Errors.Document.{lines, Sends, buffer_line-Sends, buffer_line_chars-Sends}

abbrev status_line : ResponseCode → Bytes
status_line code = codes "HTTP/1.1 " ++ (to_string (to_int code) ++ (codes " " ++ name code))

-- The lines that each response has.
abbrev pub response_lines : Bytes → Bytes → ResponseCode → List Bytes
response_lines version now code =
    status_line code
    ∷ (codes "Server: " ++ version)
    ∷ (codes "Date: " ++ now)
    ∷ codes "Access-Control-Allow-Origin: *"
    ∷ []

module _ (host : Host) (most : SendsAtMost host) where
  pub buffer_line-mode :
      (text : Bytes) (c : Connection) → mode (buffer_line_ host text c).1 ≡ mode c
  unfolding buffer_line
  buffer_line-mode text c = write-mode host c (text ++ crlf) false

  pub buffer_line_chars-mode :
      (text : Bytes) (c : Connection) → mode (buffer_line_chars_ host text c).1 ≡ mode c
  unfolding buffer_line_chars
  buffer_line_chars-mode text c = elim (Bool-cases (write host text false c).0) [
    | inl done ↦
        rw done
          (write-mode host (write host text false c).1 crlf false ∙ write-mode host c text false)
    | inr stop ↦ rw stop (write-mode host c text false)
  ]

  -- A method that appends bytes and changes nothing else.
  abbrev pub Writes : M (Unit {0}) → Bytes → Type 0
  Writes m bytes = Sends host most m bytes × ((c : Connection) → mode (m c).1 ≡ mode c)

  pub Writes-then :
      (m k : M (Unit {0})) (xs ys : Bytes) → Writes m xs → Writes k ys → Writes (m >>M k) (xs ++ ys)
  Writes-then m k xs ys h g = (
    (λ c ok. let a = h.0 c ok in Appends-trans a (g.0 (m c).1 (a.same_error ∙ ok))),
    (λ c. g.1 (m c).1 ∙ h.1 c),
  )

  pub line-Writes : (text : Bytes) → Writes (buffer_line_ host text) (text ++ crlf)
  line-Writes text = (buffer_line-Sends host most text, buffer_line-mode text)

  pub line_chars-Writes : (text : Bytes) → Writes (buffer_line_chars_ host text) (text ++ crlf)
  line_chars-Writes text = (buffer_line_chars-Sends host most text, buffer_line_chars-mode text)

  pub common-Writes :
      (version now : Bytes) (code : ResponseCode)
      → Writes
          (buffer_response_and_common_headers host version now code)
          (lines (response_lines version now code))
  unfolding buffer_response_and_common_headers
  common-Writes version now code =
      let last : Bytes = codes "Access-Control-Allow-Origin: *" in
      let e4 : Writes (buffer_line_chars_ host last) (lines (last ∷ [])) =
        subst (λ l. Writes (buffer_line_chars_ host last) l) (sym (append-nil (last ++ crlf)))
          (line_chars-Writes last) in
      let e3 =
        Writes-then (buffer_line_ host (codes "Date: " ++ now)) (buffer_line_chars_ host last) _ _
          (line-Writes (codes "Date: " ++ now)) e4 in
      let e2 =
        Writes-then (buffer_line_ host (codes "Server: " ++ version))
          (buffer_line_ host (codes "Date: " ++ now) >>M buffer_line_chars_ host last) _ _
          (line-Writes (codes "Server: " ++ version)) e3 in
      Writes-then (buffer_line_ host (status_line code))
        (buffer_line_ host (codes "Server: " ++ version)
          >>M (buffer_line_ host (codes "Date: " ++ now) >>M buffer_line_chars_ host last))
        _ _ (line-Writes (status_line code)) e2
