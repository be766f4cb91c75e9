-- ===== src/Connection/Errors/Document.antt =====
-- What `sendError` of src/main/c/Connection.cpp sends.
use seasocks.Prelude.{
  ℕ, ◌≡◌, sym, ◌∙◌, inl, inr, Bool, true, false, List, [], ◌∷◌, ◌++◌, append_assoc, append-nil, map,
  Option, length, Bytes, codes, Bool-cases, subst,
}
use seasocks.Text.Digits.{to_string}
use seasocks.Response.Code.{ResponseCode, to_int, name}
use seasocks.Connection.{Connection, Host, SendsAtMost, M, ◌>>=◌, ◌>>◌}
use seasocks.Connection.Output.{write, flush, buffer_line, buffer_line_chars}
use seasocks.Connection.Outputs.{flush-Appends, close_when_empty-Appends}
use seasocks.Connection.Appends.{
  Appends, Appends-trans, Appends-refl, Appends-refused, write-Appends, write-false-refuses,
}
use seasocks.Connection.Responder.{
  crlf, buffer_line_, buffer_line_chars_, buffer_response_and_common_headers,
}
use seasocks.Connection.Errors.{close_if, send_document, send_error, error_document}

-- A response's lines, each with its end.
abbrev pub lines : List Bytes → Bytes
lines [] = []
lines (l ∷ ls) = (l ++ crlf) ++ lines ls

-- The response's head, in which the document's length stands, an empty line, and the document.
unfoldable pub error_lines : Bytes → Bytes → ResponseCode → Bytes → List Bytes
error_lines version now code document =
    (codes "HTTP/1.1 " ++ (to_string (to_int code) ++ (codes " " ++ name code)))
    ∷ (codes "Server: " ++ version)
    ∷ (codes "Date: " ++ now)
    ∷ codes "Access-Control-Allow-Origin: *"
    ∷ (codes "Content-Length: " ++ to_string (length document))
    ∷ codes "Connection: close"
    ∷ []
    ∷ document
    ∷ []

-- The same lines, each with whether it goes through the overload for `std::string`.
abbrev pub error_parts : Bytes → Bytes → ResponseCode → Bytes → List (Bool × Bytes)
error_parts version now code document =
    (true, codes "HTTP/1.1 " ++ (to_string (to_int code) ++ (codes " " ++ name code)))
    ∷ (true, codes "Server: " ++ version)
    ∷ (true, codes "Date: " ++ now)
    ∷ (false, codes "Access-Control-Allow-Origin: *")
    ∷ (true, codes "Content-Length: " ++ to_string (length document))
    ∷ (false, codes "Connection: close")
    ∷ (false, [])
    ∷ (true, document)
    ∷ []

module _ (host : Host) (most : SendsAtMost host) where
  abbrev pub limit : ℕ
  limit = host.client_buffer_size

  -- A method that appends the bytes.
  abbrev pub Sends : {A : Type 0} → M A → Bytes → Type 0
  Sends m bytes = (c : Connection) → c.had_send_error ≡ false → Appends limit c bytes (m c).1

  pub buffer_line-Sends : (line : Bytes) → Sends (buffer_line_ host line) (line ++ crlf)
  unfolding buffer_line
  buffer_line-Sends line c ok = write-Appends host most c (line ++ crlf) false ok

  pub buffer_line_chars-Sends : (line : Bytes) → Sends (buffer_line_chars_ host line) (line ++ crlf)
  unfolding buffer_line_chars
  buffer_line_chars-Sends line c ok =
      let w = write-Appends host most c line false ok in
      elim (Bool-cases (write host line false c).0) [
        | inl done ↦ rw done (
            Appends-trans w
              (write-Appends host most (write host line false c).1 crlf false (w.same_error ∙ ok)))
        | inr stop ↦ rw stop (Appends-refused crlf (write-false-refuses host most c line stop) w)
      ]

  close_if-Sends :
      (version now : Bytes) (embedded : Bytes → Option Bytes) (b : Bool)
      → Sends (close_if host version now embedded b) []
  unfolding close_if
  close_if-Sends version now embedded false c ok = Appends-refl c
  close_if-Sends version now embedded true c ok = close_when_empty-Appends c

  -- Lines, each by the overload for `std::string` or by that for `const char*`, and what follows them.
  unfoldable pub run_lines : List (Bool × Bytes) → M Bool → M Bool
  run_lines [] k = k
  run_lines ((true, l) ∷ ls) k = do buffer_line_ host l; run_lines ls k
  run_lines ((false, l) ∷ ls) k = do buffer_line_chars_ host l; run_lines ls k

  run_lines-Sends :
      (ls : List (Bool × Bytes)) (k : M Bool) (ys : Bytes)
      → Sends k ys
      → Sends (run_lines ls k) (lines (map (λ l. l.1) ls) ++ ys)
  unfolding run_lines
  run_lines-Sends [] k ys h c ok = h c ok
  run_lines-Sends ((true, l) ∷ ls) k ys h c ok =
      let a = buffer_line-Sends l c ok in
      subst (λ t. Appends limit c t (run_lines ls k (buffer_line_ host l c).1).1)
        (sym (append_assoc (l ++ crlf) (lines (map (λ l. l.1) ls)) ys))
        (Appends-trans a (run_lines-Sends ls k ys h (buffer_line_ host l c).1 (a.same_error ∙ ok)))
  run_lines-Sends ((false, l) ∷ ls) k ys h c ok =
      let a = buffer_line_chars-Sends l c ok in
      subst (λ t. Appends limit c t (run_lines ls k (buffer_line_chars_ host l c).1).1)
        (sym (append_assoc (l ++ crlf) (lines (map (λ l. l.1) ls)) ys))
        (Appends-trans a
          (run_lines-Sends ls k ys h (buffer_line_chars_ host l c).1 (a.same_error ∙ ok)))

  module _ (version now : Bytes) (embedded : Bytes → Option Bytes) where
    pub flush_close-Sends : Sends (flush host >>= close_if host version now embedded) []
    flush_close-Sends c ok =
        let f = flush-Appends host most c in
        Appends-trans f (
          close_if-Sends version now embedded (flush host c).0 (flush host c).1 (f.same_error ∙ ok))

    pub send_error-Appends :
        (code : ResponseCode) (body : Bytes) (c : Connection)
        → c.had_send_error ≡ false
        → Appends host.client_buffer_size c
            (lines (
              error_lines version now code
                (error_document code body (embedded (codes "/_error.html")))))
            (send_error host version now embedded code body c).1
    unfolding send_error send_document buffer_response_and_common_headers error_lines run_lines
    send_error-Appends code body c ok =
        let document = error_document code body (embedded (codes "/_error.html")) in
        let ls = error_parts version now code document in
        subst (λ t. Appends limit c t (send_error host version now embedded code body c).1)
          (append-nil (lines (map (λ l. l.1) ls)))
          (run_lines-Sends ls (flush host >>= close_if host version now embedded) []
            flush_close-Sends c ok)
