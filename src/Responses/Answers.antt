-- ===== src/Responses/Answers.antt =====
-- What the answer of src/main/c/seasocks/SynchronousResponse.cpp is on the wire.
use seasocks.Prelude.{
  ◌≡◌, refl, ap, Bool, true, false, [], ◌∷◌, ◌++◌, append-nil, map, length, if◌then◌else◌, Bytes,
  codes,
}
use seasocks.Text.Digits.{to_string}
use seasocks.Response.{raw}
use seasocks.Response.Code.{is_ok}
use seasocks.Connection.{
  Connection, SendsAtMost, awaiting_response_begin, sending_response_headers, sending_response_body,
  reading_headers, M, ◌>>◌,
}
use seasocks.Connection.Mode.{Mode, mode}
use seasocks.Connection.Errors.Document.{lines}
use seasocks.Connection.Responder.{crlf, payload, finish}
use seasocks.Connection.Responder.Steps.{
  Does, header_line, headers_text, headers_text-lines, begin_lines, Runs, Runs-then, Runs-cast,
}
use seasocks.Connection.Responder.Calls.{
  begin-Runs, header-Runs, payload_raw-Runs, finish_raw-Runs, done,
}
use seasocks.Requests.{Site}
use seasocks.Responses.{
  ResponseWriter, Headers, SynchronousResponse, has_name, write_headers, unless, write_response,
  synchronous_handle,
}
use seasocks.Responses.Writer.{connection_writer}

-- The headers that caches read, unless the response has its own.
abbrev pub cache_default : Bool → Headers
cache_default true = []
cache_default false = (codes "Cache-Control", codes "no-store") ∷ []

abbrev pub expires_default : Bytes → Bool → Headers
expires_default now true = []
expires_default now false = (codes "Expires", now) ∷ []

-- The headers that each response has.
abbrev fixed : Bytes → SynchronousResponse → Headers
fixed now r =
    (codes "Content-Length", to_string (length r.content))
    ∷ (codes "Content-Type", r.content_type)
    ∷ (codes "Connection", if r.keep_connection_alive then codes "keep-alive" else codes "close")
    ∷ (codes "Last-Modified", now)
    ∷ (codes "Pragma", codes "no-cache")
    ∷ []

-- All headers of a response, in order.
abbrev pub headers_of : Bytes → SynchronousResponse → Headers
headers_of now r =
    fixed now r
    ++ (cache_default (has_name (codes "Cache-Control") r.additional_headers)
        ++ (expires_default now (has_name (codes "Expires") r.additional_headers)
            ++ r.additional_headers))

module _ (site : Site) (most : SendsAtMost site.host) (path : Bytes) where
  abbrev pub writer : ResponseWriter
  writer = connection_writer site path

  -- Headers in front of a call.
  pub write_headers-Runs :
      (hs : Headers) (next : M (Unit {0})) (m n : Mode) (ys : Bytes)
      → m.state ≡ sending_response_headers
      → Runs site.host most next m ys n
      → Runs site.host most (write_headers writer hs >> next) m (headers_text hs ys) n
  unfolding write_headers headers_text connection_writer
  write_headers-Runs [] next m n ys at h = h
  write_headers-Runs ((name, value) ∷ hs) next m n ys at h =
      Runs-then site.host most (header-Runs site.host most name value m at)
        (write_headers-Runs hs next m n ys at h)

  -- The headers that depend on whether the response has its own.
  defaults-Runs :
      (now : Bytes) (cache expires : Bool) (hs : Headers) (next : M (Unit {0})) (m n : Mode)
      (ys : Bytes)
      → m.state ≡ sending_response_headers
      → Runs site.host most next m ys n
      → Runs site.host most
          (unless writer cache (writer.header (codes "Cache-Control") (codes "no-store"))
            >> (unless writer expires (writer.header (codes "Expires") now)
                >> (write_headers writer hs >> next)))
          m
          (headers_text (cache_default cache ++ (expires_default now expires ++ hs)) ys)
          n
  unfolding write_headers
  defaults-Runs now true true hs next m n ys at h = write_headers-Runs hs next m n ys at h
  defaults-Runs now true false hs next m n ys at h =
      write_headers-Runs ((codes "Expires", now) ∷ hs) next m n ys at h
  defaults-Runs now false true hs next m n ys at h =
      write_headers-Runs ((codes "Cache-Control", codes "no-store") ∷ hs) next m n ys at h
  defaults-Runs now false false hs next m n ys at h =
      write_headers-Runs ((codes "Cache-Control", codes "no-store") ∷ ((codes "Expires", now) ∷ hs))
        next m n ys at h

  -- What is sent: the head, an empty line and the content.
  abbrev pub answer : Bytes → SynchronousResponse → Bytes
  answer now r =
      lines (begin_lines site.version site.now r.response_code raw)
      ++ (lines (map header_line (headers_of now r)) ++ (crlf ++ r.content))

  write_response-Runs :
      (now : Bytes) (r : SynchronousResponse) (m : Mode)
      → m.state ≡ awaiting_response_begin
      → Runs site.host most
          (write_response writer now r)
          m
          (answer now r)
          (done site.host most (record m { transfer_encoding = raw }))
  unfolding write_response write_headers connection_writer headers_text
  write_response-Runs now r m at =
      let heads : Mode = record m { state = sending_response_headers; transfer_encoding = raw } in
      let body : Mode = record heads { state = sending_response_body } in
      let keep = r.keep_connection_alive in
      let ends : Runs site.host most (payload site.host r.content true >> finish site.host keep)
          heads (crlf ++ r.content) (done site.host most body) =
        Runs-cast site.host most (append-nil (crlf ++ r.content)) (
          Runs-then site.host most (payload_raw-Runs site.host most r.content true heads refl refl)
            (finish_raw-Runs site.host most keep body refl refl)) in
      let rest =
        defaults-Runs now (has_name (codes "Cache-Control") r.additional_headers)
          (has_name (codes "Expires") r.additional_headers) r.additional_headers
          (payload site.host r.content true >> finish site.host keep) heads
          (done site.host most body) (crlf ++ r.content) refl ends in
      let defaults : M (Unit {0}) =
        unless writer (has_name (codes "Cache-Control") r.additional_headers)
          (writer.header (codes "Cache-Control") (codes "no-store"))
        >> (unless writer (has_name (codes "Expires") r.additional_headers)
              (writer.header (codes "Expires") now)
            >> (write_headers writer r.additional_headers
                >> (payload site.host r.content true >> finish site.host keep))) in
      Runs-cast site.host most
        (ap (◌++◌ (lines (begin_lines site.version site.now r.response_code raw)))
          (headers_text-lines (headers_of now r) (crlf ++ r.content)))
        (Runs-then site.host most
          (begin-Runs site.host most site.version site.now r.response_code raw m at)
          (write_headers-Runs (fixed now r) defaults heads (done site.host most body) _ refl rest))

  -- Where ::send takes no more than it is given, the code is no error's, there was no send error
  -- and the connection waits for a response to begin, SynchronousResponse::handle on the
  -- connection's writer appends one response: the head with the content's length and type, whether
  -- the connection is kept, the two headers for caches exactly where the response has none of its
  -- own, its own headers, an empty line and the content; where less is appended, the connection
  -- refuses data from then on. Behind it the connection reads headers again, has no response, and
  -- sends no chunks; its other members that output leaves alone are as they were.
  pub synchronous_handle-Does :
      (now : Bytes) (r : SynchronousResponse) (c : Connection)
      → is_ok r.response_code ≡ true
      → c.state ≡ awaiting_response_begin
      → c.had_send_error ≡ false
      → Does site.host most c
          (answer now r)
          (record (mode c) {
            state = reading_headers;
            transfer_encoding = raw;
            has_response = false;
          })
          (synchronous_handle writer now r c).1
  unfolding synchronous_handle
  synchronous_handle-Does now r c good at ok =
      rw good (write_response-Runs now r (mode c) at c ok refl)
