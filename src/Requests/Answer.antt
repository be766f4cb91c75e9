-- ===== src/Requests/Answer.antt =====
-- src/main/c/Connection.cpp: `sendHeader`, `sendData`, `send404` and `error`.
use seasocks.Prelude.{
  ℕ, Bool, true, false, [], ◌++◌, Option, none, some, length, if◌then◌else◌, Bytes, codes,
}
use seasocks.Text.Digits.{to_string}
use seasocks.Text.Words.{same_bytes}
use seasocks.Response.Code.{ResponseCode, ok, not_found}
use seasocks.Http.Mime.{get_content_type}
use seasocks.Connection.{State, awaiting_response_begin, M, ◌>>◌, drop_result}
use seasocks.Connection.Output.{write, buffer_line_chars}
use seasocks.Connection.Responder.{
  buffer_line_, buffer_line_chars_, buffer_response_and_common_headers,
}
use seasocks.Connection.Errors.{send_error}
use seasocks.Requests.{Site}

module _ (site : Site) where
  -- The lines of `sendHeader` in front of the empty one, which `sendData` sends too.
  unfoldable pub content_headers : Bytes → ℕ → M (Unit {0})
  content_headers type size = do
    buffer_response_and_common_headers site.host site.version site.now ok
    buffer_line_ site.host (codes "Content-Type: " ++ type)
    buffer_line_ site.host (codes "Content-Length: " ++ to_string size)
    buffer_line_chars_ site.host (codes "Connection: keep-alive")

  unfoldable pub send_header : Bytes → ℕ → M Bool
  unfolding content_headers
  send_header type size = do content_headers type size; buffer_line_chars site.host []

  unfoldable pub send_data : Bytes → Bytes → M Bool
  unfolding content_headers
  send_data type content = do
    content_headers type (length content)
    buffer_line_chars_ site.host []
    write site.host content true

  abbrev pub send_embedded : Bytes → Option Bytes → M Bool
  send_embedded path (some content) = send_data (get_content_type path) content
  send_embedded path none =
      if same_bytes path (codes "/_livestats.js")
      then send_data (codes "text/javascript") site.stats_document
      else send_error site.host site.version site.now site.embedded not_found
          (codes "Unable to find resource for: " ++ path)

  -- `send404`, for the URI of the connection's request.
  unfoldable pub send_404 : Bytes → M Bool
  unfolding send_data same_bytes
  send_404 path = send_embedded path (site.embedded path)

  abbrev pub is_not_found : ResponseCode → Bool
  is_not_found not_found = true
  is_not_found _ = false

  unfoldable pub error_in : State → Bytes → ResponseCode → Bytes → M (Unit {0})
  unfolding send_404
  error_in awaiting_response_begin path code payload = drop_result (
      if is_not_found code
      then send_404 path
      else send_error site.host site.version site.now site.embedded code payload)
  error_in _ path code payload = λ c. (tt, c)

  -- `error`, which a response calls through its writer.
  unfoldable pub error : Bytes → ResponseCode → Bytes → M (Unit {0})
  unfolding error_in
  error path code payload c = error_in c.state path code payload c
