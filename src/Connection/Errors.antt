-- ===== src/Connection/Errors.antt =====
-- src/main/c/Connection.cpp: `sendError` and its kinds. Embedded content, which the build generates, the
-- date and the version are arguments.
pub mod Document
pub mod Whole
mod Tests
use seasocks.Prelude.{
  ℕ, Bool, true, false, List, [], ◌∷◌, ◌++◌, Option, none, some, length, Bytes, codes,
}
use seasocks.Text.Digits.{to_string}
use seasocks.Text.Strings.{replace}
use seasocks.Response.Code.{
  ResponseCode, bad_request, not_implemented, internal_server_error, to_int, name,
}
use seasocks.Connection.{Connection, Host, M, ◌>>=◌, ◌>>◌, return, drop_result}
use seasocks.Connection.Output.{flush, buffer_line, close_when_empty}
use seasocks.Connection.Responder.{
  buffer_line_, buffer_line_chars_, buffer_response_and_common_headers,
}

-- The number and the name of the error, as in a title.
abbrev pub error_title : ResponseCode → Bytes
error_title code = to_string (to_int code) ++ (codes " - " ++ name code)

unfoldable pub error_document : ResponseCode → Bytes → Option Bytes → Bytes
error_document code body (some content) =
    let numbered = replace content (codes "%%ERRORCODE%%") (to_string (to_int code)) in
    let named = replace numbered (codes "%%MESSAGE%%") (name code) in
    replace named (codes "%%BODY%%") body
error_document code body none =
    codes "<html><head><title>"
    ++ (error_title code
        ++ (codes "</title></head>"
            ++ (codes "<body><h1>"
                ++ (error_title code
                    ++ (codes "</h1>"
                        ++ (codes "<div>"
                            ++ (body
                                ++ (codes "</div><hr/><div><i>Powered by "
                                    ++ codes
                                        "<a href=\"https://github.com/mattgodbolt/seasocks\">Seasocks</a></i></div></body></html>"))))))))

module _ (host : Host) (version now : Bytes) (embedded : Bytes → Option Bytes) where
  pub close_if : Bool → M Bool
  close_if false = return false
  close_if true = do close_when_empty; return true

  unfoldable pub send_document : ResponseCode → Bytes → M Bool
  unfolding close_if
  send_document code document = do
    buffer_response_and_common_headers host version now code
    buffer_line_ host (codes "Content-Length: " ++ to_string (length document))
    buffer_line_chars_ host (codes "Connection: close")
    buffer_line_chars_ host []
    buffer_line_ host document
    sent_all ← flush host
    close_if sent_all

  -- Its `assert` on the state is left out.
  unfoldable pub send_error : ResponseCode → Bytes → M Bool
  unfolding send_document
  send_error code body =
      send_document code (error_document code body (embedded (codes "/_error.html")))

  unfoldable pub send_unsupported_error : Bytes → M Bool
  unfolding send_error
  send_unsupported_error reason = send_error not_implemented reason

  unfoldable pub send_bad_request : Bytes → M Bool
  unfolding send_error
  send_bad_request reason = send_error bad_request reason

  unfoldable pub send_ise : Bytes → M Bool
  unfolding send_error
  send_ise error = send_error internal_server_error error
