-- ===== src/Response/Code.antt =====
-- src/main/c/seasocks/ResponseCode.h, ResponseCodeDefs.h and ResponseCode.cpp: HTTP status codes.
use seasocks.Prelude.{ℕ, Bool, ltb, Bytes, codes}

pub data ResponseCode : Type 0 where
  continue web_socket_protocol_handshake processing checkpoint ok : ResponseCode
  created accepted non_authoritative_information no_content : ResponseCode
  reset_content partial_content multi_status already_reported im_used : ResponseCode
  multiple_choices moved_permanently found see_other not_modified : ResponseCode
  use_proxy switch_proxy temporary_redirect resume_incomplete : ResponseCode
  bad_request unauthorized payment_required forbidden not_found : ResponseCode
  method_not_allowed upgrade_required internal_server_error : ResponseCode
  not_implemented : ResponseCode

-- `static_cast<int>`.
unfoldable pub to_int : ResponseCode → ℕ
to_int continue = 100
to_int web_socket_protocol_handshake = 101
to_int processing = 102
to_int checkpoint = 103
to_int ok = 200
to_int created = 201
to_int accepted = 202
to_int non_authoritative_information = 203
to_int no_content = 204
to_int reset_content = 205
to_int partial_content = 206
to_int multi_status = 207
to_int already_reported = 208
to_int im_used = 226
to_int multiple_choices = 300
to_int moved_permanently = 301
to_int found = 302
to_int see_other = 303
to_int not_modified = 304
to_int use_proxy = 305
to_int switch_proxy = 306
to_int temporary_redirect = 307
to_int resume_incomplete = 308
to_int bad_request = 400
to_int unauthorized = 401
to_int payment_required = 402
to_int forbidden = 403
to_int not_found = 404
to_int method_not_allowed = 405
to_int upgrade_required = 426
to_int internal_server_error = 500
to_int not_implemented = 501

unfoldable pub is_ok : ResponseCode → Bool
unfolding to_int
is_ok code = ltb (to_int code) 400

unfoldable pub name : ResponseCode → Bytes
name continue = codes "Continue"
name web_socket_protocol_handshake = codes "WebSocket Protocol Handshake"
name processing = codes "Processing"
name checkpoint = codes "Checkpoint"
name ok = codes "OK"
name created = codes "Created"
name accepted = codes "Accepted"
name non_authoritative_information = codes "Non Authoritative Information"
name no_content = codes "No Content"
name reset_content = codes "Reset Content"
name partial_content = codes "Partial Content"
name multi_status = codes "Multi-Status"
name already_reported = codes "Already Reported"
name im_used = codes "IM Used"
name multiple_choices = codes "Multiple Choices"
name moved_permanently = codes "Moved Permanently"
name found = codes "Found"
name see_other = codes "See Other"
name not_modified = codes "Not Modified"
name use_proxy = codes "Use Proxy"
name switch_proxy = codes "Switch Proxy"
name temporary_redirect = codes "Temporary Redirect"
name resume_incomplete = codes "Resume Incomplete"
name bad_request = codes "Bad Request"
name unauthorized = codes "Unauthorized"
name payment_required = codes "Payment Required"
name forbidden = codes "Forbidden"
name not_found = codes "Not Found"
name method_not_allowed = codes "Method Not Allowed"
name upgrade_required = codes "Upgrade Required"
name internal_server_error = codes "Internal Server Error"
name not_implemented = codes "Not Implemented"
