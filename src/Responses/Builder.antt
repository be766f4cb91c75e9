-- ===== src/Responses/Builder.antt =====
-- src/main/c/seasocks/ResponseBuilder.h and src/main/c/seasocks/ResponseBuilder.cpp.
use seasocks.Prelude.{Bool, true, false, [], ◌∷◌, ◌++◌, Bytes, codes}
use seasocks.Response.Code.{ResponseCode}
use seasocks.Responses.{Headers, insert_header, erase_header, SynchronousResponse}

pub record ResponseBuilder : Type 0 where
  pub code : ResponseCode
  pub content_type : Bytes
  pub keep_alive : Bool
  pub headers : Headers
  pub stream : Bytes

unfoldable pub new_builder : ResponseCode → ResponseBuilder
new_builder code = record {
  code = code;
  content_type = codes "text/plain";
  keep_alive = true;
  headers = [];
  stream = [];
}

unfoldable pub with_content_type : Bytes → ResponseBuilder → ResponseBuilder
with_content_type type b = record b { content_type = type }

unfoldable pub as_html : ResponseBuilder → ResponseBuilder
unfolding with_content_type
as_html b = with_content_type (codes "text/html") b

unfoldable pub as_text : ResponseBuilder → ResponseBuilder
unfolding with_content_type
as_text b = with_content_type (codes "text/plain") b

unfoldable pub as_json : ResponseBuilder → ResponseBuilder
unfolding with_content_type
as_json b = with_content_type (codes "application/json") b

unfoldable pub keeps_connection_alive : ResponseBuilder → ResponseBuilder
keeps_connection_alive b = record b { keep_alive = true }

unfoldable pub closes_connection : ResponseBuilder → ResponseBuilder
closes_connection b = record b { keep_alive = false }

unfoldable pub with_header : Bytes → Bytes → ResponseBuilder → ResponseBuilder
unfolding insert_header erase_header
with_header name value b = record b {
  headers = insert_header name value (erase_header name b.headers);
}

unfoldable pub add_header : Bytes → Bytes → ResponseBuilder → ResponseBuilder
unfolding insert_header
add_header name value b = record b { headers = insert_header name value b.headers }

unfoldable pub with_location : Bytes → ResponseBuilder → ResponseBuilder
unfolding with_header
with_location location b = with_header (codes "Location") location b

unfoldable pub sets_cookie : Bytes → Bytes → ResponseBuilder → ResponseBuilder
unfolding add_header
sets_cookie cookie value b = add_header (codes "Set-Cookie") (cookie ++ (b'=' ∷ value)) b

-- `operator<<` of text.
unfoldable pub append_text : Bytes → ResponseBuilder → ResponseBuilder
append_text text b = record b { stream = b.stream ++ text }

unfoldable pub build : ResponseBuilder → SynchronousResponse
build b = record {
  response_code = b.code;
  content = b.stream;
  content_type = b.content_type;
  keep_connection_alive = b.keep_alive;
  additional_headers = b.headers;
}
