-- ===== src/Responses.antt =====
-- src/main/c/seasocks/ResponseWriter.h, SynchronousResponse.h and SynchronousResponse.cpp,
-- src/main/c/internal/ConcreteResponse.h and src/main/c/Response.cpp: what a response calls.
pub mod Writer
pub mod Builder
pub mod Streaming
pub mod Answers
pub mod Chunked
pub mod Exchange
pub mod Delivery
mod Tests
use seasocks.Prelude.{
  ℕ, Bool, true, false, not, ◌&&◌, List, [], ◌∷◌, length, ltb, ◌==◌, if◌then◌else◌, Bytes, codes,
}
use seasocks.Text.Digits.{to_string}
use seasocks.Text.Words.{same_bytes}
use seasocks.Response.{TransferEncoding, raw}
use seasocks.Response.Code.{ResponseCode, ok, not_found, is_ok}
use seasocks.Connection.{M, ◌>>=◌, ◌>>◌, return}

-- The interface that a response writes to.
pub record ResponseWriter : Type 0 where
  pub begin : ResponseCode → TransferEncoding → M (Unit {0})
  pub header : Bytes → Bytes → M (Unit {0})
  pub payload : Bytes → Bool → M (Unit {0})
  pub finish : Bool → M (Unit {0})
  pub error : ResponseCode → Bytes → M (Unit {0})
  pub is_active : Bool

-- A `multimap` from strings: in the order of the names, those of one name as they were inserted.
abbrev pub Headers : Type 0
Headers = List (Bytes × Bytes)

-- `operator<` of strings.
unfoldable pub string_less : Bytes → Bytes → Bool
string_less [] [] = false
string_less [] (y ∷ ys) = true
string_less (x ∷ xs) [] = false
string_less (x ∷ xs) (y ∷ ys) =
    let rest = string_less xs ys in if ltb x y then true else if x == y then rest else false

unfoldable pub insert_header : Bytes → Bytes → Headers → Headers
unfolding string_less
insert_header name value [] = (name, value) ∷ []
insert_header name value ((n, v) ∷ hs) =
    let rest = insert_header name value hs in
    if string_less name n then (name, value) ∷ ((n, v) ∷ hs) else (n, v) ∷ rest

unfoldable pub erase_header : Bytes → Headers → Headers
unfolding same_bytes
erase_header name [] = []
erase_header name ((n, v) ∷ hs) =
    let rest = erase_header name hs in if same_bytes n name then rest else (n, v) ∷ rest

-- `find` is not `end`.
unfoldable pub has_name : Bytes → Headers → Bool
unfolding same_bytes
has_name name [] = false
has_name name ((n, v) ∷ hs) =
    let rest = has_name name hs in if same_bytes n name then true else rest

-- `ConcreteResponse`, and what `SynchronousResponse` asks of those that embed the library.
pub record SynchronousResponse : Type 0 where
  pub response_code : ResponseCode
  pub content : Bytes
  pub content_type : Bytes
  pub keep_connection_alive : Bool
  pub additional_headers : Headers

-- `Response::notFound` and the others.
unfoldable pub not_found_response : SynchronousResponse
not_found_response = record {
  response_code = not_found;
  content = codes "Not found";
  content_type = codes "text/plain";
  keep_connection_alive = false;
  additional_headers = [];
}

unfoldable pub error_response : ResponseCode → Bytes → SynchronousResponse
error_response code error = record {
  response_code = code;
  content = error;
  content_type = codes "text/plain";
  keep_connection_alive = false;
  additional_headers = [];
}

abbrev ok_response : Bytes → Bytes → SynchronousResponse
ok_response type response = record {
  response_code = ok;
  content = response;
  content_type = type;
  keep_connection_alive = true;
  additional_headers = [];
}

unfoldable pub text_response : Bytes → SynchronousResponse
text_response response = ok_response (codes "text/plain") response

unfoldable pub json_response : Bytes → SynchronousResponse
json_response response = ok_response (codes "application/json") response

unfoldable pub html_response : Bytes → SynchronousResponse
html_response response = ok_response (codes "text/html") response

module _ (writer : ResponseWriter) where
  -- The loop over the headers.
  unfoldable pub write_headers : Headers → M (Unit {0})
  write_headers [] = return tt
  write_headers ((name, value) ∷ hs) = do writer.header name value; write_headers hs

  abbrev pub unless : Bool → M (Unit {0}) → M (Unit {0})
  unless true m = return tt
  unless false m = m

  -- `SynchronousResponse::handle` where the code is no error, at the time `now` prints.
  unfoldable pub write_response : Bytes → SynchronousResponse → M (Unit {0})
  unfolding write_headers has_name
  write_response now r = do
    writer.begin r.response_code raw
    writer.header (codes "Content-Length") (to_string (length r.content))
    writer.header (codes "Content-Type") r.content_type
    writer.header (codes "Connection")
        (if r.keep_connection_alive then codes "keep-alive" else codes "close")
    writer.header (codes "Last-Modified") now
    writer.header (codes "Pragma") (codes "no-cache")
    unless (has_name (codes "Cache-Control") r.additional_headers)
        (writer.header (codes "Cache-Control") (codes "no-store"))
    unless (has_name (codes "Expires") r.additional_headers) (writer.header (codes "Expires") now)
    write_headers r.additional_headers
    writer.payload r.content true
    writer.finish r.keep_connection_alive

  -- `SynchronousResponse::handle`.
  unfoldable pub synchronous_handle : Bytes → SynchronousResponse → M (Unit {0})
  unfolding write_response is_ok
  synchronous_handle now r =
      if not (is_ok r.response_code)
      then writer.error r.response_code r.content
      else write_response now r
