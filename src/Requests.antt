-- ===== src/Requests.antt =====
-- src/main/c/seasocks/Connection.h, src/main/c/internal/PageRequest.h: a connection with its request, and what
-- it uses of its server, of the file system and of the program that embeds the library.
pub mod Answer
pub mod Partial
pub mod Static
pub mod WebSocket
pub mod Process
pub mod Example
use seasocks.Prelude.{
  ℕ, zero, suc, Bool, true, false, List, [], ◌∷◌, Option, none, some, Bytes, if◌then◌else◌, leb,
  ltb,
}
use seasocks.Prelude.Int.{ℤ, pos, negsuc}
use seasocks.Text.Numbers.{stoi}
use seasocks.Http.Headers.{HeaderMap, find_header, has_header, get_header}
use seasocks.Http.Request.{Verb}
use seasocks.Connection.{Connection, Host, M}
use seasocks.Connection.Receive.{Handler}

-- WebSocket.h: a handler's callbacks; its choice is an index into the protocols or any other number.
pub record WebSocketHandler : Type 0 where
  pub on_data : Handler
  pub on_connect : M (Unit {0})
  pub choose_protocol : List Bytes → ℤ

pub record PageRequest : Type 0 where
  pub verb : Verb
  pub request_uri : Bytes
  pub headers : HeaderMap
  pub content_length : ℕ
  pub content : Bytes

-- The members that requests use, beside those of `Connection`. `read_calls` counts the calls of `::read`
-- on files and `recv_calls` those on the socket.
pub record Session : Type 0 where
  pub connection : Connection
  pub request : Option PageRequest
  pub web_socket_handler : Option WebSocketHandler
  pub bytes_received : ℕ
  pub read_calls : ℕ
  pub recv_calls : ℕ

-- What a page handler does: nothing, a response that calls the writer, or an exception.
pub data Page : Type 0 where
  unhandled : Page
  response : M (Unit {0}) → Page
  throws : Bytes → Page

-- `fstat`, with the time as `webtime` prints it.
pub record File : Type 0 where
  pub size : ℕ
  pub last_modified : Bytes

-- `::read` of the socket: bytes, the end, or an error.
pub data Received : Type 0 where
  bytes : Bytes → Received
  end_of_stream failed : Received

-- The server, the file system, the library's embedded content and the hashes. `read` is what a call of
-- `::read` puts into the buffer for a path, an offset and a count; `none` is an error.
pub record Site : Type 0 where
  pub host : Host
  pub version : Bytes
  pub now : Bytes
  pub embedded : Bytes → Option Bytes
  pub deflate : ℕ → Bytes → Bytes
  pub inflate : ℕ → Bytes → Option Bytes
  pub handler_of : Bytes → Option WebSocketHandler
  pub cross_origin : Bytes → Bool
  pub per_message_deflate_enabled : Bool
  pub page : PageRequest → Page
  pub stats_document : Bytes
  pub static_path : Bytes
  pub file : Bytes → Option File
  pub read : ℕ → Bytes → ℕ → ℕ → Option Bytes
  pub recv : ℕ → Received
  pub sha1 : Bytes → Bytes
  pub md5 : Bytes → Bytes

-- A method; `none` is an exception that it does not catch, a failed assertion, or an access outside an array.
abbrev pub S : Type 0 → Type 0
S A = Session → Option (A × Session)

infixl 5 ◌>>=◌ ◌>>◌
abbrev pub ◌>>=◌ : {A B : Type 0} → S A → (A → S B) → S B
◌>>=◌ m f s = elim (m s) [ none ↦ none | some (a, t) ↦ f a t ]

abbrev pub ◌>>◌ : {B : Type 0} → S (Unit {0}) → S B → S B
m >> k = m >>= λ _. k

abbrev pub return : {A : Type 0} → A → S A
return a s = some (a, s)

-- A method of the output side.
abbrev pub on_connection : {A : Type 0} → M A → S A
on_connection m s = let r = m s.connection in some (r.0, record s { connection = r.1 })

abbrev pub non_negative : Option ℤ → ℕ
non_negative none = 0
non_negative (some (pos n)) = n
non_negative (some (negsuc n)) = 0

abbrev pub header_number : Option Bytes → ℕ
header_number none = 0
header_number (some value) = non_negative (stoi value)

-- `getUintHeader`, in which the exceptions are caught.
unfoldable pub get_uint_header : Bytes → HeaderMap → ℕ
unfolding find_header stoi
get_uint_header name headers = header_number (find_header name headers)

-- `hasHeader`, `getHeader` and `getRequestUri` of a connection.
abbrev pub request_has : Bytes → Option PageRequest → Bool
request_has name none = false
request_has name (some r) = has_header name r.headers

abbrev pub request_header : Bytes → Option PageRequest → Bytes
request_header name none = []
request_header name (some r) = get_header name r.headers

abbrev pub uri_of : Option PageRequest → Bytes
uri_of none = []
uri_of (some r) = r.request_uri
