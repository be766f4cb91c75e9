-- ===== src/Requests/Process.antt =====
-- src/main/c/Connection.cpp: `handlePageRequest`, `sendResponse`, `processHeaders`, `handleHeaders`,
-- `handleBufferingPostData`, `handleNewData` and `handleDataReadyForRead`.
use seasocks.Prelude.{
  ℕ, zero, suc, ◌+◌, Bool, true, false, not, ◌&&◌, [], ◌++◌, Option, none, some, length, take,
  replicate, ltb, ◌==◌, if◌then◌else◌, Bytes, codes,
}
use seasocks.Prelude.Int.{ℤ, pos}
use seasocks.Text.Numbers.{stoi}
use seasocks.Text.Strings.{find_string}
use seasocks.Text.Words.{case_insensitive_same}
use seasocks.Response.{raw}
use seasocks.Response.Code.{upgrade_required}
use seasocks.Http.Mime.{get_content_type}
use seasocks.Http.Upgrade.{has_connection_type}
use seasocks.Http.Headers.{HeaderMap, has_header, get_header}
use seasocks.Http.Request.{Verb, web_socket, get, head, consume_content}
use seasocks.Http.Parse.{
  Parsed, bad_request, unsupported, Reading, read, refused, no_line, parse_request,
}
use seasocks.Connection.{
  Connection, State, invalid as invalid_state, reading_headers, reading_websocket_key3,
  handling_hixie_websocket, handling_hybi_websocket, buffering_post_data, awaiting_response_begin,
  sending_response_headers, sending_response_body,
}
use seasocks.Connection.Output.{close_internal, closed}
use seasocks.Connection.Responder.{set_state, crlf}
use seasocks.Connection.Errors.{send_error, send_bad_request, send_unsupported_error, send_ise}
use seasocks.Connection.Receive.{
  Handler, Outcome, returned, out_of_bounds, out_of_fuel, handle_hybi_web_socket,
}
use seasocks.Connection.Receive.Hixie.{handle_hixie_web_socket}
use seasocks.Requests.{
  Site, Session, S, ◌>>=◌, ◌>>◌, return, on_connection, WebSocketHandler, PageRequest, Page,
  unhandled, response, throws, Received, bytes, end_of_stream, failed, uri_of, get_uint_header,
}
use seasocks.Requests.Answer.{send_data, send_header, send_404}
use seasocks.Requests.Static.{send_static_data}
use seasocks.Requests.WebSocket.{
  parse_per_message_deflate_header, handle_hybi_handshake, handle_web_socket_key3, erase,
}

abbrev pub is_get : Verb → Bool
is_get get = true
is_get _ = false

abbrev pub is_head : Verb → Bool
is_head head = true
is_head _ = false

abbrev pub is_web_socket : Verb → Bool
is_web_socket web_socket = true
is_web_socket _ = false

abbrev pub max_headers_size : ℕ
max_headers_size = 65536

-- Whether the headers ask for a WebSocket.
unfoldable pub wants_web_socket : HeaderMap → Bool
unfolding has_header get_header has_connection_type case_insensitive_same
wants_web_socket headers =
    has_header (codes "Connection") headers
    && has_header (codes "Upgrade") headers
    && has_connection_type (get_header (codes "Connection") headers) (codes "Upgrade")
    && case_insensitive_same (get_header (codes "Upgrade") headers) (codes "websocket")

abbrev pub begin_response : Connection → Connection
begin_response c = record c {
  state = awaiting_response_begin;
  transfer_encoding = raw;
  chunk = 0;
  has_response = true;
}

module _ (site : Site) where
  abbrev refuse : Bytes → S Bool
  refuse reason =
      on_connection (send_bad_request site.host site.version site.now site.embedded reason)

  abbrev not_found : S Bool
  not_found s = on_connection (send_404 site (uri_of s.request)) s

  -- Its `assert` that there is no response yet is left out.
  unfoldable pub send_response : Page → S Bool
  unfolding send_static_data
  send_response unhandled = send_static_data site
  send_response (response calls) = do
    on_connection (λ c. (tt, begin_response c))
    on_connection calls
    return true
  send_response (throws what) =
      on_connection (send_ise site.host site.version site.now site.embedded what)

  abbrev with_version : Option WebSocketHandler → Bytes → Option ℤ → S Bool
  with_version handler key none = on_connection (
      send_error site.host site.version site.now site.embedded upgrade_required
        (codes "Invalid Sec-WebSocket-Version received"))
  with_version none key (some v) = not_found
  with_version (some h) key (some (pos zero)) = do
    on_connection (set_state site.host reading_websocket_key3)
    return true
  with_version (some h) key (some v) = handle_hybi_handshake site v key

  abbrev upgrade : PageRequest → S Bool
  upgrade r s =
      let handler = site.handler_of r.request_uri in
      with_version handler (get_header (codes "Sec-WebSocket-Key") r.headers)
        (stoi (get_header (codes "Sec-WebSocket-Version") r.headers))
        (record s { web_socket_handler = handler })

  abbrev pub answer_page : PageRequest → Bool → Page → S Bool
  answer_page r true unhandled = upgrade r
  answer_page r _ answer = send_response answer

  unfoldable pub handle_page_request : PageRequest → S Bool
  unfolding send_response handle_hybi_handshake send_404 stoi get_header
  handle_page_request r = answer_page r (is_web_socket r.verb) (site.page r)

  abbrev pub with_content : PageRequest → S Bool
  with_content r =
      if ltb site.host.client_buffer_size r.content_length
      then refuse (codes "Content length too long")
      else if r.content_length == 0
      then handle_page_request r
      else do on_connection (set_state site.host buffering_post_data); return true

  abbrev pub with_embedded : PageRequest → Option Bytes → S Bool
  with_embedded r none = with_content r
  with_embedded r (some content) =
      if is_get r.verb
      then on_connection (send_data site (get_content_type r.request_uri) content)
      else if is_head r.verb
      then on_connection (send_header site (get_content_type r.request_uri) (length content))
      else with_content r

  abbrev page_request : Verb → Parsed → PageRequest
  page_request verb p = record {
    verb = verb;
    request_uri = p.uri;
    headers = p.headers;
    content_length = get_uint_header (codes "Content-Length") p.headers;
    content = [];
  }

  unfoldable pub process_request : Verb → Parsed → S Bool
  unfolding handle_page_request send_data send_header get_content_type get_uint_header
  process_request verb p s =
      let r = page_request verb p in
      with_embedded r (site.embedded p.uri) (record s { request = some r })

  abbrev enable_deflate : Parsed → Connection → Connection
  enable_deflate p c =
      if site.per_message_deflate_enabled && has_header (codes "Sec-WebSocket-Extensions") p.headers
      then parse_per_message_deflate_header
          (get_header (codes "Sec-WebSocket-Extensions") p.headers) c
      else c

  -- The URI of `send404` is that of the request before, since the new one is not there yet.
  abbrev with_handler : Parsed → Option WebSocketHandler → S Bool
  with_handler p none = not_found
  with_handler p (some h) = do
    on_connection (λ c. (tt, enable_deflate p c))
    process_request web_socket p

  unfoldable pub process_web_socket : Parsed → S Bool
  unfolding process_request parse_per_message_deflate_header has_header get_header send_404
  process_web_socket p s =
      if not (is_get p.parsed_verb)
      then refuse (codes "Non-GET WebSocket request") s
      else with_handler p (site.handler_of p.uri)
          (record s { web_socket_handler = site.handler_of p.uri })

  abbrev pub process_parsed : Reading Parsed → S Bool
  process_parsed no_line = λ s. none
  process_parsed (refused (bad_request reason)) = refuse reason
  process_parsed (refused (unsupported reason)) =
      on_connection (send_unsupported_error site.host site.version site.now site.embedded reason)
  process_parsed (read p) =
      if wants_web_socket p.headers then process_web_socket p else process_request p.parsed_verb p

  unfoldable pub process_headers : Bytes → S Bool
  unfolding parse_request wants_web_socket process_web_socket process_request
  process_headers text = process_parsed (parse_request text)

  -- `if (!...) closeInternal()`, with what follows otherwise.
  abbrev pub or_close : S (Unit {0}) → Bool → S (Unit {0})
  or_close more true = more
  or_close more false = on_connection close_internal

  abbrev headers_end : Bytes
  headers_end = crlf ++ crlf

  abbrev pub headers_found : S (Unit {0}) → Option ℕ → S (Unit {0})
  headers_found more none s =
      if ltb max_headers_size (length s.connection.in_buf)
      then (on_connection (
              send_unsupported_error site.host site.version site.now site.embedded
                (codes "Headers too big"))
            >>= λ _. return tt)
          s
      else some (tt, s)
  headers_found more (some n) s =
      (process_headers (take (n + 2) s.connection.in_buf) >>= or_close (erase site (n + 4) >> more))
        s

  -- `more` is the call of `handleNewData` behind a request.
  unfoldable pub handle_headers : S (Unit {0}) → S (Unit {0})
  unfolding process_headers close_internal find_string
  handle_headers more s =
      if ltb (length s.connection.in_buf) 4
      then some (tt, s)
      else headers_found more (find_string headers_end s.connection.in_buf) s

  abbrev store_content : PageRequest → Bytes → S (Unit {0})
  store_content r content s =
      some (tt, record s { request = some (record r { content = content }) })

  abbrev set_in_buf : Bytes → Connection → Connection
  set_in_buf in_buf c = record c { in_buf = in_buf }

  abbrev content_taken : PageRequest → Option Bytes → S (Unit {0})
  content_taken r none = return tt
  content_taken r (some content) = do
    store_content r content
    on_connection (set_state site.host reading_headers)
    done ← handle_page_request (record r { content = content })
    or_close (return tt) done

  abbrev buffering : Option PageRequest → S (Unit {0})
  buffering none s = none
  buffering (some r) s =
      let taken = consume_content r.content_length s.connection.in_buf in
      content_taken r taken.0 (record s { connection = set_in_buf taken.1 s.connection })

  unfoldable pub handle_buffering_post_data : S (Unit {0})
  unfolding handle_page_request consume_content close_internal
  handle_buffering_post_data s = buffering s.request s

  -- What the decoder leaves, if it reads inside its buffer.
  abbrev decoded : Session → Outcome → Option (Unit {0} × Session)
  decoded s (returned c) = some (tt, record s { connection = c })
  decoded s out_of_bounds = none
  decoded s out_of_fuel = none

  abbrev on_data : Option WebSocketHandler → Option Handler
  on_data none = none
  on_data (some h) = some h.on_data

  abbrev hybi : S (Unit {0})
  hybi s = decoded s (
      handle_hybi_web_socket site.host site.deflate site.inflate (on_data s.web_socket_handler)
        s.connection)

  abbrev hixie : S (Unit {0})
  hixie s = decoded s (handle_hixie_web_socket (on_data s.web_socket_handler) s.connection)

  -- The `default` case asserts.
  abbrev pub new_data_in : (S (Unit {0})) → State → S (Unit {0})
  new_data_in more reading_headers = handle_headers more
  new_data_in more reading_websocket_key3 = handle_web_socket_key3 site
  new_data_in more handling_hixie_websocket = hixie
  new_data_in more handling_hybi_websocket = hybi
  new_data_in more buffering_post_data = handle_buffering_post_data
  new_data_in more awaiting_response_begin = return tt
  new_data_in more sending_response_body = return tt
  new_data_in more sending_response_headers = return tt
  new_data_in more invalid_state = λ s. none

  -- Each call behind a request has four bytes less at least, so that the size of the buffer is enough fuel.
  unfoldable pub handle_new_data : ℕ → S (Unit {0})
  unfolding handle_headers handle_web_socket_key3 handle_buffering_post_data handle_hybi_web_socket
      handle_hixie_web_socket
  handle_new_data zero s = new_data_in (λ s. none) s.connection.state s
  handle_new_data (suc fuel) s = new_data_in (handle_new_data fuel) s.connection.state s

  abbrev add_input : Bytes → Session → Session
  add_input input s = record s {
    bytes_received = s.bytes_received + length input;
    connection = set_in_buf (s.connection.in_buf ++ input) s.connection;
  }

  -- Where `::read` fails, the buffer keeps the zero bytes by which it was enlarged.
  abbrev zeros : Bytes
  zeros = replicate 16384 0

  abbrev pub received : Received → S (Unit {0})
  received failed s =
      some (tt, record s { connection = set_in_buf (s.connection.in_buf ++ zeros) s.connection })
  received end_of_stream s =
      on_connection close_internal
        (record s { connection = set_in_buf (s.connection.in_buf ++ zeros) s.connection })
  received (bytes input) s =
      let t = add_input input s in handle_new_data (length t.connection.in_buf) t

  unfoldable pub handle_data_ready_for_read : S (Unit {0})
  unfolding handle_new_data close_internal closed
  handle_data_ready_for_read s =
      if closed s.connection
      then some (tt, s)
      else received (site.recv s.recv_calls) (record s { recv_calls = suc s.recv_calls })
