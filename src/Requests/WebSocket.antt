-- ===== src/Requests/WebSocket.antt =====
-- src/main/c/Connection.cpp: `parsePerMessageDeflateHeader`, `pickProtocol`, `handleHybiHandshake` and
-- `handleWebSocketKey3`.
pub mod Emits
pub mod Handshake
mod Tests
use seasocks.Prelude.{
  ℕ, Bool, true, false, not, ◌&&◌, List, [], ◌++◌, Option, none, some, length, take, drop, map,
  get_elem?, ltb, ◌==◌, if◌then◌else◌, Bytes, codes,
}
use seasocks.Prelude.Int.{ℤ, pos, negsuc}
use seasocks.Text.Strings.{split}
use seasocks.Text.Words.{trim_whitespace}
use seasocks.Response.Code.{web_socket_protocol_handshake}
use seasocks.Http.Upgrade.{any_type, get_accept_key, md5_source}
use seasocks.Connection.{Connection, handling_hybi_websocket, handling_hixie_websocket}
use seasocks.Connection.Output.{write, flush}
use seasocks.Connection.Responder.{
  buffer_line_, buffer_line_chars_, buffer_response_and_common_headers, set_state,
}
use seasocks.Connection.Errors.{send_bad_request}
use seasocks.Requests.{
  Site, Session, S, ◌>>=◌, ◌>>◌, return, on_connection, WebSocketHandler, request_has,
  request_header, uri_of,
}

-- The extension is switched on by any field of its name.
unfoldable pub parse_per_message_deflate_header : Bytes → Connection → Connection
unfolding any_type split
parse_per_message_deflate_header header c =
    if any_type (split header b';') (codes "permessage-deflate")
    then record c { per_message_deflate = true }
    else c

module _ (site : Site) where
  abbrev pub line : Bytes → S (Unit {0})
  line text = on_connection (buffer_line_ site.host text)

  abbrev pub line_chars : Bytes → S (Unit {0})
  line_chars text = on_connection (buffer_line_chars_ site.host text)

  abbrev pub protocol_line : Option Bytes → S (Unit {0})
  protocol_line none = return tt
  protocol_line (some protocol) = line (codes "Sec-WebSocket-Protocol: " ++ protocol)

  -- The index that the handler chose, if there is such a protocol.
  abbrev pub chosen : ℤ → List Bytes → Option Bytes
  chosen (pos n) protocols = get_elem? protocols n
  chosen (negsuc n) protocols = none

  abbrev pub pick_from : Bool → List Bytes → Option WebSocketHandler → S (Unit {0})
  pick_from false protocols handler = return tt
  pick_from true protocols none = return tt
  pick_from true protocols (some h) = protocol_line (chosen (h.choose_protocol protocols) protocols)

  unfoldable pub pick_protocol : S (Unit {0})
  unfolding split trim_whitespace
  pick_protocol s =
      pick_from (request_has (codes "Sec-WebSocket-Protocol") s.request)
        (map trim_whitespace
          (split (request_header (codes "Sec-WebSocket-Protocol") s.request) b','))
        s.web_socket_handler s

  abbrev pub connect : Option WebSocketHandler → S (Unit {0})
  connect none = return tt
  connect (some h) = on_connection h.on_connect

  abbrev pub on_connect : S (Unit {0})
  on_connect s = connect s.web_socket_handler s

  abbrev pub extensions_line : Bool → S (Unit {0})
  extensions_line false = return tt
  extensions_line true = line_chars (codes "Sec-WebSocket-Extensions: permessage-deflate")

  abbrev pub extensions : S (Unit {0})
  extensions s = extensions_line s.connection.per_message_deflate s

  abbrev pub upgrade_lines : S (Unit {0})
  upgrade_lines = do
    on_connection (
        buffer_response_and_common_headers site.host site.version site.now
          web_socket_protocol_handshake)
    line_chars (codes "Upgrade: websocket")
    line_chars (codes "Connection: Upgrade")

  abbrev pub is_version : ℤ → ℕ → Bool
  is_version (pos n) v = n == v
  is_version (negsuc n) v = false

  -- The lines of the answer.
  abbrev pub handshake_lines : Bytes → S (Unit {0})
  handshake_lines key = do
    upgrade_lines
    line (codes "Sec-WebSocket-Accept: " ++ get_accept_key site.sha1 key)
    extensions
    pick_protocol
    line_chars []

  -- The answer, and what follows it.
  abbrev pub accept_handshake : Bytes → S Bool
  accept_handshake key = do
    handshake_lines key
    _ ← on_connection (flush site.host)
    on_connect
    on_connection (set_state site.host handling_hybi_websocket)
    return true

  unfoldable pub handle_hybi_handshake : ℤ → Bytes → S Bool
  unfolding pick_protocol get_accept_key
  handle_hybi_handshake version key =
      if not (is_version version 8) && not (is_version version 13)
      then on_connection (
          send_bad_request site.host site.version site.now site.embedded
            (codes "Invalid websocket version"))
      else accept_handshake key

  abbrev pub origin_line : Bool → Bytes → S (Unit {0})
  origin_line false origin = return tt
  origin_line true origin = line (codes "Sec-WebSocket-Origin: " ++ origin)

  abbrev pub location_lines : Bool → Bool → Bytes → Bytes → S (Unit {0})
  location_lines false allow host uri = return tt
  location_lines true allow host uri = do
    origin_line (not allow) (codes "http://" ++ host)
    line (codes "Sec-WebSocket-Location: ws://" ++ (host ++ uri))

  abbrev pub hixie_lines : S (Unit {0})
  hixie_lines s =
      let allow = site.cross_origin (uri_of s.request) in
      (do
        origin_line (request_has (codes "Origin") s.request && allow)
            (request_header (codes "Origin") s.request)
        location_lines (request_has (codes "Host") s.request) allow
            (request_header (codes "Host") s.request) (uri_of s.request))
        s

  abbrev pub erase_input : ℕ → Connection → Connection
  erase_input n c = record c { in_buf = drop n c.in_buf }

  abbrev pub erase : ℕ → S (Unit {0})
  erase n s = some (tt, record s { connection = erase_input n s.connection })

  abbrev pub digest : Session → Bytes
  digest s = site.md5 (
      md5_source (request_header (codes "Sec-WebSocket-Key1") s.request)
        (request_header (codes "Sec-WebSocket-Key2") s.request) (take 8 s.connection.in_buf))

  -- The digest has 16 bytes.
  unfoldable pub handle_web_socket_key3 : S (Unit {0})
  unfolding pick_protocol md5_source
  handle_web_socket_key3 s =
      if ltb (length s.connection.in_buf) 8
      then some (tt, s)
      else (do
        upgrade_lines
        hixie_lines
        pick_protocol
        line_chars []
        _ ← on_connection (write site.host (digest s) true)
        on_connection (set_state site.host handling_hixie_websocket)
        erase 8
        on_connect)
          s
