-- ===== src/Requests/WebSocket/Handshake.antt =====
-- What `handleHybiHandshake` of src/main/c/Connection.cpp sends and leaves.
use seasocks.Prelude.{
  ◌≡◌, Bool, true, false, List, [], ◌∷◌, ◌++◌, Option, none, some, map, Bytes, codes,
}
use seasocks.Text.Strings.{split}
use seasocks.Text.Words.{trim_whitespace}
use seasocks.Http.Upgrade.{get_accept_key}
use seasocks.Connection.{Connection, SendsAtMost, handling_hybi_websocket}
use seasocks.Connection.Mode.{mode}
use seasocks.Connection.Appends.{Appends}
use seasocks.Connection.Responder.{crlf, set_state}
use seasocks.Connection.Errors.Document.{lines}
use seasocks.Requests.{Site, Session, WebSocketHandler, request_has, request_header}
use seasocks.Requests.WebSocket.{chosen}
use seasocks.Requests.WebSocket.Emits.{Emits, common_lines}

module _ (site : Site) (most : SendsAtMost site.host) where
  -- The line of the extension, and that of the protocol, if there is one.
  abbrev pub extension_lines : Bool → List Bytes
  extension_lines true = codes "Sec-WebSocket-Extensions: permessage-deflate" ∷ []
  extension_lines false = []

  abbrev pub protocol_lines : Option Bytes → List Bytes
  protocol_lines none = []
  protocol_lines (some protocol) = (codes "Sec-WebSocket-Protocol: " ++ protocol) ∷ []

  -- The protocol of a handler for the request's protocols, if it asks for some.
  abbrev pub picked : Bool → List Bytes → WebSocketHandler → Option Bytes
  picked false protocols h = none
  picked true protocols h = chosen site (h.choose_protocol protocols) protocols

  -- The answer to a handshake, with the extension or not, and a protocol or none.
  abbrev pub handshake : Bytes → Bool → Option Bytes → Bytes
  handshake key extension protocol =
      (lines (common_lines site most)
        ++ lines (codes "Upgrade: websocket" ∷ codes "Connection: Upgrade" ∷ []))
      ++ (lines ((codes "Sec-WebSocket-Accept: " ++ get_accept_key site.sha1 key) ∷ [])
          ++ (lines (extension_lines extension) ++ (lines (protocol_lines protocol) ++ crlf)))

  abbrev wanted : Session → Bool
  wanted s = request_has (codes "Sec-WebSocket-Protocol") s.request

  abbrev offered : Session → List Bytes
  offered s =
      map trim_whitespace (split (request_header (codes "Sec-WebSocket-Protocol") s.request) b',')

  module _ (key : Bytes) (s : Session) (h : WebSocketHandler)
      (has_handler : s.web_socket_handler ≡ some h) where
    -- What the handshake answers and leaves.
    pub record Handshaken (o : Option (Bool × Session)) : Type 0 where
      pub answered : Connection
      pub connected :
          o
          ≡ some (
            true,
            record s {
              connection =
                  (set_state site.host handling_hybi_websocket (h.on_connect answered).1).1;
            },
          )
      pub appended :
          Appends site.host.client_buffer_size s.connection
            (handshake key s.connection.per_message_deflate (picked (wanted s) (offered s) h))
            answered
      pub unchanged : mode answered ≡ mode s.connection
