-- ===== src/Requests/WebSocket/Tests.antt =====
-- A handshake on one input.
use seasocks.Prelude.{◌≡◌, refl, true, [], ◌∷◌, some, codes}
use seasocks.Prelude.Int.{pos}
use seasocks.Connection.{return}
use seasocks.Text.Strings.{find_char}
use seasocks.Http.Request.{web_socket}
use seasocks.Http.Upgrade.{parse_web_socket_key, has_connection_type}
use seasocks.Requests.{Session, WebSocketHandler}
use seasocks.Requests.Example.{session}

-- The example of the hixie draft.
hixie_key : parse_web_socket_key (codes "18x 6]8vM;54 *(5:  {   U1]8  z [  8") ≡ 155712099
unfolding parse_web_socket_key
hixie_key = refl

two_types : has_connection_type (codes "keep-alive, Upgrade") (codes "upgrade") ≡ true
unfolding has_connection_type find_char
two_types = refl

abbrev handler : WebSocketHandler
handler = record {
  on_data = record { on_text = λ text. return tt; on_binary = λ bytes. return tt };
  on_connect = return tt;
  choose_protocol = λ protocols. pos 1;
}

abbrev asking : Session
asking = record session {
  web_socket_handler = some handler;
  request = some (record {
    verb = web_socket;
    request_uri = codes "/ws";
    headers = (codes "Sec-WebSocket-Protocol", codes "a, b") ∷ [];
    content_length = 0;
    content = [];
  });
}
