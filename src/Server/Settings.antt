-- ===== src/Server/Settings.antt =====
-- src/main/c/Server.cpp: the setters, the handlers of pages and of WebSockets, and `serve`.
use seasocks.Prelude.{
  ℕ, Bool, true, false, List, [], ◌∷◌, ◌++◌, Option, none, some, if◌then◌else◌, Bytes,
}
use seasocks.Text.Strings.{split}
use seasocks.Text.Words.{same_bytes}
use seasocks.Server.{Server, World, WebSocketHandlerEntry}
use seasocks.Server.Sockets.{start_listening}
use seasocks.Server.Loop.{loop}

unfoldable pub set_static_path : Bytes → Server → Server
set_static_path path s = record s { static_path = path }

unfoldable pub set_lame_connection_timeout_seconds : ℕ → Server → Server
set_lame_connection_timeout_seconds seconds s = record s {
  lame_connection_timeout_seconds = seconds;
}

unfoldable pub set_max_keep_alive_drops : ℕ → Server → Server
set_max_keep_alive_drops drops s = record s { max_keep_alive_drops = drops }

unfoldable pub set_client_buffer_size : ℕ → Server → Server
set_client_buffer_size bytes s = record s { client_buffer_size = bytes }

-- `deflate_enabled` says whether the library was compiled with compression.
unfoldable pub set_per_message_deflate_enabled : Bool → Bool → Server → Server
set_per_message_deflate_enabled deflate_enabled enabled s =
    if deflate_enabled then record s { per_message_deflate_enabled = enabled } else s

-- The assignment to an entry of the map.
unfoldable pub assign :
    Bytes
    → WebSocketHandlerEntry
    → List (Bytes × WebSocketHandlerEntry)
    → List (Bytes × WebSocketHandlerEntry)
assign key entry [] = (key, entry) ∷ []
assign key entry ((k, e) ∷ rest) =
    let later = assign key entry rest in
    if same_bytes k key then (k, entry) ∷ rest else (k, e) ∷ later

unfoldable pub find_entry :
    Bytes → List (Bytes × WebSocketHandlerEntry) → Option WebSocketHandlerEntry
find_entry key [] = none
find_entry key ((k, e) ∷ rest) =
    let later = find_entry key rest in if same_bytes k key then some e else later

unfoldable pub add_web_socket_handler : Bytes → ℕ → Bool → Server → Server
unfolding assign
add_web_socket_handler endpoint handler allow_cross_origin s = record s {
  web_socket_handlers =
      assign endpoint (record { handler = handler; allow_cross_origin = allow_cross_origin })
        s.web_socket_handlers;
}

unfoldable pub add_page_handler : ℕ → Server → Server
add_page_handler handler s = record s { page_handlers = s.page_handlers ++ (handler ∷ []) }

-- `splits[0]`; reading it of an empty endpoint, which has no pieces, is undefined.
abbrev pub first_piece : List Bytes → Option Bytes
first_piece [] = none
first_piece (p ∷ ps) = some p

abbrev pub find_piece : Server → Option Bytes → Option WebSocketHandlerEntry
find_piece s none = none
find_piece s (some key) = find_entry key s.web_socket_handlers

abbrev pub allowed : Option WebSocketHandlerEntry → Bool
allowed none = false
allowed (some e) = e.allow_cross_origin

abbrev pub handler_of : Option WebSocketHandlerEntry → Option ℕ
handler_of none = none
handler_of (some e) = some e.handler

unfoldable pub is_cross_origin_allowed : Bytes → Server → Bool
is_cross_origin_allowed endpoint s = allowed (find_piece s (first_piece (split endpoint b'?')))

unfoldable pub get_web_socket_handler : Bytes → Server → Option ℕ
get_web_socket_handler endpoint s = handler_of (find_piece s (first_piece (split endpoint b'?')))

-- The answer of each page handler is an argument; `none` is `Response::unhandled()`.
unfoldable pub handle : (ℕ → Option ℕ) → List ℕ → Option ℕ
handle answer [] = none
handle answer (handler ∷ handlers) = elim (answer handler) [
  | none ↦ handle answer handlers
  | some response ↦ some response
]

-- `none` is a loop that goes on.
abbrev pub serve_loop : Bool × Server → (Server → Option (Bool × Server)) → Option (Bool × Server)
serve_loop (true, s) run = run s
serve_loop (false, s) run = some (false, s)

unfoldable pub serve : World → ℕ → ℕ → Bytes → ℕ → Server → Option (Bool × Server)
unfolding set_static_path start_listening loop
serve world fuel thread path port s =
    serve_loop (start_listening world port (set_static_path path s)) (loop world fuel thread)
