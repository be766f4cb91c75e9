-- ===== src/Uri/Handlers.antt =====
-- src/main/c/util/PathHandler.cpp, src/main/c/util/RootPageHandler.cpp and
-- src/main/c/seasocks/util/StaticResponseHandler.h: page handlers by the path of a URI.
use seasocks.Prelude.{Bool, false, List, [], ◌∷◌, ◌++◌, if◌then◌else◌, Bytes}
use seasocks.Text.Words.{same_bytes}
use seasocks.Connection.{M}
use seasocks.Requests.{PageRequest, Page, unhandled, response, throws}
use seasocks.Uri.{CrackedUri, Cracking, cracked, malformed, crack, shift}

-- CrackedUriPageHandler.h. `Response::unhandled()` is a null pointer.
abbrev pub CrackedUriPageHandler : Type 0
CrackedUriPageHandler = CrackedUri → PageRequest → Page

abbrev pub or_else : Page → Page → Page
or_else unhandled next = next
or_else page next = page

-- The loop over the handlers.
unfoldable pub first_handled : List CrackedUriPageHandler → CrackedUriPageHandler
first_handled [] uri request = unhandled
first_handled (h ∷ hs) uri request = or_else (h uri request) (first_handled hs uri request)

abbrev begins_with : Bytes → List Bytes → Bool
begins_with path [] = false
begins_with path (p ∷ ps) = same_bytes p path

-- `PathHandler::handle`.
unfoldable pub path_handle : Bytes → List CrackedUriPageHandler → CrackedUriPageHandler
unfolding first_handled shift
path_handle path handlers uri request =
    if begins_with path uri.path then first_handled handlers (shift uri) request else unhandled

abbrev is_only : Bytes → List Bytes → Bool
is_only path (p ∷ []) = same_bytes p path
is_only path _ = false

-- `StaticResponseHandler::handle`.
unfoldable pub static_handle : Bytes → M (Unit {0}) → CrackedUriPageHandler
static_handle path canned uri request = if is_only path uri.path then response canned else unhandled

abbrev pub root_of : List CrackedUriPageHandler → PageRequest → Cracking CrackedUri → Page
root_of handlers request (malformed what) = throws what
root_of handlers request (cracked uri) = first_handled handlers uri request

-- `RootPageHandler::handle`.
unfoldable pub root_handle : List CrackedUriPageHandler → PageRequest → Page
unfolding first_handled
root_handle handlers request = root_of handlers request (crack request.request_uri)

-- `add` of both handlers, and `addMany`.
unfoldable pub add : List CrackedUriPageHandler → CrackedUriPageHandler → List CrackedUriPageHandler
add handlers handler = handlers ++ (handler ∷ [])

unfoldable pub add_many :
    List CrackedUriPageHandler → List CrackedUriPageHandler → List CrackedUriPageHandler
unfolding add
add_many handlers [] = handlers
add_many handlers (h ∷ hs) = add_many (add handlers h) hs
