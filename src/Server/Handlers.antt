-- ===== src/Server/Handlers.antt =====
-- src/main/c/Server.cpp: which handler `getWebSocketHandler` and `handle` choose.
use seasocks.Prelude.{
  ℕ, Bool, true, List, [], ◌∷◌, ◌++◌, Option, none, some, ◌≡◌, ◌≢◌, refl, ap, sym, ◌∙◌, inl, inr,
  Bool-cases, if◌then◌else◌, arith, take-append, Bytes, append-nil,
}
use seasocks.Text.Strings.{split, split_loop, split_step}
use seasocks.Text.Strings.Split.{Without}
use seasocks.Text.Strings.Find.{find_char-query, find_char-path}
use seasocks.Text.Words.{same_bytes}
use seasocks.Server.{Server, WebSocketHandlerEntry}
use seasocks.Server.Settings.{
  assign, find_entry, add_web_socket_handler, get_web_socket_handler, is_cross_origin_allowed,
  first_piece, find_piece, handler_of, allowed,
}

same_bytes_self : (a : Bytes) → same_bytes a a ≡ true
unfolding same_bytes
same_bytes_self [] = refl
same_bytes_self (x ∷ xs) = ground (arith, same_bytes_self xs)

same_bytes-eq : (a b : Bytes) → same_bytes a b ≡ true → a ≡ b
unfolding same_bytes
same_bytes-eq [] [] e = refl
same_bytes-eq [] (y ∷ ys) e = absurd (cc)
same_bytes-eq (x ∷ xs) [] e = absurd (cc)
same_bytes-eq (x ∷ xs) (y ∷ ys) e = ground (arith, same_bytes-eq xs ys)

find_entry-assign_self :
    (key : Bytes) (entry : WebSocketHandlerEntry) (m : List (Bytes × WebSocketHandlerEntry))
    → find_entry key (assign key entry m) ≡ some entry
unfolding find_entry assign
find_entry-assign_self key entry [] = rw (same_bytes_self key)
find_entry-assign_self key entry ((k, e) ∷ m) = elim (Bool-cases (same_bytes k key)) [
  | inl same ↦ rw same (rw same)
  | inr other ↦ rw other (rw other (find_entry-assign_self key entry m))
]

find_entry-assign_ne :
    (key other : Bytes) (entry : WebSocketHandlerEntry) (m : List (Bytes × WebSocketHandlerEntry))
    → key ≢ other
    → find_entry other (assign key entry m) ≡ find_entry other m
unfolding find_entry assign
find_entry-assign_ne key other entry [] ne = elim (Bool-cases (same_bytes key other)) [
  | inl same ↦ absurd (ne (same_bytes-eq key other same))
  | inr e ↦ rw e
]
find_entry-assign_ne key other entry ((k, e) ∷ m) ne = elim (Bool-cases (same_bytes k key)) [
  | inl same ↦ elim (Bool-cases (same_bytes k other)) [
    | inl both ↦ absurd (ne (sym (same_bytes-eq k key same) ∙ same_bytes-eq k other both))
    | inr apart ↦ rw same (rw apart)
  ]
  | inr apart ↦ rw apart (
      ap (λ l. if same_bytes k other then some e else l)
        (find_entry-assign_ne key other entry m ne))
]

-- What a URL may have behind the endpoint.
pub data Suffix : Type 0 where
  nothing : Suffix
  query : Bytes → Suffix

abbrev pub text_of : Suffix → Bytes
text_of nothing = []
text_of (query q) = b'?' ∷ q

first_piece-split :
    (b : ℕ) (path : Bytes) (suffix : Suffix)
    → Without b'?' (b ∷ path)
    → first_piece (split ((b ∷ path) ++ text_of suffix) b'?') ≡ some (b ∷ path)
unfolding split split_loop split_step
first_piece-split b path nothing h =
    rw (find_char-path b'?' (b ∷ path) h) (ap some (append-nil (b ∷ path)))
first_piece-split b path (query q) h =
    rw (find_char-query b'?' (b ∷ path) q h) (ap (λ l. some (b ∷ l)) (take-append path (b'?' ∷ q)))

-- After a WebSocket handler is added for an endpoint that is not empty and has no question mark,
-- the endpoint, alone or with a query behind it, gets this handler and its permission for other
-- origins; every URL with another text before the question mark gets the handler that it had.
pub get_web_socket_handler-add :
    (b handler : ℕ) (path : Bytes) (cross_origin : Bool) (suffix : Suffix) (s : Server)
    → Without b'?' (b ∷ path)
    → (get_web_socket_handler
          ((b ∷ path) ++ text_of suffix)
          (add_web_socket_handler (b ∷ path) handler cross_origin s)
        ≡ some handler)
      × (is_cross_origin_allowed
            ((b ∷ path) ++ text_of suffix)
            (add_web_socket_handler (b ∷ path) handler cross_origin s)
          ≡ cross_origin)
      × ((other : Bytes)
          → first_piece (split other b'?') ≢ some (b ∷ path)
          → get_web_socket_handler other (add_web_socket_handler (b ∷ path) handler cross_origin s)
            ≡ get_web_socket_handler other s)
unfolding get_web_socket_handler is_cross_origin_allowed add_web_socket_handler
get_web_socket_handler-add b handler path cross_origin suffix s h =
    let entry : WebSocketHandlerEntry = record {
      handler = handler;
      allow_cross_origin = cross_origin;
    } in
    let added : find_piece (add_web_socket_handler (b ∷ path) handler cross_origin s)
          (first_piece (split ((b ∷ path) ++ text_of suffix) b'?'))
        ≡ some entry =
      ap (find_piece (add_web_socket_handler (b ∷ path) handler cross_origin s))
        (first_piece-split b path suffix h)
      ∙ find_entry-assign_self (b ∷ path) entry s.web_socket_handlers in
    (
      ap handler_of added,
      ap allowed added,
      λ other ne. ap handler_of (kept (first_piece (split other b'?')) ne),
    )
  where
    kept :
        (o : Option Bytes)
        → o ≢ some (b ∷ path)
        → find_piece (add_web_socket_handler (b ∷ path) handler cross_origin s) o ≡ find_piece s o
    kept none ne = refl
    kept (some key) ne =
        find_entry-assign_ne (b ∷ path) key _ s.web_socket_handlers (λ e. ne (ap some (sym e)))
