-- ===== src/Http/Upgrade.antt =====
-- src/main/c/Connection.cpp: `parseWebSocketKey` and `hasConnectionType`. src/main/c/HybiAccept.cpp: `getAcceptKey`.
use seasocks.Prelude.{
  ℕ, suc, ◌+◌, ◌-◌, ◌*◌, ◌/◌, ◌%◌, ◌^◌, Bool, true, false, List, [], ◌∷◌, ◌++◌, ltb, ◌==◌,
  if◌then◌else◌, Bytes, codes,
}
use seasocks.Text.Ascii.{is_digit}
use seasocks.Text.Strings.{split}
use seasocks.Text.Words.{skip_whitespace, case_insensitive_same}
use seasocks.Text.Base64.{base64_encode}

-- The digits as one number of 32 bits, and the number of spaces.
unfoldable pub key_parts : Bytes → ℕ → ℕ → ℕ × ℕ
key_parts [] number spaces = (number, spaces)
key_parts (c ∷ cs) number spaces =
    key_parts cs (if is_digit c then (number * 10 + (c - b'0')) % 2 ^ 32 else number)
      (if is_digit c then spaces else if c == b' ' then suc spaces else spaces)

abbrev pub quotient : ℕ × ℕ → ℕ
quotient p = if ltb 0 p.1 then p.0 / p.1 else 0

unfoldable pub parse_web_socket_key : Bytes → ℕ
unfolding key_parts
parse_web_socket_key key = quotient (key_parts key 0 0)

unfoldable pub any_type : List Bytes → Bytes → Bool
unfolding skip_whitespace case_insensitive_same
any_type [] type = false
any_type (t ∷ ts) type =
    let rest = any_type ts type in
    if case_insensitive_same (skip_whitespace t) type then true else rest

unfoldable pub has_connection_type : Bytes → Bytes → Bool
unfolding any_type split
has_connection_type connection type = any_type (split connection b',') type

-- SHA-1 is an argument: its digest as bytes.
unfoldable pub get_accept_key : (Bytes → Bytes) → Bytes → Bytes
get_accept_key sha1 challenge =
    base64_encode (sha1 (challenge ++ codes "258EAFA5-E914-47DA-95CA-C5AB0DC85B11"))

-- `htonl`, as the bytes in memory.
unfoldable pub htonl_bytes : ℕ → Bytes
htonl_bytes n = n / 2 ^ 24 % 256 ∷ n / 2 ^ 16 % 256 ∷ n / 2 ^ 8 % 256 ∷ n % 256 ∷ []

-- What the hixie handshake hashes: both keys and the eight bytes behind the headers.
unfoldable pub md5_source : Bytes → Bytes → Bytes → Bytes
unfolding parse_web_socket_key htonl_bytes
md5_source key1 key2 key3 =
    htonl_bytes (parse_web_socket_key key1) ++ (htonl_bytes (parse_web_socket_key key2) ++ key3)
