-- ===== src/Http/Parse.antt =====
-- src/main/c/Connection.cpp: `extractLine` and how `processHeaders` reads the text of a request. The NUL bytes
-- that the source writes into the text cut the strings that are read, and stand where the text is erased.
pub mod Lines
pub mod Words
pub mod RoundTrip
pub mod End
mod Tests
use seasocks.Prelude.{
  ℕ, zero, suc, ◌+◌, Bool, true, false, not, ◌&&◌, List, [], ◌∷◌, ◌++◌, Option, none, some, length,
  take, drop, ◌==◌, if◌then◌else◌, Bytes, codes,
}
use seasocks.Text.Strings.{find_char}
use seasocks.Text.Words.{c_str, skip_whitespace, shift, same_bytes}
use seasocks.Http.Request.{Verb, invalid, verb}
use seasocks.Http.Headers.{HeaderMap, emplace}

abbrev pub put_first : ℕ → Option (Bytes × Bytes) → Option (Bytes × Bytes)
put_first b none = none
put_first b (some (line, rest)) = some (b ∷ line, rest)

-- The first line, and what is behind its end; `none` is a null pointer.
unfoldable pub extract_line : Bytes → Option (Bytes × Bytes)
extract_line [] = none
extract_line (b ∷ []) = none
extract_line (b ∷ b' ∷ bs) =
    let later = extract_line (b' ∷ bs) in
    if b == b'\r' && b' == b'\n' then some ([], bs) else put_first b later

-- Why a request is refused: `sendBadRequest` or `sendUnsupportedError` with a text.
pub data Refusal : Type 0 where
  bad_request unsupported : Bytes → Refusal

pub data Reading (A : Type 0) : Type 0 where
  read : A → Reading A
  refused : Refusal → Reading A
  no_line : Reading A

infixl 5 ◌>>=◌
abbrev pub ◌>>=◌ : {A B : Type 0} → Reading A → (A → Reading B) → Reading B
read a >>= f = f a
refused r >>= f = refused r
no_line >>= f = no_line

-- The line of a header with its colon, which is cut at the colon.
abbrev pub split_header : Bytes → Option ℕ → Reading (Bytes × Bytes)
split_header line none = refused (bad_request (codes "Malformed header"))
split_header line (some n) = read (c_str (take n line), skip_whitespace (c_str (drop (suc n) line)))

unfoldable pub header_line :
    (Bytes → HeaderMap → Reading HeaderMap) → Option (Bytes × Bytes) → HeaderMap → Reading HeaderMap
unfolding c_str skip_whitespace find_char emplace
header_line more none m = no_line
header_line more (some (line, rest)) m =
    split_header line (find_char b':' line) >>= λ h. more rest (emplace h.0 h.1 m)

-- `while (first < last)`. Each round takes a line, so that the text's length is enough rounds.
unfoldable pub header_lines : ℕ → Bytes → HeaderMap → Reading HeaderMap
unfolding header_line extract_line
header_lines fuel [] m = read m
header_lines zero (b ∷ bs) m = no_line
header_lines (suc fuel) (b ∷ bs) m = header_line (header_lines fuel) (extract_line (b ∷ bs)) m

abbrev pub malformed : {A : Type 0} → Reading A
malformed = refused (bad_request (codes "Malformed request line"))

-- The words of the line, in order, each of which must be there.
abbrev pub next_word : Option Bytes × Bytes → Reading (Bytes × Bytes)
next_word (none, rest) = malformed
next_word (some word, rest) = read (word, rest)

abbrev pub valid_verb : Verb → Reading Verb
valid_verb invalid = malformed
valid_verb v = read v

abbrev pub right_version : Bytes → Bytes → Reading (Unit {0})
right_version version rest =
    if not (same_bytes version (codes "HTTP/1.1"))
    then refused (unsupported (codes "Unsupported HTTP version"))
    else if not (same_bytes rest [])
    then refused (bad_request (codes "Trailing crap after http version"))
    else read tt

unfoldable pub request_line : Bytes → Reading (Verb × Bytes)
unfolding shift verb same_bytes
request_line line = do
  verb_text ← next_word (shift line)
  v ← valid_verb (verb verb_text.0)
  uri ← next_word (shift verb_text.1)
  version ← next_word (shift uri.1)
  _ ← right_version version.0 version.1
  read (v, uri.0)

pub record Parsed : Type 0 where
  pub parsed_verb : Verb
  pub uri : Bytes
  pub headers : HeaderMap

abbrev pub whole_request :
    Option (Bytes × Bytes)
    → (Bytes → Reading (Verb × Bytes))
    → (Bytes → Reading HeaderMap)
    → Reading Parsed
whole_request none line_of headers_of = no_line
whole_request (some (line, rest)) line_of headers_of = do
  r ← line_of line
  m ← headers_of rest
  read (record { parsed_verb = r.0; uri = r.1; headers = m })

-- The lines of a request, which end in front of the empty line.
unfoldable pub parse_request : Bytes → Reading Parsed
unfolding extract_line request_line header_lines c_str
parse_request text =
    whole_request (extract_line text) (λ line. request_line (c_str line))
      (λ rest. header_lines (length rest) rest [])
