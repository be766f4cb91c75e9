-- ===== src/Http/Parse/End.antt =====
-- Where `handleHeaders` of src/main/c/Connection.cpp finds the end of a request that is written by RFC 7230.
use seasocks.Prelude.{
  ℕ, suc, ◌+◌, ◌≡◌, ◌≢◌, refl, ap, ◌∙◌, false, [], ◌∷◌, ◌++◌, append_assoc, Option, none, some,
  ◌>>=◌, length, length-append, ◌==◌, Bytes, All, All-append, arith,
}
use seasocks.Connection.Responder.{crlf}
use seasocks.Text.Strings.{find_string, starts_with}
use seasocks.Text.Strings.Split.{Without}
use seasocks.Http.Headers.{HeaderMap}
use seasocks.Http.Parse.Words.{Word}
use seasocks.Http.Parse.RoundTrip.{
  IsHeader, Method, print_line, print_headers, print_request, print_line-Without, Word-Without,
}

abbrev pub headers_end : Bytes
headers_end = crlf ++ crlf

abbrev later : ℕ → Option ℕ → Option ℕ
later k none = none
later k (some n) = some (k + n)

later-suc : (k : ℕ) (o : Option ℕ) → (later k o >>= λ n. some (suc n)) ≡ later (suc k) o
later-suc k none = refl
later-suc k (some n) = ap some (omega arith)

later-zero : (o : Option ℕ) → o ≡ later 0 o
later-zero none = refl
later-zero (some n) = ap some (omega arith)

-- Not in a line.
find-line :
    (line more : Bytes)
    → Without b'\r' line
    → find_string headers_end (line ++ more) ≡ later (length line) (find_string headers_end more)
unfolding find_string starts_with
find-line [] more h = later-zero (find_string headers_end more)
find-line (b ∷ line) more h =
    let other : (b == b'\r') ≡ false = ground (arith, h.0) in
    rw other (
      ap (λ o. o >>= λ n. some (suc n)) (find-line line more h.1)
      ∙ later-suc (length line) (find_string headers_end more))

-- Nor at the end of a line before another.
find-crlf :
    (c : ℕ) (more : Bytes)
    → c ≢ b'\r'
    → find_string headers_end (crlf ++ (c ∷ more)) ≡ later 2 (find_string headers_end (c ∷ more))
unfolding find_string starts_with
find-crlf c more h =
    let other : (c == b'\r') ≡ false = ground (arith, h) in
    rw other (later-two (find_string headers_end more))
  where
    later-two :
        (o : Option ℕ)
        → ((o >>= λ n. some (suc n)) >>= λ n. some (suc n)) >>= (λ n. some (suc n))
          ≡ later 2 (o >>= λ n. some (suc n))
    later-two none = refl
    later-two (some n) = ap some (omega arith)

find-first :
    (line more : Bytes)
    → Without b'\r' line
    → line ≢ []
    → find_string headers_end (crlf ++ (line ++ more))
      ≡ later 2 (find_string headers_end (line ++ more))
find-first [] more h ne = absurd (ne refl)
find-first (b ∷ line) more h ne = find-crlf b (line ++ more) h.0

header_text-Without :
    (h : Bytes × Bytes) → IsHeader h → Without b'\r' (h.0 ++ (b':' ∷ (b' ' ∷ h.1)))
header_text-Without h ok =
    All-append (λ b. b ≢ b'\r') h.0 (b':' ∷ (b' ' ∷ h.1)) ok.0.1
      ((λ e. absurd (omega arith)), ((λ e. absurd (omega arith)), ok.2.1))

header_text-ne : (name value : Bytes) → (name ++ (b':' ∷ (b' ' ∷ value))) ≢ []
header_text-ne [] value = λ e. cc
header_text-ne (b ∷ name) value = λ e. cc

find-headers :
    (hs : HeaderMap) (rest : Bytes)
    → All IsHeader hs
    → find_string headers_end (crlf ++ (print_headers hs ++ (crlf ++ rest)))
      ≡ some (length (print_headers hs))
unfolding find_string starts_with
find-headers [] [] h = refl
find-headers [] (r ∷ rest) h = refl
find-headers (h ∷ hs) rest ok =
    let line : Bytes = h.0 ++ (b':' ∷ (b' ' ∷ h.1)) in
    let more : Bytes = crlf ++ (print_headers hs ++ (crlf ++ rest)) in
    let clean = header_text-Without h ok.0 in
    ap (λ t. find_string headers_end (crlf ++ t))
      (append_assoc line (crlf ++ print_headers hs) (crlf ++ rest))
    ∙ find-first line more clean (header_text-ne h.0 h.1)
    ∙ ap (later 2)
        (find-line line more clean ∙ ap (later (length line)) (find-headers hs rest ok.1))
    ∙ ap some (omega (arith, length-append line (crlf ++ print_headers hs)))

-- The empty line of a request is the first behind another line's end.
pub find-print :
    (m : Method) (u : ℕ) (us : Bytes) (hs : HeaderMap) (rest : Bytes)
    → Word (u ∷ us)
    → All IsHeader hs
    → find_string headers_end (print_request m (u ∷ us) hs ++ (crlf ++ rest))
      ≡ some (length (print_line m (u ∷ us)) + length (print_headers hs))
find-print m u us hs rest word ok =
    let line : Bytes = print_line m (u ∷ us) in
    ap (find_string headers_end) (append_assoc line (crlf ++ print_headers hs) (crlf ++ rest))
    ∙ find-line line (crlf ++ (print_headers hs ++ (crlf ++ rest)))
        (print_line-Without b'\r' m (u ∷ us) (omega arith) (Word-Without (u ∷ us) word))
    ∙ ap (later (length line)) (find-headers hs rest ok)
