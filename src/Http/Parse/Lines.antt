-- ===== src/Http/Parse/Lines.antt =====
-- `extractLine` of src/main/c/Connection.cpp finds a line in every text that ends with a line's end, so that the
-- assertions of `processHeaders` hold.
use seasocks.Prelude.{
  ℕ, zero, suc, ◌<◌, ◌≤◌, ◌≡◌, ◌≢◌, ◌⊎◌, refl, sym, subst, inl, inr, Bool-cases, ◌&&◌, ◌==◌, [],
  ◌∷◌, ◌++◌, Option, none, some, length, Bytes, codes, arith,
}
use seasocks.Connection.Responder.{crlf}
use seasocks.Text.Strings.{find_char}
use seasocks.Text.Words.{c_str, shift, same_bytes}
use seasocks.Http.Headers.{HeaderMap}
use seasocks.Http.Request.{Verb, verb, invalid, web_socket, get, put, post, delete, head, options}
use seasocks.Http.Parse.{
  extract_line, put_first, Reading, read, refused, no_line, next_word, valid_verb, right_version,
  ◌>>=◌, header_line, header_lines, split_header, request_line, parse_request, whole_request,
}

-- A text that is empty or ends with a line's end.
abbrev pub Ended : Bytes → Type 0
Ended rest = (rest ≡ []) ⊎ ((front : Bytes) × (rest ≡ front ++ crlf))

abbrev HasLine : ℕ → Option (Bytes × Bytes) → Type 0
HasLine n none = ⊥
HasLine n (some (line, rest)) = Ended rest × (length rest < n)

put_first-HasLine :
    (b n : ℕ) (o : Option (Bytes × Bytes)) → HasLine n o → HasLine (suc n) (put_first b o)
put_first-HasLine b n none h = h
put_first-HasLine b n (some (line, rest)) h = (h.0, omega (arith, h.1))

extract_line-HasLine :
    (front : Bytes) → HasLine (length (front ++ crlf)) (extract_line (front ++ crlf))
unfolding extract_line
extract_line-HasLine [] = (inl refl, omega arith)
extract_line-HasLine (b ∷ []) = elim (Bool-cases (b == b'\r')) [
  | inl cr ↦ rw cr (inl refl, omega arith)
  | inr other ↦ rw other (inl refl, omega arith)
]
extract_line-HasLine (b ∷ b' ∷ front) = elim (Bool-cases (b == b'\r' && b' == b'\n')) [
  | inl end ↦ rw end (inr (front, refl), omega arith)
  | inr other ↦ rw other (put_first-HasLine b _ _ (extract_line-HasLine (b' ∷ front)))
]

-- A reading that has not met the end of the text.
abbrev pub HasLines : {A : Type 0} → Reading A → Type 0
HasLines r = r ≢ no_line

>>=-HasLines :
    {A B : Type 0} (r : Reading A) (f : A → Reading B)
    → HasLines r
    → ((a : A) → HasLines (f a))
    → HasLines (r >>= f)
>>=-HasLines (read a) f h k = k a
>>=-HasLines (refused r) f h k = λ e. cc
>>=-HasLines no_line f h k = absurd (h refl)

split_header-HasLines : (line : Bytes) (o : Option ℕ) → HasLines (split_header line o)
split_header-HasLines line none = λ e. cc
split_header-HasLines line (some n) = λ e. cc

header_line-HasLines :
    (more : Bytes → HeaderMap → Reading HeaderMap) (n : ℕ) (o : Option (Bytes × Bytes))
    (m : HeaderMap)
    → HasLine n o
    → ((rest : Bytes) (m : HeaderMap) → Ended rest → length rest < n → HasLines (more rest m))
    → HasLines (header_line more o m)
unfolding header_line
header_line-HasLines more n none m h k = absurd h
header_line-HasLines more n (some (line, rest)) m h k =
    >>=-HasLines (split_header line (find_char b':' line)) _
      (split_header-HasLines line (find_char b':' line)) (λ p. k rest _ h.0 h.1)

header_lines-HasLines :
    (fuel : ℕ) (text : Bytes) (m : HeaderMap)
    → Ended text
    → length text ≤ fuel
    → HasLines (header_lines fuel text m)
unfolding header_lines
header_lines-HasLines fuel [] m e enough = λ e. cc
header_lines-HasLines zero (b ∷ bs) m e enough = absurd (omega arith)
header_lines-HasLines (suc fuel) (b ∷ bs) m (inl none_left) enough = absurd (cc)
header_lines-HasLines (suc fuel) (b ∷ bs) m (inr (front, e)) enough =
    let has : HasLine (length (b ∷ bs)) (extract_line (b ∷ bs)) =
      subst (λ t. HasLine (length t) (extract_line t)) (sym e) (extract_line-HasLine front) in
    header_line-HasLines (header_lines fuel) (length (b ∷ bs)) (extract_line (b ∷ bs)) m has
      (λ rest m' ended shorter. header_lines-HasLines fuel rest m' ended (omega arith))

next_word-HasLines : (r : Option Bytes × Bytes) → HasLines (next_word r)
next_word-HasLines (none, rest) = λ e. cc
next_word-HasLines (some word, rest) = λ e. cc

valid_verb-HasLines : (v : Verb) → HasLines (valid_verb v)
valid_verb-HasLines invalid = λ e. cc
valid_verb-HasLines web_socket = λ e. cc
valid_verb-HasLines get = λ e. cc
valid_verb-HasLines put = λ e. cc
valid_verb-HasLines post = λ e. cc
valid_verb-HasLines delete = λ e. cc
valid_verb-HasLines head = λ e. cc
valid_verb-HasLines options = λ e. cc

right_version-HasLines : (version rest : Bytes) → HasLines (right_version version rest)
right_version-HasLines version rest = elim (Bool-cases (same_bytes version (codes "HTTP/1.1"))) [
  | inl same ↦ elim (Bool-cases (same_bytes rest [])) [
    | inl e ↦ rw same (rw e (λ e. cc))
    | inr e ↦ rw same (rw e (λ e. cc))
  ]
  | inr other ↦ rw other (λ e. cc)
]

request_line-HasLines : (line : Bytes) → HasLines (request_line line)
unfolding request_line
request_line-HasLines line =
    >>=-HasLines (next_word (shift line)) _ (next_word-HasLines (shift line)) (λ verb_text.
      >>=-HasLines (valid_verb (verb verb_text.0)) _ (valid_verb-HasLines (verb verb_text.0)) (λ v.
        >>=-HasLines (next_word (shift verb_text.1)) _ (next_word-HasLines (shift verb_text.1))
          (λ uri.
            >>=-HasLines (next_word (shift uri.1)) _ (next_word-HasLines (shift uri.1)) (λ version.
              >>=-HasLines (right_version version.0 version.1) _
                (right_version-HasLines version.0 version.1) (λ _ e. cc)))))

-- On every text that ends with a line's end, as handleHeaders passes it on, extractLine finds a
-- line whenever processHeaders asks for one: its assertions hold, and a null pointer is never read.
pub parse_request-HasLines : (front : Bytes) → HasLines (parse_request (front ++ crlf))
unfolding parse_request
parse_request-HasLines front = whole (extract_line (front ++ crlf)) (extract_line-HasLine front)
  where
    whole :
        (o : Option (Bytes × Bytes))
        → HasLine (length (front ++ crlf)) o
        → HasLines (
            whole_request o
              (λ line. request_line (c_str line))
              (λ rest. header_lines (length rest) rest []))
    whole none h = absurd h
    whole (some (line, rest)) h =
        >>=-HasLines (request_line (c_str line)) _ (request_line-HasLines (c_str line)) (λ r.
          >>=-HasLines (header_lines (length rest) rest []) _
            (header_lines-HasLines (length rest) rest [] h.0 (omega arith)) (λ m e. cc))
