-- ===== src/Http/Parse/RoundTrip.antt =====
-- A request that is written by RFC 7230 is read back by `processHeaders` of src/main/c/Connection.cpp.
use seasocks.Prelude.{
  ℕ, zero, suc, ◌<◌, ◌≤◌, ◌≡◌, ◌≢◌, refl, ap, ◌∙◌, [], ◌∷◌, ◌++◌, Option, some, length,
  length-append, take, drop, take-append, Bytes, codes, arith, All, All-append,
}
use seasocks.Connection.Responder.{crlf}
use seasocks.Text.Strings.{find_char}
use seasocks.Text.Strings.Split.{Without}
use seasocks.Text.Strings.Find.{find_char-query, drop_behind}
use seasocks.Text.Words.{c_str, shift, skip_whitespace, same_bytes}
use seasocks.Http.Headers.{HeaderMap, emplace}
use seasocks.Http.Request.{Verb, verb, get, put, post, delete, head, options}
use seasocks.Http.Parse.{
  extract_line, Reading, read, Parsed, valid_verb, ◌>>=◌, header_line, header_lines, split_header,
  request_line, parse_request, whole_request,
}
use seasocks.Http.Parse.Words.{
  NoBlank, Word, extract_line-text, c_str-text, skip_whitespace-NoBlank, shift-blank, shift-end,
}

-- A byte of a line: neither NUL nor a carriage return.
abbrev pub IsText : Bytes → Type 0
IsText s = Without 0 s × Without b'\r' s

-- A name and a value, each of a line, the name with no colon and the value not behind blanks.
abbrev pub IsHeader : Bytes × Bytes → Type 0
IsHeader h = IsText h.0 × Without b':' h.0 × IsText h.1 × NoBlank h.1

-- The methods of HTTP that the server knows.
pub data Method : Type 0 where
  get_method put_method post_method delete_method head_method options_method : Method

abbrev pub method_text : Method → Bytes
method_text get_method = codes "GET"
method_text put_method = codes "PUT"
method_text post_method = codes "POST"
method_text delete_method = codes "DELETE"
method_text head_method = codes "HEAD"
method_text options_method = codes "OPTIONS"

abbrev pub verb_of : Method → Verb
verb_of get_method = get
verb_of put_method = put
verb_of post_method = post
verb_of delete_method = delete
verb_of head_method = head
verb_of options_method = options

abbrev pub print_headers : HeaderMap → Bytes
print_headers [] = []
print_headers (h ∷ hs) = (h.0 ++ (b':' ∷ (b' ' ∷ h.1))) ++ (crlf ++ print_headers hs)

abbrev pub print_line : Method → Bytes → Bytes
print_line method uri = method_text method ++ (b' ' ∷ (uri ++ (b' ' ∷ codes "HTTP/1.1")))

-- A request up to its empty line.
abbrev pub print_request : Method → Bytes → HeaderMap → Bytes
print_request method uri hs = print_line method uri ++ (crlf ++ print_headers hs)

-- The headers as the map keeps them: the first of each name.
abbrev pub emplace_all : HeaderMap → HeaderMap → HeaderMap
emplace_all [] m = m
emplace_all (h ∷ hs) m = emplace_all hs (emplace h.0 h.1 m)

shift-method :
    (m : Method) (rest : Bytes)
    → shift (method_text m ++ (b' ' ∷ rest)) ≡ (some (method_text m), rest)
shift-method get_method rest = shift-blank b'G' (codes "ET") rest (refl, (refl, (refl, tt)))
shift-method put_method rest = shift-blank b'P' (codes "UT") rest (refl, (refl, (refl, tt)))
shift-method post_method rest =
    shift-blank b'P' (codes "OST") rest (refl, (refl, (refl, (refl, tt))))
shift-method delete_method rest =
    shift-blank b'D' (codes "ELETE") rest (refl, (refl, (refl, (refl, (refl, (refl, tt))))))
shift-method head_method rest =
    shift-blank b'H' (codes "EAD") rest (refl, (refl, (refl, (refl, tt))))
shift-method options_method rest =
    shift-blank b'O' (codes "PTIONS") rest
      (refl, (refl, (refl, (refl, (refl, (refl, (refl, tt)))))))

verb-method : (m : Method) → valid_verb (verb (method_text m)) ≡ read (verb_of m)
unfolding verb same_bytes
verb-method get_method = refl
verb-method put_method = refl
verb-method post_method = refl
verb-method delete_method = refl
verb-method head_method = refl
verb-method options_method = refl

request_line-print :
    (m : Method) (u : ℕ) (us : Bytes)
    → Word (u ∷ us)
    → request_line (print_line m (u ∷ us)) ≡ read (verb_of m, u ∷ us)
unfolding request_line
request_line-print m u us h = rw (shift-method m ((u ∷ us) ++ (b' ' ∷ codes "HTTP/1.1"))) (
    rw (verb-method m) (
      rw (shift-blank u us (codes "HTTP/1.1") h) (
        rw (
          shift-end b'H' (codes "TTP/1.1")
            (refl, (refl, (refl, (refl, (refl, (refl, (refl, (refl, tt))))))))))))

value_read :
    (value : Bytes) → IsText value → NoBlank value → skip_whitespace (c_str (b' ' ∷ value)) ≡ value
unfolding c_str skip_whitespace
value_read value text no_blank =
    ap skip_whitespace (c_str-text value text.0) ∙ skip_whitespace-NoBlank value no_blank

split_header-print :
    (key value : Bytes)
    → IsHeader (key, value)
    → split_header
        (key ++ (b':' ∷ (b' ' ∷ value)))
        (find_char b':' (key ++ (b':' ∷ (b' ' ∷ value))))
      ≡ read (key, value)
split_header-print key value h =
    let line : Bytes = key ++ (b':' ∷ (b' ' ∷ value)) in
    let name : c_str (take (length key) line) ≡ key =
      ap c_str (take-append key _) ∙ c_str-text key h.0.0 in
    let text : skip_whitespace (c_str (drop (suc (length key)) line)) ≡ value =
      ap (λ t. skip_whitespace (c_str t)) (drop_behind key b':' (b' ' ∷ value))
      ∙ value_read value h.2 h.3 in
    ap (split_header line) (find_char-query b':' key (b' ' ∷ value) h.1)
    ∙ (λ i. read (name i, text i))

header_lines-line :
    (line rest : Bytes) (fuel : ℕ) (m : HeaderMap)
    → header_lines (suc fuel) (line ++ (crlf ++ rest)) m
      ≡ header_line (header_lines fuel) (extract_line (line ++ (crlf ++ rest))) m
unfolding header_lines
header_lines-line [] rest fuel m = refl
header_lines-line (b ∷ line) rest fuel m = refl

Without-header :
    (key value : Bytes) → IsHeader (key, value) → Without b'\r' (key ++ (b':' ∷ (b' ' ∷ value)))
Without-header key value h =
    All-append (λ b. b ≢ b'\r') key (b':' ∷ (b' ' ∷ value)) h.0.1
      ((λ e. absurd (omega arith)), ((λ e. absurd (omega arith)), h.2.1))

header_lines-print :
    (hs : HeaderMap) (m : HeaderMap) (fuel : ℕ)
    → All IsHeader hs
    → length (print_headers hs) ≤ fuel
    → header_lines fuel (print_headers hs) m ≡ read (emplace_all hs m)
unfolding header_lines header_line
header_lines-print [] m zero h enough = refl
header_lines-print [] m (suc fuel) h enough = refl
header_lines-print (h ∷ hs) m zero ok enough =
    absurd (omega (arith, length-append (h.0 ++ (b':' ∷ (b' ' ∷ h.1))) (crlf ++ print_headers hs)))
header_lines-print (h ∷ hs) m (suc fuel) ok enough =
    let line : Bytes = h.0 ++ (b':' ∷ (b' ' ∷ h.1)) in
    header_lines-line line (print_headers hs) fuel m
    ∙ (ap (λ o. header_line (header_lines fuel) o m)
          (extract_line-text line (print_headers hs) (Without-header h.0 h.1 ok.0))
        ∙ (ap (λ r. r >>= λ p. header_lines fuel (print_headers hs) (emplace p.0 p.1 m))
              (split_header-print h.0 h.1 ok.0)
            ∙ header_lines-print hs (emplace h.0 h.1 m) fuel ok.1
                (omega (arith, enough, length-append line (crlf ++ print_headers hs)))))

abbrev Visible : Bytes → Type 0
Visible s = All (λ b. 31 < b) s

Visible-Without : (c : ℕ) (s : Bytes) → c < 32 → Visible s → Without c s
Visible-Without c [] small h = tt
Visible-Without c (b ∷ bs) small h = ((λ e. absurd (omega arith)), Visible-Without c bs small h.1)

method_text-Visible : (m : Method) → Visible (method_text m)
method_text-Visible get_method = omega arith
method_text-Visible put_method = omega arith
method_text-Visible post_method = omega arith
method_text-Visible delete_method = omega arith
method_text-Visible head_method = omega arith
method_text-Visible options_method = omega arith

pub print_line-Without :
    (c : ℕ) (m : Method) (uri : Bytes) → c < 32 → Without c uri → Without c (print_line m uri)
print_line-Without c m uri small h =
    All-append (λ b. b ≢ c) (method_text m) _
      (Visible-Without c (method_text m) small (method_text-Visible m))
      (
        (λ e. absurd (omega arith)),
        All-append (λ b. b ≢ c) uri _ h
            (Visible-Without c (b' ' ∷ codes "HTTP/1.1") small (omega arith)),
      )

-- A carriage return is white space.
pub Word-Without : (s : Bytes) → Word s → Without b'\r' s
Word-Without [] h = tt
Word-Without (b ∷ bs) h = (ground arith, Word-Without bs h.1)

-- A request that is written by RFC 7230 is read back as its verb, its URI and its headers, of which
-- the map keeps the first of each name: the method is one of the six that the server knows, the URI
-- is not empty and has no white space and no NUL, and headers have no NUL and no carriage return,
-- no colon in the name, and no blank in front of the value.
pub parse_request-print :
    (m : Method) (u : ℕ) (us : Bytes) (hs : HeaderMap)
    → Word (u ∷ us)
    → Without 0 (u ∷ us)
    → All IsHeader hs
    → parse_request (print_request m (u ∷ us) hs)
      ≡ read (record { parsed_verb = verb_of m; uri = u ∷ us; headers = emplace_all hs [] })
unfolding parse_request
parse_request-print m u us hs word text ok =
    let line : Bytes = print_line m (u ∷ us) in
    let whole : Option (Bytes × Bytes) → Reading Parsed = λ o.
      whole_request o (λ line. request_line (c_str line))
        (λ rest. header_lines (length rest) rest []) in
    ap whole (
      extract_line-text line (print_headers hs)
        (print_line-Without b'\r' m (u ∷ us) (omega arith) (Word-Without (u ∷ us) word)))
    ∙ (ap
          (λ l. request_line l >>= λ r.
            header_lines (length (print_headers hs)) (print_headers hs) [] >>= λ m.
            read (record { parsed_verb = r.0; uri = r.1; headers = m }))
          (c_str-text line (print_line-Without 0 m (u ∷ us) (omega arith) text))
        ∙ (ap
              (λ l. l >>= λ r.
                header_lines (length (print_headers hs)) (print_headers hs) [] >>= λ m.
                read (record { parsed_verb = r.0; uri = r.1; headers = m }))
              (request_line-print m u us word)
            ∙ ap
                (λ l.
                  l >>= λ hm. read (record { parsed_verb = verb_of m; uri = u ∷ us; headers = hm }))
                (header_lines-print hs [] (length (print_headers hs)) ok (omega arith))))
