-- ===== src/Responses/Exchange.antt =====
-- One request and its answer, through src/main/c/Connection.cpp.
use seasocks.Prelude.{
  ℕ, ◌+◌, ◌≡◌, refl, ap, sym, ◌∙◌, true, false, List, [], ◌∷◌, ◌++◌, append_assoc, Option, none,
  some, length, length-append, take, drop, take-append, drop-append, ltb, ◌==◌, Bytes, All, codes,
  arith,
}
use seasocks.Text.Strings.{find_string}
use seasocks.Text.Strings.Split.{Without}
use seasocks.Response.Code.{is_ok}
use seasocks.Http.Headers.{HeaderMap}
use seasocks.Http.Parse.Words.{Word}
use seasocks.Http.Parse.RoundTrip.{
  IsHeader, Method, get_method, put_method, post_method, delete_method, head_method, options_method,
  verb_of, print_line, print_headers, print_request, emplace_all, parse_request-print,
}
use seasocks.Http.Parse.End.{headers_end, find-print}
use seasocks.Connection.{SendsAtMost, reading_headers, M}
use seasocks.Connection.Appends.{Appends}
use seasocks.Connection.Outputs.{Appends-output}
use seasocks.Connection.Responder.{crlf}
use seasocks.Requests.{Site, Session, S, ◌>>=◌, ◌>>◌, PageRequest, response, get_uint_header}
use seasocks.Requests.Process.{
  is_web_socket, wants_web_socket, begin_response, send_response, handle_page_request,
  process_request, process_parsed, process_headers, headers_found, handle_headers, or_close,
  with_embedded, answer_page,
}
use seasocks.Requests.WebSocket.{erase}
use seasocks.Responses.{SynchronousResponse, synchronous_handle}
use seasocks.Responses.Answers.{writer, answer, synchronous_handle-Does}

-- A request of a client, whose URI is not empty.
pub record Asked : Type 0 where
  pub method : Method
  pub first : ℕ
  pub more : Bytes
  pub headers : HeaderMap

abbrev pub uri : Asked → Bytes
uri q = q.first ∷ q.more

abbrev pub head_text : Asked → Bytes
head_text q = print_request q.method (uri q) q.headers

-- The requests one behind another.
abbrev pub requests_text : List Asked → Bytes
requests_text [] = []
requests_text (q ∷ qs) = head_text q ++ (crlf ++ requests_text qs)

-- What the page handler is given.
abbrev pub request_of : Asked → PageRequest
request_of q = record {
  verb = verb_of q.method;
  request_uri = uri q;
  headers = emplace_all q.headers [];
  content_length = get_uint_header (codes "Content-Length") (emplace_all q.headers []);
  content = [];
}

pub no_web_socket : (m : Method) → is_web_socket (verb_of m) ≡ false
no_web_socket get_method = refl
no_web_socket put_method = refl
no_web_socket post_method = refl
no_web_socket delete_method = refl
no_web_socket head_method = refl
no_web_socket options_method = refl

module _ (site : Site) (most : SendsAtMost site.host) (path now : Bytes)
    (app : PageRequest → SynchronousResponse) where
  abbrev pub calls : PageRequest → M (Unit {0})
  calls r = synchronous_handle (writer site most path) now (app r)

  -- A request without content, for a page and not for a WebSocket, which is answered without error.
  pub record IsAsked (q : Asked) : Type 0 where
    pub word : Word (uri q)
    pub no_nul : Without 0 (uri q)
    pub good_headers : All IsHeader q.headers
    pub no_socket : wants_web_socket (emplace_all q.headers []) ≡ false
    pub no_content : (request_of q).content_length ≡ 0
    pub not_embedded : site.embedded (uri q) ≡ none
    pub paged : site.page (request_of q) ≡ response (calls (request_of q))
    pub good : is_ok (app (request_of q)).response_code ≡ true

  -- Behind the answer.
  abbrev pub answered : Asked → Session → Session
  answered q s = record s {
    request = some (request_of q);
    connection = (calls (request_of q) (begin_response s.connection)).1;
  }

  pub handle_page_request-response :
      (q : Asked) (s : Session)
      → IsAsked q
      → handle_page_request site (request_of q) (record s { request = some (request_of q) })
        ≡ some (true, answered q s)
  unfolding handle_page_request send_response
  handle_page_request-response q s h =
      let t : Session = record s { request = some (request_of q) } in
      (λ i. answer_page site (request_of q) (no_web_socket q.method i) (h.paged i) t)

  pub process_request-response :
      (q : Asked) (s : Session)
      → IsAsked q
      → process_request site
          (verb_of q.method)
          (record {
            parsed_verb = verb_of q.method;
            uri = uri q;
            headers = emplace_all q.headers [];
          })
          s
        ≡ some (true, answered q s)
  unfolding process_request
  process_request-response q s h =
      let t : Session = record s { request = some (request_of q) } in
      let fits : ltb site.host.client_buffer_size (request_of q).content_length ≡ false =
        ground (arith, h.no_content) in
      let nothing : ((request_of q).content_length == 0) ≡ true = ground (arith, h.no_content) in
      ap (λ o. with_embedded site (request_of q) o t) h.not_embedded
      ∙ rw (fits, nothing) (handle_page_request-response q s h)

  pub process_headers-response :
      (q : Asked) (s : Session)
      → IsAsked q
      → process_headers site (head_text q) s ≡ some (true, answered q s)
  unfolding process_headers
  process_headers-response q s h =
      ap (λ p. process_parsed site p s)
        (parse_request-print q.method q.first q.more q.headers h.word h.no_nul h.good_headers)
      ∙ rw h.no_socket (process_request-response q s h)

  -- Behind the request.
  abbrev pub behind : Asked → Session → Session
  behind q s = record (answered q s) {
    connection = record (answered q s).connection {
      in_buf =
          drop (length (print_line q.method (uri q)) + length (print_headers q.headers) + 4)
            (answered q s).connection.in_buf;
    };
  }

  pub handle_headers-response :
      (q : Asked) (rest : Bytes) (s : Session) (next : S (Unit {0}))
      → IsAsked q
      → s.connection.in_buf ≡ head_text q ++ (crlf ++ rest)
      → handle_headers site next s ≡ next (behind q s)
  unfolding handle_headers
  handle_headers-response q rest s next h here =
      let line : Bytes = print_line q.method (uri q) in
      let n : ℕ = length line + length (print_headers q.headers) in
      let size : length (head_text q) ≡ n + 2 =
        omega (arith, length-append line (crlf ++ print_headers q.headers)) in
      let large : ltb (length s.connection.in_buf) 4 ≡ false =
        ground (arith, ap length here, length-append (head_text q) (crlf ++ rest), size) in
      let found : find_string headers_end s.connection.in_buf ≡ some n =
        ap (find_string headers_end) here
        ∙ find-print q.method q.first q.more q.headers rest h.word h.good_headers in
      let head : take (n + 2) s.connection.in_buf ≡ head_text q =
        ap (take (n + 2)) here
        ∙ ap (λ k. take k (head_text q ++ (crlf ++ rest))) (sym size)
        ∙ take-append (head_text q) (crlf ++ rest) in
      rw large (
        ap (λ o. headers_found site next o s) found
        ∙ ap (λ t. (process_headers site t >>= or_close site (erase site (n + 4) >> next)) s) head
        ∙ ap
            (λ o. elim o as (λ _. Option (Unit {0} × Session)) [
              | none ↦ none
              | some (a, t) ↦ or_close site (erase site (n + 4) >> next) a t
            ])
            (process_headers-response q s h))

  -- What one request and its answer leave.
  pub record Next (q : Asked) (rest : Bytes) (s : Session) : Type 0 where
    pub sent :
        Appends site.host.client_buffer_size s.connection
          (answer site most path now (app (request_of q)))
          (behind q s).connection
    pub reads_on : (behind q s).connection.state ≡ reading_headers
    pub left : (behind q s).connection.in_buf ≡ rest

  pub next_lem :
      (q : Asked) (rest : Bytes) (s : Session)
      → IsAsked q
      → s.connection.had_send_error ≡ false
      → s.connection.in_buf ≡ head_text q ++ (crlf ++ rest)
      → Next q rest s
  next_lem q rest s h ok here =
      let line : Bytes = print_line q.method (uri q) in
      let n : ℕ = length line + length (print_headers q.headers) in
      let size : length (head_text q ++ crlf) ≡ n + 4 = omega (
        arith,
        length-append line (crlf ++ print_headers q.headers),
        length-append (head_text q) crlf,
      ) in
      let d =
        synchronous_handle-Does site most path now (app (request_of q))
          (begin_response s.connection) h.good refl ok in
      record {
        sent = Appends-output refl refl d.appends;
        reads_on = ap (λ m. m.state) d.becomes;
        left =
            ap (drop (n + 4))
              (ap (λ m. m.in_buf) d.becomes ∙ here ∙ sym (append_assoc (head_text q) crlf rest))
            ∙ ap (λ k. drop k ((head_text q ++ crlf) ++ rest)) (sym size)
            ∙ drop-append (head_text q ++ crlf) rest;
      }
