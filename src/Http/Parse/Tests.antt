-- ===== src/Http/Parse/Tests.antt =====
-- Requests on one input.
use seasocks.Prelude.{◌≡◌, refl, [], ◌∷◌, ◌++◌, codes, arith}
use seasocks.Connection.Responder.{crlf}
use seasocks.Text.Words.{word_of, skip_non_whitespace}
use seasocks.Http.Request.{get}
use seasocks.Http.Parse.{parse_request, read, refused, unsupported}
use seasocks.Http.Parse.Lines.{parse_request-HasLines, HasLines}
use seasocks.Http.Parse.RoundTrip.{parse_request-print, print_request, get_method, emplace_all}

parse_get :
    parse_request (codes "GET /a HTTP/1.1" ++ (crlf ++ (codes "Host:  x" ++ crlf)))
    ≡ read
        (record { parsed_verb = get; uri = codes "/a"; headers = (codes "Host", codes "x") ∷ [] })
unfolding parse_request word_of skip_non_whitespace
parse_get = refl

parse_old :
    parse_request (codes "GET /a HTTP/1.0" ++ crlf)
    ≡ refused (unsupported (codes "Unsupported HTTP version"))
unfolding parse_request word_of skip_non_whitespace
parse_old = refl

parse_request-HasLines_example : HasLines (parse_request (codes "GET" ++ crlf))
parse_request-HasLines_example = parse_request-HasLines (codes "GET")

parse_request-print_example :
    parse_request (print_request get_method (codes "/a") ((codes "Host", codes "x") ∷ []))
    ≡ read (record {
      parsed_verb = get;
      uri = codes "/a";
      headers = emplace_all ((codes "Host", codes "x") ∷ []) [];
    })
parse_request-print_example =
    parse_request-print get_method b'/' (codes "a") ((codes "Host", codes "x") ∷ [])
      (refl, (refl, tt)) (omega arith) ((omega arith, omega arith, omega arith, refl), tt)
