-- ===== src/Uri/Tests.antt =====
-- URIs of src/test/c/CrackedUriTests.cpp.
use seasocks.Prelude.{◌≡◌, refl, true, false, List, [], ◌∷◌, codes, arith}
use seasocks.Text.Strings.{find_char, split, replace, find_string, starts_with}
use seasocks.Text.Strings.Split.{join}
use seasocks.Text.Words.{same_bytes}
use seasocks.Connection.{return}
use seasocks.Http.Request.{get}
use seasocks.Requests.{PageRequest, response}
use seasocks.Uri.Unescape.{Piece, plain, plus, coded, hex_digit}
use seasocks.Uri.Params.{Param, bare, pair}
use seasocks.Uri.RoundTrip.{crack-uri_text}
use seasocks.Uri.Handlers.{root_handle}
use seasocks.Uri.Table.{Routes, page, below, end, route, handlers, pages, find_page}
use seasocks.Uri.Routes.{root_handle-answer}
use seasocks.Uri.{cracked, malformed, unescape, unescape_all, crack}

unescaped : unescape (codes "foo+bar%2f%4F") ≡ cracked (codes "foo bar/O")
unfolding unescape split replace find_char find_string starts_with
unescaped = refl

truncated : unescape (codes "%41%") ≡ malformed (codes "Truncated uri: 'A%'")
unfolding unescape split replace find_char find_string starts_with
truncated = refl

bad_digit : unescape (codes "%4") ≡ malformed (codes "Bad digit in uri: '%4'")
unfolding unescape split replace find_char find_string starts_with
bad_digit = refl

root :
    crack (codes "/?a=spotch&b")
    ≡ cracked
        (record { path = []; query_params = (codes "a", codes "spotch") ∷ ((codes "b", []) ∷ []) })
unfolding crack unescape split replace find_char find_string starts_with
root = refl

rubbish :
    crack (codes "/?a===b") ≡ malformed (codes "Malformed URI, two many = in query: '/?a===b'")
unfolding crack unescape split replace find_char find_string starts_with
rubbish = refl

abbrev segments : List (List Piece)
segments = (plain b'a' ∷ (plus ∷ [])) ∷ ((coded b'/' true false ∷ []) ∷ [])

abbrev parameters : List Param
parameters = pair (plain b'q' ∷ []) (coded b'%' false false ∷ []) ∷ (bare (plain b'b') [] ∷ [])

crack-uri_text_example :
    crack (codes "/a+/%2f?q=%25&b")
    ≡ cracked (record {
      path = codes "a " ∷ (codes "/" ∷ []);
      query_params = (codes "q", codes "%") ∷ ((codes "b", []) ∷ []);
    })
unfolding join hex_digit
crack-uri_text_example = crack-uri_text segments parameters (λ e. cc) (omega arith) (omega arith)

abbrev routes : Routes
routes = route (below (codes "debug") (route (page (codes "stats") (return tt)) end)) end

abbrev request : PageRequest
request = record {
  verb = get;
  request_uri = codes "/debug/stats";
  headers = [];
  content_length = 0;
  content = [];
}

root_handle-answer_example : root_handle (handlers routes) request ≡ response (return tt)
unfolding crack unescape_all unescape split replace find_char find_string starts_with find_page
    same_bytes handlers pages
root_handle-answer_example = root_handle-answer routes request
