-- ===== src/Uri/RoundTrip.antt =====
-- A URI that a client writes is taken apart by src/main/c/util/CrackedUri.cpp.
use seasocks.Prelude.{
  suc, ◌-◌, ◌≡◌, ◌≢◌, refl, ap, ◌∙◌, List, [], ◌∷◌, ◌++◌, append-nil, map, length, take, drop,
  take-append, Bytes, All, All-append, arith,
}
use seasocks.Text.Strings.{find_char, split}
use seasocks.Text.Strings.Split.{Without, join}
use seasocks.Text.Strings.Find.{find_char-query, find_char-path, drop_behind}
use seasocks.Text.Strings.Join.{split-join, append-ne, join-Without}
use seasocks.Uri.{cracked, ◌>>=◌, unescape_all, crack_params, halves, crack_halves, crack}
use seasocks.Uri.Unescape.{Piece, text, IsPiece}
use seasocks.Uri.Params.{
  Param, bare, pair, texts-Without, bytes_of, param_text, param, IsParam, query_text, uri_text,
  text-ne, no_ampersand, unescape_all-texts, param_text-ne, crack_params-texts,
}

-- In front of a URI's query.
abbrev before : Bytes → Bytes → Bytes
before path query = b'/' ∷ (path ++ query)

no_question :
    (path : List (List Piece))
    → All (All IsPiece) path
    → Without b'?' (b'/' ∷ join b'/' (map text path))
no_question path h = (
  (λ e. absurd (omega arith)),
  join-Without b'?' b'/' (map text path) (λ e. absurd (omega arith))
      (texts-Without b'?' refl (λ e. absurd (omega arith)) (λ e. absurd (omega arith)) (λ b h. h.3)
        path h),
)

no_slash : (path : List (List Piece)) → All (All IsPiece) path → All (Without b'/') (map text path)
no_slash =
    texts-Without b'/' refl (λ e. absurd (omega arith)) (λ e. absurd (omega arith)) (λ b h. h.2)

path_text-ne :
    (s : List Piece) (path : List (List Piece))
    → (s ∷ path) ≢ ([] ∷ [])
    → join b'/' (map text (s ∷ path)) ≢ []
unfolding join
path_text-ne [] [] h = absurd (h refl)
path_text-ne (p ∷ ps) [] h = text-ne p ps
path_text-ne s (t ∷ path) h = append-ne (text s) b'/' (join b'/' (map text (t ∷ path)))

split-path :
    (path : List (List Piece))
    → path ≢ ([] ∷ [])
    → All (All IsPiece) path
    → split (join b'/' (map text path)) b'/' ≡ map text path
unfolding join split
split-path [] h k = refl
split-path (s ∷ path) h k =
    split-join b'/' (text s) (map text path) (no_slash (s ∷ path) k) (path_text-ne s path h)

param_text-Without : (p : Param) → IsParam p → Without b'&' (param_text p)
param_text-Without (bare p ps) h = no_ampersand (p ∷ ps) h
param_text-Without (pair name value) h =
    All-append (λ b. b ≢ b'&') (text name) (b'=' ∷ text value) (no_ampersand name h.0)
      ((λ e. absurd (omega arith)), no_ampersand value h.1)

params-Without : (ps : List Param) → All IsParam ps → All (Without b'&') (map param_text ps)
params-Without [] h = tt
params-Without (p ∷ ps) h = (param_text-Without p h.0, params-Without ps h.1)

query_ne : (p : Param) (ps : List Param) → join b'&' (map param_text (p ∷ ps)) ≢ []
unfolding join
query_ne p [] = param_text-ne p
query_ne p (q ∷ ps) = append-ne (param_text p) b'&' (join b'&' (map param_text (q ∷ ps)))

-- What stands behind the question mark.
abbrev remainder : List Param → Bytes
remainder ps = join b'&' (map param_text ps)

split-remainder : (ps : List Param) → All IsParam ps → split (remainder ps) b'&' ≡ map param_text ps
unfolding join split
split-remainder [] h = refl
split-remainder (p ∷ ps) h =
    split-join b'&' (param_text p) (map param_text ps) (params-Without (p ∷ ps) h) (query_ne p ps)

halves-text :
    (path : Bytes) (ps : List Param)
    → Without b'?' (b'/' ∷ path)
    → halves (before path (query_text ps)) (find_char b'?' (before path (query_text ps)))
      ≡ (path, remainder ps)
unfolding join
halves-text path [] h =
    ap (halves (before path [])) (find_char-path b'?' (b'/' ∷ path) h)
    ∙ ap (λ t. (t, [])) (append-nil path)
halves-text path (p ∷ ps) h =
    let rest : Bytes = remainder (p ∷ ps) in
    let one_less : suc (length path) - 1 ≡ length path = omega arith in
    ap (halves (before path (b'?' ∷ rest))) (find_char-query b'?' (b'/' ∷ path) rest h)
    ∙ ap
        (λ n. (
          take n (path ++ (b'?' ∷ rest)),
          drop (suc (suc (length path))) (before path (b'?' ∷ rest)),
        ))
        one_less
    ∙ (λ i. (take-append path (b'?' ∷ rest) i, drop_behind (b'/' ∷ path) b'?' rest i))

-- A URI of a path and parameters, in which each byte is written as it is, where it has no meaning
-- of its own, as a plus for a space, or as two hexadecimal digits in either case, is taken apart
-- into the segments of the path and the parameters, in order, whatever bytes they are of; a name
-- that stands alone, which is not empty, has the empty value, and the path is not one empty
-- segment.
pub crack-uri_text :
    (path : List (List Piece)) (params : List Param)
    → path ≢ ([] ∷ [])
    → All (All IsPiece) path
    → All IsParam params
    → crack (uri_text path params)
      ≡ cracked (record { path = map bytes_of path; query_params = map param params })
unfolding crack
crack-uri_text path params h k l =
    let uri : Bytes = uri_text path params in
    ap (crack_halves uri) (halves-text (join b'/' (map text path)) params (no_question path k))
    ∙ ap
        (λ ts. unescape_all ts >>= λ path.
          crack_params uri (split (remainder params) b'&') >>= λ params.
          cracked (record { path = path; query_params = params }))
        (split-path path h k)
    ∙ ap
        (λ r. r >>= λ path. crack_params uri (split (remainder params) b'&') >>= λ params.
          cracked (record { path = path; query_params = params }))
        (unescape_all-texts path k)
    ∙ ap (λ r. r >>= λ params. cracked (record { path = map bytes_of path; query_params = params }))
        (ap (crack_params uri) (split-remainder params l) ∙ crack_params-texts uri params l)
