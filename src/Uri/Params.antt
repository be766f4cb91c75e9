-- ===== src/Uri/Params.antt =====
-- The parameters of a URI that a client writes, for src/main/c/util/CrackedUri.cpp.
use seasocks.Prelude.{
  ℕ, ◌/◌, ◌%◌, ◌<◌, ◌≡◌, ◌≢◌, refl, ap, sym, ◌∙◌, Bool, true, false, List, [], ◌∷◌, ◌++◌, map,
  Bytes, All, All-append, arith,
}
use seasocks.Text.Ascii.{is_xdigit}
use seasocks.Text.Strings.{split}
use seasocks.Text.Strings.Split.{Without, join}
use seasocks.Text.Strings.Join.{split-join, append-ne}
use seasocks.Uri.{Cracking, cracked, ◌>>=◌, unescape_all, param_of, crack_params}
use seasocks.Uri.Unescape.{
  Piece, plain, plus, coded, hex_digit, hex_digit-xdigit, piece_text, piece_byte, text, IsPlain,
  IsPiece, unescape-text,
}

abbrev pub bytes_of : List Piece → Bytes
bytes_of ps = map piece_byte ps

-- A parameter: a name that is not empty, or a name and a value.
pub data Param : Type 0 where
  bare : Piece → List Piece → Param
  pair : List Piece → List Piece → Param

abbrev pub param_text : Param → Bytes
param_text (bare p ps) = text (p ∷ ps)
param_text (pair name value) = text name ++ (b'=' ∷ text value)

abbrev pub param : Param → Bytes × Bytes
param (bare p ps) = (bytes_of (p ∷ ps), [])
param (pair name value) = (bytes_of name, bytes_of value)

abbrev pub IsParam : Param → Type 0
IsParam (bare p ps) = All IsPiece (p ∷ ps)
IsParam (pair name value) = All IsPiece name × All IsPiece value

abbrev pub query_text : List Param → Bytes
query_text [] = []
query_text (p ∷ ps) = b'?' ∷ join b'&' (map param_text (p ∷ ps))

abbrev pub uri_text : List (List Piece) → List Param → Bytes
uri_text path params = b'/' ∷ (join b'/' (map text path) ++ query_text params)

-- A separator is written by no piece.
pub hex_digit-ne :
    (c : ℕ) (upper : Bool) (d : ℕ) → is_xdigit c ≡ false → d < 16 → hex_digit upper d ≢ c
hex_digit-ne c upper d h small e =
    let yes_digit : is_xdigit c ≡ true = ap is_xdigit (sym e) ∙ hex_digit-xdigit upper d small in
    absurd (ground (arith, yes_digit, h))

module _ (c : ℕ) (no_digit : is_xdigit c ≡ false) (no_percent : b'%' ≢ c) (no_plus : b'+' ≢ c)
    (separates : (b : ℕ) → IsPlain b → b ≢ c) where
  pub piece-Without : (p : Piece) → IsPiece p → Without c (piece_text p)
  piece-Without (plain b) h = (separates b h, tt)
  piece-Without plus h = (no_plus, tt)
  piece-Without (coded b high low) h = (
    no_percent,
    (
      hex_digit-ne c high (b / 16) no_digit (omega arith),
      (hex_digit-ne c low (b % 16) no_digit (omega arith), tt),
    ),
  )

  pub text-Without : (ps : List Piece) → All IsPiece ps → Without c (text ps)
  text-Without [] h = tt
  text-Without (p ∷ ps) h =
      All-append (λ b. b ≢ c) (piece_text p) (text ps) (piece-Without p h.0) (text-Without ps h.1)

  pub texts-Without :
      (path : List (List Piece)) → All (All IsPiece) path → All (Without c) (map text path)
  texts-Without [] h = tt
  texts-Without (s ∷ path) h = (text-Without s h.0, texts-Without path h.1)

pub text-ne : (p : Piece) (ps : List Piece) → text (p ∷ ps) ≢ []
text-ne (plain b) ps = λ e. cc
text-ne plus ps = λ e. cc
text-ne (coded b high low) ps = λ e. cc

pub no_equals : (ps : List Piece) → All IsPiece ps → Without b'=' (text ps)
no_equals =
    text-Without b'=' refl (λ e. absurd (omega arith)) (λ e. absurd (omega arith)) (λ b h. h.5)

pub no_ampersand : (ps : List Piece) → All IsPiece ps → Without b'&' (text ps)
no_ampersand =
    text-Without b'&' refl (λ e. absurd (omega arith)) (λ e. absurd (omega arith)) (λ b h. h.4)

pub unescape_all-texts :
    (path : List (List Piece))
    → All (All IsPiece) path
    → unescape_all (map text path) ≡ cracked (map bytes_of path)
unfolding unescape_all
unescape_all-texts [] h = refl
unescape_all-texts (s ∷ path) h =
    ap (λ r. r >>= λ q. unescape_all (map text path) >>= λ qs. cracked (q ∷ qs))
      (unescape-text s h.0)
    ∙ ap (λ r. r >>= λ qs. cracked (bytes_of s ∷ qs)) (unescape_all-texts path h.1)

abbrev pub with_param :
    Bytes → Cracking (List (Bytes × Bytes)) → List Bytes → Cracking (List (Bytes × Bytes))
with_param uri rest parts =
    param_of uri parts >>= λ param. rest >>= λ params. cracked (param ∷ params)

pub crack_params-cons :
    (uri t : Bytes) (ts : List Bytes)
    → t ≢ []
    → crack_params uri (t ∷ ts)
      ≡ (unescape_all (split t b'=') >>= with_param uri (crack_params uri ts))
unfolding crack_params
crack_params-cons uri [] ts h = absurd (h refl)
crack_params-cons uri (b ∷ bs) ts h = refl

-- The parts of a parameter.
unfoldable pub param_parts : Param → List (List Piece)
param_parts (bare p ps) = (p ∷ ps) ∷ []
param_parts (pair name value) = name ∷ (value ∷ [])

pub param_parts-IsPiece : (p : Param) → IsParam p → All (All IsPiece) (param_parts p)
unfolding param_parts
param_parts-IsPiece (bare p ps) h = (h, tt)
param_parts-IsPiece (pair name value) h = (h.0, (h.1, tt))

pub param_text-ne : (p : Param) → param_text p ≢ []
param_text-ne (bare p ps) = text-ne p ps
param_text-ne (pair name value) = append-ne (text name) b'=' (text value)

pub split-param_text :
    (p : Param) → IsParam p → split (param_text p) b'=' ≡ map text (param_parts p)
unfolding param_parts join
split-param_text (bare p ps) h =
    split-join b'=' (text (p ∷ ps)) [] (no_equals (p ∷ ps) h, tt) (text-ne p ps)
split-param_text (pair name value) h =
    split-join b'=' (text name) (text value ∷ []) (no_equals name h.0, (no_equals value h.1, tt))
      (append-ne (text name) b'=' (text value))

pub param_of-parts :
    (uri : Bytes) (p : Param) → param_of uri (map bytes_of (param_parts p)) ≡ cracked (param p)
unfolding param_parts
param_of-parts uri (bare p ps) = refl
param_of-parts uri (pair name value) = refl

pub crack_params-texts :
    (uri : Bytes) (ps : List Param)
    → All IsParam ps
    → crack_params uri (map param_text ps) ≡ cracked (map param ps)
unfolding crack_params
crack_params-texts uri [] h = refl
crack_params-texts uri (p ∷ ps) h =
    let rest : Cracking (List (Bytes × Bytes)) = crack_params uri (map param_text ps) in
    crack_params-cons uri (param_text p) (map param_text ps) (param_text-ne p)
    ∙ ap (λ parts. unescape_all parts >>= with_param uri rest) (split-param_text p h.0)
    ∙ ap (λ r. r >>= with_param uri rest)
        (unescape_all-texts (param_parts p) (param_parts-IsPiece p h.0))
    ∙ ap (λ r. r >>= λ q. rest >>= λ qs. cracked (q ∷ qs)) (param_of-parts uri p)
    ∙ ap (λ r. r >>= λ qs. cracked (param p ∷ qs)) (crack_params-texts uri ps h.1)
