-- ===== src/Uri.antt =====
-- src/main/c/util/CrackedUri.cpp and src/main/c/seasocks/util/CrackedUri.h: the path and the parameters of a URI.
pub mod Unescape
pub mod Params
pub mod RoundTrip
pub mod Handlers
pub mod Table
pub mod Routes
mod Tests
use seasocks.Prelude.{
  ℕ, zero, suc, ◌-◌, ◌+◌, ◌*◌, Bool, true, false, not, ◌||◌, List, [], ◌∷◌, ◌++◌, Option, none,
  some, length, take, drop, get_or, ltb, ◌==◌, if◌then◌else◌, Bytes, codes,
}
use seasocks.Text.Ascii.{is_digit, is_xdigit, to_lower}
use seasocks.Text.Strings.{find_char, split, replace}
use seasocks.Text.Words.{same_bytes}

-- A value, or an exception with its text.
pub data Cracking (A : Type 0) : Type 0 where
  cracked : A → Cracking A
  malformed : Bytes → Cracking A

infixl 5 ◌>>=◌
abbrev pub ◌>>=◌ : {A B : Type 0} → Cracking A → (A → Cracking B) → Cracking B
cracked a >>= f = f a
malformed what >>= f = malformed what

-- `THROW` with a text and the URI behind it.
abbrev pub throw : {A : Type 0} → Bytes → Bytes → Cracking A
throw what uri = malformed (what ++ (uri ++ codes "'"))

-- `fromHex`, of hexadecimal digits.
unfoldable pub from_hex : ℕ → ℕ
from_hex c = let lower = to_lower c in if is_digit lower then lower - b'0' else lower - b'a' + 10

-- One round of the loop of `unescape`, with the text in front of `pos` and that from it on, where the
-- next percent sign is. The byte behind the text's last is 0.
unfoldable pub unescape_step :
    (Bytes → Bytes → Cracking Bytes) → Bytes → Bytes → Option ℕ → Cracking Bytes
unfolding from_hex
unescape_step more front s none = cracked (front ++ s)
unescape_step more front s (some n) =
    let high = get_or s (suc n) 0 in
    let low = get_or s (suc (suc n)) 0 in
    let byte = from_hex high * 16 + from_hex low in
    if ltb (length s) (suc (suc n))
    then throw (codes "Truncated uri: '") (front ++ s)
    else if not (is_xdigit high) || not (is_xdigit low)
    then throw (codes "Bad digit in uri: '") (front ++ s)
    else more (front ++ (take n s ++ (byte ∷ []))) (drop (suc (suc (suc n))) s)

unfoldable pub unescape_loop : ℕ → Bytes → Bytes → Cracking Bytes
unfolding unescape_step
unescape_loop zero front s = cracked (front ++ s)
unescape_loop (suc fuel) front s = unescape_step (unescape_loop fuel) front s (find_char b'%' s)

unfoldable pub unescape : Bytes → Cracking Bytes
unfolding unescape_loop
unescape uri =
    let spaced = replace uri (codes "+") (codes " ") in
    unescape_loop (suc (length spaced)) [] spaced

-- `std::transform` with `unescape`.
unfoldable pub unescape_all : List Bytes → Cracking (List Bytes)
unescape_all [] = cracked []
unescape_all (p ∷ ps) =
    let rest = unescape_all ps in unescape p >>= λ q. rest >>= λ qs. cracked (q ∷ qs)

-- The parameters are in the order in which they are inserted.
pub record CrackedUri : Type 0 where
  pub path : List Bytes
  pub query_params : List (Bytes × Bytes)

abbrev pub param_of : Bytes → List Bytes → Cracking (Bytes × Bytes)
param_of uri (name ∷ []) = cracked (name, [])
param_of uri (name ∷ (value ∷ [])) = cracked (name, value)
param_of uri _ = throw (codes "Malformed URI, two many = in query: '") uri

-- The loop over the parameters.
unfoldable pub crack_params : Bytes → List Bytes → Cracking (List (Bytes × Bytes))
crack_params uri [] = cracked []
crack_params uri ([] ∷ ps) = crack_params uri ps
crack_params uri ((b ∷ bs) ∷ ps) =
    let rest = crack_params uri ps in
    unescape_all (split (b ∷ bs) b'=') >>= λ parts.
    param_of uri parts >>= λ param. rest >>= λ params. cracked (param ∷ params)

-- The path without its slash, and what stands behind the question mark.
abbrev pub halves : Bytes → Option ℕ → Bytes × Bytes
halves uri none = (drop 1 uri, [])
halves uri (some end_of_path) = (take (end_of_path - 1) (drop 1 uri), drop (suc end_of_path) uri)

abbrev pub crack_halves : Bytes → Bytes × Bytes → Cracking CrackedUri
crack_halves uri (path, remainder) = unescape_all (split path b'/') >>= λ path.
    crack_params uri (split remainder b'&') >>= λ params.
    cracked (record { path = path; query_params = params })

-- The constructor.
unfoldable pub crack : Bytes → Cracking CrackedUri
unfolding unescape_all crack_params
crack [] = throw (codes "Malformed URI: '") []
crack (b ∷ bs) =
    if not (b == b'/')
    then throw (codes "Malformed URI: '") (b ∷ bs)
    else crack_halves (b ∷ bs) (halves (b ∷ bs) (find_char b'?' (b ∷ bs)))

-- The values under a name, in the order in which they are inserted.
unfoldable pub values : Bytes → List (Bytes × Bytes) → List Bytes
values param [] = []
values param ((name, value) ∷ params) =
    let rest = values param params in if same_bytes name param then value ∷ rest else rest

abbrev is_some_value : List Bytes → Bool
is_some_value [] = false
is_some_value (v ∷ vs) = true

unfoldable pub has_param : CrackedUri → Bytes → Bool
unfolding values
has_param uri param = is_some_value (values param uri.query_params)

-- An `unordered_multimap` holds the values of a name in an order of its own, the argument `arrange`.
module _ (arrange : List Bytes → List Bytes) where
  unfoldable pub all_query_params : CrackedUri → Bytes → List Bytes
  unfolding values
  all_query_params uri param = arrange (values param uri.query_params)

  abbrev first_or : Bytes → List Bytes → Bytes
  first_or def [] = def
  first_or def (v ∷ vs) = v

  unfoldable pub query_param : CrackedUri → Bytes → Bytes → Bytes
  unfolding all_query_params
  query_param uri param def = first_or def (all_query_params uri param)

abbrev pub shifted_path : List Bytes → List Bytes
shifted_path (p ∷ (q ∷ qs)) = q ∷ qs
shifted_path _ = [] ∷ []

unfoldable pub shift : CrackedUri → CrackedUri
shift uri = record uri { path = shifted_path uri.path }
