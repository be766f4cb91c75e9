-- ===== src/Http/Mime.antt =====
-- src/main/c/Connection.cpp: `contentTypes`, `getExt`, `getContentType` and `isCacheable`.
use seasocks.Prelude.{
  Bool, ◌||◌, List, [], ◌∷◌, Option, none, some, ◌==◌, if◌then◌else◌, Bytes, codes,
}
use seasocks.Text.Words.{same_bytes}

unfoldable pub content_types : List (Bytes × Bytes)
content_types =
    (codes "txt", codes "text/plain")
    ∷ (codes "css", codes "text/css")
    ∷ (codes "csv", codes "text/csv")
    ∷ (codes "htm", codes "text/html")
    ∷ (codes "html", codes "text/html")
    ∷ (codes "xml", codes "text/xml")
    ∷ (codes "js", codes "text/javascript")
    ∷ (codes "xhtml", codes "application/xhtml+xml")
    ∷ (codes "json", codes "application/json")
    ∷ (codes "pdf", codes "application/pdf")
    ∷ (codes "zip", codes "application/zip")
    ∷ (codes "tar", codes "application/x-tar")
    ∷ (codes "gif", codes "image/gif")
    ∷ (codes "jpeg", codes "image/jpeg")
    ∷ (codes "jpg", codes "image/jpeg")
    ∷ (codes "tiff", codes "image/tiff")
    ∷ (codes "tif", codes "image/tiff")
    ∷ (codes "png", codes "image/png")
    ∷ (codes "svg", codes "image/svg+xml")
    ∷ (codes "ico", codes "image/x-icon")
    ∷ (codes "swf", codes "application/x-shockwave-flash")
    ∷ (codes "mp3", codes "audio/mpeg")
    ∷ (codes "wav", codes "audio/x-wav")
    ∷ (codes "ttf", codes "font/ttf")
    ∷ []

unfoldable pub find_type : Bytes → List (Bytes × Bytes) → Option Bytes
unfolding same_bytes
find_type ext [] = none
find_type ext ((k, v) ∷ types) =
    let rest = find_type ext types in if same_bytes k ext then some v else rest

-- What is behind the last dot, if there is one.
unfoldable pub last_ext : Bytes → Option Bytes
last_ext [] = none
last_ext (b ∷ bs) = elim (last_ext bs) [
  | none ↦ if b == b'.' then some bs else none
  | some ext ↦ some ext
]

abbrev pub ext_or_empty : Option Bytes → Bytes
ext_or_empty none = []
ext_or_empty (some ext) = ext

unfoldable pub get_ext : Bytes → Bytes
unfolding last_ext
get_ext path = ext_or_empty (last_ext path)

abbrev pub type_or_default : Option Bytes → Bytes
type_or_default none = codes "text/html"
type_or_default (some type) = type

unfoldable pub get_content_type : Bytes → Bytes
unfolding get_ext find_type content_types
get_content_type path = type_or_default (find_type (get_ext path) content_types)

unfoldable pub is_cacheable : Bytes → Bool
unfolding get_ext same_bytes
is_cacheable path =
    same_bytes (get_ext path) (codes "mp3") || same_bytes (get_ext path) (codes "wav")
