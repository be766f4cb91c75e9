-- ===== src/Http/Headers.antt =====
-- src/main/c/internal/HeaderMap.h and src/main/c/internal/PageRequest.h: the headers of a request, by names whose case does not matter.
use seasocks.Prelude.{
  Bool, true, false, List, [], ◌∷◌, ◌++◌, Option, none, some, if◌then◌else◌, Bytes,
}
use seasocks.Text.Words.{case_insensitive_same}

-- In the order of the insertions; the order of the source's table is not used.
abbrev pub HeaderMap : Type 0
HeaderMap = List (Bytes × Bytes)

unfoldable pub find_header : Bytes → HeaderMap → Option Bytes
find_header name [] = none
find_header name ((k, v) ∷ m) =
    let rest = find_header name m in if case_insensitive_same k name then some v else rest

abbrev pub is_found : Option Bytes → Bool
is_found none = false
is_found (some v) = true

abbrev pub or_empty : Option Bytes → Bytes
or_empty none = []
or_empty (some v) = v

-- `hasHeader`, `count`.
unfoldable pub has_header : Bytes → HeaderMap → Bool
unfolding find_header
has_header name m = is_found (find_header name m)

-- `getHeader`, and `operator[]` on a header that is there.
unfoldable pub get_header : Bytes → HeaderMap → Bytes
unfolding find_header
get_header name m = or_empty (find_header name m)

-- The first header of a name stays.
unfoldable pub emplace : Bytes → Bytes → HeaderMap → HeaderMap
unfolding has_header
emplace key value m = if has_header key m then m else m ++ ((key, value) ∷ [])
