-- ===== src/Requests/Static.antt =====
-- src/main/c/Connection.cpp: `processRangesForStaticData` and `sendStaticData`.
pub mod Body
mod Tests
use seasocks.Prelude.{
  ℕ, zero, suc, ◌+◌, ◌-◌, ◌%◌, ◌^◌, Bool, true, false, List, [], ◌∷◌, ◌++◌, Option, none, some,
  length, take, ltb, ◌==◌, if◌then◌else◌, Bytes, codes,
}
use seasocks.Prelude.Int.{ℤ, pos, negsuc, ◌-ℤ◌}
use seasocks.Text.Digits.{to_string}
use seasocks.Text.Strings.{find_char}
use seasocks.Response.Code.{ok, partial_content}
use seasocks.Http.Mime.{get_content_type, is_cacheable}
use seasocks.Connection.Output.{write, flush}
use seasocks.Connection.Responder.{
  buffer_line_, buffer_line_chars_, buffer_response_and_common_headers,
}
use seasocks.Connection.Ranges.{
  Range, range_length, process_ranges, content_length, read_size, read_write_buffer_size,
}
use seasocks.Connection.Errors.{send_bad_request}
use seasocks.Requests.{Site, S, ◌>>=◌, ◌>>◌, return, on_connection, File, uri_of, request_header}
use seasocks.Requests.Answer.{send_404}
use seasocks.Requests.Partial.{Ranging, ranging, bad_range, thrown, parse_ranges}

-- A `long` as a stream prints it.
abbrev pub signed_text : ℤ → Bytes
signed_text (pos n) = to_string n
signed_text (negsuc n) = b'-' ∷ to_string (suc n)

abbrev pub range_texts : List Range → Bytes
range_texts [] = []
range_texts (r ∷ rs) = signed_text r.start ++ (b'-' ∷ (signed_text r.end ++ range_texts rs))

-- A `size_t`.
abbrev pub size_text : ℤ → Bytes
size_text (pos n) = to_string (n % 2 ^ 64)
size_text (negsuc n) = to_string (2 ^ 64 - 1 - n % 2 ^ 64)

-- The path without a query, and the index of a folder.
abbrev pub without_query : Bytes → Option ℕ → Bytes
without_query path none = path
without_query path (some n) = take n path

unfoldable pub ends_with_slash : Bytes → Bool
ends_with_slash [] = false
ends_with_slash (b ∷ []) = b == b'/'
ends_with_slash (b ∷ c ∷ bs) = ends_with_slash (c ∷ bs)

unfoldable pub file_path : Bytes → Bytes → Bytes
unfolding ends_with_slash find_char
file_path static_path uri =
    let path = without_query (static_path ++ uri) (find_char b'?' (static_path ++ uri)) in
    if ends_with_slash path then path ++ codes "index.html" else path

-- Where the static path is empty and the URI begins with `?`, the path without its query is empty, and
-- what the source does there, `*path.rbegin()`, is undefined: it counts as no slash here.
module _ (site : Site) where
  abbrev line : Bytes → S (Unit {0})
  line text = on_connection (buffer_line_ site.host text)

  abbrev line_chars : Bytes → S (Unit {0})
  line_chars text = on_connection (buffer_line_chars_ site.host text)

  -- Both kinds of request. The sum of the lengths is a `size_t`.
  unfoldable pub process_ranges_for_static_data : List Range → ℕ → S (List Range)
  unfolding process_ranges
  process_ranges_for_static_data [] file_size = do
    on_connection (buffer_response_and_common_headers site.host site.version site.now ok)
    line (codes "Content-Length: " ++ to_string file_size)
    return (record { start = pos 0; end = pos file_size -ℤ pos 1 } ∷ [])
  process_ranges_for_static_data (r ∷ rs) file_size = do
    on_connection
        (buffer_response_and_common_headers site.host site.version site.now partial_content)
    let ranges = process_ranges (pos file_size) (r ∷ rs)
    line (codes "Content-Range: bytes " ++ (range_texts ranges ++ (b'/' ∷ to_string file_size)))
    line (codes "Content-Length: " ++ size_text (content_length ranges))
    return ranges

  -- The reads of one range from an offset; `bytes_left` may be below 0. A read that is longer than the
  -- buffer writes outside it.
  abbrev pub after_write : (S Bool) → Bool → S Bool
  after_write more false = return false
  after_write more true = more

  abbrev pub after_read : (ℕ → S Bool) → Option Bytes → S Bool
  after_read more none = return false
  after_read more (some []) = return false
  after_read more (some (b ∷ bs)) =
      if ltb read_write_buffer_size (length (b ∷ bs))
      then (λ s. none)
      else on_connection (write site.host (b ∷ bs) true) >>= after_write (more (length (b ∷ bs)))

  abbrev pub read_file : Bytes → ℕ → ℕ → S (Option Bytes)
  read_file path offset n s =
      some (site.read s.read_calls path offset n, record s { read_calls = suc s.read_calls })

  abbrev pub is_zero : ℤ → Bool
  is_zero (pos zero) = true
  is_zero _ = false

  -- Each round reads a byte at least, so that the file's size and one are enough rounds.
  unfoldable pub send_bytes : Bytes → ℕ → ℕ → ℤ → S Bool
  unfolding read_size
  send_bytes path zero offset bytes_left = if is_zero bytes_left then return true else (λ s. none)
  send_bytes path (suc fuel) offset bytes_left =
      let more : ℕ → S Bool = λ n. send_bytes path fuel (offset + n) (bytes_left -ℤ pos n) in
      if is_zero bytes_left
      then return true
      else read_file path offset (read_size bytes_left) >>= after_read more

  -- `lseek` refuses an offset below 0.
  unfoldable pub send_range : Bytes → ℕ → Range → S Bool
  unfolding send_bytes range_length
  send_range path file_size r = elim r.start [
    | pos offset ↦ send_bytes path (suc file_size) offset (range_length r)
    | negsuc n ↦ return false
  ]

  unfoldable pub send_ranges : Bytes → ℕ → List Range → S Bool
  unfolding send_range
  send_ranges path file_size [] = return true
  send_ranges path file_size (r ∷ rs) =
      send_range path file_size r >>= after_write (send_ranges path file_size rs)

  abbrev cache_headers : Bool → S (Unit {0})
  cache_headers true = return tt
  cache_headers false = do
    line_chars (codes "Cache-Control: no-store")
    line_chars (codes "Pragma: no-cache")
    line (codes "Expires: " ++ site.now)

  unfoldable pub send_file : Bytes → File → List Range → S Bool
  unfolding process_ranges_for_static_data send_ranges is_cacheable get_content_type
  send_file path f asked = do
    ranges ← process_ranges_for_static_data asked f.size
    line (codes "Content-Type: " ++ get_content_type path)
    line_chars (codes "Connection: keep-alive")
    line_chars (codes "Accept-Ranges: bytes")
    line (codes "Last-Modified: " ++ f.last_modified)
    cache_headers (is_cacheable path)
    line_chars []
    sent ← on_connection (flush site.host)
    after_write (send_ranges path f.size ranges) sent

  abbrev send_asked : Bytes → File → Ranging (List Range) → S Bool
  send_asked path f (ranging rs) = send_file path f rs
  send_asked path f bad_range =
      on_connection
        (send_bad_request site.host site.version site.now site.embedded (codes "Bad range header"))
  send_asked path f thrown = λ s. none

  abbrev ranges_of : Bytes → Ranging (List Range)
  ranges_of [] = ranging []
  ranges_of (b ∷ bs) = parse_ranges (b ∷ bs)

  abbrev send_opened : Bytes → Bytes → Bytes → Option File → S Bool
  send_opened path uri range none = on_connection (send_404 site uri)
  send_opened path uri range (some f) = send_asked path f (ranges_of range)

  unfoldable pub send_static_data : S Bool
  unfolding file_path send_file send_404
  send_static_data s =
      let uri = uri_of s.request in
      let path = file_path site.static_path uri in
      send_opened path uri (request_header (codes "Range") s.request) (site.file path) s
