-- ===== src/Requests/Partial/Tests.antt =====
-- Headers of ranges on one input.
use seasocks.Prelude.{◌≡◌, refl, [], ◌∷◌, ◌++◌, map, codes, arith}
use seasocks.Text.Numbers.{stoi}
use seasocks.Text.Strings.Split.{join}
use seasocks.Requests.Partial.{ranging, thrown, bad_range, parse_ranges, bytes_prefix}
use seasocks.Requests.Partial.RoundTrip.{between, last, range_text, range_of, parse_ranges-text}

no_number : parse_ranges (codes "bytes=a-b") ≡ thrown
unfolding parse_ranges stoi
no_number = refl

no_unit : parse_ranges (codes "lines=1-2") ≡ bad_range
unfolding parse_ranges
no_unit = refl

parse_ranges-text_example :
    parse_ranges (bytes_prefix ++ join b',' (map range_text (between 0 99 ∷ last 499 ∷ [])))
    ≡ ranging (map range_of (between 0 99 ∷ last 499 ∷ []))
parse_ranges-text_example = parse_ranges-text (between 0 99) (last 499 ∷ []) (omega arith)
