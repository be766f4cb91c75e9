-- ===== src/Text/Words/Tests.antt =====
-- The words of a request line and names that differ in case, src/main/c/StringUtil.cpp.
use seasocks.Prelude.{◌≡◌, refl, true, some, codes}
use seasocks.Text.Words.{
  skip_whitespace, skip_non_whitespace, word_of, shift, reverse, trim_whitespace, same_bytes,
  ends_with, case_insensitive_same,
}
use seasocks.Text.Words.Shift.{ShiftResult, shift-Shifted}

shift_verb : shift (codes "  GET /a HTTP/1.1") ≡ (some (codes "GET"), codes "/a HTTP/1.1")
unfolding shift skip_whitespace skip_non_whitespace word_of
shift_verb = refl

trim_spaces : trim_whitespace (codes " a b ") ≡ codes "a b"
unfolding trim_whitespace reverse skip_whitespace
trim_spaces = refl

ends_with_html : ends_with (codes "index.html") (codes ".html") ≡ true
unfolding ends_with same_bytes
ends_with_html = refl

same_names : case_insensitive_same (codes "Content-Length") (codes "content-length") ≡ true
unfolding case_insensitive_same
same_names = refl

shift-Shifted_example : ShiftResult (codes " GET /") (shift (codes " GET /"))
shift-Shifted_example = shift-Shifted (codes " GET /")
