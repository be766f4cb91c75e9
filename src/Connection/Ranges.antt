-- ===== src/Connection/Ranges.antt =====
-- src/main/c/Connection.cpp: the ranges of a file that a client asks for, and how much `sendStaticData`
-- reads at a time. Numbers of type `long` are below 2 ^ 63, so sums of two do not wrap.
pub mod Within
use seasocks.Prelude.{
  ℕ, suc, ◌+◌, ◌-◌, ◌%◌, ◌^◌, ◌<◌, ◌≤◌, ◌≡◌, refl, ap, ◌∙◌, Bool, true, false, List, [], ◌∷◌, ltb,
  leb, if◌then◌else◌, arith, Bool-cases, inl, inr, All,
}
use seasocks.Prelude.Int.{
  ℤ, pos, negsuc, pos_part, neg_part, ◌+ℤ◌, ◌-ℤ◌, ◌≤ℤ◌, ltb_ℤ, int_laws, +ℤ_parts, -ℤ_parts,
}

pub record Range : Type 0 where
  pub start : ℤ
  pub end : ℤ

-- `Range::length`.
unfoldable pub range_length : Range → ℤ
range_length r = r.end -ℤ r.start +ℤ pos 1

-- The three tests on the range, in order.
unfoldable pub from_end : ℤ → Range → Range
from_end file_size r =
    if ltb_ℤ r.start (pos 0) then record r { start = r.start +ℤ file_size } else r

unfoldable pub clamp_start : ℤ → Range → Range
clamp_start file_size r =
    if ltb_ℤ r.start file_size then r else record r { start = file_size -ℤ pos 1 }

unfoldable pub clamp_end : ℤ → Range → Range
clamp_end file_size r = if ltb_ℤ r.end file_size then r else record r { end = file_size -ℤ pos 1 }

unfoldable pub actual_range : ℤ → Range → Range
unfolding from_end clamp_start clamp_end
actual_range file_size r = clamp_end file_size (clamp_start file_size (from_end file_size r))

-- The ranges that are sent, and the sum of their lengths.
unfoldable pub process_ranges : ℤ → List Range → List Range
process_ranges file_size [] = []
process_ranges file_size (r ∷ rs) = actual_range file_size r ∷ process_ranges file_size rs

unfoldable pub content_length : List Range → ℤ
content_length [] = pos 0
content_length (r ∷ rs) = range_length r +ℤ content_length rs

abbrev pub read_write_buffer_size : ℕ
read_write_buffer_size = 16384

-- The cast to `unsigned int`.
unfoldable pub to_unsigned : ℤ → ℕ
to_unsigned (pos n) = n % 2 ^ 32
to_unsigned (negsuc n) = 2 ^ 32 - 1 - n % 2 ^ 32

-- How many bytes are asked for in one `::read`, into a buffer of `read_write_buffer_size` bytes.
unfoldable pub read_size : ℤ → ℕ
unfolding to_unsigned
read_size bytes_left = to_unsigned (
    if ltb_ℤ bytes_left (pos read_write_buffer_size)
    then bytes_left
    else pos read_write_buffer_size)
