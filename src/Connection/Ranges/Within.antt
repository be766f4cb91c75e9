-- ===== src/Connection/Ranges/Within.antt =====
-- Which ranges of src/main/c/Connection.cpp stay within the file, and which reads within their buffer.
mod Tests
use seasocks.Prelude.{
  ℕ, suc, ◌+◌, ◌-◌, ◌%◌, ◌^◌, ◌<◌, ◌≤◌, ◌≡◌, refl, ap, ◌∙◌, ◌⊎◌, Bool, true, false, List, [], ◌∷◌,
  ltb, leb, if◌then◌else◌, arith, Bool-cases, inl, inr, All,
}
use seasocks.Prelude.Int.{
  ℤ, pos, negsuc, pos_part, neg_part, ◌+ℤ◌, ◌-ℤ◌, ◌≤ℤ◌, ltb_ℤ, int_laws, +ℤ_parts, -ℤ_parts,
}
use seasocks.Connection.Ranges.{
  Range, range_length, from_end, clamp_start, clamp_end, actual_range, process_ranges,
  content_length, to_unsigned, read_size, read_write_buffer_size,
}

-- What a sensible client asks of a file of `n` bytes: a range from its front, or one that reaches no
-- further back than the file and up to its end.
pub data Asked (n : ℕ) (r : Range) : Type 0 where
  from_front : pos 0 ≤ℤ r.start → r.start ≤ℤ r.end → Asked n r
  from_back : r.start ≤ℤ negsuc 0 → pos 0 ≤ℤ r.start +ℤ pos n → pos n ≤ℤ r.end → Asked n r

-- Bytes of the file, in order; and what one `::read` of them asks for fits in its buffer.
pub record Within (n : ℕ) (r : Range) : Type 0 where
  pub not_before : pos 0 ≤ℤ r.start
  pub in_order : r.start ≤ℤ r.end
  pub not_behind : r.end ≤ℤ pos (n - 1)
  pub fits : read_size (range_length r) ≤ read_write_buffer_size

read_size-fits : (k : ℤ) → pos 0 ≤ℤ k → read_size k ≤ read_write_buffer_size
unfolding read_size to_unsigned
read_size-fits k h = ground arith

range_length-nonneg : (r : Range) → r.start ≤ℤ r.end → pos 0 ≤ℤ range_length r
unfolding range_length
range_length-nonneg r h = omega int_laws

-- Behind the first test, behind the second, and behind the third.
abbrev Counted : ℕ → Range → Type 0
Counted n r = (pos 0 ≤ℤ r.start) × ((r.start ≤ℤ r.end) ⊎ (pos n ≤ℤ r.end))

abbrev Started : ℕ → Range → Type 0
Started n r = (pos 0 ≤ℤ r.start) × (r.start ≤ℤ r.end) × (r.start ≤ℤ pos (n - 1))

abbrev Ended : ℕ → Range → Type 0
Ended n r = (pos 0 ≤ℤ r.start) × (r.start ≤ℤ r.end) × (r.end ≤ℤ pos (n - 1))

from_end-Counted : (n : ℕ) (r : Range) → Asked n r → Counted n (from_end (pos n) r)
unfolding from_end
from_end-Counted n r (from_front h k) = elim (Bool-cases (ltb_ℤ r.start (pos 0))) [
  | inl back ↦ absurd (ground arith)
  | inr front ↦ rw front (h, inl k)
]
from_end-Counted n r (from_back h k l) = elim (Bool-cases (ltb_ℤ r.start (pos 0))) [
  | inl back ↦ rw back (k, inr l)
  | inr front ↦ absurd (ground arith)
]

last_byte : (n : ℕ) → 0 < n → pos n -ℤ pos 1 ≡ pos (n - 1)
unfolding ◌-ℤ◌
last_byte n h = ground arith

clamp_start-Started : (n : ℕ) (r : Range) → 0 < n → Counted n r → Started n (clamp_start (pos n) r)
unfolding clamp_start
clamp_start-Started n r some_bytes (h, k) = elim (Bool-cases (ltb_ℤ r.start (pos n))) [
  | inl inside ↦ rw inside (h, elim k [ inl j ↦ j | inr j ↦ ground arith ], ground arith)
  | inr beyond ↦
      rw (beyond, last_byte n some_bytes)
        (omega arith, elim k [ inl j ↦ ground arith | inr j ↦ ground arith ], omega arith)
]

clamp_end-Ended : (n : ℕ) (r : Range) → 0 < n → Started n r → Ended n (clamp_end (pos n) r)
unfolding clamp_end
clamp_end-Ended n r some_bytes (h, k, l) = elim (Bool-cases (ltb_ℤ r.end (pos n))) [
  | inl inside ↦ rw inside (h, k, ground arith)
  | inr beyond ↦ rw (beyond, last_byte n some_bytes) (h, l, omega arith)
]

actual_range-Within : (n : ℕ) (r : Range) → 0 < n → Asked n r → Within n (actual_range (pos n) r)
unfolding actual_range
actual_range-Within n r some_bytes asked =
    let (h, k, l) =
      clamp_end-Ended n _ some_bytes
        (clamp_start-Started n _ some_bytes (from_end-Counted n r asked)) in
    record {
      not_before = h;
      in_order = k;
      not_behind = l;
      fits = read_size-fits _ (range_length-nonneg _ k);
    }

-- All ranges sent of a file that is not empty are bytes of the file, and each read of them fits in
-- its buffer, where a range asked for runs forwards from the file's front, or from a place no
-- further back than the file up to its end.
pub process_ranges-Within :
    (n : ℕ) (rs : List Range)
    → 0 < n
    → All (Asked n) rs
    → All (Within n) (process_ranges (pos n) rs)
unfolding process_ranges
process_ranges-Within n [] some_bytes h = tt
process_ranges-Within n (r ∷ rs) some_bytes h =
    (actual_range-Within n r some_bytes h.0, process_ranges-Within n rs some_bytes h.1)

-- A range that starts in the file, by two bytes or more behind its own end, makes the read ask for
-- more bytes than its buffer holds. The file is shorter than 2 ^ 31 bytes.
pub read_size-overrun :
    (n s e : ℕ)
    → n < 2 ^ 31
    → s < n
    → e + 1 < s
    → read_write_buffer_size
      < read_size (range_length (actual_range (pos n) (record { start = pos s; end = pos e })))
unfolding actual_range from_end clamp_start clamp_end range_length read_size to_unsigned ◌+ℤ◌ ◌-ℤ◌
read_size-overrun n s e small inside backwards = ground arith
