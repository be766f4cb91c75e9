-- ===== src/Connection/Ranges/Within/Tests.antt =====
-- Ranges of a file of 100 bytes, as src/main/c/Connection.cpp sends them.
use seasocks.Prelude.{◌<◌, [], ◌∷◌, arith, All}
use seasocks.Prelude.Int.{pos, negsuc, ◌+ℤ◌}
use seasocks.Connection.Ranges.{range_length, actual_range, process_ranges, read_size}
use seasocks.Connection.Ranges.Within.{
  from_front, from_back, Within, process_ranges-Within, read_size-overrun,
}

process_ranges-Within_example : All (Within 100) (
    process_ranges
      (pos 100)
      (record { start = pos 3; end = pos 7 } ∷ record { start = negsuc 9; end = pos 1000 } ∷ []))
unfolding ◌+ℤ◌
process_ranges-Within_example =
    process_ranges-Within 100
      (record { start = pos 3; end = pos 7 } ∷ record { start = negsuc 9; end = pos 1000 } ∷ [])
      (omega arith)
      (
        from_front (omega arith) (omega arith),
        (from_back (omega arith) (omega arith) (omega arith), tt),
      )

read_size-overrun_example :
    16384
    < read_size (range_length (actual_range (pos 100) (record { start = pos 5; end = pos 2 })))
read_size-overrun_example = read_size-overrun 100 5 2 (omega arith) (omega arith) (omega arith)
