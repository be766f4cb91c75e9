-- ===== src/Connection/Example.antt =====
-- A host for the tests: its first `::send` would block, its second takes at most three bytes, and it
-- takes all from then on. zlib, a parameter of src/main/c/Connection.cpp, sends each byte twice here.
use seasocks.Prelude.{ℕ, zero, suc, ◌≤◌, ap, true, [], ◌∷◌, Bytes, arith}
use seasocks.Connection.{Host, SendsAtMost, SendResult, sent, would_block}

abbrev pub doubled : ℕ → Bytes → Bytes
doubled call [] = []
doubled call (b ∷ bs) = b ∷ b ∷ doubled call bs

abbrev three : ℕ → ℕ
three (suc (suc (suc n))) = 3
three n = n

abbrev pub some_bytes : ℕ → ℕ → SendResult
some_bytes zero n = would_block
some_bytes (suc zero) n = sent (three n)
some_bytes (suc (suc i)) n = sent n

abbrev pub host : Host
host = record {
  send = some_bytes;
  subscribe = λ i. true;
  unsubscribe = λ i. true;
  client_buffer_size = 1024;
}

count_of : SendResult → ℕ
count_of (sent n) = n
count_of _ = 0

three_le : (n : ℕ) → three n ≤ n
three_le zero = omega arith
three_le (suc zero) = omega arith
three_le (suc (suc zero)) = omega arith
three_le (suc (suc (suc n))) = omega arith

some_bytes_le : (i n : ℕ) → count_of (some_bytes i n) ≤ n
unfolding count_of
some_bytes_le zero n = omega arith
some_bytes_le (suc zero) n = three_le n
some_bytes_le (suc (suc i)) n = omega arith

pub most : SendsAtMost host
unfolding count_of
most = record { at_most = λ i n k e. omega (arith, some_bytes_le i n, ap count_of e) }
