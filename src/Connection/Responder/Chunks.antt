-- ===== src/Connection/Responder/Chunks.antt =====
-- The chunked transfer coding of RFC 7230 §4.1, independently of `writeChunkHeader` in
-- src/main/c/Connection.cpp: the coding of a list of payloads, and a reader of it.
use mathlib.Core.List.{flatten}
use seasocks.Prelude.{
  ℕ, zero, suc, ◌+◌, ◌*◌, ◌<◌, ◌≡◌, ◌≢◌, refl, ap, ◌∙◌, false, List, [], ◌∷◌, ◌++◌, append_assoc,
  Option, none, some, ◌>>=◌, length, length-append, take, drop, take-append, drop-append, ltb, ◌==◌,
  if◌then◌else◌, Bytes, All, arith,
}
use seasocks.Text.Digits.{to_hex, digit_value, value, value-to_hex, IsDigit, to_hex-IsDigit}
use seasocks.Connection.Responder.{crlf}

-- A payload without bytes has no chunk: it would end the body.
unfoldable pub chunk_coded : List Bytes → Bytes
chunk_coded [] = b'0' ∷ (crlf ++ crlf)
chunk_coded ([] ∷ ps) = chunk_coded ps
chunk_coded ((b ∷ bs) ∷ ps) =
    to_hex (length (b ∷ bs)) ++ (crlf ++ ((b ∷ bs) ++ (crlf ++ chunk_coded ps)))

unfoldable pub strip_crlf : Bytes → Option Bytes
strip_crlf (c ∷ d ∷ rest) = if c == b'\r' then if d == b'\n' then some rest else none else none
strip_crlf _ = none

-- The size in front of a chunk, and what follows its line.
unfoldable pub read_size : ℕ → Bytes → Option (ℕ × Bytes)
read_size acc [] = none
read_size acc (c ∷ cs) =
    let more = read_size (acc * 16 + digit_value c) cs in
    if c == b'\r' then strip_crlf (c ∷ cs) >>= (λ rest. some (acc, rest)) else more

-- Up to `fuel` chunks: the body, and what follows it.
unfoldable pub dechunk : ℕ → Bytes → Option (Bytes × Bytes)
dechunk zero bytes = none
dechunk (suc fuel) bytes = do
  (n, rest) ← read_size 0 bytes
  if n == 0
      then strip_crlf rest >>= (λ behind. some ([], behind))
      else if ltb (length rest) n
      then none
      else strip_crlf (drop n rest) >>= λ next.
          dechunk fuel next >>= λ (more, behind). some (take n rest ++ more, behind)

strip_crlf_lem : (rest : Bytes) → strip_crlf (crlf ++ rest) ≡ some rest
unfolding strip_crlf
strip_crlf_lem rest = refl

read_size-digits :
    (digits rest : Bytes) (acc : ℕ)
    → All IsDigit digits
    → read_size acc (digits ++ (crlf ++ rest)) ≡ some (value 16 acc digits, rest)
unfolding read_size
read_size-digits [] rest acc h = rw (strip_crlf_lem rest)
read_size-digits (d ∷ ds) rest acc h =
    let other : (d == b'\r') ≡ false = ground (arith, h.0) in
    rw other (read_size-digits ds rest (acc * 16 + digit_value d) h.1)

read_size-to_hex :
    (n : ℕ) (rest : Bytes) → read_size 0 (to_hex n ++ (crlf ++ rest)) ≡ some (n, rest)
read_size-to_hex n rest =
    read_size-digits (to_hex n) rest 0 (to_hex-IsDigit n)
    ∙ ap (λ v. some (v, rest)) (value-to_hex n)

-- One chunk in front of what follows.
dechunk_step :
    (fuel n : ℕ) (bytes p behind : Bytes)
    → n ≢ 0
    → length p ≡ n
    → read_size 0 bytes ≡ some (n, p ++ (crlf ++ behind))
    → dechunk (suc fuel) bytes ≡ (dechunk fuel behind >>= λ (more, last). some (p ++ more, last))
unfolding dechunk
dechunk_step fuel n bytes p behind h len e =
    let long = length-append p (crlf ++ behind) in
    let some_size : (n == 0) ≡ false = ground arith in
    let enough : ltb (length (p ++ (crlf ++ behind))) n ≡ false = ground arith in
    rw (e, some_size, enough)
      (rw (← len) (
        rw (drop-append p (crlf ++ behind), take-append p (crlf ++ behind), strip_crlf_lem behind)))

coded-cons :
    (b : ℕ) (bs rest : Bytes) (ps : List Bytes)
    → chunk_coded ((b ∷ bs) ∷ ps) ++ rest
      ≡ to_hex (length (b ∷ bs)) ++ (crlf ++ ((b ∷ bs) ++ (crlf ++ (chunk_coded ps ++ rest))))
unfolding chunk_coded
coded-cons b bs rest ps =
    append_assoc (to_hex (length (b ∷ bs))) _ rest
    ∙ ap (λ t. to_hex (length (b ∷ bs)) ++ (crlf ++ t))
        (append_assoc (b ∷ bs) (crlf ++ chunk_coded ps) rest)

coded-nil : (ps : List Bytes) → chunk_coded ([] ∷ ps) ≡ chunk_coded ps
unfolding chunk_coded
coded-nil ps = refl

dechunk_last :
    (fuel : ℕ) (rest : Bytes) → dechunk (suc fuel) (chunk_coded [] ++ rest) ≡ some ([], rest)
unfolding chunk_coded dechunk read_size strip_crlf digit_value
dechunk_last fuel rest = refl

-- The reader gives back the payloads, joined, and stops behind the coding.
pub dechunk-chunk_coded :
    (ps : List Bytes) (rest : Bytes) (fuel : ℕ)
    → length ps < fuel
    → dechunk fuel (chunk_coded ps ++ rest) ≡ some (flatten ps, rest)
unfolding flatten
dechunk-chunk_coded ps rest zero h = absurd (omega arith)
dechunk-chunk_coded [] rest (suc fuel) h = dechunk_last fuel rest
dechunk-chunk_coded ([] ∷ ps) rest (suc fuel) h =
    ap (λ t. dechunk (suc fuel) (t ++ rest)) (coded-nil ps)
    ∙ dechunk-chunk_coded ps rest (suc fuel) (omega arith)
dechunk-chunk_coded ((b ∷ bs) ∷ ps) rest (suc fuel) h =
    let p : Bytes = b ∷ bs in
    let behind = chunk_coded ps ++ rest in
    ap (dechunk (suc fuel)) (coded-cons b bs rest ps)
    ∙ dechunk_step fuel (length p) _ p behind (omega arith) refl
        (read_size-to_hex (length p) (p ++ (crlf ++ behind)))
    ∙ ap (λ r. r >>= λ (more, last). some (p ++ more, last))
        (dechunk-chunk_coded ps rest fuel (omega arith))
