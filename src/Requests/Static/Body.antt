-- ===== src/Requests/Static/Body.antt =====
-- The loop of `sendStaticData`, src/main/c/Connection.cpp, sends the bytes of the file's ranges.
use seasocks.Prelude.{
  ℕ, zero, suc, ◌+◌, ◌-◌, ◌<◌, ◌≤◌, ◌≡◌, refl, ap, sym, ◌∙◌, subst, Bool, true, false, List, [],
  ◌∷◌, ◌++◌, Option, none, some, length, length-take, length-drop, take, drop, take-add,
  take-append_right, take-append, map, ltb, Bytes, All, arith,
}
use seasocks.Prelude.Int.{pos, ◌-ℤ◌, ◌+ℤ◌}
use seasocks.Connection.{Connection, SendsAtMost}
use seasocks.Connection.Output.{write}
use seasocks.Connection.Appends.{Appends, Appends-trans, Appends-refl, write-Appends}
use seasocks.Connection.Ranges.{Range, range_length, read_size, to_unsigned, read_write_buffer_size}
use seasocks.Requests.{Site, Session, S, ◌>>=◌, on_connection}
use seasocks.Requests.Static.{after_write, after_read, send_bytes, send_range, send_ranges}

-- What `::read` of a file may give at an offset: no more than is asked for, and nothing only at the end or
-- where nothing is asked for.
pub record Reads (content : Bytes) (offset n : ℕ) (r : Option Bytes) : Type 0 where
  pub got : ℕ
  pub at_most : got ≤ n
  pub some_byte : 0 < n → offset < length content → 0 < got
  pub chunk : r ≡ some (take got (drop offset content))

-- What a call that returns leaves on the stream: all the bytes, or some of them and `false`.
abbrev pub Delivers : ℕ → Connection → Bytes → Option (Bool × Session) → Type 0
Delivers limit c whole none = ⊥
Delivers limit c whole (some (true, t)) = Appends limit c whole t.connection
Delivers limit c whole (some (false, t)) = (k : ℕ) × Appends limit c (take k whole) t.connection

Delivers-trans :
    {limit : ℕ} {c d : Connection} (xs ys : Bytes) (o : Option (Bool × Session))
    → Appends limit c xs d
    → Delivers limit d ys o
    → Delivers limit c (xs ++ ys) o
Delivers-trans xs ys none a h = h
Delivers-trans xs ys (some (true, t)) a h = Appends-trans a h
Delivers-trans {limit} {c} xs ys (some (false, t)) a h = (
  length xs + h.0,
  subst (λ l. Appends limit c l t.connection) (sym (take-append_right h.0 xs ys))
      (Appends-trans a h.1),
)

read_size-pos :
    (n : ℕ)
    → (read_size (pos (suc n)) ≤ suc n)
      × (0 < read_size (pos (suc n)))
      × (read_size (pos (suc n)) ≤ read_write_buffer_size)
unfolding read_size to_unsigned
read_size-pos n = (ground arith, ground arith, ground arith)

sub_pos : (n k : ℕ) → k ≤ n → pos n -ℤ pos k ≡ pos (n - k)
unfolding ◌-ℤ◌
sub_pos n k h = ground arith

drop-nil : (n : ℕ) → drop {A = ℕ} n [] ≡ []
drop-nil zero = refl
drop-nil (suc n) = refl

drop-drop : (m n : ℕ) (xs : Bytes) → drop n (drop m xs) ≡ drop (m + n) xs
drop-drop zero n xs = ap (λ t. drop t xs) (omega arith)
drop-drop (suc m) n [] = drop-nil n ∙ sym (drop-nil (suc m + n))
drop-drop (suc m) n (x ∷ xs) =
    let e : suc m + n ≡ suc (m + n) = omega arith in rw e (drop-drop m n xs)

take_prefix : (k : ℕ) (xs ys : Bytes) → (j : ℕ) × (take k xs ≡ take j (xs ++ ys))
take_prefix zero xs ys = (0, refl)
take_prefix (suc k) [] ys = (0, refl)
take_prefix (suc k) (x ∷ xs) ys = let p = take_prefix k xs ys in (suc p.0, ap (◌∷◌ x) p.1)

-- A range of bytes, both ends included.
pub record Slice : Type 0 where
  pub first : ℕ
  pub last : ℕ

abbrev pub IsSlice : ℕ → Slice → Type 0
IsSlice n p = (p.first ≤ p.last) × (p.last < n)

abbrev pub range_at : Slice → Range
range_at p = record { start = pos p.first; end = pos p.last }

abbrev pub slice : Bytes → Slice → Bytes
slice content p = take (p.last - p.first + 1) (drop p.first content)

abbrev pub slices : Bytes → List Slice → Bytes
slices content [] = []
slices content (p ∷ ps) = slice content p ++ slices content ps

range_length-slice :
    (p : Slice) → p.first ≤ p.last → range_length (range_at p) ≡ pos (p.last - p.first + 1)
unfolding range_length ◌-ℤ◌ ◌+ℤ◌
range_length-slice p h = ground arith

module _ (site : Site) (most : SendsAtMost site.host) where
  abbrev limit : ℕ
  limit = site.host.client_buffer_size

  -- A method that delivers bytes from a connection that had no error.
  abbrev pub Sends : S Bool → Bytes → Type 0
  Sends m whole =
      (s : Session) → s.connection.had_send_error ≡ false → Delivers limit s.connection whole (m s)

  written-Sends :
      (more : S Bool) (chunk rest : Bytes)
      → Sends more rest
      → Sends (on_connection (write site.host chunk true) >>= after_write site more) (chunk ++ rest)
  written-Sends more chunk rest h s ok = after (write site.host chunk true s.connection).0
    where
      d : Connection
      d = (write site.host chunk true s.connection).1

      a : Appends limit s.connection chunk d
      a = write-Appends site.host most s.connection chunk true ok

      after :
          (b : Bool)
          → Delivers limit s.connection
              (chunk ++ rest)
              (after_write site more b (record s { connection = d }))
      after true =
          Delivers-trans chunk rest (more (record s { connection = d })) a
            (h (record s { connection = d }) (a.same_error ∙ ok))
      after false = (
        length chunk,
        subst (λ l. Appends limit s.connection l d) (sym (take-append chunk rest)) a,
      )

  after_read-chunk :
      (more : ℕ → S Bool) (chunk rest : Bytes)
      → 0 < length chunk
      → length chunk ≤ read_write_buffer_size
      → Sends (more (length chunk)) rest
      → Sends (after_read site more (some chunk)) (chunk ++ rest)
  after_read-chunk more [] rest some_byte fits h = λ s ok. absurd (omega arith)
  after_read-chunk more (b ∷ bs) rest some_byte fits h = λ s ok.
      let short : ltb read_write_buffer_size (length (b ∷ bs)) ≡ false = ground arith in
      rw short (written-Sends (more (length (b ∷ bs))) (b ∷ bs) rest h s ok)

  module _ (path content : Bytes)
      (honest : (call offset n : ℕ) → Reads content offset n (site.read call path offset n)) where
    send_bytes-Sends :
        (fuel offset n : ℕ)
        → offset + n ≤ length content
        → n ≤ fuel
        → Sends (send_bytes site path fuel offset (pos n)) (take n (drop offset content))
    unfolding send_bytes
    send_bytes-Sends zero offset zero inside enough s ok = Appends-refl s.connection
    send_bytes-Sends zero offset (suc n) inside enough s ok = absurd (omega arith)
    send_bytes-Sends (suc fuel) offset zero inside enough s ok = Appends-refl s.connection
    send_bytes-Sends (suc fuel) offset (suc n) inside enough s ok =
        let asked : ℕ = read_size (pos (suc n)) in
        let size = read_size-pos n in
        let r : Reads content offset asked (site.read s.read_calls path offset asked) =
          honest s.read_calls offset asked in
        let chunk : Bytes = take r.got (drop offset content) in
        let some_byte : 0 < r.got = r.some_byte size.1 (omega arith) in
        let long : length chunk ≡ r.got =
          length-take r.got (drop offset content)
          ∙ omega (arith, length-drop offset content, r.at_most, size.0) in
        let rest : Bytes = take (suc n - r.got) (drop (offset + r.got) content) in
        let all : r.got + (suc n - r.got) ≡ suc n = omega (arith, r.at_most, size.0) in
        let whole : chunk ++ rest ≡ take (suc n) (drop offset content) =
          ap (λ l. chunk ++ take (suc n - r.got) l) (sym (drop-drop offset r.got content))
          ∙ (take-add r.got (suc n - r.got) (drop offset content)
              ∙ ap (λ k. take k (drop offset content)) all) in
        let more : ℕ → S Bool =
          λ k. send_bytes site path fuel (offset + k) (pos (suc n) -ℤ pos k) in
        let next : Sends (more (length chunk)) rest =
          subst (λ k. Sends (more k) rest) (sym long)
            (subst (λ left. Sends (send_bytes site path fuel (offset + r.got) left) rest)
              (sym (sub_pos (suc n) r.got (omega (arith, r.at_most, size.0))))
              (send_bytes-Sends fuel (offset + r.got) (suc n - r.got)
                (omega (arith, r.at_most, size.0)) (omega arith))) in
        let s' : Session = record s { read_calls = suc s.read_calls } in
        subst
          (λ l.
            Delivers limit s.connection l (send_bytes site path (suc fuel) offset (pos (suc n)) s))
          whole
          (subst (λ o. Delivers limit s.connection (chunk ++ rest) (after_read site more o s'))
            (sym r.chunk)
            (after_read-chunk more chunk rest (omega arith) (omega (arith, r.at_most, size.2)) next
              s' ok))

    send_range-Sends :
        (p : Slice)
        → IsSlice (length content) p
        → Sends (send_range site path (length content) (range_at p)) (slice content p)
    unfolding send_range
    send_range-Sends p h =
        subst
          (λ left.
            Sends (send_bytes site path (suc (length content)) p.first left) (slice content p))
          (sym (range_length-slice p h.0))
          (send_bytes-Sends (suc (length content)) p.first (p.last - p.first + 1) (omega arith)
            (omega arith))

    after_write-Delivers :
        (c : Connection) (xs ys : Bytes) (more : S Bool) (o : Option (Bool × Session))
        → c.had_send_error ≡ false
        → Delivers limit c xs o
        → Sends more ys
        → Delivers limit c (xs ++ ys) (elim o as (λ _. Option (Bool × Session)) [
          | none ↦ none
          | some (b, t) ↦ after_write site more b t
        ])
    after_write-Delivers c xs ys more none ok a h = absurd a
    after_write-Delivers c xs ys more (some (true, t)) ok a h =
        Delivers-trans xs ys (more t) a (h t (a.same_error ∙ ok))
    after_write-Delivers c xs ys more (some (false, t)) ok a h =
        let p = take_prefix a.0 xs ys in (p.0, subst (λ l. Appends limit c l t.connection) p.1 a.1)

    -- Where ::send takes no more than it is given, there was no send error, and each read of the
    -- file gives at least one byte of it where there are some, and no more than it is asked for:
    -- for ranges inside the file, of a byte at least, the loop of sendStaticData returns, and where
    -- it returns true it appends the bytes of these ranges, in order, to the connection's stream
    -- (where less is appended, the connection refuses data from then on); where it returns false, a
    -- prefix of them.
    pub send_ranges-Sends :
        (ps : List Slice)
        → All (IsSlice (length content)) ps
        → Sends (send_ranges site path (length content) (map range_at ps)) (slices content ps)
    unfolding send_ranges
    send_ranges-Sends [] h s ok = Appends-refl s.connection
    send_ranges-Sends (p ∷ ps) h s ok =
        after_write-Delivers s.connection (slice content p) (slices content ps)
          (send_ranges site path (length content) (map range_at ps))
          (send_range site path (length content) (range_at p) s) ok (send_range-Sends p h.0 s ok)
          (send_ranges-Sends ps h.1)
