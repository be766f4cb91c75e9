-- ===== src/Json/RoundTrip.antt =====
-- Documents that src/main/c/seasocks/util/Json.h writes are read back.
use seasocks.Prelude.{
  ℕ, zero, suc, ◌≤◌, ◌≡◌, refl, ap, sym, ◌∙◌, true, false, [], ◌∷◌, ◌++◌, append_assoc, append-nil,
  Option, some, ◌>>=◌, Bytes, All, arith,
}
use seasocks.Text.Digits.{to_string, value-to_string}
use seasocks.Text.Numbers.Printed.{to_string-Decimal, to_string-ne}
use seasocks.Text.Strings.{starts_with}
use seasocks.Json.{
  json_to_stream, json_number, json_values, json_pair, json_pairs, make_map, make_array, to_json,
}
use seasocks.Json.Reader.{
  Value, Values, Members, string, truth, whole, array, object, no_value, item, no_member, member,
  read_atom, behind, after, first, read_value, read_items, read_members,
}
use seasocks.Json.Strings.{IsPlain, text_body, json_text-plain, read_text-text_body}
use seasocks.Json.Document.{
  json_of, jsons_of, pairs_of, IsValue, AreValues, AreMembers, size, size_values, size_members,
  print, Ends,
}
use seasocks.Json.Written.{
  read_value-digits, Heads, print-Heads, items_text, members_text, items_text-item, json_pair-plain,
  members_text-one, members_text-member,
}

-- One member, and what comes behind its value.
read_members-one :
    (fuel : ℕ) (key : Bytes) (v : Value) (tail : Bytes)
    → All IsPlain key
    → read_value fuel (print v ++ tail) ≡ some (v, tail)
    → read_members (suc fuel) (b'"' ∷ (text_body key ++ (b':' ∷ (print v ++ tail))))
      ≡ (after b'}' no_member (read_members fuel) tail >>= λ ms. some (member key v ms.0, ms.1))
unfolding read_members
read_members-one fuel key v tail h e =
    let follow : Value × Bytes → Option (Members × Bytes) = λ v.
      after b'}' no_member (read_members fuel) v.1 >>= λ ms. some (member key v.0 ms.0, ms.1) in
    ap
      (λ o. o >>= λ key. behind b':' key.1 >>= λ s. read_value fuel s >>= λ v.
        after b'}' no_member (read_members fuel) v.1 >>= λ ms. some (member key.0 v.0 ms.0, ms.1))
      (read_text-text_body key (b':' ∷ (print v ++ tail)) h)
    ∙ ap (λ o. o >>= follow) e

read_items-one :
    (fuel : ℕ) (v : Value) (tail : Bytes)
    → read_value fuel (print v ++ tail) ≡ some (v, tail)
    → read_items (suc fuel) (print v ++ tail)
      ≡ (after b']' no_value (read_items fuel) tail >>= λ vs. some (item v vs.0, vs.1))
unfolding read_items
read_items-one fuel v tail e =
    ap
      (λ o.
        o >>= λ v. after b']' no_value (read_items fuel) v.1 >>= λ vs. some (item v.0 vs.0, vs.1))
      e

-- What begins otherwise is not the end.
first-Heads :
    {A : Type 0} (close : ℕ) (nothing : A) (s tail : Bytes) (more : Bytes → Option (A × Bytes))
    → Heads close s
    → first close nothing more (s ++ tail) ≡ more (s ++ tail)
first-Heads close nothing s tail more h =
    ap (λ s. first close nothing more (s ++ tail)) h.heads
    ∙ rw h.no_end (ap (λ s. more (s ++ tail)) (sym h.heads))

items-Heads : (v : Value) (vs : Values) → IsValue v → Heads b']' (items_text (item v vs))
unfolding json_values jsons_of
items-Heads v no_value h = print-Heads v h
items-Heads v (item w ws) h =
    let p = print-Heads v h in
    record {
      head = p.head;
      tail =
          p.tail
          ++ (b',' ∷ (json_values (jsons_of (item w ws)) (json_to_stream (json_of v) false).1).0);
      heads =
          ap
            (λ s.
              s
              ++ (b','
                  ∷ (json_values (jsons_of (item w ws)) (json_to_stream (json_of v) false).1).0))
            p.heads;
      no_end = p.no_end;
    }

members-Heads :
    (key : Bytes) (v : Value) (ms : Members)
    → All IsPlain key
    → Heads b'}' (members_text (member key v ms))
unfolding json_pairs pairs_of
members-Heads key v no_member h = record {
  head = b'"';
  tail = _;
  heads = ap (λ r. r.0) (json_pair-plain key (json_of v) h);
  no_end = refl;
}
members-Heads key v (member k w ws) h =
    let more : Bytes =
      b',' ∷ (json_pairs (pairs_of (member k w ws)) (json_pair key (json_of v) false).1).0 in
    record {
      head = b'"';
      tail = (text_body key ++ (b':' ∷ print v)) ++ more;
      heads = ap (λ r. r.0 ++ more) (json_pair-plain key (json_of v) h);
      no_end = refl;
    }

mutual
  unfolding read_value read_atom starts_with json_to_stream json_of json_number make_array make_map
      json_values json_pairs IsValue size

  read_value-print :
      (v : Value) (fuel : ℕ) (rest : Bytes)
      → IsValue v
      → size v ≤ fuel
      → Ends rest
      → read_value fuel (print v ++ rest) ≡ some (v, rest)
  read_value-print (string t) zero rest h enough k = absurd (omega arith)
  read_value-print (truth b) zero rest h enough k = absurd (omega arith)
  read_value-print (whole n) zero rest h enough k = absurd (omega arith)
  read_value-print (array vs) zero rest h enough k = absurd (omega arith)
  read_value-print (object ms) zero rest h enough k = absurd (omega arith)
  read_value-print (string t) (suc fuel) rest h enough k =
      ap (λ r. read_value (suc fuel) (r.0 ++ rest)) (json_text-plain t h)
      ∙ ap (λ o. o >>= λ t. some (string t.0, t.1)) (read_text-text_body t rest h)
  read_value-print (truth true) (suc fuel) [] h enough k = refl
  read_value-print (truth true) (suc fuel) (c ∷ rest) h enough k = refl
  read_value-print (truth false) (suc fuel) [] h enough k = refl
  read_value-print (truth false) (suc fuel) (c ∷ rest) h enough k = refl
  read_value-print (whole n) (suc fuel) rest h enough k =
      read_value-digits (to_string n) rest fuel (to_string-ne n) (to_string-Decimal n) k
      ∙ ap (λ n. some (whole n, rest)) (value-to_string n)
  read_value-print (array no_value) (suc fuel) rest h enough k = refl
  read_value-print (array (item v vs)) (suc fuel) rest h enough k =
      let close : Option (Values × Bytes) → Option (Value × Bytes) =
        λ o. o >>= λ vs. some (array vs.0, vs.1) in
      ap (λ s. close (first b']' no_value (read_items fuel) s))
        (append_assoc (items_text (item v vs)) (b']' ∷ []) rest)
      ∙ ap close (
          first-Heads b']' no_value (items_text (item v vs)) (b']' ∷ rest) (read_items fuel)
            (items-Heads v vs h.0)
          ∙ read_items-print v vs fuel rest h (omega arith))
  read_value-print (object no_member) (suc fuel) rest h enough k = refl
  read_value-print (object (member key v ms)) (suc fuel) rest h enough k =
      let close : Option (Members × Bytes) → Option (Value × Bytes) =
        λ o. o >>= λ ms. some (object ms.0, ms.1) in
      ap (λ s. close (first b'}' no_member (read_members fuel) s))
        (append_assoc (members_text (member key v ms)) (b'}' ∷ []) rest)
      ∙ ap close (
          first-Heads b'}' no_member (members_text (member key v ms)) (b'}' ∷ rest)
            (read_members fuel) (members-Heads key v ms h.0)
          ∙ read_members-print key v ms fuel rest h (omega arith))

  read_items-print :
      (v : Value) (vs : Values) (fuel : ℕ) (rest : Bytes)
      → AreValues (item v vs)
      → size_values (item v vs) ≤ fuel
      → read_items fuel (items_text (item v vs) ++ (b']' ∷ rest)) ≡ some (item v vs, rest)
  read_items-print v vs zero rest h enough = absurd (omega arith)
  read_items-print v no_value (suc fuel) rest h enough =
      read_items-one fuel v (b']' ∷ rest)
        (read_value-print v fuel (b']' ∷ rest) h.0 (omega arith) refl)
  read_items-print v (item w ws) (suc fuel) rest h enough =
      let tail : Bytes = b',' ∷ (items_text (item w ws) ++ (b']' ∷ rest)) in
      ap (read_items (suc fuel)) (items_text-item v w ws (b']' ∷ rest) h.0)
      ∙ read_items-one fuel v tail (read_value-print v fuel tail h.0 (omega arith) refl)
      ∙ ap (λ o. o >>= λ vs. some (item v vs.0, vs.1))
          (read_items-print w ws fuel rest h.1 (omega arith))

  read_members-print :
      (key : Bytes) (v : Value) (ms : Members) (fuel : ℕ) (rest : Bytes)
      → AreMembers (member key v ms)
      → size_members (member key v ms) ≤ fuel
      → read_members fuel (members_text (member key v ms) ++ (b'}' ∷ rest))
        ≡ some (member key v ms, rest)
  read_members-print key v ms zero rest h enough = absurd (omega arith)
  read_members-print key v no_member (suc fuel) rest h enough =
      ap (read_members (suc fuel)) (members_text-one key v (b'}' ∷ rest) h.0)
      ∙ read_members-one fuel key v (b'}' ∷ rest) h.0
          (read_value-print v fuel (b'}' ∷ rest) h.1 (omega arith) refl)
  read_members-print key v (member k w ws) (suc fuel) rest h enough =
      let tail : Bytes = b',' ∷ (members_text (member k w ws) ++ (b'}' ∷ rest)) in
      ap (read_members (suc fuel)) (members_text-member key v k w ws (b'}' ∷ rest) h.0 h.1)
      ∙ read_members-one fuel key v tail h.0 (read_value-print v fuel tail h.1 (omega arith) refl)
      ∙ ap (λ o. o >>= λ ms. some (member key v ms.0, ms.1))
          (read_members-print k w ws fuel rest h.2 (omega arith))

-- A document that is built by makeArray and makeMap, nested to any depth, from texts, truth values
-- and numbers that are not negative, and then written by to_json, is read back by RFC 8259 as that
-- document, and nothing is left, where no text and no key has a control character without an escape
-- of its own; the reader has as much fuel as the document has values, the elements and members of a
-- container counted once more.
pub read_value-to_json :
    (v : Value) (fuel : ℕ)
    → IsValue v
    → size v ≤ fuel
    → read_value fuel (to_json (json_of v)) ≡ some (v, [])
unfolding to_json
read_value-to_json v fuel h enough =
    ap (read_value fuel) (sym (append-nil (print v))) ∙ read_value-print v fuel [] h enough tt
