-- ===== src/Json/Written.antt =====
-- The text of a document of src/main/c/seasocks/util/Json.h: how it begins, and what stands where.
use seasocks.Prelude.{
  ℕ, suc, ◌≡◌, ◌≢◌, refl, ap, ◌∙◌, true, false, [], ◌∷◌, ◌++◌, append_assoc, some, drop-append,
  ◌==◌, Bytes, All, arith, codes,
}
use seasocks.Text.Digits.{to_string, value}
use seasocks.Text.Numbers.{digits_of}
use seasocks.Text.Numbers.Printed.{Decimal, to_string-Decimal, to_string-ne}
use seasocks.Text.Strings.{starts_with}
use seasocks.Json.{
  Json, json_to_stream, json_number, json_values, json_pair, json_pairs, make_map, make_array,
}
use seasocks.Json.Reader.{
  Value, Values, Members, string, truth, whole, array, object, no_value, item, no_member, member,
  read_number, read_atom, read_value,
}
use seasocks.Json.Strings.{IsPlain, text_body, json_text-plain}
use seasocks.Json.Document.{json_of, jsons_of, pairs_of, IsValue, print, Ends, print-decimal}

pub digits_of-append : (s rest : Bytes) → Decimal s → Ends rest → digits_of (s ++ rest) ≡ s
unfolding digits_of
digits_of-append [] [] h k = refl
digits_of-append [] (c ∷ rest) h k = rw k refl
digits_of-append (b ∷ s) rest h k = rw h.0 (ap (◌∷◌ b) (digits_of-append s rest h.1 k))

pub read_value-digits :
    (s rest : Bytes) (fuel : ℕ)
    → s ≢ []
    → Decimal s
    → Ends rest
    → read_value (suc fuel) (s ++ rest) ≡ some (whole (value 10 0 s), rest)
unfolding read_value read_atom starts_with
read_value-digits [] rest fuel ne h k = absurd (ne refl)
read_value-digits (d ∷ ds) rest fuel ne h k =
    let no_quote : (d == b'"') ≡ false = ground (arith, h.0) in
    let no_array : (d == b'[') ≡ false = ground (arith, h.0) in
    let no_object : (d == b'{') ≡ false = ground (arith, h.0) in
    let no_true : (d == b't') ≡ false = ground (arith, h.0) in
    let no_false : (d == b'f') ≡ false = ground (arith, h.0) in
    rw (no_quote, no_array, no_object, no_true, no_false)
      (ap (λ n. read_number n ((d ∷ ds) ++ rest)) (digits_of-append (d ∷ ds) rest h k)
        ∙ ap (λ t. some (whole (value 10 0 (d ∷ ds)), t)) (drop-append (d ∷ ds) rest))

-- The first byte of a value.
pub record Heads (close : ℕ) (s : Bytes) : Type 0 where
  pub head : ℕ
  pub tail : Bytes
  pub heads : s ≡ head ∷ tail
  pub no_end : (head == close) ≡ false

pub Heads-Decimal : (s : Bytes) → s ≢ [] → Decimal s → Heads b']' s
Heads-Decimal [] ne h = absurd (ne refl)
Heads-Decimal (d ∷ ds) ne h = record {
  head = d;
  tail = ds;
  heads = refl;
  no_end = ground (arith, h.0);
}

pub print-Heads : (v : Value) → IsValue v → Heads b']' (print v)
unfolding json_to_stream json_of json_number IsValue make_array make_map
print-Heads (string t) h = record {
  head = b'"';
  tail = text_body t;
  heads = ap (λ r. r.0) (json_text-plain t h);
  no_end = refl;
}
print-Heads (truth true) h = record { head = b't'; tail = codes "rue"; heads = refl; no_end = refl }
print-Heads (truth false) h = record {
  head = b'f';
  tail = codes "alse";
  heads = refl;
  no_end = refl;
}
print-Heads (whole n) h = Heads-Decimal (to_string n) (to_string-ne n) (to_string-Decimal n)
print-Heads (array vs) h = record { head = b'['; tail = _; heads = refl; no_end = refl }
print-Heads (object ms) h = record { head = b'{'; tail = _; heads = refl; no_end = refl }

abbrev pub items_text : Values → Bytes
items_text vs = (json_values (jsons_of vs) false).0

abbrev pub members_text : Members → Bytes
members_text ms = (json_pairs (pairs_of ms) false).0

pub items_text-item :
    (v w : Value) (ws : Values) (rest : Bytes)
    → IsValue v
    → items_text (item v (item w ws)) ++ rest ≡ print v ++ (b',' ∷ (items_text (item w ws) ++ rest))
unfolding json_values jsons_of
items_text-item v w ws rest h =
    ap (λ b. (print v ++ (b',' ∷ (json_values (jsons_of (item w ws)) b).0)) ++ rest)
      (print-decimal v h)
    ∙ append_assoc (print v) (b',' ∷ items_text (item w ws)) rest

pub items_text-one :
    (v : Value) (rest : Bytes) → items_text (item v no_value) ++ rest ≡ print v ++ rest
unfolding json_values jsons_of
items_text-one v rest = refl

pub json_pair-plain :
    (key : Bytes) (j : Json)
    → All IsPlain key
    → json_pair key j false
      ≡ (b'"' ∷ (text_body key ++ (b':' ∷ (json_to_stream j false).0)), (json_to_stream j false).1)
unfolding json_pair
json_pair-plain key j h =
    ap (λ r. (r.0 ++ (b':' ∷ (json_to_stream j r.1).0), (json_to_stream j r.1).1))
      (json_text-plain key h)

pub pair_text :
    (key : Bytes) (v : Value) (tail : Bytes)
    → All IsPlain key
    → (json_pair key (json_of v) false).0 ++ tail
      ≡ b'"' ∷ (text_body key ++ (b':' ∷ (print v ++ tail)))
pair_text key v tail h =
    ap (λ r. r.0 ++ tail) (json_pair-plain key (json_of v) h)
    ∙ ap (◌∷◌ b'"') (append_assoc (text_body key) (b':' ∷ print v) tail)

pub members_text-one :
    (key : Bytes) (v : Value) (rest : Bytes)
    → All IsPlain key
    → members_text (member key v no_member) ++ rest
      ≡ b'"' ∷ (text_body key ++ (b':' ∷ (print v ++ rest)))
unfolding json_pairs pairs_of
members_text-one key v rest h = pair_text key v rest h

pub members_text-member :
    (key : Bytes) (v : Value) (k : Bytes) (w : Value) (ws : Members) (rest : Bytes)
    → All IsPlain key
    → IsValue v
    → members_text (member key v (member k w ws)) ++ rest
      ≡ b'"'
        ∷ (text_body key ++ (b':' ∷ (print v ++ (b',' ∷ (members_text (member k w ws) ++ rest)))))
unfolding json_pairs pairs_of
members_text-member key v k w ws rest h g =
    let out = json_pair key (json_of v) false in
    let same : out.1 ≡ false =
      ap (λ r. r.1) (json_pair-plain key (json_of v) h) ∙ print-decimal v g in
    ap (λ b. (out.0 ++ (b',' ∷ (json_pairs (pairs_of (member k w ws)) b).0)) ++ rest) same
    ∙ append_assoc out.0 (b',' ∷ members_text (member k w ws)) rest
    ∙ pair_text key v (b',' ∷ (members_text (member k w ws) ++ rest)) h
