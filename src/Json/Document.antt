-- ===== src/Json/Document.antt =====
-- Documents as src/main/c/seasocks/util/Json.h writes them.
use seasocks.Prelude.{ℕ, suc, ◌+◌, ◌≡◌, refl, ap, false, List, [], ◌∷◌, Bytes, All}
use seasocks.Text.Ascii.{is_digit}
use seasocks.Json.{
  Json, text, boolean, number, jsonned, json_to_stream, json_number, make_map, make_array,
}
use seasocks.Json.Reader.{
  Value, Values, Members, string, truth, whole, array, object, no_value, item, no_member, member,
}
use seasocks.Json.Strings.{IsPlain, json_text-plain}

-- A document, as a program builds it: its arrays by `makeArray` and its objects by `makeMap`.
unfoldable mutual
  unfolding make_array make_map

  pub json_of : Value → Json
  json_of (string t) = text t
  json_of (truth b) = boolean b
  json_of (whole n) = number n
  json_of (array vs) = jsonned (make_array (jsons_of vs))
  json_of (object ms) = jsonned (make_map (pairs_of ms))

  pub jsons_of : Values → List Json
  jsons_of no_value = []
  jsons_of (item v vs) = json_of v ∷ jsons_of vs

  pub pairs_of : Members → List (Bytes × Json)
  pairs_of no_member = []
  pairs_of (member key v ms) = (key, json_of v) ∷ pairs_of ms

-- Texts and keys have no control characters but the five with an escape of their own.
unfoldable mutual
  pub IsValue : Value → Type 0
  IsValue (string t) = All IsPlain t
  IsValue (truth b) = Unit
  IsValue (whole n) = Unit
  IsValue (array vs) = AreValues vs
  IsValue (object ms) = AreMembers ms

  pub AreValues : Values → Type 0
  AreValues no_value = Unit
  AreValues (item v vs) = IsValue v × AreValues vs

  pub AreMembers : Members → Type 0
  AreMembers no_member = Unit
  AreMembers (member key v ms) = All IsPlain key × IsValue v × AreMembers ms

unfoldable mutual
  pub size : Value → ℕ
  size (string t) = 1
  size (truth b) = 1
  size (whole n) = 1
  size (array vs) = suc (size_values vs)
  size (object ms) = suc (size_members ms)

  pub size_values : Values → ℕ
  size_values no_value = 0
  size_values (item v vs) = suc (size v + size_values vs)

  pub size_members : Members → ℕ
  size_members no_member = 0
  size_members (member key v ms) = suc (size v + size_members ms)

abbrev pub print : Value → Bytes
print v = (json_to_stream (json_of v) false).0

-- A number ends there.
abbrev pub Ends : Bytes → Type 0
Ends [] = Unit
Ends (c ∷ rest) = is_digit c ≡ false

pub print-decimal : (v : Value) → IsValue v → (json_to_stream (json_of v) false).1 ≡ false
unfolding json_to_stream json_of json_number IsValue
print-decimal (string t) h = ap (λ r. r.1) (json_text-plain t h)
print-decimal (truth b) h = refl
print-decimal (whole n) h = refl
print-decimal (array vs) h = refl
print-decimal (object ms) h = refl
