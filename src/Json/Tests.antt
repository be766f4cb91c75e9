-- ===== src/Json/Tests.antt =====
-- Texts of src/test/c/JsonTests.cpp, and one that is no JSON.
use seasocks.Prelude.{◌≡◌, refl, true, some, [], ◌∷◌, codes, arith}
use seasocks.Json.Reader.{
  Value, string, truth, whole, array, object, no_value, item, no_member, member, read_value,
}
use seasocks.Json.Document.{json_of, IsValue, size}
use seasocks.Json.RoundTrip.{read_value-to_json}
use seasocks.Json.{to_json, text, boolean, number, jsonned, make_map, make_array, make_exec_string}

map_of :
    make_map ((codes "b", boolean true) ∷ ((codes "k", text (codes "\"x\\")) ∷ []))
    ≡ codes "{\"b\":true,\"k\":\"\\\"x\\\\\"}"
unfolding make_map
map_of = refl

nested : make_array (jsonned (make_array (number 12 ∷ [])) ∷ []) ≡ codes "[[12]]"
unfolding make_array
nested = refl

-- A number behind a control character is written in hexadecimal.
hex_stays :
    make_array (number 16 ∷ (text (1 ∷ []) ∷ (number 16 ∷ []))) ≡ codes "[16,\"\\u0001\",10]"
unfolding make_array
hex_stays = refl

exec : make_exec_string (codes "f") (number 1 ∷ []) ≡ codes "f(1)"
unfolding make_exec_string
exec = refl

abbrev document : Value
document = object (
    member (codes "a") (array (item (whole 12) (item (string (codes "x\ny")) no_value)))
      (member (codes "b") (truth true) no_member))

read_value-to_json_example : read_value 9 (to_json (json_of document)) ≡ some (document, [])
unfolding IsValue size
read_value-to_json_example =
    read_value-to_json document 9
      ((refl, tt), (tt, ((refl, (refl, (refl, tt))), tt)), ((refl, tt), tt, tt)) (omega arith)
