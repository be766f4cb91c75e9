-- ===== src/Json.antt =====
-- src/main/c/util/Json.cpp and src/main/c/seasocks/util/Json.h: what is written to a stream as JSON.
pub mod Reader
pub mod Strings
pub mod Document
pub mod Written
pub mod RoundTrip
mod Tests
use seasocks.Prelude.{
  ℕ, suc, ◌-◌, ◌*◌, ◌^◌, Bool, true, false, ◌||◌, List, [], ◌∷◌, ◌++◌, length, replicate, leb, ◌==◌,
  if◌then◌else◌, Bytes, codes,
}
use seasocks.Text.Digits.{to_string, to_hex}
use seasocks.Text.Words.{c_str}

-- What is put into an `ostream`, by whether `std::hex` was put before, and whether it is then.
abbrev pub Output : Type 0
Output = Bool → Bytes × Bool

infixl 5 ◌>>◌
abbrev pub ◌>>◌ : Output → Output → Output
◌>>◌ m k hex = let a = m hex in let b = k a.1 in (a.0 ++ b.0, b.1)

abbrev pub put : Bytes → Output
put bytes hex = (bytes, hex)

abbrev backslashed : ℕ → Output
backslashed c = put (b'\\' ∷ (c ∷ []))

-- `"\\u"`, `setw(4)`, `setfill('0')`, `hex`.
abbrev control : ℕ → Output
control c hex = (codes "\\u" ++ (replicate (4 - length (to_hex c)) b'0' ++ to_hex c), true)

unfoldable pub json_char : ℕ → Output
unfolding to_hex
json_char c =
    if c == 8
    then backslashed b'b'
    else if c == 9
    then backslashed b't'
    else if c == 10
    then backslashed b'n'
    else if c == 12
    then backslashed b'f'
    else if c == 13
    then backslashed b'r'
    else if c == b'"' || c == b'\\'
    then backslashed c
    else if leb 32 c
    then put (c ∷ [])
    else control c

unfoldable pub json_chars : Bytes → Output
unfolding json_char
json_chars [] = put []
json_chars (c ∷ cs) = json_char c >> json_chars cs

-- The overload for `const char*`, which that for `std::string` calls.
unfoldable pub json_text : Bytes → Output
unfolding json_chars c_str
json_text t = put (b'"' ∷ []) >> (json_chars (c_str t) >> put (b'"' ∷ []))

unfoldable pub json_number : ℕ → Output
unfolding to_hex to_string
json_number n hex = (if hex then to_hex n else to_string n, hex)

-- What is written: text, a truth value, an integer that is not negative, a string that is JSON already,
-- an object with a time, or one with `operator<<`.
pub data Json : Type 0 where
  text : Bytes → Json
  boolean : Bool → Json
  number : ℕ → Json
  jsonned : Bytes → Json
  epoch_time : ℕ → Json
  streamable : Bytes → Json

-- The overloads of `jsonToStream` for one value.
unfoldable pub json_to_stream : Json → Output
unfolding json_text json_number
json_to_stream (text t) = json_text t
json_to_stream (boolean b) = put (if b then codes "true" else codes "false")
json_to_stream (number n) = json_number n
json_to_stream (jsonned t) = put t
json_to_stream (epoch_time t) =
    put (codes "new Date(") >> (json_number (t * 1000) >> put (codes ").toLocaleString()"))
json_to_stream (streamable t) = put (b'"' ∷ (t ++ (b'"' ∷ [])))

-- Values with a comma between them: the overload for several, and the loop over a container.
unfoldable pub json_values : List Json → Output
unfolding json_to_stream
json_values [] = put []
json_values (j ∷ []) = json_to_stream j
json_values (j ∷ (k ∷ js)) = json_to_stream j >> (put (b',' ∷ []) >> json_values (k ∷ js))

-- `jsonKeyPairToStream`.
unfoldable pub json_pair : Bytes → Json → Output
unfolding json_text json_to_stream
json_pair key value = json_text key >> (put (b':' ∷ []) >> json_to_stream value)

unfoldable pub json_pairs : List (Bytes × Json) → Output
unfolding json_pair
json_pairs [] = put []
json_pairs ((key, value) ∷ []) = json_pair key value
json_pairs ((key, value) ∷ (p ∷ ps)) =
    json_pair key value >> (put (b',' ∷ []) >> json_pairs (p ∷ ps))

-- The text of a new stream.
abbrev on_new_stream : Output → Bytes
on_new_stream m = (m false).0

unfoldable pub make_map : List (Bytes × Json) → Bytes
unfolding json_pairs
make_map ps = on_new_stream (put (b'{' ∷ []) >> (json_pairs ps >> put (b'}' ∷ [])))

unfoldable pub make_array : List Json → Bytes
unfolding json_values
make_array js = on_new_stream (put (b'[' ∷ []) >> (json_values js >> put (b']' ∷ [])))

unfoldable pub make_exec_string : Bytes → List Json → Bytes
unfolding json_values
make_exec_string function js =
    on_new_stream (put function >> (put (b'(' ∷ []) >> (json_values js >> put (b')' ∷ []))))

unfoldable pub to_json : Json → Bytes
unfolding json_to_stream
to_json j = on_new_stream (json_to_stream j)
