-- ===== src/Requests/Static/Tests.antt =====
-- Paths and files on one input.
use seasocks.Prelude.{ℕ, ◌≡◌, refl, List, [], ◌∷◌, map, codes, arith, length}
use seasocks.Connection.Example.{host, most}
use seasocks.Requests.Example.{site, session, content}
use seasocks.Requests.Static.{file_path, send_ranges}
use seasocks.Requests.Static.Body.{Slice, range_at, slices, Delivers, send_ranges-Sends, Reads}

index_of_folder : file_path (codes "/srv") (codes "/a/?x=1") ≡ codes "/srv/a/index.html"
unfolding file_path
index_of_folder = refl

abbrev two_slices : List Slice
two_slices = record { first = 0; last = 3 } ∷ record { first = 8; last = 9 } ∷ []

honest : (call offset n : ℕ) → Reads content offset n (site.read call [] offset n)
honest call offset n = record { got = n; at_most = omega arith; some_byte = λ h _. h; chunk = refl }

send_ranges-Sends_example :
    Delivers host.client_buffer_size session.connection
      (slices content two_slices)
      (send_ranges site [] (length content) (map range_at two_slices) session)
send_ranges-Sends_example =
    send_ranges-Sends site most [] content honest two_slices (omega arith) session refl
