-- ===== src/Server/Stats.antt =====
-- src/main/c/Server.cpp: `getStatsDocument`, which writes one line for each connection.
use seasocks.Prelude.{ℕ, false, List, [], ◌∷◌, ◌++◌, Option, none, some, Bytes, codes}
use seasocks.Json.{Json, text, number, epoch_time, Output, ◌>>◌, put, json_pairs}

-- What the document asks of a connection; `formatAddress` is the system's.
pub record ConnectionStats : Type 0 where
  pub since : ℕ
  pub fd : ℕ
  pub id : ℕ
  pub request_uri : Bytes
  pub address : Bytes
  pub username : Option Bytes
  pub input_buffer_size : ℕ
  pub bytes_received : ℕ
  pub output_buffer_size : ℕ
  pub bytes_sent : ℕ

abbrev pub user : Option Bytes → Bytes
user none = codes "(not authed)"
user (some name) = name

abbrev pub stats_pairs : ConnectionStats → List (Bytes × Json)
stats_pairs c =
    (codes "since", epoch_time c.since)
    ∷ (codes "fd", number c.fd)
    ∷ (codes "id", number c.id)
    ∷ (codes "uri", text c.request_uri)
    ∷ (codes "addr", text c.address)
    ∷ (codes "user", text (user c.username))
    ∷ (codes "input", number c.input_buffer_size)
    ∷ (codes "read", number c.bytes_received)
    ∷ (codes "output", number c.output_buffer_size)
    ∷ (codes "written", number c.bytes_sent)
    ∷ []

-- The loop over the connections, all into one stream.
unfoldable pub stats_lines : List ConnectionStats → Output
unfolding json_pairs
stats_lines [] = put []
stats_lines (c ∷ cs) =
    put (codes "connection({")
    >> (json_pairs (stats_pairs c) >> (put (codes "});\n") >> stats_lines cs))

unfoldable pub get_stats_document : List ConnectionStats → Bytes
unfolding stats_lines
get_stats_document cs = codes "clear();\n" ++ (stats_lines cs false).0
