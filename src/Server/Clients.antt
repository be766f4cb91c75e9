-- ===== src/Server/Clients.antt =====
-- src/main/c/Server.cpp: deleting connections, with the destructor of src/main/c/Connection.cpp.
use seasocks.Prelude.{
  ℕ, zero, suc, Bool, true, false, List, [], ◌∷◌, ◌++◌, Option, none, some, length, ◌==◌,
  if◌then◌else◌,
}
use seasocks.Server.{Client, Server, World, tick, act}

abbrev pub is_known : ℕ → List Client → Bool
is_known id [] = false
is_known id (c ∷ cs) = let rest = is_known id cs in if c.id == id then true else rest

-- The entry of a connection, with the entries that are left without it.
unfoldable pub take_out : ℕ → List Client → Option (Client × List Client)
take_out id [] = none
take_out id (c ∷ cs) =
    if c.id == id
    then some (c, cs)
    else elim (take_out id cs) [ none ↦ none | some (d, ds) ↦ some (d, c ∷ ds) ]

unfoldable pub without : ℕ → List ℕ → List ℕ
without x [] = []
without x (y ∷ ys) = let rest = without x ys in if y == x then rest else y ∷ rest

-- `::close` of a descriptor that `::accept` has given.
abbrev pub close_fd : ℕ → Server → Server
close_fd fd s = record s { closed = s.closed ++ (fd ∷ []) }

-- `finalise` for a connection with this descriptor: `remove`, which leaves the connections `cs`, and
-- the `::close`.
abbrev pub finalise : ℕ → List Client → Server → Server
finalise fd cs s =
    close_fd fd (record s { connections = cs; polled = without fd s.polled; calls = suc s.calls })

unfoldable pub remove : Option (Client × List Client) → Server → Server
unfolding without
remove none s = s
remove (some (c, cs)) s = finalise c.fd cs s

module _ (world : World) where
  -- The destructor of a connection of the server: `onDisconnect`, then `remove`.
  unfoldable pub delete_connection : ℕ → Server → Server
  unfolding remove take_out
  delete_connection id s =
      let t = act (world.on_disconnect s.calls) (tick s) in remove (take_out id t.connections) t

  unfoldable pub delete_all : List ℕ → Server → Server
  unfolding delete_connection
  delete_all [] s = s
  delete_all (id ∷ ids) s = delete_all ids (delete_connection id s)

  -- The list of the event loop, whose connections must be known.
  unfoldable pub delete_known : List ℕ → Server → Server
  unfolding delete_connection
  delete_known [] s = s
  delete_known (id ∷ ids) s =
      let rest = delete_known ids (delete_connection id s) in
      if is_known id s.connections then rest else record s { is_terminate = true }

  -- `shutdown`, in which the map is emptied from its front.
  -- Its `::close` is not recorded: `closed` has the descriptors that `::accept` has given.
  unfoldable pub close_listener : Option ℕ → Server → Server
  close_listener none s = s
  close_listener (some fd) s = record s { listen_sock = none }

  unfoldable pub delete_front : ℕ → Server → Server
  unfolding delete_connection
  delete_front zero s = s
  delete_front (suc fuel) s = elim s.connections [
    | [] ↦ s
    | c ∷ cs ↦ delete_front fuel (delete_connection c.id s)
  ]

  unfoldable pub shutdown : Server → Server
  unfolding close_listener delete_front
  shutdown s = let t = close_listener s.listen_sock s in delete_front (length t.connections) t
