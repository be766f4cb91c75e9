-- ===== src/Server/Leaks.antt =====
-- src/main/c/Server.cpp: no descriptor that a server has accepted is lost, whatever epoll refuses.
use seasocks.Prelude.{
  ℕ, suc, ◌+◌, ◌≤◌, List, [], ◌∷◌, ◌++◌, Option, none, some, inl, inr, Bool-cases, arith,
}
use seasocks.Server.{Client, Server, World, execute, terminate}
use seasocks.Server.Sockets.{add_connection}
use seasocks.Server.Clients.{take_out, remove}
use seasocks.Server.Kept.{Kept}
use seasocks.Server.Ledger.{
  count, count-append, count_fds-append, fds, Taken, take_out-Taken, handle_accept-cases,
}

-- A descriptor that was accepted is that of a connection, or was closed: at least as often as it was
-- accepted.
abbrev pub NotLost : List ℕ → Server → Type 0
NotLost todo s = (x : ℕ) → count x s.accepted ≤ count x s.closed + count x (fds s.connections)

remove-NotLost :
    (todo : List ℕ) (o : Option (Client × List Client)) (s : Server)
    → Taken o s.connections
    → NotLost todo s
    → NotLost todo (remove o s)
unfolding remove
remove-NotLost todo none s t h = h
remove-NotLost todo (some (c, cs)) s t h =
    λ x. omega (arith, t x, h x, count-append x s.closed (c.fd ∷ []))

module _ (world : World) where
  add_connection-NotLost :
      (todo : List ℕ) (fd n : ℕ) (s : Server)
      → NotLost todo s
      → NotLost todo
          (add_connection world fd (record s { accepted = s.accepted ++ (fd ∷ []); calls = n }))
  unfolding add_connection
  add_connection-NotLost todo fd n s h x = elim (Bool-cases (world.epoll_add (suc n))) [
    | inl e ↦ rw e (
        omega (arith, h x, count-append x s.accepted (fd ∷ []), count_fds-append x s.connections _))
    | inr e ↦ rw e (
        omega (
          arith,
          h x,
          count-append x s.accepted (fd ∷ []),
          count-append x s.closed (fd ∷ []),
          count-append x (s.closed ++ (fd ∷ [])) (fd ∷ []),
        ))
  ]

  pub NotLost-Kept : Kept world NotLost
  unfolding execute terminate
  NotLost-Kept = record {
    kept_calls = λ todo n s h. h;
    kept_execute = λ todo id s h. h;
    kept_terminate = λ todo s h. h;
    kept_stop = λ todo s h. h;
    kept_read = λ todo received s h. h;
    kept_remove = λ todo id s h.
        remove-NotLost todo (take_out id s.connections) s (take_out-Taken id s.connections) h;
    kept_accept = λ todo s h.
        handle_accept-cases world (NotLost todo) s (λ n. h)
          (λ n fd x.
            omega
              (arith, h x, count-append x s.accepted (fd ∷ []), count-append x s.closed (fd ∷ [])))
          (λ n fd. add_connection-NotLost todo fd n s h);
    kept_listen = λ todo sock s h. h;
    kept_thread = λ todo thread s h. h;
    kept_start = λ s h. h;
    kept_run = λ x todo s h. h;
  }
