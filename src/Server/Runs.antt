-- ===== src/Server/Runs.antt =====
-- src/main/c/Server.cpp: the steps of a server, in any order: those of the loop, and the calls that
-- other threads may make between them. A loop is the steps of its rounds.
use seasocks.Prelude.{
  ℕ, suc, Bool, not, ◌||◌, ◌==◌, ◌%◌, ◌^◌, List, [], ◌∷◌, Option, none, some, ◌≡◌, refl, sym, subst,
  inl, inr, Bool-cases, ltb,
}
use seasocks.Server.{Server, World, execute, terminate, tick}
use seasocks.Server.Sockets.{
  SocketOption, keep_alive_options, reuse_addr, reuse_port, make_non_blocking, set_options,
  configure_socket, bind_and_listen, listen_on, start_listening, start_listening_unix,
}
use seasocks.Server.Clients.{shutdown}
use seasocks.Server.Events.{process_event_queue, check_and_dispatch_epoll}
use seasocks.Server.Loop.{poll, loop}
use seasocks.Server.Kept.{Kept, shutdown-Kept, check_and_dispatch_epoll-Kept}
use seasocks.Server.Kept.Rounds.{process_event_queue-Kept, poll-Kept, loop-Ends, Ends}

pub data Step (world : World) : Server → Server → Type 0 where
  executed : (id : ℕ) (s : Server) → Step world s (execute id s)
  terminated : (s : Server) → Step world s (terminate s)
  listened : (port : ℕ) (s : Server) → Step world s (start_listening world port s).1
  listened_unix : (s : Server) → Step world s (start_listening_unix world s).1
  processed : (s : Server) → Step world s (process_event_queue world s)
  dispatched : (s : Server) → Step world s (check_and_dispatch_epoll world s)
  polled : (thread : ℕ) (s : Server) → Step world s (poll world thread s).1
  looped :
      (fuel thread : ℕ) (s : Server) (r : Bool × Server)
      → loop world fuel thread s ≡ some r
      → Step world s r.1
  destroyed : (s : Server) → Step world s (shutdown world s)

pub data Reach (world : World) (s : Server) : Server → Type 0 where
  here : Reach world s s
  next : {t u : Server} → Reach world s t → Step world t u → Reach world s u

-- Only the number of the calls, after some options.
pub set_options-calls :
    (world : World) (os : List SocketOption) (s : Server)
    → (n : ℕ) × ((set_options world os s).1 ≡ record s { calls = n })
unfolding set_options
set_options-calls world [] s = (s.calls, refl)
set_options-calls world (o ∷ os) s = elim (Bool-cases (world.set_option s.calls)) [
  | inl e ↦ rw e (set_options-calls world os (tick s))
  | inr e ↦ rw e (suc s.calls, refl)
]

pub configure_socket-calls :
    (world : World) (s : Server) → (n : ℕ) × ((configure_socket world s).1 ≡ record s { calls = n })
unfolding configure_socket make_non_blocking
configure_socket-calls world s = elim (Bool-cases (world.non_blocking s.calls)) [
  | inl e ↦ rw e (
      set_options-calls world
        (reuse_addr ∷ reuse_port ∷ keep_alive_options (ltb 0 s.max_keep_alive_drops)) (tick s))
  | inr e ↦ rw e (suc s.calls, refl)
]

module _ (world : World) (P : List ℕ → Server → Type 0) (k : Kept world P) where
  configure_socket-Kept : (s : Server) → P [] s → P [] (configure_socket world s).1
  configure_socket-Kept s h =
      let r = configure_socket-calls world s in subst (P []) (sym r.1) (k.kept_calls [] r.0 s h)

  bind_and_listen-Kept : (s : Server) → P [] s → P [] (bind_and_listen world s).1
  unfolding bind_and_listen
  bind_and_listen-Kept s h = elim (Bool-cases (world.bind s.calls)) [
    | inl b ↦ rw b (elim (Bool-cases (world.listen (suc s.calls))) [
      | inl l ↦ rw l (k.kept_calls [] _ s h)
      | inr l ↦ rw l (k.kept_calls [] _ s h)
    ])
    | inr b ↦ rw b (k.kept_calls [] _ s h)
  ]

  listen_on-Kept : (sock : Option ℕ) (s : Server) → P [] s → P [] (listen_on world sock s).1
  unfolding listen_on
  listen_on-Kept none s h = k.kept_listen [] none s h
  listen_on-Kept (some fd) s h =
      let g =
        configure_socket-Kept (record s { listen_sock = some fd })
          (k.kept_listen [] (some fd) s h) in
      elim (Bool-cases (configure_socket world (record s { listen_sock = some fd })).0) [
        | inl e ↦ rw e (bind_and_listen-Kept _ g)
        | inr e ↦ rw e g
      ]

  start_listening-Kept : (port : ℕ) (s : Server) → P [] s → P [] (start_listening world port s).1
  unfolding start_listening
  start_listening-Kept port s h = elim (Bool-cases (not s.epoll_ok || not s.event_ok)) [
    | inl e ↦ rw e h
    | inr e ↦ rw e (elim (Bool-cases (not (port == port % 2 ^ 16))) [
      | inl p ↦ rw p h
      | inr p ↦ rw p (listen_on-Kept _ _ (k.kept_calls [] _ s h))
    ])
  ]

  pub Step-Kept : {s t : Server} → Step world s t → P [] s → P [] t
  unfolding start_listening_unix
  Step-Kept (executed id s) h = k.kept_execute [] id s h
  Step-Kept (terminated s) h = k.kept_terminate [] s h
  Step-Kept (listened port s) h = start_listening-Kept port s h
  Step-Kept (listened_unix s) h = listen_on-Kept _ _ (k.kept_calls [] _ s h)
  Step-Kept (processed s) h = process_event_queue-Kept world P k s h
  Step-Kept (dispatched s) h = check_and_dispatch_epoll-Kept world P k [] s h
  Step-Kept (polled thread s) h = poll-Kept world P k thread s h
  Step-Kept (looped fuel thread s r e) h =
      subst (Ends world P k) e (loop-Ends world P k fuel thread s h)
  Step-Kept (destroyed s) h = shutdown-Kept world P k [] s h

  pub Reach-Kept : {s t : Server} → Reach world s t → P [] s → P [] t
  Reach-Kept here h = h
  Reach-Kept (next r st) h = Step-Kept st (Reach-Kept r h)
