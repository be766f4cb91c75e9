-- ===== src/Server/Sockets.antt =====
-- src/main/c/Server.cpp: configuring sockets, listening, and accepting connections.
use seasocks.Prelude.{
  ℕ, suc, ◌%◌, ◌^◌, Bool, true, false, not, ◌||◌, List, [], ◌∷◌, ◌++◌, Option, none, some, ltb,
  ◌==◌, if◌then◌else◌,
}
use seasocks.Server.{Server, World, tick}
use seasocks.Server.Clients.{without, close_fd, finalise}

-- The socket options that are set, in order.
pub data SocketOption : Type 0 where
  reuse_addr reuse_port keep_alive tcp_keep_idle tcp_keep_intvl tcp_keep_cnt : SocketOption

abbrev pub keep_alive_options : Bool → List SocketOption
keep_alive_options false = []
keep_alive_options true = keep_alive ∷ tcp_keep_idle ∷ tcp_keep_intvl ∷ tcp_keep_cnt ∷ []

module _ (world : World) where
  unfoldable pub make_non_blocking : Server → Bool × Server
  make_non_blocking s = (world.non_blocking s.calls, tick s)

  -- The first option that fails ends it.
  unfoldable pub set_options : List SocketOption → Server → Bool × Server
  set_options [] s = (true, s)
  set_options (o ∷ os) s =
      let rest = set_options os (tick s) in
      if world.set_option s.calls then rest else (false, tick s)

  unfoldable pub configure_socket : Server → Bool × Server
  unfolding make_non_blocking set_options
  configure_socket s =
      let r = make_non_blocking s in
      if r.0
      then set_options (reuse_addr ∷ reuse_port ∷ keep_alive_options (ltb 0 s.max_keep_alive_drops))
          r.1
      else (false, r.1)

  -- From `bind` on, for both kinds of socket. `_listenSock` stays as it is where a call fails.
  unfoldable pub bind_and_listen : Server → Bool × Server
  bind_and_listen s =
      if world.bind s.calls
      then if world.listen (suc s.calls)
        then (world.epoll_add (suc (suc s.calls)), record s { calls = suc (suc (suc s.calls)) })
        else (false, record s { calls = suc (suc s.calls) })
      else (false, tick s)

  unfoldable pub listen_on : Option ℕ → Server → Bool × Server
  unfolding configure_socket bind_and_listen
  listen_on none s = (false, record s { listen_sock = none })
  listen_on (some fd) s =
      let r = configure_socket (record s { listen_sock = some fd }) in
      if r.0 then bind_and_listen r.1 else r

  -- `startListening` with an address; the port is an `int`, which is taken to be positive.
  unfoldable pub start_listening : ℕ → Server → Bool × Server
  unfolding listen_on
  start_listening port s =
      if not s.epoll_ok || not s.event_ok
      then (false, s)
      else if not (port == port % 2 ^ 16)
      then (false, s)
      else listen_on (world.socket s.calls) (tick s)

  unfoldable pub start_listening_unix : Server → Bool × Server
  unfolding listen_on
  start_listening_unix s = listen_on (world.socket s.calls) (tick s)

  -- A new connection that epoll does not take is deleted, and then its descriptor is closed. The
  -- connection has no handler yet and is not in the map, from which `remove` erases it.
  unfoldable pub add_connection : ℕ → Server → Server
  unfolding without
  add_connection fd s =
      let id = world.address s.calls in
      let t = tick s in
      if world.epoll_add t.calls
      then record t {
        connections =
            t.connections ++ (record { id = id; fd = fd; since = world.time (suc t.calls) } ∷ []);
        polled = t.polled ++ (fd ∷ []);
        calls = suc (suc t.calls);
      }
      else close_fd fd (finalise fd t.connections (tick t))

  unfoldable pub accepted_fd : Option ℕ → Server → Server
  unfolding configure_socket add_connection
  accepted_fd none s = s
  accepted_fd (some fd) s =
      let r = configure_socket (record s { accepted = s.accepted ++ (fd ∷ []) }) in
      if r.0 then add_connection fd r.1 else close_fd fd r.1

  unfoldable pub handle_accept : Server → Server
  unfolding accepted_fd
  handle_accept s = accepted_fd (world.accept s.calls) (tick s)
