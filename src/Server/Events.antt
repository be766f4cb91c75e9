-- ===== src/Server/Events.antt =====
-- src/main/c/Server.cpp: one round of the event loop.
use seasocks.Prelude.{
  ℕ, suc, ◌+◌, Bool, true, not, ◌&&◌, ◌||◌, List, [], ◌∷◌, ◌++◌, Option, none, some, ltb, leb, ◌==◌,
  if◌then◌else◌,
}
use seasocks.Server.{Client, Server, World, Event, Target, listener, waker, client, tick, act}
use seasocks.Server.Sockets.{handle_accept}
use seasocks.Server.Clients.{delete_all, delete_known}

pub data NewState : Type 0 where
  keep_open close : NewState

-- On Linux both errors of a read that would block are 11.
abbrev pub eagain : ℕ
eagain = 11

abbrev pub ewouldblock : ℕ
ewouldblock = 11

-- Bits that the listening socket and the event descriptor must not have.
abbrev pub unexpected : Event → Bool
unexpected e = e.is_out || e.is_err || e.is_hup || e.is_other

abbrev pub to_delete : NewState → ℕ → List ℕ → List ℕ
to_delete keep_open id ids = ids
to_delete close id ids = ids ++ (id ∷ [])

-- Connections that have sent nothing for too long.
abbrev pub is_lame : Server → ℕ → Client → Bool
is_lame s now c = s.received c.id == 0 && leb (c.since + s.lame_connection_timeout_seconds) now

unfoldable pub lame : Server → ℕ → List Client → List ℕ
lame s now [] = []
lame s now (c ∷ cs) = let rest = lame s now cs in if is_lame s now c then c.id ∷ rest else rest

module _ (world : World) where
  -- `handleDataReadyForWrite` and `handleDataReadyForRead`, as far as the server sees them.
  unfoldable pub ready_for_write : Server → Server
  ready_for_write s = act (world.on_write s.calls) (tick s)

  unfoldable pub ready_for_read : ℕ → Server → Server
  ready_for_read id s =
      let n : ℕ = world.read_size s.calls in
      let received : ℕ → ℕ =
        λ other. if other == id then s.received other + n else s.received other in
      act (world.on_read s.calls) (record s { received = received; calls = suc s.calls })

  unfoldable pub handle_connection_events : ℕ → Event → Server → NewState × Server
  unfolding ready_for_write ready_for_read
  handle_connection_events id event s =
      if event.is_other
      then (close, s)
      else if event.is_err
      then (close, s)
      else if event.is_hup
      then (close, s)
      else let t = if event.is_out then ready_for_write s else s in
        (keep_open, if event.is_in then ready_for_read id t else t)

  -- The drain of the event descriptor ends by an error.
  unfoldable pub handle_pipe : Server → Server
  handle_pipe s =
      let errno = world.event_errno s.calls in
      if not (errno == eagain) || not (errno == ewouldblock)
      then record s { is_terminate = true; calls = suc s.calls }
      else tick s

  -- What is done on an event, and with the events behind it by `more`; `ids` are the connections that
  -- are to be deleted so far. An unexpected event ends the loop over the events.
  unfoldable pub dispatch_event :
      (List ℕ → Server → List ℕ × Server) → Event → Target → List ℕ → Server → List ℕ × Server
  unfolding handle_connection_events handle_pipe
  dispatch_event more e listener ids s =
      if unexpected e
      then (ids, record s { is_terminate = true })
      else more ids (handle_accept world s)
  dispatch_event more e waker ids s =
      if unexpected e then (ids, record s { is_terminate = true }) else more ids (handle_pipe s)
  dispatch_event more e (client id) ids s =
      let r = handle_connection_events id e s in more (to_delete r.0 id ids) r.1

  unfoldable pub dispatch_events : List Event → List ℕ → Server → List ℕ × Server
  unfolding dispatch_event
  dispatch_events [] ids s = (ids, s)
  dispatch_events (e ∷ es) ids s = dispatch_event (dispatch_events es) e e.target ids s

  unfoldable pub dispatch_waited : Option (List Event) → Server → Server
  unfolding dispatch_events
  dispatch_waited none s = s
  dispatch_waited (some events) s =
      let r = dispatch_events events [] s in delete_known world r.0 r.1

  unfoldable pub check_and_dispatch_epoll : Server → Server
  unfolding dispatch_waited
  check_and_dispatch_epoll s = dispatch_waited (world.epoll_wait s.calls) (tick s)

  -- `runExecutables`: those that were enqueued before; one that is enqueued by another waits.
  unfoldable pub run_all : List ℕ → Server → Server
  run_all [] s = s
  run_all (x ∷ xs) s =
      run_all xs
        (act (world.on_run s.calls) (record s { ran = s.ran ++ (x ∷ []); calls = suc s.calls }))

  unfoldable pub run_executables : Server → Server
  unfolding run_all
  run_executables s = run_all s.pending_executables (record s { pending_executables = [] })

  unfoldable pub remove_lame : ℕ → Server → Server
  unfolding lame
  remove_lame now s =
      if ltb now s.next_dead_connection_check
      then s
      else delete_all world (lame s now s.connections) s

  unfoldable pub process_event_queue : Server → Server
  unfolding run_executables remove_lame
  process_event_queue s = let t = run_executables s in remove_lame (world.time t.calls) (tick t)
