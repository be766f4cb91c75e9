-- ===== src/Server/Kept.antt =====
-- src/main/c/Server.cpp: an interface between the server's state and what is proved of every run. A
-- predicate on the executables still to run and the server that is kept by the smallest changes of the
-- state is kept by the event loop.
pub mod Rounds
use seasocks.Prelude.{
  ℕ, ltb, if◌then◌else◌, ◌==◌, not, ◌||◌, zero, suc, Bool, true, false, List, [], ◌∷◌, ◌++◌, Option,
  none, some, ◌≡◌, inl, inr, length, Bool-cases, Option-cases, arith,
}
use seasocks.Server.{
  Client, Server, World, Event, Target, listener, waker, client, Action, execute_action,
  terminate_action, tick, act, execute, terminate,
}
use seasocks.Server.Sockets.{handle_accept}
use seasocks.Server.Clients.{
  take_out, remove, delete_connection, delete_all, delete_known, close_listener, delete_front,
  shutdown, is_known,
}
use seasocks.Server.Events.{
  eagain, ewouldblock, ready_for_write, ready_for_read, handle_connection_events, handle_pipe,
  unexpected, to_delete, dispatch_event, dispatch_events, dispatch_waited, check_and_dispatch_epoll,
  run_all, run_executables, lame, remove_lame, process_event_queue,
}
use seasocks.Server.Loop.{round, finish, poll_round, poll, rounds, loop, loop_end, is_some}

pub record Kept (world : World) (P : List ℕ → Server → Type 0) : Type 0 where
  pub kept_calls : (todo : List ℕ) (n : ℕ) (s : Server) → P todo s → P todo (record s { calls = n })
  pub kept_execute : (todo : List ℕ) (id : ℕ) (s : Server) → P todo s → P todo (execute id s)
  pub kept_terminate : (todo : List ℕ) (s : Server) → P todo s → P todo (terminate s)
  pub kept_stop :
      (todo : List ℕ) (s : Server) → P todo s → P todo (record s { is_terminate = true })
  pub kept_read :
      (todo : List ℕ) (received : ℕ → ℕ) (s : Server)
      → P todo s
      → P todo (record s { received = received })
  pub kept_remove :
      (todo : List ℕ) (id : ℕ) (s : Server)
      → P todo s
      → P todo (remove (take_out id s.connections) s)
  pub kept_accept : (todo : List ℕ) (s : Server) → P todo s → P todo (handle_accept world s)
  pub kept_listen :
      (todo : List ℕ) (sock : Option ℕ) (s : Server)
      → P todo s
      → P todo (record s { listen_sock = sock })
  pub kept_thread :
      (todo : List ℕ) (thread : ℕ) (s : Server)
      → P todo s
      → P todo (record s { thread_id = thread })
  pub kept_start :
      (s : Server) → P [] s → P s.pending_executables (record s { pending_executables = [] })
  pub kept_run :
      (x : ℕ) (todo : List ℕ) (s : Server)
      → P (x ∷ todo) s
      → P todo (record s { ran = s.ran ++ (x ∷ []) })

module _ (world : World) (P : List ℕ → Server → Type 0) (k : Kept world P) where
  pub act-Kept :
      (todo : List ℕ) (actions : List Action) (s : Server) → P todo s → P todo (act actions s)
  unfolding act
  act-Kept todo [] s h = h
  act-Kept todo (execute_action id ∷ actions) s h =
      act-Kept todo actions (execute id s) (k.kept_execute todo id s h)
  act-Kept todo (terminate_action ∷ actions) s h =
      act-Kept todo actions (terminate s) (k.kept_terminate todo s h)

  pub delete_connection-Kept :
      (todo : List ℕ) (id : ℕ) (s : Server) → P todo s → P todo (delete_connection world id s)
  unfolding delete_connection
  delete_connection-Kept todo id s h =
      k.kept_remove todo id _
        (act-Kept todo (world.on_disconnect s.calls) (tick s) (k.kept_calls todo _ s h))

  pub delete_all-Kept :
      (todo : List ℕ) (ids : List ℕ) (s : Server) → P todo s → P todo (delete_all world ids s)
  unfolding delete_all
  delete_all-Kept todo [] s h = h
  delete_all-Kept todo (id ∷ ids) s h =
      delete_all-Kept todo ids (delete_connection world id s) (delete_connection-Kept todo id s h)

  pub delete_known-Kept :
      (todo : List ℕ) (ids : List ℕ) (s : Server) → P todo s → P todo (delete_known world ids s)
  unfolding delete_known
  delete_known-Kept todo [] s h = h
  delete_known-Kept todo (id ∷ ids) s h = elim (Bool-cases (is_known id s.connections)) [
    | inl e ↦ rw e (
        delete_known-Kept todo ids (delete_connection world id s)
          (delete_connection-Kept todo id s h))
    | inr e ↦ rw e (k.kept_stop todo s h)
  ]

  pub delete_front-Kept :
      (todo : List ℕ) (fuel : ℕ) (s : Server) → P todo s → P todo (delete_front world fuel s)
  unfolding delete_front
  delete_front-Kept todo zero s h = h
  delete_front-Kept todo (suc fuel) s h =
      elim s.connections
        as (λ cs. P todo (elim cs [
          | [] ↦ s
          | c ∷ cs ↦ delete_front world fuel (delete_connection world c.id s)
        ])) [
          | [] ↦ h
          | c ∷ cs ↦
              delete_front-Kept todo fuel (delete_connection world c.id s)
                (delete_connection-Kept todo c.id s h)
        ]

  pub close_listener-Kept :
      (todo : List ℕ) (sock : Option ℕ) (s : Server)
      → P todo s
      → P todo (close_listener world sock s)
  unfolding close_listener
  close_listener-Kept todo none s h = h
  close_listener-Kept todo (some fd) s h = k.kept_listen todo none s h

  pub shutdown-Kept : (todo : List ℕ) (s : Server) → P todo s → P todo (shutdown world s)
  unfolding shutdown
  shutdown-Kept todo s h = delete_front-Kept todo _ _ (close_listener-Kept todo s.listen_sock s h)

  pub ready_for_write-Kept :
      (todo : List ℕ) (s : Server) → P todo s → P todo (ready_for_write world s)
  unfolding ready_for_write
  ready_for_write-Kept todo s h =
      act-Kept todo (world.on_write s.calls) (tick s) (k.kept_calls todo _ s h)

  pub ready_for_read-Kept :
      (todo : List ℕ) (id : ℕ) (s : Server) → P todo s → P todo (ready_for_read world id s)
  unfolding ready_for_read
  ready_for_read-Kept todo id s h =
      act-Kept todo (world.on_read s.calls) _ (k.kept_calls todo _ _ (k.kept_read todo _ s h))

  pub if_write-Kept :
      (todo : List ℕ) (is_out : Bool) (s : Server)
      → P todo s
      → P todo (if is_out then ready_for_write world s else s)
  if_write-Kept todo true s h = ready_for_write-Kept todo s h
  if_write-Kept todo false s h = h

  pub if_read-Kept :
      (todo : List ℕ) (id : ℕ) (is_in : Bool) (s : Server)
      → P todo s
      → P todo (if is_in then ready_for_read world id s else s)
  if_read-Kept todo id true s h = ready_for_read-Kept todo id s h
  if_read-Kept todo id false s h = h

  pub handle_connection_events-Kept :
      (todo : List ℕ) (id : ℕ) (e : Event) (s : Server)
      → P todo s
      → P todo (handle_connection_events world id e s).1
  unfolding handle_connection_events
  handle_connection_events-Kept todo id e s h = elim (Bool-cases e.is_other) [
    | inl other ↦ rw other h
    | inr other ↦ rw other (elim (Bool-cases e.is_err) [
      | inl err ↦ rw err h
      | inr err ↦ rw err (elim (Bool-cases e.is_hup) [
        | inl hup ↦ rw hup h
        | inr hup ↦ rw hup (if_read-Kept todo id e.is_in _ (if_write-Kept todo e.is_out s h))
      ])
    ])
  ]

  pub handle_pipe-Kept : (todo : List ℕ) (s : Server) → P todo s → P todo (handle_pipe world s)
  unfolding handle_pipe
  handle_pipe-Kept todo s h =
      elim (Bool-cases (
        not (world.event_errno s.calls == eagain)
        || not (world.event_errno s.calls == ewouldblock))) [
          | inl e ↦ rw e (k.kept_stop todo (tick s) (k.kept_calls todo _ s h))
          | inr e ↦ rw e (k.kept_calls todo _ s h)
        ]

  pub dispatch_event-Kept :
      (todo : List ℕ) (more : List ℕ → Server → List ℕ × Server)
      → ((ids : List ℕ) (s : Server) → P todo s → P todo (more ids s).1)
      → (e : Event) (target : Target) (ids : List ℕ) (s : Server) → P todo s
      → P todo (dispatch_event world more e target ids s).1
  unfolding dispatch_event
  dispatch_event-Kept todo more rest e listener ids s h = elim (Bool-cases (unexpected e)) [
    | inl u ↦ rw u (k.kept_stop todo s h)
    | inr u ↦ rw u (rest ids _ (k.kept_accept todo s h))
  ]
  dispatch_event-Kept todo more rest e waker ids s h = elim (Bool-cases (unexpected e)) [
    | inl u ↦ rw u (k.kept_stop todo s h)
    | inr u ↦ rw u (rest ids _ (handle_pipe-Kept todo s h))
  ]
  dispatch_event-Kept todo more rest e (client id) ids s h =
      rest _ _ (handle_connection_events-Kept todo id e s h)

  pub dispatch_events-Kept :
      (todo : List ℕ) (es : List Event) (ids : List ℕ) (s : Server)
      → P todo s
      → P todo (dispatch_events world es ids s).1
  unfolding dispatch_events
  dispatch_events-Kept todo [] ids s h = h
  dispatch_events-Kept todo (e ∷ es) ids s h =
      dispatch_event-Kept todo (dispatch_events world es) (dispatch_events-Kept todo es) e e.target
        ids s h

  pub dispatch_waited-Kept :
      (todo : List ℕ) (o : Option (List Event)) (s : Server)
      → P todo s
      → P todo (dispatch_waited world o s)
  unfolding dispatch_waited
  dispatch_waited-Kept todo none s h = h
  dispatch_waited-Kept todo (some es) s h =
      delete_known-Kept todo _ _ (dispatch_events-Kept todo es [] s h)

  pub check_and_dispatch_epoll-Kept :
      (todo : List ℕ) (s : Server) → P todo s → P todo (check_and_dispatch_epoll world s)
  unfolding check_and_dispatch_epoll
  check_and_dispatch_epoll-Kept todo s h = dispatch_waited-Kept todo _ _ (k.kept_calls todo _ s h)
