-- ===== src/Server/Kept/Rounds.antt =====
-- src/main/c/Server.cpp: `processEventQueue`, `poll` and `loop` keep what the smallest changes keep.
use seasocks.Prelude.{
  ℕ, ltb, if◌then◌else◌, ◌==◌, not, zero, suc, Bool, true, false, List, [], ◌∷◌, Option, none, some,
  inl, inr, Bool-cases,
}
use seasocks.Server.{Server, World}
use seasocks.Server.Events.{run_all, run_executables, remove_lame, process_event_queue}
use seasocks.Server.Loop.{round, finish, poll_round, poll, rounds, loop, loop_end, is_some}
use seasocks.Server.Kept.{
  Kept, act-Kept, delete_all-Kept, shutdown-Kept, check_and_dispatch_epoll-Kept,
}

module _ (world : World) (P : List ℕ → Server → Type 0) (k : Kept world P) where
  run_all-Kept : (xs : List ℕ) (s : Server) → P xs s → P [] (run_all world xs s)
  unfolding run_all
  run_all-Kept [] s h = h
  run_all-Kept (x ∷ xs) s h =
      run_all-Kept xs _
        (act-Kept world P k xs (world.on_run s.calls) _ (k.kept_calls xs _ _ (k.kept_run x xs s h)))

  remove_lame-Kept :
      (todo : List ℕ) (now : ℕ) (s : Server) → P todo s → P todo (remove_lame world now s)
  unfolding remove_lame
  remove_lame-Kept todo now s h = elim (Bool-cases (ltb now s.next_dead_connection_check)) [
    | inl e ↦ rw e h
    | inr e ↦ rw e (delete_all-Kept world P k todo _ s h)
  ]

  pub process_event_queue-Kept : (s : Server) → P [] s → P [] (process_event_queue world s)
  unfolding process_event_queue run_executables
  process_event_queue-Kept s h =
      remove_lame-Kept [] _ _ (k.kept_calls [] _ _ (run_all-Kept _ _ (k.kept_start s h)))

  pub round-Kept : (s : Server) → P [] s → P [] (round world s)
  unfolding round
  round-Kept s h = check_and_dispatch_epoll-Kept world P k [] _ (process_event_queue-Kept s h)

  pub finish-Kept : (s : Server) → P [] s → P [] (finish world s)
  unfolding finish
  finish-Kept s h = shutdown-Kept world P k [] _ (process_event_queue-Kept s h)

  if-Kept :
      (todo : List ℕ) {A : Type 0} (b : Bool) (x y : A × Server)
      → P todo x.1
      → P todo y.1
      → P todo (if b then x else y).1
  if-Kept todo true x y h g = h
  if-Kept todo false x y h g = g

  poll_round-Kept : (s : Server) → P [] s → P [] (poll_round world s).1
  unfolding poll_round
  poll_round-Kept s h =
      if-Kept [] (not (round world s).is_terminate) _ _ (round-Kept s h)
        (finish-Kept _ (round-Kept s h))

  claim-Kept :
      (thread : ℕ) (b : Bool) (s : Server)
      → P [] s
      → P [] (if b then record s { thread_id = thread } else s)
  claim-Kept thread true s h = k.kept_thread [] thread s h
  claim-Kept thread false s h = h

  pub poll-Kept : (thread : ℕ) (s : Server) → P [] s → P [] (poll world thread s).1
  unfolding poll
  poll-Kept thread s h =
      let t : Server = if s.thread_id == 0 then record s { thread_id = thread } else s in
      let g : P [] t = claim-Kept thread (s.thread_id == 0) s h in
      if-Kept [] (not (t.thread_id == thread)) _ _ g
        (if-Kept [] (not (is_some world t.listen_sock)) _ _ g (poll_round-Kept t g))

  -- What a loop that ends leaves.
  abbrev Rounds : Option Server → Type 0
  Rounds none = Unit {0}
  Rounds (some s) = P [] s

  abbrev pub Ends : Option (Bool × Server) → Type 0
  Ends none = Unit {0}
  Ends (some r) = P [] r.1

  if-Rounds :
      (b : Bool) (s : Server) (o : Option Server)
      → P [] s
      → Rounds o
      → Rounds (if b then some s else o)
  if-Rounds true s o h g = h
  if-Rounds false s o h g = g

  rounds-Rounds : (fuel : ℕ) (s : Server) → P [] s → Rounds (rounds world fuel s)
  unfolding rounds
  rounds-Rounds zero s h = if-Rounds s.is_terminate s none h tt
  rounds-Rounds (suc fuel) s h =
      if-Rounds s.is_terminate s (rounds world fuel (round world s)) h
        (rounds-Rounds fuel (round world s) (round-Kept s h))

  loop_end-Ends : (o : Option Server) → Rounds o → Ends (loop_end world o)
  loop_end-Ends none h = tt
  loop_end-Ends (some s) h = finish-Kept s h

  if-Ends : (b : Bool) (x y : Option (Bool × Server)) → Ends x → Ends y → Ends (if b then x else y)
  if-Ends true x y h g = h
  if-Ends false x y h g = g

  pub loop-Ends : (fuel thread : ℕ) (s : Server) → P [] s → Ends (loop world fuel thread s)
  unfolding loop
  loop-Ends fuel thread s h =
      if-Ends (not (is_some world s.listen_sock)) (some (false, s)) _ h
        (loop_end-Ends _ (rounds-Rounds fuel _ (k.kept_thread [] thread s h)))
