-- ===== src/Server/Ends.antt =====
-- src/main/c/Server.cpp: how `shutdown`, `poll` and `loop` end.
use seasocks.Prelude.{
  ℕ, zero, suc, Bool, true, false, not, List, [], ◌∷◌, ◌++◌, append_assoc, append-nil, Option, none,
  some, ◌≡◌, ◌≢◌, ◌⊎◌, refl, ap, sym, ◌∙◌, inl, inr, Bool-cases, ◌==◌, if◌then◌else◌, arith, length,
}
use seasocks.Server.{
  Client, Server, World, Action, execute_action, terminate_action, act, execute, terminate, tick,
}
use seasocks.Server.Clients.{
  take_out, remove, delete_connection, delete_front, close_listener, shutdown,
}
use seasocks.Server.Events.{process_event_queue}
use seasocks.Server.Loop.{
  PollResult, continue, terminated, error, round, finish, poll_round, poll, rounds, loop, loop_end,
  is_some,
}
use seasocks.Server.Kept.Rounds.{round-Kept}
use seasocks.Server.Ledger.{fds, Ending, Ending-Kept}

-- What a callback leaves as it is.
pub record Untouched (s t : Server) : Type 0 where
  pub same_connections : t.connections ≡ s.connections
  pub same_closed : t.closed ≡ s.closed
  pub same_sock : t.listen_sock ≡ s.listen_sock

act-Untouched : (actions : List Action) (s : Server) → Untouched s (act actions s)
unfolding act execute terminate
act-Untouched [] s = record { same_connections = refl; same_closed = refl; same_sock = refl }
act-Untouched (execute_action id ∷ actions) s = ground (arith, act-Untouched actions (execute id s))
act-Untouched (terminate_action ∷ actions) s = ground (arith, act-Untouched actions (terminate s))

take_out-first : (c : Client) (cs : List Client) → take_out c.id (c ∷ cs) ≡ some (c, cs)
unfolding take_out
take_out-first c cs = ground arith

-- The connections that are left, and the descriptors that are closed.
pub record Emptied (cs : List Client) (s t : Server) : Type 0 where
  pub left : t.connections ≡ cs
  pub closes : (t.closed ++ fds cs) ≡ s.closed ++ fds s.connections
  pub sock : t.listen_sock ≡ s.listen_sock

if_true {ℓ} : {A : Type ℓ} {b : Bool} (x y : A) → b ≡ true → (if b then x else y) ≡ x
if_true x y e = ap (λ b. if b then x else y) e

if_false {ℓ} : {A : Type ℓ} {b : Bool} (x y : A) → b ≡ false → (if b then x else y) ≡ y
if_false x y e = ap (λ b. if b then x else y) e

-- A server that listens no more and has no connections.
pub record IsDown (t : Server) : Type 0 where
  pub no_connections : t.connections ≡ []
  pub no_listener : t.listen_sock ≡ none

module _ (world : World) where
  delete_connection-first :
      (s : Server) (c : Client) (cs : List Client)
      → s.connections ≡ c ∷ cs
      → Emptied cs s (delete_connection world c.id s)
  unfolding delete_connection remove
  delete_connection-first s c cs e =
      let t = act (world.on_disconnect s.calls) (tick s) in
      let u : Untouched (tick s) t = act-Untouched (world.on_disconnect s.calls) (tick s) in
      let taken : take_out c.id t.connections ≡ some (c, cs) =
        ap (take_out c.id) (u.same_connections ∙ e) ∙ take_out-first c cs in
      rw taken (record {
        left = refl;
        closes =
            append_assoc t.closed (c.fd ∷ []) (fds cs)
            ∙ (ap (λ l. l ++ (c.fd ∷ fds cs)) u.same_closed ∙ ap (λ l. s.closed ++ fds l) (sym e));
        sock = u.same_sock;
      })

  delete_front-cons :
      (fuel : ℕ) (s : Server) (c : Client) (cs : List Client)
      → s.connections ≡ c ∷ cs
      → delete_front world (suc fuel) s ≡ delete_front world fuel (delete_connection world c.id s)
  unfolding delete_front
  delete_front-cons fuel s c cs e =
      ap
        (λ (l : List Client). elim l as (λ _. Server) [
          | [] ↦ s
          | d ∷ ds ↦ delete_front world fuel (delete_connection world d.id s)
        ])
        e

  delete_front-Emptied :
      (cs : List Client) (s : Server)
      → s.connections ≡ cs
      → Emptied [] s (delete_front world (length cs) s)
  unfolding delete_front
  delete_front-Emptied [] s e = record {
    left = e;
    closes = ap (λ l. s.closed ++ fds l) (sym e);
    sock = refl;
  }
  delete_front-Emptied (c ∷ cs) s e =
      let one = delete_connection-first s c cs e in
      let rest = delete_front-Emptied cs (delete_connection world c.id s) one.left in
      let there : delete_front world (suc (length cs)) s
          ≡ delete_front world (length cs) (delete_connection world c.id s) =
        delete_front-cons (length cs) s c cs e in
      rw there (record {
        left = rest.left;
        closes =
            rest.closes
            ∙ (ap (λ l. (delete_connection world c.id s).closed ++ fds l) one.left ∙ one.closes);
        sock = rest.sock ∙ one.sock;
      })

  close_listener-Untouched :
      (sock : Option ℕ) (s : Server)
      → sock ≡ s.listen_sock
      → ((close_listener world sock s).connections ≡ s.connections)
        × ((close_listener world sock s).closed ≡ s.closed)
        × ((close_listener world sock s).listen_sock ≡ none)
  unfolding close_listener
  close_listener-Untouched none s e = (refl, refl, sym e)
  close_listener-Untouched (some fd) s e = (refl, refl, refl)

  -- shutdown leaves no connection, closes the descriptor of each connection once, in their order,
  -- and leaves no listening socket.
  pub shutdown_lem :
      (s : Server)
      → ((shutdown world s).connections ≡ [])
        × ((shutdown world s).closed ≡ s.closed ++ fds s.connections)
        × ((shutdown world s).listen_sock ≡ none)
  unfolding shutdown
  shutdown_lem s =
      let t : Server = close_listener world s.listen_sock s in
      let kept = close_listener-Untouched s.listen_sock s refl in
      let e : Emptied [] t (delete_front world (length t.connections) t) =
        delete_front-Emptied t.connections t refl in
      (
        e.left,
        sym (append-nil _)
            ∙ (e.closes
                ∙ (ap (λ l. l ++ fds t.connections) kept.1 ∙ ap (λ l. s.closed ++ fds l) kept.0)),
        e.sock ∙ kept.2,
      )

  finish-IsDown : (s : Server) → IsDown (finish world s)
  unfolding finish
  finish-IsDown s =
      let e = shutdown_lem (process_event_queue world s) in
      record { no_connections = e.0; no_listener = e.2 }

  -- What each result of `poll` says of the server before it and of the one that it leaves.
  abbrev pub Outcome : ℕ → Server → PollResult × Server → Type 0
  Outcome thread s (continue, t) = (t.is_terminate ≡ false) × (t.expected_terminate ≡ false)
  Outcome thread s (terminated, t) = IsDown t × (t.expected_terminate ≡ true)
  Outcome thread s (error, t) =
      (IsDown t × (t.expected_terminate ≡ false))
      ⊎ (((t.thread_id ≢ thread) ⊎ (t.listen_sock ≡ none))
          × (t ≡ record s { thread_id = t.thread_id }))

  not_told : (t : Server) → Ending [] t → t.is_terminate ≡ false → t.expected_terminate ≡ false
  not_told t h e = elim (Bool-cases t.expected_terminate) [
    | inl told ↦ absurd (cc (h told))
    | inr untold ↦ untold
  ]

  finished-Outcome :
      (thread : ℕ) (s t : Server) (b : Bool)
      → t.expected_terminate ≡ b
      → IsDown t
      → Outcome thread s (if b then terminated else error, t)
  finished-Outcome thread s t true e d = (d, e)
  finished-Outcome thread s t false e d = inl (d, e)

  poll_round-Outcome :
      (thread : ℕ) (s t : Server) → Ending [] t → Outcome thread s (poll_round world t)
  unfolding poll_round
  poll_round-Outcome thread s t h =
      ended (round world t) (round world t).is_terminate refl
        (round-Kept world _ (Ending-Kept world) t h)
    where
      ended :
          (u : Server) (b : Bool)
          → u.is_terminate ≡ b
          → Ending [] u
          → Outcome thread s (
              if not b then (continue, u) else (
                if (finish world u).expected_terminate then terminated else error,
                finish world u,
              ))
      ended u false e h = (e, not_told u h e)
      ended u true e h =
          finished-Outcome thread s (finish world u) (finish world u).expected_terminate refl
            (finish-IsDown u)

  if-Outcome :
      (thread : ℕ) (s : Server) (b : Bool) (x y : PollResult × Server)
      → (b ≡ true → Outcome thread s x)
      → (b ≡ false → Outcome thread s y)
      → Outcome thread s (if b then x else y)
  if-Outcome thread s true x y h g = h refl
  if-Outcome thread s false x y h g = g refl

  claimed :
      (thread : ℕ) (b : Bool) (s : Server)
      → (if b then record s { thread_id = thread } else s)
        ≡ record s { thread_id = (if b then record s { thread_id = thread } else s).thread_id }
  claimed thread true s = refl
  claimed thread false s = refl

  claimed-Ending :
      (thread : ℕ) (b : Bool) (s : Server)
      → Ending [] s
      → Ending [] (if b then record s { thread_id = thread } else s)
  claimed-Ending thread true s h = h
  claimed-Ending thread false s h = h

  pub poll-Outcome :
      (thread : ℕ) (s : Server) → Ending [] s → Outcome thread s (poll world thread s)
  unfolding poll
  poll-Outcome thread s h =
      let t : Server = if s.thread_id == 0 then record s { thread_id = thread } else s in
      let same : t ≡ record s { thread_id = t.thread_id } = claimed thread (s.thread_id == 0) s in
      if-Outcome thread s (not (t.thread_id == thread)) _ _ (λ e. inr (inl (ground arith), same))
        (λ _.
          if-Outcome thread s (not (is_some world t.listen_sock)) _ _
            (λ e. inr (inr (not-is_some t.listen_sock e), same))
            (λ _. poll_round-Outcome thread s t (claimed-Ending thread (s.thread_id == 0) s h)))
    where
      not-is_some : (o : Option ℕ) → not (is_some world o) ≡ true → o ≡ none
      not-is_some none e = refl
      not-is_some (some fd) e = absurd (cc)

  -- The server behind so many rounds.
  abbrev pub after : ℕ → Server → Server
  after zero s = s
  after (suc n) s = after n (round world s)

  rounds-after :
      (k : ℕ) (s : Server)
      → (after k s).is_terminate ≡ true
      → (t : Server) × (rounds world k s ≡ some t) × (t.is_terminate ≡ true)
  unfolding rounds
  rounds-after zero s e = (s, if_true (some s) none e, e)
  rounds-after (suc k) s e = elim (Bool-cases s.is_terminate) [
    | inl d ↦ (s, if_true (some s) (rounds world k (round world s)) d, d)
    | inr d ↦
        let r = rounds-after k (round world s) e in
        (r.0, if_false (some s) (rounds world k (round world s)) d ∙ r.1, r.2)
  ]

  -- Where the server listens and a termination has been asked for, by whatever, after k rounds of
  -- the event loop or fewer, loop returns, with whether the termination was expected, and leaves no
  -- connection and no listening socket.
  pub loop_returns :
      (k thread fd : ℕ) (s : Server)
      → s.listen_sock ≡ some fd
      → (after k (record s { thread_id = thread })).is_terminate ≡ true
      → (t : Server) × (loop world k thread s ≡ some (t.expected_terminate, t)) × IsDown t
  unfolding loop
  loop_returns k thread fd s listens stops =
      let r = rounds-after k (record s { thread_id = thread }) stops in
      (
        finish world r.0,
        if_false (some (false, s)) _ (ap (λ o. not (is_some world o)) listens)
            ∙ ap (loop_end world) r.1,
        finish-IsDown r.0,
      )
