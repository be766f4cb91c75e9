-- ===== src/Server/Loop.antt =====
-- src/main/c/Server.cpp: `loop`, `poll` and `checkThread`.
use seasocks.Prelude.{ℕ, zero, suc, Bool, true, false, not, Option, none, some, ◌==◌, if◌then◌else◌}
use seasocks.Server.{Server, World}
use seasocks.Server.Clients.{shutdown}
use seasocks.Server.Events.{process_event_queue, check_and_dispatch_epoll}

pub data PollResult : Type 0 where
  continue terminated error : PollResult

-- Whether a call of `checkThread` on the thread does not throw.
unfoldable pub check_thread : ℕ → Server → Bool
check_thread thread s = thread == s.thread_id

module _ (world : World) where
  unfoldable pub round : Server → Server
  round s = check_and_dispatch_epoll world (process_event_queue world s)

  -- Behind the last round.
  unfoldable pub finish : Server → Server
  finish s = shutdown world (process_event_queue world s)

  unfoldable pub poll_round : Server → PollResult × Server
  unfolding round finish
  poll_round s =
      let t = round s in
      if not t.is_terminate
      then (continue, t)
      else let u = finish t in (if u.expected_terminate then terminated else error, u)

  abbrev pub is_some : Option ℕ → Bool
  is_some none = false
  is_some (some fd) = true

  -- `poll` on a thread, whose id is not 0.
  unfoldable pub poll : ℕ → Server → PollResult × Server
  unfolding poll_round
  poll thread s =
      let t = if s.thread_id == 0 then record s { thread_id = thread } else s in
      if not (t.thread_id == thread)
      then (error, t)
      else if not (is_some t.listen_sock)
      then (error, t)
      else poll_round t

  -- The `while` of `loop`, for so many rounds; `none` is a loop that goes on.
  unfoldable pub rounds : ℕ → Server → Option Server
  unfolding round
  rounds zero s = if s.is_terminate then some s else none
  rounds (suc fuel) s = let rest = rounds fuel (round s) in if s.is_terminate then some s else rest

  abbrev pub loop_end : Option Server → Option (Bool × Server)
  loop_end none = none
  loop_end (some s) = let t = finish s in some (t.expected_terminate, t)

  unfoldable pub loop : ℕ → ℕ → Server → Option (Bool × Server)
  unfolding rounds finish
  loop fuel thread s =
      if not (is_some s.listen_sock)
      then some (false, s)
      else loop_end (rounds fuel (record s { thread_id = thread }))
