-- ===== src/Server/Invariants.antt =====
-- src/main/c/Server.cpp: what holds of a server after any steps from its construction.
use seasocks.Prelude.{ℕ, Bool, true, [], ◌≡◌, refl, ◌++◌, arith}
use seasocks.Server.{Server, World, new_server}
use seasocks.Server.Ledger.{
  Ordered-Kept, Balanced, Balanced-Kept, Watched, Watched-Kept, Ending-Kept,
}
use seasocks.Server.Leaks.{NotLost, NotLost-Kept}
use seasocks.Server.Runs.{Reach, Reach-Kept}
use seasocks.Server.Ends.{Outcome, poll-Outcome}
use seasocks.Server.Loop.{poll}

module _ (world : World) (epoll_ok event_ok : Bool) (t : Server)
    (reach : Reach world (new_server epoll_ok event_ok) t) where
  -- After any steps from the construction of a server, with the calls of other threads between
  -- them, the executables that were enqueued are those that were run, in this order, and behind
  -- them those that wait: each is run once at most, in the order of execute, and none is lost.
  pub executables_in_order : t.posted ≡ t.ran ++ t.pending_executables
  unfolding new_server
  executables_in_order = Reach-Kept world _ (Ordered-Kept world) reach refl

  -- Where epoll takes every descriptor, after any steps from the construction of a server every
  -- number is as often among the accepted descriptors as among the closed ones and those of the
  -- connections together, and a descriptor that no connection has is not watched.
  pub descriptors_balance : ((n : ℕ) → world.epoll_add n ≡ true) → Balanced [] t × Watched [] t
  unfolding new_server
  descriptors_balance adds = (
    Reach-Kept world _ (Balanced-Kept world adds) reach (λ x. refl),
    Reach-Kept world _ (Watched-Kept world) reach (λ x e. refl),
  )

  -- After any steps from the construction of a server, and whatever epoll refuses, every number is
  -- at least as often among the closed descriptors and those of the connections together as among
  -- the accepted ones: no accepted descriptor is lost.
  pub descriptors-NotLost : NotLost [] t
  unfolding new_server
  descriptors-NotLost = Reach-Kept world _ (NotLost-Kept world) reach (λ x. omega arith)

  -- After any steps from the construction of a server, poll on a thread goes on only if no
  -- termination was asked for; it says terminated only for an asked termination, with no connection
  -- and no listening socket left; and it says error for a termination that was not asked for, with
  -- none left either, or for another thread or a server that does not listen, where all but the
  -- thread's id stays as it was.
  pub poll_outcome : (thread : ℕ) → Outcome world thread t (poll world thread t)
  unfolding new_server
  poll_outcome thread =
      poll-Outcome world thread t (Reach-Kept world _ (Ending-Kept world) reach (λ e. absurd (cc)))
