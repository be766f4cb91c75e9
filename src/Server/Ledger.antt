-- ===== src/Server/Ledger.antt =====
-- src/main/c/Server.cpp: what is kept in every run of the server: the executables, the descriptors and
-- the flags of termination.
use seasocks.Prelude.{
  ℕ, suc, ◌+◌, true, List, [], ◌∷◌, ◌++◌, append_assoc, append-nil, Option, none, some, ◌≡◌, refl,
  ap, sym, ◌∙◌, inl, inr, Bool-cases, Option-cases, ◌==◌, if◌then◌else◌, arith,
}
use seasocks.Server.{Client, Server, World, execute, terminate}
use seasocks.Server.Sockets.{configure_socket, add_connection, accepted_fd, handle_accept}
use seasocks.Server.Clients.{take_out, remove, without}
use seasocks.Server.Kept.{Kept}
use seasocks.Server.Runs.{configure_socket-calls}

-- Executables in the order of `execute`: those that were run, those that this round is to run, and
-- those that wait.
abbrev pub Ordered : List ℕ → Server → Type 0
Ordered todo s = s.posted ≡ s.ran ++ (todo ++ s.pending_executables)

-- A loop that is told to end, ends.
abbrev pub Ending : List ℕ → Server → Type 0
Ending todo s = s.expected_terminate ≡ true → s.is_terminate ≡ true

-- How often a number is in a list.
abbrev pub one : ℕ → ℕ → ℕ
one x y = if y == x then 1 else 0

abbrev pub count : ℕ → List ℕ → ℕ
count x [] = 0
count x (y ∷ ys) = one x y + count x ys

abbrev pub fds : List Client → List ℕ
fds [] = []
fds (c ∷ cs) = c.fd ∷ fds cs

-- Each descriptor that was accepted was closed once, or is that of one connection.
abbrev pub Balanced : List ℕ → Server → Type 0
Balanced todo s = (x : ℕ) → count x s.accepted ≡ count x s.closed + count x (fds s.connections)

-- Only descriptors of connections are in epoll.
abbrev pub Watched : List ℕ → Server → Type 0
Watched todo s = (x : ℕ) → count x (fds s.connections) ≡ 0 → count x s.polled ≡ 0

pub count-append : (x : ℕ) (xs ys : List ℕ) → count x (xs ++ ys) ≡ count x xs + count x ys
count-append x [] ys = omega arith
count-append x (y ∷ xs) ys = omega (arith, count-append x xs ys)

fds-append : (cs ds : List Client) → fds (cs ++ ds) ≡ fds cs ++ fds ds
fds-append [] ds = refl
fds-append (c ∷ cs) ds = ap (◌∷◌ c.fd) (fds-append cs ds)

pub count_fds-append :
    (x : ℕ) (cs : List Client) (c : Client)
    → count x (fds (cs ++ (c ∷ []))) ≡ count x (fds cs) + one x c.fd
count_fds-append x cs c =
    ap (count x) (fds-append cs (c ∷ [])) ∙ (count-append x (fds cs) (c.fd ∷ []) ∙ omega arith)

count-without :
    (x y : ℕ) (ys : List ℕ) → count x (without y ys) ≡ (if y == x then 0 else count x ys)
unfolding without
count-without x y [] = ground arith
count-without x y (z ∷ zs) = ground (arith, count-without x y zs)

abbrev pub Taken : Option (Client × List Client) → List Client → Type 0
Taken none cs = Unit {0}
Taken (some (c, ds)) cs = (x : ℕ) → count x (fds cs) ≡ one x c.fd + count x (fds ds)

Taken-cons :
    (d : Client) (o : Option (Client × List Client)) (cs : List Client)
    → Taken o cs
    → Taken (elim o [ none ↦ none | some (c, ds) ↦ some (c, d ∷ ds) ]) (d ∷ cs)
Taken-cons d none cs h = tt
Taken-cons d (some (c, ds)) cs h = λ x. omega (arith, h x)

pub take_out-Taken : (id : ℕ) (cs : List Client) → Taken (take_out id cs) cs
unfolding take_out
take_out-Taken id [] = tt
take_out-Taken id (c ∷ cs) = elim (Bool-cases (c.id == id)) [
  | inl e ↦ rw e (λ x. omega arith)
  | inr e ↦ rw e (Taken-cons c (take_out id cs) cs (take_out-Taken id cs))
]

remove-Balanced :
    (todo : List ℕ) (o : Option (Client × List Client)) (s : Server)
    → Taken o s.connections
    → Balanced todo s
    → Balanced todo (remove o s)
unfolding remove
remove-Balanced todo none s t h = h
remove-Balanced todo (some (c, cs)) s t h =
    λ x. omega (arith, t x, h x, count-append x s.closed (c.fd ∷ []))

remove-Watched :
    (todo : List ℕ) (o : Option (Client × List Client)) (s : Server)
    → Taken o s.connections
    → Watched todo s
    → Watched todo (remove o s)
unfolding remove
remove-Watched todo none s t h = h
remove-Watched todo (some (c, cs)) s t h =
    λ x e. ground (arith, t x, h x, count-without x c.fd s.polled)

module _ (world : World) where
  -- Accepting, from an invariant and the two ends that it can have.
  pub handle_accept-cases :
      (P : Server → Type 0) (s : Server)
      → ((n : ℕ) → P (record s { calls = n }))
      → ((n fd : ℕ)
          → P (record s {
            accepted = s.accepted ++ (fd ∷ []);
            closed = s.closed ++ (fd ∷ []);
            calls = n;
          }))
      → ((n fd : ℕ)
          → P (
              add_connection world fd (record s { accepted = s.accepted ++ (fd ∷ []); calls = n })))
      → P (handle_accept world s)
  unfolding handle_accept accepted_fd
  handle_accept-cases P s refused failed added = elim (Option-cases (world.accept s.calls)) [
    | inl e ↦ rw e (refused (suc s.calls))
    | inr (fd, e) ↦
        let r =
          configure_socket-calls world
            (record s { accepted = s.accepted ++ (fd ∷ []); calls = suc s.calls }) in
        rw e
          (elim (Bool-cases
            (configure_socket world
              (record s { accepted = s.accepted ++ (fd ∷ []); calls = suc s.calls })).0) [
                | inl c ↦ rw (c, r.1) (added r.0 fd)
                | inr c ↦ rw (c, r.1) (failed r.0 fd)
              ])
  ]

  remove-Ordered :
      (todo : List ℕ) (o : Option (Client × List Client)) (s : Server)
      → Ordered todo s
      → Ordered todo (remove o s)
  unfolding remove
  remove-Ordered todo none s h = h
  remove-Ordered todo (some (c, cs)) s h = h

  add_connection-Ordered :
      (todo : List ℕ) (fd : ℕ) (s : Server)
      → Ordered todo s
      → Ordered todo (add_connection world fd s)
  unfolding add_connection
  add_connection-Ordered todo fd s h = elim (Bool-cases (world.epoll_add (suc s.calls))) [
    | inl e ↦ rw e h
    | inr e ↦ rw e h
  ]

  pub Ordered-Kept : Kept world Ordered
  unfolding execute terminate
  Ordered-Kept = record {
    kept_calls = λ todo n s h. h;
    kept_execute = λ todo id s h. ap (λ l. l ++ (id ∷ [])) h ∙ simp append_assoc;
    kept_terminate = λ todo s h. h;
    kept_stop = λ todo s h. h;
    kept_read = λ todo received s h. h;
    kept_remove = λ todo id s h. remove-Ordered todo (take_out id s.connections) s h;
    kept_accept = λ todo s h.
        handle_accept-cases (Ordered todo) s (λ n. h) (λ n fd. h)
          (λ n fd. add_connection-Ordered todo fd _ h);
    kept_listen = λ todo sock s h. h;
    kept_thread = λ todo thread s h. h;
    kept_start = λ s h. h ∙ ap (s.ran ++◌) (sym (append-nil s.pending_executables));
    kept_run = λ x todo s h. h ∙ sym (append_assoc s.ran (x ∷ []) (todo ++ s.pending_executables));
  }

  remove-Ending :
      (todo : List ℕ) (o : Option (Client × List Client)) (s : Server)
      → Ending todo s
      → Ending todo (remove o s)
  unfolding remove
  remove-Ending todo none s h = h
  remove-Ending todo (some (c, cs)) s h = h

  add_connection-Ending :
      (todo : List ℕ) (fd : ℕ) (s : Server)
      → Ending todo s
      → Ending todo (add_connection world fd s)
  unfolding add_connection
  add_connection-Ending todo fd s h = elim (Bool-cases (world.epoll_add (suc s.calls))) [
    | inl e ↦ rw e h
    | inr e ↦ rw e h
  ]

  pub Ending-Kept : Kept world Ending
  unfolding execute terminate
  Ending-Kept = record {
    kept_calls = λ todo n s h. h;
    kept_execute = λ todo id s h. h;
    kept_terminate = λ todo s h e. refl;
    kept_stop = λ todo s h e. refl;
    kept_read = λ todo received s h. h;
    kept_remove = λ todo id s h. remove-Ending todo (take_out id s.connections) s h;
    kept_accept = λ todo s h.
        handle_accept-cases (Ending todo) s (λ n. h) (λ n fd. h)
          (λ n fd. add_connection-Ending todo fd _ h);
    kept_listen = λ todo sock s h. h;
    kept_thread = λ todo thread s h. h;
    kept_start = λ s h. h;
    kept_run = λ x todo s h. h;
  }

  watched_more :
      (x : ℕ) (s : Server) (fd : ℕ) (c : Client)
      → c.fd ≡ fd
      → (count x (fds s.connections) ≡ 0 → count x s.polled ≡ 0)
      → count x (fds (s.connections ++ (c ∷ []))) ≡ 0
      → count x (s.polled ++ (fd ∷ [])) ≡ 0
  watched_more x s fd c same h none_left =
      ground (arith, count_fds-append x s.connections c, count-append x s.polled (fd ∷ []))

  add_connection-Watched :
      (todo : List ℕ) (fd : ℕ) (s : Server)
      → Watched todo s
      → Watched todo (add_connection world fd s)
  unfolding add_connection
  add_connection-Watched todo fd s h x = elim (Bool-cases (world.epoll_add (suc s.calls))) [
    | inl e ↦ rw e (watched_more x s fd _ refl (h x))
    | inr e ↦ rw e (λ none_left. ground (arith, h x none_left, count-without x fd s.polled))
  ]

  pub Watched-Kept : Kept world Watched
  unfolding execute terminate
  Watched-Kept = record {
    kept_calls = λ todo n s h. h;
    kept_execute = λ todo id s h. h;
    kept_terminate = λ todo s h. h;
    kept_stop = λ todo s h. h;
    kept_read = λ todo received s h. h;
    kept_remove = λ todo id s h.
        remove-Watched todo (take_out id s.connections) s (take_out-Taken id s.connections) h;
    kept_accept = λ todo s h.
        handle_accept-cases (Watched todo) s (λ n. h) (λ n fd. h)
          (λ n fd. add_connection-Watched todo fd _ h);
    kept_listen = λ todo sock s h. h;
    kept_thread = λ todo thread s h. h;
    kept_start = λ s h. h;
    kept_run = λ x todo s h. h;
  }

  module _ (adds : (n : ℕ) → world.epoll_add n ≡ true) where
    add_connection-Balanced :
        (todo : List ℕ) (fd n : ℕ) (s : Server)
        → Balanced todo s
        → Balanced todo
            (add_connection world fd (record s { accepted = s.accepted ++ (fd ∷ []); calls = n }))
    unfolding add_connection
    add_connection-Balanced todo fd n s h x = rw (adds (suc n)) (
        omega (arith, h x, count-append x s.accepted (fd ∷ []), count_fds-append x s.connections _))

    pub Balanced-Kept : Kept world Balanced
    unfolding execute terminate
    Balanced-Kept = record {
      kept_calls = λ todo n s h. h;
      kept_execute = λ todo id s h. h;
      kept_terminate = λ todo s h. h;
      kept_stop = λ todo s h. h;
      kept_read = λ todo received s h. h;
      kept_remove = λ todo id s h.
          remove-Balanced todo (take_out id s.connections) s (take_out-Taken id s.connections) h;
      kept_accept = λ todo s h.
          handle_accept-cases (Balanced todo) s (λ n. h)
            (λ n fd x.
              omega (
                arith,
                h x,
                count-append x s.accepted (fd ∷ []),
                count-append x s.closed (fd ∷ []),
              ))
            (λ n fd. add_connection-Balanced todo fd n s h);
      kept_listen = λ todo sock s h. h;
      kept_thread = λ todo thread s h. h;
      kept_start = λ s h. h;
      kept_run = λ x todo s h. h;
    }
