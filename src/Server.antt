-- ===== src/Server.antt =====
-- src/main/c/seasocks/Server.h and src/main/c/Server.cpp: the state of the server, and what it calls of
-- the operating system and of its clients. Logging and the Windows branches are left out.
pub mod Sockets
pub mod Clients
pub mod Events
pub mod Loop
pub mod Settings
pub mod Stats
pub mod Kept
pub mod Runs
pub mod Ledger
pub mod Leaks
pub mod Invariants
pub mod Ends
pub mod Handlers
mod Tests
use seasocks.Prelude.{
  ℕ, zero, suc, ◌+◌, Bool, true, false, List, [], ◌∷◌, ◌++◌, Option, none, some, map, ◌==◌,
  if◌then◌else◌, Bytes,
}

-- A `Connection*` with its descriptor and the time at which it was accepted: an entry of
-- `_connections`. The order of a map of pointers is arbitrary; here it is the order of the inserts.
pub record Client : Type 0 where
  pub id : ℕ
  pub fd : ℕ
  pub since : ℕ

pub record WebSocketHandlerEntry : Type 0 where
  pub handler : ℕ
  pub allow_cross_origin : Bool

-- The members, and behind them what the outside has seen: `polled` are the clients' descriptors in
-- epoll, `accepted` and `closed` those that `::accept` has given and `::close` was called on,
-- `received` the bytes that a connection has read, `posted` and `ran` the executables that were
-- enqueued and that were run, and `calls` counts calls of the system. An executable, a page handler
-- and a WebSocket handler are numbers.
pub record Server : Type 0 where
  pub connections : List Client
  pub listen_sock : Option ℕ
  pub epoll_ok : Bool
  pub event_ok : Bool
  pub max_keep_alive_drops : ℕ
  pub lame_connection_timeout_seconds : ℕ
  pub client_buffer_size : ℕ
  pub next_dead_connection_check : ℕ
  pub per_message_deflate_enabled : Bool
  pub web_socket_handlers : List (Bytes × WebSocketHandlerEntry)
  pub page_handlers : List ℕ
  pub static_path : Bytes
  pub pending_executables : List ℕ
  pub thread_id : ℕ
  pub is_terminate : Bool
  pub expected_terminate : Bool
  pub polled : List ℕ
  pub accepted : List ℕ
  pub closed : List ℕ
  pub received : ℕ → ℕ
  pub posted : List ℕ
  pub ran : List ℕ
  pub calls : ℕ

-- What a callback of the program that uses the library may do to the server from its thread.
pub data Action : Type 0 where
  execute_action : ℕ → Action
  terminate_action : Action

-- Where an event of `epoll_wait` points to, and its bits; `other` is any bit but the four.
pub data Target : Type 0 where
  listener waker : Target
  client : ℕ → Target

pub record Event : Type 0 where
  pub target : Target
  pub is_in : Bool
  pub is_out : Bool
  pub is_err : Bool
  pub is_hup : Bool
  pub is_other : Bool

-- The answers of the system, by the number of the call, and what the callbacks do. `address` is where
-- a new connection is allocated, and `event_errno` the error that ends the reads of the event
-- descriptor.
pub record World : Type 0 where
  pub socket : ℕ → Option ℕ
  pub non_blocking : ℕ → Bool
  pub set_option : ℕ → Bool
  pub bind : ℕ → Bool
  pub listen : ℕ → Bool
  pub accept : ℕ → Option ℕ
  pub address : ℕ → ℕ
  pub epoll_add : ℕ → Bool
  pub epoll_wait : ℕ → Option (List Event)
  pub event_errno : ℕ → ℕ
  pub time : ℕ → ℕ
  pub read_size : ℕ → ℕ
  pub on_read : ℕ → List Action
  pub on_write : ℕ → List Action
  pub on_disconnect : ℕ → List Action
  pub on_run : ℕ → List Action

abbrev pub tick : Server → Server
tick s = record s { calls = suc s.calls }

-- `terminate`. The write that wakes the loop changes nothing here.
unfoldable pub terminate : Server → Server
terminate s = record s { expected_terminate = true; is_terminate = true }

-- `execute`.
unfoldable pub execute : ℕ → Server → Server
execute id s = record s {
  pending_executables = s.pending_executables ++ (id ∷ []);
  posted = s.posted ++ (id ∷ []);
}

unfoldable pub act : List Action → Server → Server
unfolding execute terminate
act [] s = s
act (execute_action id ∷ actions) s = act actions (execute id s)
act (terminate_action ∷ actions) s = act actions (terminate s)

abbrev pub default_client_buffer_size : ℕ
default_client_buffer_size = 16777216

-- The constructor, where the descriptors were created or not.
unfoldable pub new_server : Bool → Bool → Server
new_server epoll_ok event_ok = record {
  connections = [];
  listen_sock = none;
  epoll_ok = epoll_ok;
  event_ok = event_ok;
  max_keep_alive_drops = 0;
  lame_connection_timeout_seconds = 10;
  client_buffer_size = default_client_buffer_size;
  next_dead_connection_check = 0;
  per_message_deflate_enabled = false;
  web_socket_handlers = [];
  page_handlers = [];
  static_path = [];
  pending_executables = [];
  thread_id = 0;
  is_terminate = false;
  expected_terminate = false;
  polled = [];
  accepted = [];
  closed = [];
  received = λ id. 0;
  posted = [];
  ran = [];
  calls = 0;
}
