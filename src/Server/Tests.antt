-- ===== src/Server/Tests.antt =====
-- A server on a small world: one connection is accepted, and the executable of a read ends the loop.
use seasocks.Prelude.{
  ℕ, Bool, true, false, List, [], ◌∷◌, ◌++◌, none, some, ◌≡◌, ◌≢◌, refl, codes, arith,
}
use seasocks.Text.Strings.{split}
use seasocks.Server.{
  Server, World, Event, listener, execute_action, terminate_action, new_server, execute, act,
}
use seasocks.Server.Sockets.{start_listening, handle_accept}
use seasocks.Server.Clients.{shutdown, delete_known, delete_all}
use seasocks.Server.Events.{process_event_queue, check_and_dispatch_epoll}
use seasocks.Server.Loop.{poll, loop, round}
use seasocks.Server.Settings.{
  get_web_socket_handler, is_cross_origin_allowed, add_web_socket_handler, first_piece,
}
use seasocks.Server.Stats.{get_stats_document}
use seasocks.Server.Runs.{Reach, here, next, executed, listened, dispatched, polled}
use seasocks.Server.Ledger.{Balanced, Watched, fds}
use seasocks.Server.Leaks.{NotLost}
use seasocks.Server.Ends.{shutdown_lem, loop_returns, IsDown, Outcome}
use seasocks.Server.Invariants.{
  executables_in_order, descriptors_balance, descriptors-NotLost, poll_outcome,
}
use seasocks.Server.Handlers.{get_web_socket_handler-add, query}

abbrev event : Event
event = record {
  target = listener;
  is_in = true;
  is_out = false;
  is_err = false;
  is_hup = false;
  is_other = false;
}

abbrev small : Bool → World
small adds = record {
  socket = λ n. some 3;
  non_blocking = λ n. true;
  set_option = λ n. true;
  bind = λ n. true;
  listen = λ n. true;
  accept = λ n. some 7;
  address = λ n. n;
  epoll_add = λ n. adds;
  epoll_wait = λ n. some (event ∷ []);
  event_errno = λ n. 11;
  time = λ n. n;
  read_size = λ n. 1;
  on_read = λ n. [];
  on_write = λ n. [];
  on_disconnect = λ n. [];
  on_run = λ n. execute_action 5 ∷ terminate_action ∷ [];
}

abbrev started : Server
started = execute 4 (start_listening (small true) 80 (new_server true true)).1

started-Reach : Reach (small true) (new_server true true) started
started-Reach = next (next here (listened 80 (new_server true true))) (executed 4 _)

abbrev ran_once : Server
ran_once = (poll (small true) 9 started).1

ran_once-Reach : Reach (small true) (new_server true true) ran_once
ran_once-Reach = next started-Reach (polled 9 started)

two_executables : ran_once.ran ≡ 4 ∷ 5 ∷ []
unfolding poll start_listening new_server execute process_event_queue check_and_dispatch_epoll
    shutdown handle_accept delete_known delete_all act
two_executables = refl

closed_once : ran_once.closed ≡ 7 ∷ []
unfolding poll start_listening new_server execute process_event_queue check_and_dispatch_epoll
    shutdown handle_accept delete_known delete_all act
closed_once = refl

executables_in_order_example : ran_once.posted ≡ ran_once.ran ++ ran_once.pending_executables
executables_in_order_example = executables_in_order (small true) true true ran_once ran_once-Reach

descriptors_balance_example : Balanced [] ran_once × Watched [] ran_once
descriptors_balance_example =
    descriptors_balance (small true) true true ran_once ran_once-Reach (λ n. refl)

poll_outcome_example : Outcome (small true) 9 started (poll (small true) 9 started)
poll_outcome_example = poll_outcome (small true) true true started started-Reach 9

shutdown_lem_example :
    ((shutdown (small true) started).connections ≡ [])
    × ((shutdown (small true) started).closed ≡ started.closed ++ fds started.connections)
    × ((shutdown (small true) started).listen_sock ≡ none)
shutdown_lem_example = shutdown_lem (small true) started

loop_returns_example :
    (t : Server) × (loop (small true) 1 9 started ≡ some (t.expected_terminate, t)) × IsDown t
unfolding start_listening new_server execute process_event_queue check_and_dispatch_epoll
    handle_accept round delete_known act delete_all
loop_returns_example = loop_returns (small true) 1 9 3 started refl refl

abbrev unwatched : Server
unwatched = (start_listening (small false) 80 (new_server true true)).1

abbrev refused : Server
refused = check_and_dispatch_epoll (small false) unwatched

refused-Reach : Reach (small false) (new_server true true) refused
refused-Reach = next (next here (listened 80 (new_server true true))) (dispatched unwatched)

-- Where epoll refuses a connection, its descriptor is closed by `finalise` and once more.
closed_twice : refused.closed ≡ 7 ∷ 7 ∷ []
unfolding start_listening new_server process_event_queue check_and_dispatch_epoll handle_accept
    delete_known delete_all act
closed_twice = refl

descriptors-NotLost_example : NotLost [] refused
descriptors-NotLost_example = descriptors-NotLost (small false) true true refused refused-Reach

get_web_socket_handler-add_example :
    (get_web_socket_handler (codes "/ws?x=1") (add_web_socket_handler (codes "/ws") 3 true started)
      ≡ some 3)
    × (is_cross_origin_allowed
          (codes "/ws?x=1")
          (add_web_socket_handler (codes "/ws") 3 true started)
        ≡ true)
    × ((other : List ℕ)
        → first_piece (split other b'?') ≢ some (codes "/ws")
        → get_web_socket_handler other (add_web_socket_handler (codes "/ws") 3 true started)
          ≡ get_web_socket_handler other started)
get_web_socket_handler-add_example =
    get_web_socket_handler-add b'/' 3 (codes "ws") true (query (codes "x=1")) started (omega arith)

-- A client whose URI has a control character has its numbers shown in hexadecimal.
in_hex :
    get_stats_document (
      record {
        since = 0;
        fd = 16;
        id = 16;
        request_uri = b'/' ∷ (1 ∷ []);
        address = [];
        username = none;
        input_buffer_size = 16;
        bytes_received = 0;
        output_buffer_size = 0;
        bytes_sent = 0;
      }
      ∷ [])
    ≡ codes "clear();\nconnection({\"since\":new Date(0).toLocaleString(),\"fd\":16,\"id\":16,"
      ++ codes "\"uri\":\"/\\u0001\",\"addr\":\"\",\"user\":\"(not authed)\",\"input\":10,"
      ++ codes "\"read\":0,\"output\":0,\"written\":0});\n"
unfolding get_stats_document
in_hex = refl
