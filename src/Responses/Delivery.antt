-- ===== src/Responses/Delivery.antt =====
-- From the bytes of requests to those of their answers, through src/main/c/Connection.cpp.
use seasocks.Prelude.{
  ℕ, zero, suc, ◌+◌, ◌≤◌, ◌≡◌, refl, ap, ◌∙◌, false, List, [], ◌∷◌, ◌++◌, Option, none, some,
  length, length-append, Bytes, All, arith,
}
use seasocks.Connection.{Connection, SendsAtMost, reading_headers}
use seasocks.Connection.Output.{closed}
use seasocks.Connection.Appends.{Appends, Appends-trans, Appends-refl}
use seasocks.Connection.Outputs.{Appends-output}
use seasocks.Connection.Responder.{crlf}
use seasocks.Requests.{Site, Session, PageRequest, bytes}
use seasocks.Requests.Process.{
  handle_headers, new_data_in, handle_new_data, received, handle_data_ready_for_read,
}
use seasocks.Responses.{SynchronousResponse}
use seasocks.Responses.Answers.{answer}
use seasocks.Responses.Exchange.{
  Asked, request_of, head_text, requests_text, IsAsked, behind, handle_headers-response, next_lem,
}

module _ (site : Site) (most : SendsAtMost site.host) (path now : Bytes)
    (app : PageRequest → SynchronousResponse) where
  -- The answers one behind site most path now app another.
  abbrev pub answers : List Asked → Bytes
  answers [] = []
  answers (q ∷ qs) = answer site most path now (app (request_of q)) ++ answers qs

  -- All requests were answered site most path now app, and the connection waits for another.
  pub record Delivered (qs : List Asked) (c : Connection) (o : Option (Unit {0} × Session))
      : Type 0 where
    pub last : Session
    pub returns : o ≡ some (tt, last)
    pub sent : Appends site.host.client_buffer_size c (answers qs) last.connection
    pub reads_on : last.connection.state ≡ reading_headers
    pub emptied : last.connection.in_buf ≡ []

  new_data-one :
      (q : Asked) (qs : List Asked) (fuel : ℕ) (s : Session)
      → IsAsked site most path now app q
      → s.connection.state ≡ reading_headers
      → s.connection.in_buf ≡ requests_text (q ∷ qs)
      → handle_new_data site (suc fuel) s
        ≡ handle_new_data site fuel (behind site most path now app q s)
  unfolding handle_new_data
  new_data-one q qs fuel s h at here =
      ap (λ t. new_data_in site (handle_new_data site fuel) t s) at
      ∙ handle_headers-response site most path now app q (requests_text qs) s
          (handle_new_data site fuel) h here

  -- With an empty buffer nothing happens.
  new_data-none :
      (fuel : ℕ) (s : Session)
      → s.connection.state ≡ reading_headers
      → s.connection.in_buf ≡ []
      → handle_new_data site fuel s ≡ some (tt, s)
  unfolding handle_new_data handle_headers
  new_data-none zero s at here = ap (λ t. new_data_in site (λ s. none) t s) at ∙ rw here refl
  new_data-none (suc fuel) s at here =
      ap (λ t. new_data_in site (handle_new_data site fuel) t s) at ∙ rw here refl

  handle_new_data-Delivered :
      (qs : List Asked) (fuel : ℕ) (s : Session)
      → All (IsAsked site most path now app) qs
      → length qs ≤ fuel
      → s.connection.state ≡ reading_headers
      → s.connection.had_send_error ≡ false
      → s.connection.in_buf ≡ requests_text qs
      → Delivered qs s.connection (handle_new_data site fuel s)
  handle_new_data-Delivered [] fuel s h enough at ok here = record {
    last = s;
    returns = new_data-none fuel s at here;
    sent = Appends-refl s.connection;
    reads_on = at;
    emptied = here;
  }
  handle_new_data-Delivered (q ∷ qs) zero s h enough at ok here = absurd (omega arith)
  handle_new_data-Delivered (q ∷ qs) (suc fuel) s h enough at ok here =
      let one = next_lem site most path now app q (requests_text qs) s h.0 ok here in
      let rest =
        handle_new_data-Delivered qs fuel (behind site most path now app q s) h.1 (omega arith)
          one.reads_on (one.sent.same_error ∙ ok) one.left in
      record {
        last = rest.last;
        returns = new_data-one q qs fuel s h.0 at here ∙ rest.returns;
        sent = Appends-trans one.sent rest.sent;
        reads_on = rest.reads_on;
        emptied = rest.emptied;
      }

  enough_rounds : (qs : List Asked) → length qs ≤ length (requests_text qs)
  enough_rounds [] = omega arith
  enough_rounds (q ∷ qs) =
      omega (arith, enough_rounds qs, length-append (head_text q) (crlf ++ requests_text qs))

  -- Where ::send takes no more than it is given, what a read brings completes, in the buffer of a
  -- connection that reads headers, is open and had no send error, whole requests as RFC 7230 writes
  -- them, one behind another, each for a page that answers it by a SynchronousResponse without
  -- error: handleDataReadyForRead returns, each page was given its request with the first header of
  -- each name, the answers are appended in the order of the requests (where less is appended, the
  -- connection refuses data from then on), no byte of a request is left in the buffer, and the
  -- connection reads headers again. The requests have no content and ask for no WebSocket and no
  -- embedded page, the URI is not empty and has no white space and no NUL, and headers are as
  -- parse_request-print needs them.
  pub handle_data_ready_for_read-Delivered :
      (qs : List Asked) (input : Bytes) (s : Session)
      → All (IsAsked site most path now app) qs
      → site.recv s.recv_calls ≡ bytes input
      → closed s.connection ≡ false
      → s.connection.state ≡ reading_headers
      → s.connection.had_send_error ≡ false
      → s.connection.in_buf ++ input ≡ requests_text qs
      → Delivered qs s.connection (handle_data_ready_for_read site s)
  unfolding handle_data_ready_for_read
  handle_data_ready_for_read-Delivered qs input s h comes alive at ok here =
      let t : Session = record s {
        recv_calls = suc s.recv_calls;
        bytes_received = s.bytes_received + length input;
        connection = record s.connection { in_buf = s.connection.in_buf ++ input };
      } in
      let d =
        handle_new_data-Delivered qs (length t.connection.in_buf) t h
          (omega (arith, enough_rounds qs, ap length here)) at ok here in
      record {
        last = d.last;
        returns =
            rw alive (ap (λ i. received site i (record s { recv_calls = suc s.recv_calls })) comes)
            ∙ d.returns;
        sent = Appends-output refl refl d.sent;
        reads_on = d.reads_on;
        emptied = d.emptied;
      }
