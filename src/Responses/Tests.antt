-- ===== src/Responses/Tests.antt =====
-- Responses of src/test/c/ResponseTests.cpp and src/test/c/ResponseBuilderTests.cpp.
use seasocks.Prelude.{◌≡◌, refl, ap, sym, true, false, [], ◌∷◌, codes, arith}
use seasocks.Response.{raw, chunked}
use seasocks.Response.Code.{ok, is_ok, to_int}
use seasocks.Connection.{Connection, initial, awaiting_response_begin, reading_headers}
use seasocks.Connection.Mode.{mode}
use seasocks.Connection.Example.{host, most}
use seasocks.Text.Words.{same_bytes}
use seasocks.Connection.Responder.Steps.{Does}
use seasocks.Requests.Example.{site, session}
use seasocks.Connection.Output.{closed}
use seasocks.Http.Headers.{emplace}
use seasocks.Http.Parse.RoundTrip.{get_method}
use seasocks.Requests.{Site, Session, PageRequest, response, bytes, get_uint_header}
use seasocks.Requests.Answer.{error, error_in, send_404}
use seasocks.Requests.Process.{wants_web_socket, handle_data_ready_for_read}
use seasocks.Responses.Exchange.{Asked, request_of, requests_text, IsAsked}
use seasocks.Responses.Delivery.{Delivered, handle_data_ready_for_read-Delivered}
use seasocks.Responses.{
  SynchronousResponse, text_response, synchronous_handle, insert_header, erase_header, string_less,
}
use seasocks.Responses.Builder.{new_builder, with_header, add_header, build}
use seasocks.Responses.Streaming.{StreamingResponse, streaming_handle}
use seasocks.Responses.Writer.{connection_writer}
use seasocks.Responses.Answers.{answer, synchronous_handle-Does}
use seasocks.Responses.Chunked.{Streamed, streaming_handle-Streamed}

cookies :
    (build (
      add_header (codes "b") (codes "2") (
        with_header (codes "b") (codes "1") (
          with_header
            (codes "a")
            []
            (with_header (codes "b") [] (new_builder ok)))))).additional_headers
    ≡ (codes "a", []) ∷ ((codes "b", codes "1") ∷ ((codes "b", codes "2") ∷ []))
unfolding build add_header with_header new_builder insert_header erase_header string_less same_bytes
cookies = refl

abbrev waiting : Connection
waiting = record initial { state = awaiting_response_begin; has_response = true }

synchronous_handle-Does_example :
    Does host most waiting
      (answer site most [] (codes "now") (text_response (codes "hi")))
      (record (mode waiting) {
        state = reading_headers;
        transfer_encoding = raw;
        has_response = false;
      })
      (synchronous_handle
        (connection_writer site [])
        (codes "now")
        (text_response (codes "hi"))
        waiting).1
unfolding to_int is_ok text_response
synchronous_handle-Does_example =
    synchronous_handle-Does site most [] (codes "now") (text_response (codes "hi")) waiting refl
      refl refl

abbrev two_reads : StreamingResponse
two_reads = record {
  response_code = ok;
  stream = record { rest = codes "hello"; breaks = false };
  headers = [];
  keep_connection_alive = true;
  flush_instantly = false;
  buffer_size = 3;
  transfer_encoding = chunked;
  closed = false;
}

streaming_handle-Streamed_example :
    Streamed site most [] two_reads waiting
      (streaming_handle (connection_writer site []) two_reads 6)
streaming_handle-Streamed_example =
    streaming_handle-Streamed site most [] two_reads 6 waiting refl refl (omega arith) refl
      (omega arith) (omega arith) refl refl refl

-- Two requests in one buffer, which ask a site with one page.
abbrev asked : Asked
asked = record {
  method = get_method;
  first = b'/';
  more = codes "a";
  headers = (codes "Host", codes "x") ∷ [];
}

abbrev page_of : PageRequest → SynchronousResponse
page_of request = text_response request.request_uri

abbrev paged_site : Site
paged_site = record site {
  page = λ request.
      response (synchronous_handle (connection_writer site []) (codes "now") (page_of request));
  recv = λ call. bytes (requests_text (asked ∷ (asked ∷ [])));
}

same_writer : connection_writer paged_site [] ≡ connection_writer site []
unfolding connection_writer error error_in send_404
same_writer = refl

asked-IsAsked : IsAsked paged_site most [] (codes "now") page_of asked
unfolding wants_web_socket to_int is_ok text_response get_uint_header emplace
asked-IsAsked = record {
  word = (refl, (refl, tt));
  no_nul = omega arith;
  good_headers = ((omega arith, omega arith, omega arith, refl), tt);
  no_socket = refl;
  no_content = refl;
  not_embedded = refl;
  paged =
      ap (λ w. response (synchronous_handle w (codes "now") (page_of (request_of asked))))
        (sym same_writer);
  good = refl;
}

abbrev reading : Session
reading = record session { connection = record initial { state = reading_headers } }

handle_data_ready_for_read-Delivered_example :
    Delivered paged_site most []
      (codes "now")
      page_of
      (asked ∷ (asked ∷ []))
      initial
      (handle_data_ready_for_read paged_site reading)
unfolding closed
handle_data_ready_for_read-Delivered_example =
    handle_data_ready_for_read-Delivered paged_site most [] (codes "now") page_of
      (asked ∷ (asked ∷ [])) (requests_text (asked ∷ (asked ∷ []))) reading
      (asked-IsAsked, (asked-IsAsked, tt)) refl refl refl refl refl
