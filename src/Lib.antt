-- ===== src/Lib.antt =====
-- A model of Seasocks, an embeddable HTTP and WebSocket server in C++, and what is proved of it.
--
-- The program's parts. A `Server` polls sockets and owns one `Connection` per client. A connection
-- reads requests, answers them through a `Response` that calls its writer (`begin`, `header`,
-- `payload`, `finish`), or speaks the WebSocket protocol with a handler. All output goes through
-- `Connection::write`, which sends directly or buffers, and `Connection::flush`, which the server
-- calls when the socket can take more. Frames that arrive are decoded by `HybiPacketDecoder`.
--
-- Which file models which part:
-- - Hybi.antt: `HybiPacketDecoder` (src/main/c/HybiPacketDecoder.cpp, src/main/c/internal/HybiPacketDecoder.h).
--   `decode_next_message` is `decodeNextMessage`; a read outside the buffer is `none`. Hybi/Frame.antt
--   is an independent description of the frames of RFC 6455; Hybi/Reads.antt, Header.antt, Decode.antt,
--   Truncated.antt and Safe.antt hold the proofs.
-- - Connection.antt and Connection/Output.antt: the members of `Connection` and its output side
--   (src/main/c/Connection.cpp, src/main/c/seasocks/Connection.h: `close`, `closeWhenEmpty`, `closeInternal`,
--   `safeSend`, `write`, `flush`, `bufferLine`, `handleDataReadyForWrite`, `closed`). A method is a
--   function from a connection to a value and a connection. What the socket has taken (`wire`) and the
--   buffer behind it make one stream, the abstract view (Connection/Stream.antt, Flush.antt, Write.antt,
--   Appends.antt, Outputs.antt); Mode.antt says which members the output side leaves alone.
-- - Connection/Send.antt: `send`, `sendHybi` and `sendHybiData` (src/main/c/Connection.cpp).
-- - Connection/Receive.antt and Connection/Receive/Hixie.antt: `handleHybiWebSocket` and
--   `handleHixieWebSocket` (src/main/c/Connection.cpp). Receive/Ends.antt, Delivers.antt and
--   Hixie/Texts.antt hold the proofs.
-- - Connection/Errors.antt: `sendError`, `sendUnsupportedError`, `sendBadRequest` and `sendISE`
--   (src/main/c/Connection.cpp); Errors/Document.antt and Errors/Whole.antt hold the proofs.
-- - Connection/Ranges.antt: the ranges of `processRangesForStaticData` and the size of the reads of
--   `sendStaticData` (src/main/c/Connection.cpp); Ranges/Within.antt holds the proofs.
-- - Server.antt: the members of `Server` (src/main/c/seasocks/Server.h, src/main/c/Server.cpp) with what the
--   outside has seen. Sockets.antt has `configureSocket`, `startListening` and `handleAccept`,
--   Clients.antt `remove` and `shutdown`, Events.antt `processEventQueue` and `checkAndDispatchEpoll`,
--   Loop.antt `poll` and `loop`, Settings.antt the setters and the choice of handlers,
--   Stats.antt `getStatsDocument`. Kept.antt is the
--   interface by which an invariant of the smallest changes holds in every run (Runs.antt);
--   Ledger.antt and Leaks.antt have the invariants, Invariants.antt, Ends.antt and Handlers.antt the results.
-- - Requests.antt: a connection with its request (`Session`) and all that it asks of others (`Site`).
--   Process.antt has `handleDataReadyForRead`, `handleNewData`, `handleHeaders`, `processHeaders`,
--   `handlePageRequest` and `handleBufferingPostData`, Answer.antt `send404`, `sendData`, `sendHeader` and
--   `error`, WebSocket.antt both handshakes, Partial.antt `parseRanges`, Static.antt `sendStaticData`, with the proofs below them
--   (src/main/c/Connection.cpp). Http/Parse.antt reads the text of a request; Http/Parse/Lines.antt and
--   RoundTrip.antt hold the proofs. Http/Mime.antt has the content types, Http/Upgrade.antt the keys of the
--   handshakes (src/main/c/HybiAccept.cpp), Http/Headers.antt the headers (src/main/c/internal/HeaderMap.h).
-- - Responses.antt: the interface `ResponseWriter`, `SynchronousResponse::handle`, `ConcreteResponse`
--   (src/main/c/internal/ConcreteResponse.h) and the canned responses (src/main/c/Response.cpp).
--   Responses/Writer.antt has `Connection::Writer`, Builder.antt `ResponseBuilder`, Streaming.antt
--   `StreamingResponse::handle` with `SimpleResponse`; Answers.antt, Chunked.antt, Exchange.antt and
--   Delivery.antt, which go from the bytes of requests to those of their answers, hold the proofs, over
--   Connection/Responder/Steps.antt and Calls.antt, which say what each call appends and which members it
--   changes.
-- - Json.antt: `jsonToStream`, `makeMap`, `makeArray` and `to_json` (src/main/c/util/Json.cpp,
--   src/main/c/seasocks/util/Json.h); Json/Reader.antt is a reader by RFC 8259, Json/Document.antt
--   says what a program builds; Json/Strings.antt, Written.antt and RoundTrip.antt hold the proofs.
-- - Uri.antt: `unescape`, the constructor of `CrackedUri`, its look-ups and `shift`
--   (src/main/c/util/CrackedUri.cpp); Uri/Unescape.antt, Uri/Params.antt and
--   Uri/RoundTrip.antt hold the proofs.
--   Uri/Handlers.antt has `PathHandler` (src/main/c/util/PathHandler.cpp), `RootPageHandler`
--   (src/main/c/util/RootPageHandler.cpp) and `StaticResponseHandler`; a `root_handle` of handlers can
--   stand for the `page` of a `Site`. Uri/Table.antt has their table of pages, Uri/Routes.antt the proof.
-- - Http/Request.antt: the verbs and `consumeContent` (src/main/c/seasocks/Request.cpp,
--   src/main/c/PageRequest.cpp).
-- - Text/Strings.antt: `split` and `replace`; Text/Words.antt: `shift`, `trimWhitespace`, `endsWith`
--   (src/main/c/StringUtil.cpp), `compareCaseInsensitive` (src/main/c/seasocks/StrCompare.h) and the
--   hash of src/main/c/internal/HeaderMap.h; Text/Base64.antt: src/main/c/internal/Base64.cpp.
-- - Connection/Responder.antt: `begin`, `header`, `payload`, `writeChunkHeader`, `finish` and
--   `bufferResponseAndCommonHeaders` (src/main/c/Connection.cpp); Responder/Chunks.antt is the chunked
--   coding of RFC 7230 with a reader, Responder/Machine.antt the order of the calls.
-- - Response.antt, Response/Code.antt: src/main/c/seasocks/TransferEncoding.h, ResponseWriter.h,
--   ResponseCodeDefs.h, ResponseCode.cpp. Text/Digits.antt: numbers as text, src/main/c/seasocks/ToString.h.
-- - Prelude: native numbers, lists of bytes, Boolean tests and lemmas that the parts share.
--
-- For the server, the answers of the system and what the callbacks do are the record `World`. For a
-- connection, the operating system and the server are the record `Host`: what each `::send` answers, whether
-- events can be changed, and the limit of a client's buffer. `SendsAtMost` says that `::send` takes no
-- more bytes than it is given. zlib's `deflate` and `inflate` and the callbacks of a
-- WebSocket handler are parameters, the callbacks as functions on connections.
--
-- Bounds and fuel. Bytes are numbers; where it matters they are below 256. Buffers are shorter than
-- 2 ^ 32 bytes and sizes are below 2 ^ 31, so that the casts in `write` change nothing and the
-- `unsigned` counter of the decoder's loop does not wrap. The number printer runs on fuel above the
-- number, and the reader of chunks on fuel above their number, which the theorems say. The loops over
-- received messages have one round of fuel for each byte of the buffer, since a message has two bytes or more.
-- `loop` has the rounds that it may take, which its theorem says; `handle_new_data` has the size of the
-- buffer, of which each request takes four bytes or more, and the reads of a range have the size of the
-- file and one, of which each takes a byte.
--
-- Not modelled: HTML; logging,
-- zlib, SHA-1, MD5, the Windows support and the example programs, which are other people's code or
-- have no logic of their own.
pub mod Prelude
pub mod Text
pub mod Http
pub mod Response
pub mod Hybi
pub mod Connection
pub mod Json
pub mod Requests
pub mod Responses
pub mod Server
pub mod Uri
