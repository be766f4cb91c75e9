-- ===== src/Responses/Writer.antt =====
-- `Connection::Writer` of src/main/c/Connection.cpp.
use seasocks.Prelude.{true, false, Bytes}
use seasocks.Connection.{return}
use seasocks.Connection.Responder.{begin, header, payload, finish}
use seasocks.Requests.{Site}
use seasocks.Requests.Answer.{error}
use seasocks.Responses.{ResponseWriter}

-- The connection's request has the URI `path`.
unfoldable pub connection_writer : Site → Bytes → ResponseWriter
unfolding begin header payload finish error
connection_writer site path = record {
  begin = begin site.host site.version site.now;
  header = header site.host;
  payload = payload site.host;
  finish = finish site.host;
  error = error site path;
  is_active = true;
}

-- Behind `detach`.
unfoldable pub detached_writer : ResponseWriter
detached_writer = record {
  begin = λ code encoding. return tt;
  header = λ name value. return tt;
  payload = λ bytes flush_it. return tt;
  finish = λ keep. return tt;
  error = λ code payload. return tt;
  is_active = false;
}
