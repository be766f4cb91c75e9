-- ===== src/Requests/Example.antt =====
-- A site for the tests of src/main/c/Connection.cpp: one file, one endpoint, one page.
use seasocks.Prelude.{false, [], none, some, take, drop, Bytes, codes}
use seasocks.Connection.{initial}
use seasocks.Connection.Example.{host, doubled}
use seasocks.Requests.{Site, Session, unhandled, end_of_stream}

abbrev pub content : Bytes
content = codes "0123456789"

abbrev pub site : Site
site = record {
  host = host;
  version = codes "1";
  now = codes "now";
  embedded = λ path. none;
  deflate = doubled;
  inflate = λ call bytes. some bytes;
  handler_of = λ endpoint. none;
  cross_origin = λ endpoint. false;
  per_message_deflate_enabled = false;
  page = λ request. unhandled;
  stats_document = [];
  static_path = [];
  file = λ path. some (record { size = 10; last_modified = codes "then" });
  read = λ call path offset n. some (take n (drop offset content));
  recv = λ call. end_of_stream;
  sha1 = λ bytes. bytes;
  md5 = λ bytes. take 16 bytes;
}

abbrev pub session : Session
session = record {
  connection = initial;
  request = none;
  web_socket_handler = none;
  bytes_received = 0;
  read_calls = 0;
  recv_calls = 0;
}
