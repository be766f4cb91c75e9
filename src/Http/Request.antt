-- ===== src/Http/Request.antt =====
-- src/main/c/seasocks/Request.cpp: the verbs. src/main/c/PageRequest.cpp: the body of a request.
mod Tests
use seasocks.Prelude.{
  ℕ, Bool, true, false, List, [], ◌∷◌, Option, none, some, length, take, drop, ltb, if◌then◌else◌,
  Bytes, codes,
}
use seasocks.Text.Words.{same_bytes}

pub data Verb : Type 0 where
  invalid web_socket get put post delete head options : Verb

unfoldable pub name : Verb → Bytes
name invalid = codes "Invalid"
name web_socket = codes "WebSocket"
name get = codes "Get"
name put = codes "Put"
name post = codes "Post"
name delete = codes "Delete"
name head = codes "Head"
name options = codes "Options"

-- `Request::verb`.
unfoldable pub verb : Bytes → Verb
verb text =
    if same_bytes text (codes "GET")
    then get
    else if same_bytes text (codes "PUT")
    then put
    else if same_bytes text (codes "POST")
    then post
    else if same_bytes text (codes "DELETE")
    then delete
    else if same_bytes text (codes "HEAD")
    then head
    else if same_bytes text (codes "OPTIONS")
    then options
    else invalid

-- `consumeContent`: the content taken from the buffer, if it is all there, and what is left of the
-- buffer. Where it is exactly the content, the source swaps the two; the request's content was empty.
unfoldable pub consume_content : ℕ → Bytes → Option Bytes × Bytes
consume_content content_length buffer =
    if ltb (length buffer) content_length
    then (none, buffer)
    else (some (take content_length buffer), drop content_length buffer)
