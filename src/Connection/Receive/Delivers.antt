-- ===== src/Connection/Receive/Delivers.antt =====
-- `handleHybiWebSocket` of src/main/c/Connection.cpp hands on the messages of the frames in its buffer.
use seasocks.Prelude.{ℕ, false, List, [], ◌∷◌, ◌++◌, Option, Bytes, All, IsByte}
use seasocks.Hybi.Opcode
use seasocks.Hybi.Frame.{Key, frame}
use seasocks.Hybi.Header.{KeyOk}
use seasocks.Connection.{Connection, Host, M, ◌>>◌, return}
use seasocks.Connection.Send.{send_hybi}
use seasocks.Connection.Receive.{Handler, handle_text, handle_binary}

-- The kinds of message that the connection goes on after.
pub data Kind : Type 0 where
  text binary ping pong : Kind

abbrev pub code : Kind → ℕ
code text = Opcode.text
code binary = Opcode.binary
code ping = Opcode.ping
code pong = Opcode.pong

pub record Incoming : Type 0 where
  pub kind : Kind
  pub key : Option Key
  pub payload : Bytes

-- The key and the payload are of bytes.
abbrev pub IsIncoming : Incoming → Type 0
IsIncoming m = KeyOk m.key × All IsByte m.payload

abbrev pub frame_of : Incoming → Bytes
frame_of m = frame false (code m.kind) m.key m.payload

abbrev pub frames : List Incoming → Bytes
frames [] = []
frames (m ∷ ms) = frame_of m ++ frames ms

module _ (host : Host) (deflate : ℕ → Bytes → Bytes) (inflate : ℕ → Bytes → Option Bytes)
    (handler : Option Handler) where
  -- What is to happen on a message, independently of the loop: texts and binary messages go to the
  -- handler, a ping is answered by a pong with its payload, a pong is ignored.
  unfoldable pub deliver : Kind → Bytes → M (Unit {0})
  deliver text payload = handle_text handler payload
  deliver binary payload = handle_binary handler payload
  deliver ping payload = send_hybi host deflate Opcode.pong payload
  deliver pong payload = return tt

  unfoldable pub deliver_all : List Incoming → M (Unit {0})
  deliver_all [] = return tt
  deliver_all (m ∷ ms) = do deliver m.kind m.payload; deliver_all ms
