-- ===== src/Connection/Errors/Whole.antt =====
-- `sendError` of src/main/c/Connection.cpp on a connection whose buffer has room for the response.
use seasocks.Prelude.{◌+◌, ◌<◌, ◌≡◌, ◌⊎◌, Bool, true, false, ◌++◌, length, Bytes}
use seasocks.Connection.{Connection, Host, M}
use seasocks.Connection.Stream.{stream}
use seasocks.Connection.Write.{refuses}

-- All of the bytes stand in the buffer, and the connection still takes data.
record Buffers (c : Connection) (bytes : Bytes) (d : Connection) : Type 0 where
  same_wire : d.wire ≡ c.wire
  new_out : d.out_buf ≡ c.out_buf ++ bytes
  same_error : d.had_send_error ≡ c.had_send_error
  accepts : refuses d ≡ false

-- The connection is closed behind what was sent, unless the socket refused.
abbrev pub Closes : Bool × Connection → Type 0
Closes r = (r.0 ≡ false) ⊎ (refuses r.1 ≡ true)

module _ (host : Host) where
  abbrev HasRoom : Connection → Bytes → Type 0
  HasRoom c bytes = length c.out_buf + length bytes < host.client_buffer_size

  -- A method that puts all of the bytes into the stream, and closes.
  abbrev Delivers : M Bool → Bytes → Type 0
  Delivers m bytes =
      (c : Connection)
      → refuses c ≡ false
      → c.had_send_error ≡ false
      → HasRoom c bytes
      → (stream (m c).1 ≡ stream c ++ bytes) × Closes (m c)
