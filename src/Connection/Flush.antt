-- ===== src/Connection/Flush.antt =====
-- `flush` and `handleDataReadyForWrite` of src/main/c/Connection.cpp, by the answers of `::send`.
use seasocks.Prelude.{
  ℕ, suc, ◌+◌, ◌≤◌, ◌≡◌, ◌⊎◌, Bool, true, false, not, ◌&&◌, ◌++◌, length, take, drop,
}
use seasocks.Connection.{Connection, Host, SendResult, sent, would_block, send_failed}
use seasocks.Connection.Output.{is_empty}

-- `::send` has taken `n` bytes of the buffer: they are on the wire and no longer in the buffer. The
-- server polls for write events while bytes are left, and the socket is shut down once none is and
-- that was asked for, both unless the server refuses the change of the events.
pub record Moves (c : Connection) (n : ℕ) (ok : Bool) (d : Connection) : Type 0 where
  pub some_fit : n ≤ length c.out_buf
  pub new_wire : d.wire ≡ c.wire ++ take n c.out_buf
  pub new_out : d.out_buf ≡ drop n c.out_buf
  pub new_count : d.bytes_sent ≡ c.bytes_sent + n
  pub one_call : d.send_calls ≡ suc c.send_calls
  pub polled : (ok ≡ false) ⊎ (d.registered_for_write_events ≡ not (is_empty d.out_buf))
  pub shut : d.is_shutdown ≡ (ok && (is_empty d.out_buf && c.close_on_empty))
  pub same_fd : d.fd_open ≡ c.fd_open
  pub same_wish : d.close_on_empty ≡ c.close_on_empty
  pub same_error : d.had_send_error ≡ c.had_send_error

-- `::send` has failed: no byte is lost, and the socket is shut down.
pub record Fails (c : Connection) (ok : Bool) (d : Connection) : Type 0 where
  pub says_so : ok ≡ false
  pub same_wire : d.wire ≡ c.wire
  pub same_out : d.out_buf ≡ c.out_buf
  pub same_count : d.bytes_sent ≡ c.bytes_sent
  pub shut : d.is_shutdown ≡ true

abbrev pub Answered : SendResult → Connection → Bool → Connection → Type 0
Answered (sent n) c ok d = Moves c n ok d
Answered would_block c ok d = Moves c 0 ok d
Answered send_failed c ok d = Fails c ok d

-- What a flush does: nothing on an empty buffer, nothing on a closed socket, and on all else it calls
-- `::send` once with the whole buffer and follows its answer.
abbrev pub Flushes : Host → Bool → Bool → Connection → Bool → Connection → Type 0
Flushes host true ignored c ok d = (ok ≡ true) × (d ≡ c)
Flushes host false true c ok d = (ok ≡ false) × (d ≡ c)
Flushes host false false c ok d = Answered (host.send c.send_calls (length c.out_buf)) c ok d

module _ (host : Host) where
  -- The end of a flush, from a connection that `::send` has left open.
  record Ended (d : Connection) (ok : Bool) (e : Connection) : Type 0 where
    same_wire : e.wire ≡ d.wire
    same_out : e.out_buf ≡ d.out_buf
    same_count : e.bytes_sent ≡ d.bytes_sent
    same_calls : e.send_calls ≡ d.send_calls
    polled : (ok ≡ false) ⊎ (e.registered_for_write_events ≡ not (is_empty d.out_buf))
    shut : e.is_shutdown ≡ (ok && (is_empty d.out_buf && d.close_on_empty))
    same_fd : e.fd_open ≡ d.fd_open
    same_wish : e.close_on_empty ≡ d.close_on_empty
    same_error : e.had_send_error ≡ d.had_send_error
