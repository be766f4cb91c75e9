-- ===== src/Connection/Output.antt =====
-- src/main/c/Connection.cpp: closing, and the output buffer in front of the socket. Sizes are below
-- 2 ^ 31, so that the casts to `int` and `ssize_t` change nothing. All calls are made on the server's
-- thread, where `checkThread` does nothing.
use seasocks.Prelude.{
  ℕ, suc, ◌+◌, Bool, true, false, not, ◌&&◌, ◌||◌, [], ◌∷◌, ◌++◌, Option, none, some, length, take,
  drop, leb, ◌==◌, if◌then◌else◌, Bytes,
}
use seasocks.Connection.{
  Connection, Host, SendResult, sent, would_block, send_failed, M, ◌>>=◌, return, drop_result,
}

abbrev pub is_empty : Bytes → Bool
is_empty [] = true
is_empty (x ∷ xs) = false

unfoldable pub closed : Connection → Bool
closed c = not c.fd_open || c.is_shutdown

-- `::shutdown` is called where the descriptor is open; its failure is only logged.
unfoldable pub close_internal : M (Unit {0})
close_internal c = (tt, record c { is_shutdown = true })

unfoldable pub close : M (Unit {0})
unfolding close_internal
close c = close_internal (record c { shutdown_by_user = true })

unfoldable pub close_when_empty : M (Unit {0})
unfolding close_internal
close_when_empty c =
    if is_empty c.out_buf then close_internal c else (tt, record c { close_on_empty = true })

-- What the code does on the answer of `::send`. `none` is the result -1.
unfoldable pub after_send : Bytes → SendResult → M (Option ℕ)
unfolding close_internal
after_send bytes (sent n) c =
    (some n, record c { bytes_sent = c.bytes_sent + n; wire = c.wire ++ take n bytes })
after_send bytes would_block c = (some 0, c)
after_send bytes send_failed c = (none, (close_internal c).1)

module _ (host : Host) where
  unfoldable pub safe_send : Bytes → M (Option ℕ)
  unfolding after_send
  safe_send bytes c =
      if not c.fd_open || c.had_send_error || c.is_shutdown
      then (none, c)
      else after_send bytes (host.send c.send_calls (length bytes))
          (record c { send_calls = suc c.send_calls })

  -- The changes of the events that the server polls for, once data was sent.
  unfoldable pub flush_events : M Bool
  flush_events c =
      if not (is_empty c.out_buf) && not c.registered_for_write_events
      then if host.subscribe c.poll_calls
        then (true, record c { registered_for_write_events = true; poll_calls = suc c.poll_calls })
        else (false, record c { poll_calls = suc c.poll_calls })
      else if is_empty c.out_buf && c.registered_for_write_events
      then if host.unsubscribe c.poll_calls
        then (true, record c { registered_for_write_events = false; poll_calls = suc c.poll_calls })
        else (false, record c { poll_calls = suc c.poll_calls })
      else (true, c)

  -- The end of `flush`, where the events are as they should be.
  unfoldable pub flush_close : Bool → M Bool
  unfolding closed close_internal
  flush_close false c = (false, c)
  flush_close true c =
      if is_empty c.out_buf && not (closed c) && c.close_on_empty
      then (true, (close_internal c).1)
      else (true, c)

  unfoldable pub flush_sent : Option ℕ → M Bool
  flush_sent none c = (false, c)
  flush_sent (some n) c = (flush_events >>= flush_close) (record c { out_buf = drop n c.out_buf })

  unfoldable pub flush : M Bool
  unfolding flush_events flush_close flush_sent
  flush c = if is_empty c.out_buf then (true, c) else (safe_send c.out_buf >>= flush_sent) c

  -- The slow path of `write`: `rest` is what the fast path has not sent.
  unfoldable pub write_rest : Bytes → Bool → M Bool
  unfolding close_internal
  write_rest rest flush_it c =
      if leb host.client_buffer_size (length c.out_buf + length rest)
      then (false, (close_internal c).1)
      else let buffered = record c { out_buf = c.out_buf ++ rest } in
        if flush_it then flush buffered else (true, buffered)

  -- Behind the attempt to send directly.
  unfoldable pub write_direct : Bytes → Option ℕ → M Bool
  unfolding write_rest
  write_direct bytes none c = (false, c)
  write_direct bytes (some n) c =
      if n == length bytes then (true, c) else write_rest (drop n bytes) true c

  unfoldable pub write : Bytes → Bool → M Bool
  unfolding write_rest write_direct closed
  write bytes flush_it c =
      if closed c || c.close_on_empty
      then (false, c)
      else if is_empty bytes
      then if flush_it then flush c else (true, c)
      else if is_empty c.out_buf && flush_it
      then (safe_send bytes >>= write_direct bytes) c
      else write_rest bytes flush_it c

  -- `if (!write(bytes, false)) return;` in front of `next`.
  abbrev pub write_or_return : Bytes → M (Unit {0}) → M (Unit {0})
  write_or_return bytes next = do ok ← write bytes false; if ok then next else return tt

  -- The overload for `std::string`.
  unfoldable pub buffer_line : Bytes → M Bool
  buffer_line line = write (line ++ (b'\r' ∷ b'\n' ∷ [])) false

  -- The overload for `const char*`.
  unfoldable pub buffer_line_chars : Bytes → M Bool
  buffer_line_chars line = do
    ok ← write line false
    if ok then write (b'\r' ∷ b'\n' ∷ []) false else return false

  unfoldable pub handle_data_ready_for_write : M (Unit {0})
  unfolding closed
  handle_data_ready_for_write c = if closed c then (tt, c) else drop_result flush c
