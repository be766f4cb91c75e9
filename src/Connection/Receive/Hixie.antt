-- ===== src/Connection/Receive/Hixie.antt =====
-- src/main/c/Connection.cpp: `handleHixieWebSocket`, for texts between a zero byte and 0xff.
pub mod Texts
use seasocks.Prelude.{
  ℕ, zero, suc, ◌+◌, ◌*◌, ◌-◌, ◌<◌, ◌≤◌, ◌≡◌, ◌≢◌, refl, ap, sym, ◌∙◌, ◌⊎◌, inl, inr, Bool, true,
  false, List, [], ◌∷◌, ◌++◌, append_assoc, append-nil, Option, none, some, length, length-append,
  take, drop, take-append, drop-append, get_elem?, get_elem?-append_right, set, ◌==◌, if◌then◌else◌,
  Bytes, All, arith, Bool-cases, subst,
}
use seasocks.Connection.{Connection, M, ◌>>=◌, ◌>>◌, return}
use seasocks.Connection.Output.{is_empty, close_internal}
use seasocks.Connection.Receive.{
  Handler, Outcome, returned, out_of_fuel, handle_text, erase_decoded,
}
use seasocks.Connection.Receive.Ends.{HandlerKeeps, handle_text-KeepsInput}

-- The position of the first 0xff in the bytes that stand from `i` on.
unfoldable pub find_end : ℕ → Bytes → Option ℕ
find_end i [] = none
find_end i (b ∷ bs) = let rest = find_end (i + 1) bs in if b == 0xff then some i else rest

-- `_inBuf[i] = 0`.
unfoldable pub zero_input_at : ℕ → M (Unit {0})
zero_input_at i c = (tt, record c { in_buf = set c.in_buf i 0 })

module _ (handler : Option Handler) where
  -- A message from `start` to `end`: its text is a C string behind its first byte.
  unfoldable pub hixie_message : ℕ → ℕ → M (Unit {0})
  unfolding zero_input_at
  hixie_message start end = do
    zero_input_at end
    λ c. handle_text handler (drop (start + 1) c.in_buf) c

  unfoldable pub hixie_end : (ℕ → Connection → Outcome) → ℕ → Option ℕ → Connection → Outcome
  unfolding hixie_message
  hixie_end loop start none c = returned (erase_decoded start c)
  hixie_end loop start (some end) c = loop (end + 1) (hixie_message start end c).1

  -- One round of the loop, whose test is that there is a byte at `start`.
  unfoldable pub hixie_round : (ℕ → Connection → Outcome) → ℕ → Option ℕ → Connection → Outcome
  unfolding hixie_end close_internal
  hixie_round loop start none c = returned (erase_decoded start c)
  hixie_round loop start (some b) c =
      if b == 0
      then hixie_end loop start (find_end (start + 1) (drop (start + 1) c.in_buf)) c
      else returned (close_internal c).1

  unfoldable pub hixie_loop : ℕ → ℕ → Connection → Outcome
  unfolding hixie_round
  hixie_loop zero start c = out_of_fuel
  hixie_loop (suc fuel) start c = hixie_round (hixie_loop fuel) start (get_elem? c.in_buf start) c

  unfoldable pub handle_hixie_web_socket : Connection → Outcome
  unfolding hixie_loop
  handle_hixie_web_socket c =
      if is_empty c.in_buf then returned c else hixie_loop (length c.in_buf) 0 c
