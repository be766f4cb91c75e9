-- ===== src/Connection/Receive/Tests.antt =====
-- WebSocket messages that src/main/c/Connection.cpp receives, with a handler that logs what it gets.
use seasocks.Prelude.{◌≢◌, refl, ◌++◌, [], ◌∷◌, none, some, arith, Bytes, Option, List, ℕ}
use seasocks.Connection.{Connection, initial, handling_hybi_websocket, handling_hixie_websocket}
use seasocks.Connection.Example.{host, doubled}
use seasocks.Connection.Receive.{Handler, out_of_fuel, handle_hybi_web_socket}
use seasocks.Connection.Receive.Ends.{HandlerKeeps, handle_hybi_web_socket-ends}
use seasocks.Connection.Receive.Delivers.{Incoming, text, ping}

abbrev echo : Option Handler
echo = some (record {
  on_text = λ message c. (tt, record c { out_buf = c.out_buf ++ message });
  on_binary = λ message c. (tt, record c { out_buf = c.out_buf ++ (2 ∷ message) });
})

keeps : HandlerKeeps echo
keeps = (λ message c. refl, λ message c. refl)

abbrev no_inflate : ℕ → Bytes → Option Bytes
no_inflate call message = none

-- A masked text and a ping without a mask, and the first byte of another frame.
abbrev input : Bytes
input = 0x81 ∷ 0x82 ∷ 1 ∷ 2 ∷ 3 ∷ 4 ∷ 0x49 ∷ 0x6b ∷ 0x89 ∷ 1 ∷ 7 ∷ 0x81 ∷ []

abbrev messages : List Incoming
messages =
    record {
      kind = text;
      key = some (record { k0 = 1; k1 = 2; k2 = 3; k3 = 4 });
      payload = 0x48 ∷ 0x69 ∷ [];
    }
    ∷ record { kind = ping; key = none; payload = 7 ∷ [] }
    ∷ []

abbrev receiving : Connection
receiving = record initial { state = handling_hybi_websocket; in_buf = input }

handle_hybi_web_socket-ends_example :
    handle_hybi_web_socket host doubled no_inflate echo receiving ≢ out_of_fuel
handle_hybi_web_socket-ends_example =
    handle_hybi_web_socket-ends host doubled no_inflate echo keeps receiving (omega arith)

abbrev hixie : Connection
hixie = record initial {
  state = handling_hixie_websocket;
  in_buf = 0 ∷ 0x48 ∷ 0xff ∷ 0 ∷ 0xff ∷ 0 ∷ 0x69 ∷ [];
}
