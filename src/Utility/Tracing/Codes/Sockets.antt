-- ===== src/Utility/Tracing/Codes/Sockets.antt =====
-- ZMTracing.h: the documented numbers of the sockets.
use zmessaging_cocoa.Base.{ℕ, List, [], ◌∷◌, some, ◌≡◌, refl, decode, Coded}

pub data WebSocketChange : Type 0 where
  network_socket_pair_created network_socket_did_open : WebSocketChange
  network_socket_did_receive_data network_socket_did_receive_frame : WebSocketChange
  network_socket_did_close failed_to_parse_frame open_socket parsed_handshake : WebSocketChange
  closing closing_both sending_frame delaying_frame : WebSocketChange

abbrev pub web_socket_change_code : WebSocketChange → ℕ
web_socket_change_code WebSocketChange.network_socket_pair_created = 100
web_socket_change_code WebSocketChange.network_socket_did_open = 101
web_socket_change_code WebSocketChange.network_socket_did_receive_data = 102
web_socket_change_code WebSocketChange.network_socket_did_receive_frame = 103
web_socket_change_code WebSocketChange.network_socket_did_close = 104
web_socket_change_code WebSocketChange.failed_to_parse_frame = 105
web_socket_change_code WebSocketChange.open_socket = 0
web_socket_change_code WebSocketChange.parsed_handshake = 1
web_socket_change_code WebSocketChange.closing = 2
web_socket_change_code WebSocketChange.closing_both = 3
web_socket_change_code WebSocketChange.sending_frame = 4
web_socket_change_code WebSocketChange.delaying_frame = 5

abbrev pub web_socket_change_values : List WebSocketChange
web_socket_change_values =
    WebSocketChange.network_socket_pair_created ∷ WebSocketChange.network_socket_did_open
    ∷ WebSocketChange.network_socket_did_receive_data
    ∷ WebSocketChange.network_socket_did_receive_frame ∷ WebSocketChange.network_socket_did_close
    ∷ WebSocketChange.failed_to_parse_frame ∷ WebSocketChange.open_socket
    ∷ WebSocketChange.parsed_handshake ∷ WebSocketChange.closing ∷ WebSocketChange.closing_both
    ∷ WebSocketChange.sending_frame ∷ WebSocketChange.delaying_frame ∷ []

pub web_socket_change_found :
    (a : WebSocketChange)
    → decode web_socket_change_code web_socket_change_values (web_socket_change_code a) ≡ some a
unfolding decode
web_socket_change_found WebSocketChange.network_socket_pair_created = refl
web_socket_change_found _ = refl

instance pub web_socket_change_coded : Coded WebSocketChange
web_socket_change_coded = record {
  code = web_socket_change_code;
  values = web_socket_change_values;
  found = web_socket_change_found;
}

pub data NetworkSocketChange : Type 0 where
  closing_socket created_socket socket_event socket_init socket_open : NetworkSocketChange
  socket_close read_data wrote_data : NetworkSocketChange

abbrev pub network_socket_change_code : NetworkSocketChange → ℕ
network_socket_change_code NetworkSocketChange.closing_socket = 100
network_socket_change_code NetworkSocketChange.created_socket = 101
network_socket_change_code NetworkSocketChange.socket_event = 102
network_socket_change_code NetworkSocketChange.socket_init = 0
network_socket_change_code NetworkSocketChange.socket_open = 2
network_socket_change_code NetworkSocketChange.socket_close = 1
network_socket_change_code NetworkSocketChange.read_data = 3
network_socket_change_code NetworkSocketChange.wrote_data = 4

abbrev pub network_socket_change_values : List NetworkSocketChange
network_socket_change_values =
    NetworkSocketChange.closing_socket ∷ NetworkSocketChange.created_socket
    ∷ NetworkSocketChange.socket_event ∷ NetworkSocketChange.socket_init
    ∷ NetworkSocketChange.socket_open ∷ NetworkSocketChange.socket_close
    ∷ NetworkSocketChange.read_data ∷ NetworkSocketChange.wrote_data ∷ []

pub network_socket_change_found :
    (a : NetworkSocketChange)
    → decode network_socket_change_code network_socket_change_values (network_socket_change_code a)
      ≡ some a
unfolding decode
network_socket_change_found NetworkSocketChange.closing_socket = refl
network_socket_change_found _ = refl

instance pub network_socket_change_coded : Coded NetworkSocketChange
network_socket_change_coded = record {
  code = network_socket_change_code;
  values = network_socket_change_values;
  found = network_socket_change_found;
}
