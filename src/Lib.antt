-- ===== src/Lib.antt =====
-- Verification library for the Tailscale client component of this repository (an ESPHome component
-- in C++ for the ESP32). The paths below start at the repository's root.
--
-- The program and its parts. The component keeps a control connection to the coordination server:
-- components/tailscale/ts2021_upgrade.cpp opens a TLS stream, upgrades it to WebSocket and carries
-- the bytes of a Noise session; components/tailscale/http2_session.cpp speaks HTTP/2 over that
-- session, posts requests and reads the streamed map responses;
-- components/tailscale/json_stream_parser.h cuts the "Node" member out of a response while it arrives;
-- components/tailscale/map_response_parser.cpp reads the node, the peers and the DERP server out of
-- a map response into fixed buffers. components/tailscale/ts2021_transport.cpp makes the handshake
-- of the Noise session (components/tailscale/noise_session.cpp) and carries the encrypted records
-- between the upgraded stream and the HTTP/2 session.
-- components/tailscale/tailscale.cpp holds all this together in a state machine, which the LED
-- (components/tailscale/led_status.cpp) shows; it decides which peer has a WireGuard session, on the
-- table of components/tailscale/wireguard_device_manager.cpp; and it has a small TCP stack for servers
-- on the device (components/tailscale/tailscale_socket.h), such as the echo server of
-- components/tailscale/echo_socket.h. components/tailscale/derp_client.cpp
-- speaks to the relay. The rest of the component (disco and STUN packets, packet queues
-- and key storage of tailscale.cpp, the WireGuard packets, crypto_box, the network
-- interface and the HTTP server) is not modelled here.
--
-- The files.
-- Base (with Base/Tests, Base/Lists, Base/Text, Base/Int, Base/Search): the names that all modules
--   share; lists and tests over the native numbers, bytes, `std::string::find`, `int` counters.
-- Json: JSON texts as the parsers' properties speak of them, strings and bracketed texts.
-- JsonStream: `JsonStreamParser`; its members are the record Parser, the branches of `feed` one
--   function each. JsonStream/Bounds, Chunks, Capture and Document prove.
-- Http2/Frame, Http2/Hpack, Http2/Complete: the frame layout, the header encoding and
--   `decode_status_header_`, and `has_complete_json_`. Http2/Session: the record Session for
--   `Http2Session` and its frame input and output; Http2/Session/Post: `post_json` with one function
--   for each kind of frame; Http2/Session/Next: `read_next_message`. The modules below them prove.
-- WebSocket: `encode_websocket_frame` and `decode_websocket_frame`; WebSocket/Mask, RoundTrip, Server
--   and Bounds prove. Upgrade: `Ts2021Upgrade` with the URL, `read_raw`, `write_raw`, `close` and the
--   handling of the upgrade response; Upgrade/Percent, Url and Stream prove.
-- MapResponse/Extract, MapResponse/Address: the text helpers of map_response_parser.cpp;
--   MapResponse/Peers: the loop over the peers; MapResponse/Parse: `parse_map_static`. The modules
--   below them prove.
-- Activation: `activate_peer_wireguard_` and the functions that it calls; Activation/Bound proves.
-- Transport: `NoiseSession` and the state of `Ts2021Transport`; Transport/Handshake, Records and
--   Requests: its methods; Transport/Ready: `ensure_ts2021_ready_`. Transport/Stages, Runs, Delivery,
--   Streams, Outcome and Up prove.
-- Tcp/Checksum, Packet, Connection and Table: the checksums, `send_tcp_packet_` and the reading of
--   packets, the life of one connection, and the tables with `handle_tcp_packet_`; Tcp/Echo:
--   `EchoSocket`. The modules below them prove.
-- Stun: `handle_stun_packet_`; Stun/Reading and Answer prove.
-- Led: `LedStatus`; Led/Shown proves. Control: `transition_to`, the handlers of `loop` and the
--   watchdogs; Control/Matched, Colours, Recovery and Watchdog prove.
-- Derp: `DerpClient` with its frames and `process`; Derp/Reading, Frames and Bounds prove.
-- The modules called Tests hold runs of the definitions and the theorems at concrete inputs.
--
-- How the code is read. A method is a function on the record of the members, and what it returns
-- stands beside the new record. Callbacks and library calls are lists of their coming results: the
-- chunks that `recv_cb_` gives and the verdicts of `send_cb_`, the results of `esp_tls_conn_read` up
-- to the deadline and of `esp_tls_conn_write`. The end of such a list is a time-out. The random masking
-- key is an argument. Two pointers into a buffer are the list of the bytes between them. A `char`
-- array that is written as a C string is that string, without what stands behind its NUL.
--
-- The Noise session that the component shares with the transport stands in the transport; what the
-- component does to it there is `initialize_transport`.
-- The Noise library is a record of functions on two types of states. A handler of the TCP stack is a
-- record of functions without state of its own. What the state machine asks of the outside in one pass
-- of `loop` is one value. The pointer to a connection is its index in the table; the callbacks of a
-- handler act on the connection alone.
--
-- Numbers. `size_t` has 32 bits; where the code's sums and differences can wrap around, `% 2 ^ 32`
-- or `% 2 ^ 64` is written out. The counters of braces in the stream parser and in
-- `has_complete_json_` are integers with a sign, which do not overflow within the buffers' sizes.
--
-- Fuel. Loops over a buffer are recursions on its bytes. Loops that take one result of the list of
-- results in each round are recursions on that list or have its length as fuel. The loops over JSON
-- arrays and over STUN attributes consume at least one byte in each round and have the length of the
-- text or packet as fuel. The fold of a checksum has two rounds, which are enough for 32 bits; the
-- rounds of the handshake are the code's six.
--
-- Not modelled in these files: logging, the watchdog and heap housekeeping; `ensure_connection_` and
-- the text of the upgrade request; `parse_map_response` (a walk over a cJSON tree),
-- `parse_map_response_streaming` and `print_peer_table`; `perform_stun_query_`; the DERP connection,
-- the keepalives and the echo clients of the connected state. That the callbacks of the HTTP/2
-- session are the transport's own methods is not threaded through the transport's state. Shifts of a
-- `size_t` by 32 bits and more in `encode_websocket_frame`, which are undefined, are read as shifts of
-- a 64-bit number.
pub mod Activation
pub mod Base
pub mod Control
pub mod Derp
pub mod Http2
pub mod Json
pub mod JsonStream
pub mod Led
pub mod MapResponse
pub mod Stun
pub mod Tcp
pub mod Transport
pub mod Upgrade
pub mod WebSocket
