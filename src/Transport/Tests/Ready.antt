-- ===== src/Transport/Tests/Ready.antt =====
-- A first connection, from keys to the HTTP/2 session.
use tailscale_iot.Base.{◌≡◌, refl, [], ◌∷◌, true, false, some, inl}
use tailscale_iot.WebSocket.{
  encode, decode, mask_from, length_bytes, decode_payload, payload_length,
}
use tailscale_iot.Upgrade.{Upgrade, Read, write_raw, write_loop, read_raw, read_loop, deliver}
use tailscale_iot.Http2.Session.{send, init, send_initial_settings, send_frame}
use tailscale_iot.Transport.{
  new_transport, begin_handshake, split_transport, set_local_static, set_remote_static,
}
use tailscale_iot.Transport.Handshake.{
  parse_response, start_if_new, split_or_fail, after_write, write_first, start_and_write,
  build_handshake_message, after_read, read_response, accept_handshake_message,
  read_handshake_bytes,
}
use tailscale_iot.Transport.Records.{framed, encrypt_payload, send_plaintext}
use tailscale_iot.Transport.Requests.{start_http2_session}
use tailscale_iot.Transport.Ready.{
  Outside, begin_if_idle, build_if_begun, connect_channel, handshake_rounds, finish,
  ensure_ts2021_ready,
}
use tailscale_iot.Transport.Up.{IsUp, ensure_ts2021_ready-IsUp}
use tailscale_iot.Transport.Tests.{toy, channel, session, key, http2, response}

-- All that a first connection needs: keys, a channel, the server's response in the second round.
abbrev outside : Outside
outside = record {
  machine_keys = some (1 ∷ [], 2 ∷ []);
  control_key = some (3 ∷ []);
  opened = some channel;
  arriving = [] ∷ (Read.received 130 (5 ∷ response) ∷ []) ∷ [];
  results = 99 ∷ [];
  mask = key;
  fresh = record http2 { verdicts = [] };
}

abbrev closed_channel : Upgrade
closed_channel = record channel { connected = false }

ensure_run : (ensure_ts2021_ready toy outside session closed_channel new_transport).1 ≡ true
unfolding ensure_ts2021_ready begin_if_idle build_if_begun connect_channel handshake_rounds finish
    set_local_static set_remote_static begin_handshake build_handshake_message start_and_write
    start_if_new write_first after_write accept_handshake_message parse_response read_response
    after_read split_or_fail split_transport read_handshake_bytes read_raw read_loop deliver decode
    decode_payload payload_length start_http2_session send_plaintext encrypt_payload framed
    write_raw write_loop encode mask_from length_bytes init send_initial_settings send_frame send
ensure_run = refl

ensure_ts2021_ready-IsUp_example :
    IsUp toy (ensure_ts2021_ready toy outside session closed_channel new_transport).0
ensure_ts2021_ready-IsUp_example =
    ensure_ts2021_ready-IsUp toy outside session closed_channel new_transport (inl refl) ensure_run
