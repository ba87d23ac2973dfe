-- ===== src/Transport/Tests.antt =====
-- Runs of the transport with a small Noise library, and the theorems at concrete inputs.
mod Ready
use tailscale_iot.Base.{
  ◌++◌, ℕ, zero, suc, ◌%◌, ◌^◌, ◌≡◌, ◌≢◌, ◌⊎◌, refl, List, [], ◌∷◌, Bytes, codes, true, false,
  length, take, arith, replicate, if◌then◌else◌, ◌==◌, Option, none, some, inl,
}
use tailscale_iot.JsonStream
use tailscale_iot.WebSocket.{
  encode, decode, mask_from, length_bytes, decode_payload, payload_length,
}
use tailscale_iot.WebSocket.Server.{server_frame}
use tailscale_iot.Upgrade.{Upgrade, Read, write_raw, write_loop, read_raw, read_loop, deliver}
use tailscale_iot.Upgrade.Stream.{Arrives}
use tailscale_iot.Http2.Session.{
  Session, process_control_frames, send, init, send_initial_settings, send_frame,
}
use tailscale_iot.Http2.Session.Post.{Request, post_json}
use tailscale_iot.Transport.{
  Noise, NoiseAction, write_message, read_message, split_action, other_action, started,
  NoiseSession, Transport, transport_ready, awaiting_server_response, stage_failed, new_transport,
  is_in, begin_handshake, set_local_static, set_remote_static,
}
use tailscale_iot.Transport.Handshake.{
  initiation, parse_response, start_if_new, after_write, write_first, start_and_write,
  build_handshake_message, accept_handshake_message, read_handshake_bytes,
}
use tailscale_iot.Transport.Records.{
  framed, parse_record, encrypt_payload, send_plaintext, receive_plaintext,
}
use tailscale_iot.Transport.Requests.{http2_post_json, start_http2_session}
use tailscale_iot.Transport.Delivery.{
  send_plaintext-record, receive_plaintext-record, parse_record-framed_long,
}
use tailscale_iot.Transport.Streams.{Logged, post_each, post_each-numbers}
use tailscale_iot.Transport.Outcome.{
  IsOutcome, accept_handshake_message-IsOutcome, begin_handshake_completed,
}
use tailscale_iot.Transport.Ready.{
  Outside, begin_if_idle, build_if_begun, connect_channel, handshake_rounds, finish,
  ensure_ts2021_ready,
}
use tailscale_iot.Transport.Up.{IsUp, ensure_ts2021_ready-IsUp}

-- A handshake state counts its messages; a cipher puts its number in front of the text.
abbrev toy_action : ℕ → NoiseAction
toy_action zero = write_message
toy_action (suc zero) = read_message
toy_action (suc (suc zero)) = split_action
toy_action _ = other_action

abbrev toy_decrypt : Bytes → ℕ → ℕ × Option Bytes
toy_decrypt [] k = (k, none)
toy_decrypt (c ∷ text) k = if c == k then (suc k, some text) else (k, none)

abbrev toy : Noise ℕ ℕ
toy = record {
  new_by_name = some 0;
  set_prologue = λ p h. (h, true);
  set_keypair = λ private public h. (h, true);
  set_public_key = λ key h. (h, true);
  set_pre_shared_key = λ key h. (h, true);
  start = λ h. (h, started);
  get_action = toy_action;
  write = λ h. (suc h, some (codes "e"));
  read = λ bytes h. (suc h, true);
  split = λ h. (suc h, some (10, 20));
  encrypt = λ text k. (suc k, some (k ∷ text));
  decrypt = toy_decrypt;
}

abbrev session : NoiseSession ℕ ℕ
session = record { handshake = some 0; send_cipher = none; recv_cipher = none }

abbrev begun : Transport ℕ ℕ
begun = (begin_handshake session new_transport).0

abbrev built : Transport ℕ ℕ
built = (build_handshake_message toy begun).0

-- A response of two bytes.
abbrev response : Bytes
response = 2 ∷ 0 ∷ 2 ∷ 7 ∷ 8 ∷ []

abbrev complete : Transport ℕ ℕ
complete = (accept_handshake_message toy response built).0

initiation_run : (build_handshake_message toy begun).1 ≡ some (0 ∷ 1 ∷ 1 ∷ 0 ∷ 1 ∷ codes "e")
unfolding begin_handshake build_handshake_message start_and_write start_if_new write_first
    after_write initiation
initiation_run = refl

-- A transport that awaits the response, written out.
abbrev awaiting : Transport ℕ ℕ
awaiting = record new_transport {
  stage = awaiting_server_response;
  session = some (record session { handshake = some 1 });
}

accept_handshake_message-IsOutcome_example :
    IsOutcome toy (accept_handshake_message toy (codes "??") awaiting)
    × ((parse_response (codes "??") ≢ none)
        ⊎ (is_in stage_failed (accept_handshake_message toy (codes "??") awaiting).0 ≡ true))
accept_handshake_message-IsOutcome_example =
    accept_handshake_message-IsOutcome toy (codes "??") (record session { handshake = some 1 })
      awaiting refl refl

-- The session of a handshake that has been completed.
abbrev used : NoiseSession ℕ ℕ
used = record { handshake = some 3; send_cipher = some 10; recv_cipher = some 20 }

begin_handshake_completed_example :
    ((begin_handshake used new_transport).1 ≡ true)
    × ((build_handshake_message toy (begin_handshake used new_transport).0).1 ≡ none)
    × (is_in stage_failed (build_handshake_message toy (begin_handshake used new_transport).0).0
        ≡ true)
begin_handshake_completed_example = begin_handshake_completed toy 3 used new_transport refl refl

abbrev channel : Upgrade
channel = record {
  raw_url = [];
  scheme = [];
  authority = [];
  host = [];
  port = 443;
  path = [];
  connected = true;
  upgrade_complete = true;
  handshake_init = [];
  recv_buffer = [];
}

abbrev ready : Transport ℕ ℕ
ready = record new_transport {
  stage = transport_ready;
  session = some used;
  upgrade = some channel;
}

abbrev key : Bytes
key = 17 ∷ 34 ∷ 51 ∷ 68 ∷ []

send_run : (send_plaintext toy (20 ∷ []) key (codes "hi") ready).2 ≡ true
unfolding send_plaintext encrypt_payload framed write_raw write_loop encode mask_from length_bytes
send_run = refl

send_plaintext-record_example :
    ((send_plaintext toy (20 ∷ []) key (codes "hi") ready).0
      ≡ record ready { session = some (record used { send_cipher = some 11 }); tx_count = 1 })
    × (decode (send_plaintext toy (20 ∷ []) key (codes "hi") ready).1 ≡ record {
      payload = framed (10 ∷ codes "hi");
      consumed = length (send_plaintext toy (20 ∷ []) key (codes "hi") ready).1;
    })
    × (parse_record (framed (10 ∷ codes "hi")) ≡ some (10 ∷ codes "hi"))
send_plaintext-record_example =
    send_plaintext-record toy (20 ∷ []) key (codes "hi") (10 ∷ codes "hi") 10 11 used ready channel
      refl refl refl refl (ground arith) (omega arith) refl refl (ground arith) refl send_run

-- The server's record arrives in two pieces.
abbrev pieces : List Read
pieces =
    Read.received 130 (6 ∷ 4 ∷ [])
    ∷ Read.want
    ∷ Read.received 0 (3 ∷ 20 ∷ codes "ok" ++ 130 ∷ [])
    ∷ []

pieces-Arrives : Arrives (server_frame (framed (20 ∷ codes "ok"))) (130 ∷ []) [] [] pieces
unfolding server_frame framed
pieces-Arrives = Arrives.chunk 130 130 (6 ∷ 4 ∷ []) (6 ∷ 4 ∷ 0 ∷ 3 ∷ 20 ∷ codes "ok") refl (
    Arrives.idle 0 (3 ∷ 20 ∷ codes "ok") refl (
      Arrives.chunk 0 0 (3 ∷ 20 ∷ codes "ok" ++ 130 ∷ []) (3 ∷ 20 ∷ codes "ok") refl
        (Arrives.whole refl refl)))

receive_plaintext-record_example : receive_plaintext toy 500 pieces ready ≡ (
  record ready {
    session = some (record used { recv_cipher = some 21 });
    upgrade = some (record channel { recv_buffer = 130 ∷ [] });
    rx_count = 1;
  },
  some (codes "ok"),
  [],
)
receive_plaintext-record_example =
    receive_plaintext-record toy 500 (20 ∷ codes "ok") (codes "ok") (130 ∷ []) 20 21 used ready
      channel [] pieces refl refl refl refl (omega arith) refl refl refl (omega arith)
      pieces-Arrives

parse_record-framed_long_example :
    parse_record (framed (replicate 65538 7)) ≡ some (take (65538 % 2 ^ 16) (replicate 65538 7))
parse_record-framed_long_example = parse_record-framed_long (replicate 65538 7) (omega arith)

-- An open session whose sends fail, and two requests.
abbrev http2 : Session
http2 = record {
  send_set = true;
  recv_set = true;
  recv_buffer = [];
  settings_ack_sent = true;
  settings_exchanged = true;
  json_parser = JsonStream.initial;
  filtered = [];
  parsing_json = false;
  json_complete = false;
  json_bytes_processed = 0;
  filter_node_only = false;
  response_buffer = [];
  incoming = [];
  verdicts = false ∷ false ∷ [];
  sent = [];
}

abbrev opened : Transport ℕ ℕ
opened = record ready { http2_session = some http2 }

abbrev request : Request
request = record {
  stream_id = 0;
  scheme = codes "https";
  authority = codes "host";
  path = codes "/machine/map";
  payload = codes "{}";
  close_stream = false;
  filter_node_only = false;
}

abbrev requests : List (ℕ × Request)
requests = (0, request) ∷ (0, record request { close_stream = true }) ∷ []

abbrev posted : Transport ℕ ℕ
posted = elim (post_each requests opened) [ none ↦ opened | some t ↦ t ]

posted_run : post_each requests opened ≡ some posted
unfolding post_each http2_post_json process_control_frames post_json send
posted_run = refl

post_each-numbers_example :
    (after : Transport ℕ ℕ) × (last : Session) × (post_each requests opened ≡ some after)
    × (after.http2_session ≡ some last)
    × Logged 1 requests [] last.sent
    × (after.next_stream_id ≡ 5)
    × (after.persistent_stream_id ≡ 1)
post_each-numbers_example = post_each-numbers requests opened http2 channel refl refl (omega arith)
