-- ===== src/Derp/Tests.antt =====
-- Runs of the DERP client, and the theorems at concrete inputs.
use tailscale_iot.Base.{
  ◌≡◌, refl, [], ◌∷◌, ◌++◌, Bytes, codes, false, equal, replicate, arith, none, some,
}
use tailscale_iot.Derp.{
  got, again, DerpClient, DerpState, frame_header, process, process_ready, handle_server_key,
  process_client, process_info, read_header, read_loop, read_payload, handle_server_info, send_info,
  send_frame, keep_alive, read_one, connect, magic,
}
use tailscale_iot.Derp.Reading.{bytes_of, IsFlowing}
use tailscale_iot.Derp.Frames.{process_ready-packet}
use tailscale_iot.Derp.Bounds.{process_ready-overrun, handle_server_key_overrun}

abbrev client : DerpClient
client = record {
  state = DerpState.ready;
  our_key = replicate 32 1;
  server_key = replicate 32 2;
  last_keep_alive = 1000;
  last_activity = 1000;
  reads = [];
  writes = [];
  sent = [];
  packets = [];
  overrun = 0;
}

abbrev peer_key : Bytes
peer_key = replicate 32 7

-- A packet, in two pieces with a wait between them, and the start of the next frame.
abbrev relayed : DerpClient
relayed = record client {
  reads =
      got (frame_header 5 37 ++ replicate 30 7)
      ∷ again false
      ∷ got (7 ∷ 7 ∷ codes "hello" ++ 6 ∷ [])
      ∷ [];
}

process_ready-packet_example :
    ((process_ready 2000 relayed).packets ≡ record { key = peer_key; bytes = codes "hello" } ∷ [])
    × (bytes_of (process_ready 2000 relayed).reads ≡ 6 ∷ [])
    × IsFlowing (process_ready 2000 relayed).reads
    × ((process_ready 2000 relayed).state ≡ DerpState.ready)
    × ((process_ready 2000 relayed).overrun ≡ 0)
unfolding frame_header
process_ready-packet_example =
    process_ready-packet 2000 peer_key (codes "hello") (frame_header 5 37 ++ replicate 30 7)
      (6 ∷ []) (again false ∷ got (7 ∷ 7 ∷ codes "hello" ++ 6 ∷ []) ∷ []) relayed refl (omega arith)
      (omega arith) refl (ground arith) (omega arith) refl (omega arith) refl

process_ready-overrun_example : (process_ready 2000 relayed).overrun ≡ 0
process_ready-overrun_example = process_ready-overrun 2000 relayed

-- A frame with the server's key that is far too long.
abbrev attacked : DerpClient
attacked = record client {
  state = DerpState.wait_server_key;
  reads = got (frame_header 1 2048 ++ replicate 2048 0x41) ∷ [];
}

handle_server_key_overrun_example : (handle_server_key attacked).0.overrun ≡ 1792
unfolding frame_header
handle_server_key_overrun_example =
    handle_server_key_overrun (replicate 2048 0x41) (frame_header 1 2048 ++ replicate 2048 0x41) []
      [] attacked refl _ (omega arith) (omega arith) (omega arith) refl

-- The handshake in one call, and the way out of an error, which there is none.
abbrev greeted : DerpClient
greeted = record client {
  state = DerpState.wait_server_key;
  reads =
      got (frame_header 1 40 ++ magic ++ replicate 32 9)
      ∷ got (frame_header 3 2 ++ codes "{}")
      ∷ [];
}

handshake_run :
    (process (λ nonce key. some (codes "box")) (replicate 24 0) 2000 greeted).state
    ≡ DerpState.ready
unfolding process process_client process_info process_ready keep_alive read_one handle_server_key
    handle_server_info send_info send_frame frame_header read_header read_payload read_loop equal
handshake_run = refl

abbrev lost : DerpClient
lost = record client { state = DerpState.derp_error }

stays_lost :
    ((process (λ nonce key. none) [] 2000 lost).state ≡ DerpState.derp_error)
    × ((connect none 2000 lost).1 ≡ false)
unfolding process connect
stays_lost = (refl, refl)
