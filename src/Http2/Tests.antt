-- ===== src/Http2/Tests.antt =====
-- Runs of the session, and the theorems at concrete inputs.
use tailscale_iot.Base.{
  ℕ, zero, suc, ◌<◌, ◌≤◌, ◌≡◌, refl, List, [], ◌∷◌, ◌++◌, length, replicate, Bytes, codes, Option,
  none, some, true, false, arith, drop, inl, inr, ◌≢◌,
}
use tailscale_iot.JsonStream
use tailscale_iot.Json.{Quoted, Balanced}
use tailscale_iot.Http2.Hpack.{encode_string_literal, encode_literal_header, digits}
use tailscale_iot.Http2.Complete.{has_complete_json, complete_at, scan, verdict, ends_with_brace}
use tailscale_iot.Http2.Complete.Scan.{Partial}
use tailscale_iot.Http2.Complete.Whole.{
  object_text, has_complete_json-object, has_complete_json-Partial,
}
use tailscale_iot.Http2.Frame.{Frame, append_frame, read_header, append_uint24, append_uint32}
use tailscale_iot.Http2.Session.{
  Session, read_frame, send_settings_ack, process_control_frames, send, send_frame, pull_bytes,
  pull_until, take_frame, read_payload, clear_oversized,
}
use tailscale_iot.Http2.Session.Reading.{read_frame-chunks}
use tailscale_iot.Http2.Session.Settings.{send_settings_ack_once}
use tailscale_iot.Http2.Session.Post.{
  Request, header_block, response_loop, handle_frame, take_data, full_data, append_json,
  update_windows, erase_data, window_update, handle_data, post_json, headers_frame, data_frame,
  request_bytes, decimal, buffer_size,
}
use tailscale_iot.Http2.Session.Post.Sending.{request_bytes-frames, handle_data-credit, credit}
use tailscale_iot.Http2.Session.Post.Loop.{post_json-total}
use tailscale_iot.Http2.Session.Post.Data.{post_json-fits}
use tailscale_iot.Http2.Session.Next.{read_next_message, next_loop, next_frame, next_data}
use tailscale_iot.Http2.Session.Next.Timing.{read_next_message-total, read_next_message-whole}
use tailscale_iot.Http2.Session.Next.Credit.{OnlyAcks, read_next_message-OnlyAcks}

Quoted-letters : (n : ℕ) → Quoted (replicate n b'a')
Quoted-letters zero = Quoted.end
Quoted-letters (suc n) = Quoted.plain (omega arith) (omega arith) (Quoted-letters n)

-- A string of `n` letters.
abbrev letters : ℕ → Bytes
letters n = b'"' ∷ replicate n b'a' ++ b'"' ∷ []

letters-Balanced : (n : ℕ) → Balanced (letters n)
letters-Balanced n =
    Balanced.string {q = replicate n b'a'} {s = []} (Quoted-letters n) Balanced.end refl

long_header : Bytes
long_header = replicate 200 b'x'

has_complete_json-object_example : has_complete_json (object_text (letters 100)) ≡ true
has_complete_json-object_example =
    has_complete_json-object (letters-Balanced 100) (omega arith) (omega arith)

has_complete_json-Partial_example : has_complete_json (codes "{\"aaa") ≡ false
has_complete_json-Partial_example =
    has_complete_json-Partial
      (Partial.in_quotes {s = []} {q = replicate 3 b'a'} Balanced.end (Quoted-letters 3) refl)

abbrev ping : Frame
ping = record { length = 3; type = 6; flags = 0; stream_id = 5; payload = 7 ∷ 8 ∷ 9 ∷ [] }

abbrev waiting : List (Option Bytes) → Session
waiting incoming = record {
  send_set = true;
  recv_set = true;
  recv_buffer = [];
  settings_ack_sent = false;
  settings_exchanged = false;
  json_parser = JsonStream.initial;
  filtered = [];
  parsing_json = false;
  json_complete = false;
  json_bytes_processed = 0;
  filter_node_only = false;
  response_buffer = [];
  incoming = incoming;
  verdicts = [];
  sent = [];
}

abbrev ping_bytes : Bytes
ping_bytes = 0 ∷ 0 ∷ 3 ∷ 6 ∷ 0 ∷ 0 ∷ 0 ∷ 0 ∷ 5 ∷ 7 ∷ 8 ∷ 9 ∷ []

ping_lem : append_frame [] ping ≡ ping_bytes
unfolding append_frame append_uint24 append_uint32
ping_lem = refl

read_frame-chunks_example :
    read_frame (
      waiting (
        some (0 ∷ 0 ∷ []) ∷ some (3 ∷ 6 ∷ 0 ∷ 0 ∷ 0 ∷ 0 ∷ 5 ∷ 7 ∷ []) ∷ some (8 ∷ 9 ∷ 1 ∷ []) ∷ []))
    ≡ (record (waiting []) { recv_buffer = 1 ∷ [] }, some ping)
unfolding append_frame append_uint24 append_uint32
read_frame-chunks_example =
    read_frame-chunks
      (waiting (
        some (0 ∷ 0 ∷ []) ∷ some (3 ∷ 6 ∷ 0 ∷ 0 ∷ 0 ∷ 0 ∷ 5 ∷ 7 ∷ []) ∷ some (8 ∷ 9 ∷ 1 ∷ []) ∷ []))
      ping (0 ∷ 0 ∷ []) ((3 ∷ 6 ∷ 0 ∷ 0 ∷ 0 ∷ 0 ∷ 5 ∷ 7 ∷ []) ∷ (8 ∷ 9 ∷ 1 ∷ []) ∷ []) (1 ∷ []) []
      refl refl refl (omega arith) (omega arith) refl refl (omega arith)

send_settings_ack_once_example :
    send_settings_ack (send_settings_ack (waiting [])).0
    ≡ ((send_settings_ack (waiting [])).0, true)
unfolding send_settings_ack send_frame send
send_settings_ack_once_example = send_settings_ack_once (waiting []) refl

-- The server's SETTINGS, empty.
abbrev greeted : Session
greeted = waiting (some (0 ∷ 0 ∷ 0 ∷ 4 ∷ 0 ∷ 0 ∷ 0 ∷ 0 ∷ 0 ∷ []) ∷ [])

abbrev greeting : Frame
greeting = record { length = 0; type = 4; flags = 0; stream_id = 0; payload = [] }

read_frame-greeted : (read_frame greeted).1 ≡ some greeting
unfolding read_frame clear_oversized pull_bytes pull_until read_payload read_header take_frame
read_frame-greeted = refl

process_control_frames-greeted : (process_control_frames greeted).1 ≡ true
unfolding process_control_frames read_frame clear_oversized pull_bytes pull_until read_payload
    read_header take_frame send_settings_ack send_frame send
process_control_frames-greeted = refl

abbrev question : Request
question = record {
  stream_id = 1;
  scheme = codes "https";
  authority = codes "h";
  path = codes "/m";
  payload = codes "{}";
  close_stream = true;
  filter_node_only = false;
}

-- A DATA frame on stream 1 with END_STREAM.
abbrev hello : Session
hello = waiting (some (0 ∷ 0 ∷ 2 ∷ 0 ∷ 1 ∷ 0 ∷ 0 ∷ 0 ∷ 1 ∷ codes "hi") ∷ [])

request_bytes-frames_example :
    (read_header (request_bytes question) ≡ some (record (headers_frame question) { payload = [] }))
    × (drop 9 (request_bytes question)
        ≡ header_block question ++ append_frame [] (data_frame question))
    × (read_header (append_frame [] (data_frame question))
        ≡ some (record (data_frame question) { payload = [] }))
    × (drop 9 (append_frame [] (data_frame question)) ≡ codes "{}")
    × (digits 0 (decimal 10 2) ≡ 2)
unfolding header_block encode_literal_header encode_string_literal decimal
request_bytes-frames_example =
    request_bytes-frames question (omega arith) (omega arith) (omega arith)

abbrev hello_frame : Frame
hello_frame = record { length = 2; type = 0; flags = 1; stream_id = 1; payload = [] }

abbrev held : Session
held = record (waiting []) { recv_buffer = 0 ∷ 0 ∷ 2 ∷ 0 ∷ 1 ∷ 0 ∷ 0 ∷ 0 ∷ 1 ∷ codes "hi" }

handle_data-credit_example :
    ((handle_data held question hello_frame).0.sent ≡ credit question 2 [])
    × ((handle_data held question hello_frame).0.recv_buffer ≡ [])
handle_data-credit_example = handle_data-credit held question hello_frame refl

post_json-total_example : post_json hello 0 question ≢ none
post_json-total_example = post_json-total hello 0 question

abbrev answered : Session
answered = record (waiting []) {
  filtered = codes "hi";
  parsing_json = true;
  json_complete = true;
  json_bytes_processed = 2;
  sent =
      append_frame [] (window_update 0 2)
      ∷ append_frame [] (window_update 1 2)
      ∷ request_bytes question
      ∷ [];
}

post_json-hello :
    post_json hello 0 question
    ≡ some (answered, record { done = true; status = 0; response = some (codes "hi") })
unfolding post_json response_loop read_frame clear_oversized pull_bytes pull_until read_payload
    read_header take_frame handle_frame handle_data take_data full_data append_json
    has_complete_json complete_at update_windows erase_data send_frame send
post_json-hello = refl

post_json-fits_example : length (codes "hi") < buffer_size
post_json-fits_example = post_json-fits hello 0 question (codes "hi") post_json-hello refl

read_next_message-total_example : read_next_message (0 ∷ 5 ∷ 20 ∷ []) (waiting []) 1 10 ≢ none
read_next_message-total_example =
    read_next_message-total 0 (5 ∷ 20 ∷ []) (waiting []) 1 10 (inr (inl refl))

-- A keep-alive of 104 bytes in a DATA frame on stream 1.
abbrev keep_alive : Bytes
keep_alive = object_text (letters 100)

abbrev heard : Session
heard = waiting (some (0 ∷ 0 ∷ 104 ∷ 0 ∷ 0 ∷ 0 ∷ 0 ∷ 0 ∷ 1 ∷ keep_alive) ∷ [])

abbrev delivered : Session
delivered = record (waiting []) { filtered = keep_alive; parsing_json = true; json_complete = true }

read_next_message-heard :
    read_next_message (0 ∷ 1 ∷ []) heard 1 10 ≡ some (delivered, some keep_alive)
unfolding read_next_message next_loop read_frame clear_oversized pull_bytes pull_until read_payload
    read_header take_frame next_frame next_data append_json has_complete_json complete_at scan
    verdict ends_with_brace erase_data
read_next_message-heard = refl

read_next_message-whole_example : (has_complete_json keep_alive ≡ true) × (100 ≤ length keep_alive)
read_next_message-whole_example =
    read_next_message-whole (0 ∷ 1 ∷ []) heard 1 10 keep_alive read_next_message-heard

read_next_message-OnlyAcks_example : OnlyAcks [] delivered.sent
read_next_message-OnlyAcks_example =
    read_next_message-OnlyAcks (0 ∷ 1 ∷ []) heard 1 10 read_next_message-heard
