-- ===== src/Http2/Session.antt =====
-- The state of `Http2Session` and its frame input and output: `send_frame_`, `pull_bytes_`,
-- `read_frame_`, `send_initial_settings`, `send_settings_ack_`, `handle_settings_`,
-- `process_control_frames`, `init` and `send_data_on_stream`.
-- The callbacks stand outside: what the calls of `recv_cb_` will give is the list `incoming`
-- (`none` where the callback returns false), what the calls of `send_cb_` will return is the list
-- `verdicts` (true from its end on), and `sent` is what they were given, newest first.
pub mod Reading
pub mod Settings
pub mod Post
pub mod Next
use tailscale_iot.Base.{
  ℕ, zero, suc, ◌+◌, ◌-◌, ◌*◌, ◌/◌, ◌%◌, ◌^◌, ◌<◌, ◌≡◌, List, [], ◌∷◌, ◌++◌, length, take, drop,
  Bytes, Option, none, some, Bool, true, false, not, ◌&&◌, ◌||◌, ltb, leb, ◌==◌, if◌then◌else◌,
}
use tailscale_iot.JsonStream
use tailscale_iot.Http2.Frame.{
  Frame, type_data, type_settings, flag_ack, max_frame_size, append_frame, read_header,
  append_uint32,
}

pub record Session : Type 0 where
  pub send_set : Bool
  pub recv_set : Bool
  pub recv_buffer : Bytes
  pub settings_ack_sent : Bool
  pub settings_exchanged : Bool
  pub json_parser : JsonStream.Parser
  pub filtered : Bytes
  pub parsing_json : Bool
  pub json_complete : Bool
  pub json_bytes_processed : ℕ
  pub filter_node_only : Bool
  pub response_buffer : Bytes
  pub incoming : List (Option Bytes)
  pub verdicts : List Bool
  pub sent : List Bytes

-- A call of `send_cb_`.
unfoldable pub send : Session → Bytes → Session × Bool
send s out = elim s.verdicts [
  | [] ↦ (record s { sent = out ∷ s.sent }, true)
  | v ∷ rest ↦ (record s { sent = out ∷ s.sent; verdicts = rest }, v)
]

unfoldable pub send_frame : Session → Frame → Session × Bool
send_frame s f = if s.send_set then send s (append_frame [] f) else (s, false)

abbrev pub max_recv_buffer : ℕ
max_recv_buffer = 40 * 1024

-- `pull_bytes_`; no more input is a time-out.
unfoldable pub pull_bytes : Session → Session × Bool
pull_bytes s =
    if not s.recv_set || ltb max_recv_buffer (length s.recv_buffer)
    then (s, false)
    else elim s.incoming [
      | [] ↦ (s, false)
      | none ∷ rest ↦ (record s { incoming = rest }, false)
      | some chunk ∷ rest ↦
          (record s { incoming = rest; recv_buffer = s.recv_buffer ++ chunk }, ltb 0 (length chunk))
    ]

-- `while (recv_buffer_.size() < need) if (!pull_bytes_()) return false;`. Every round takes
-- a chunk, so the number of chunks is fuel enough. (The loop's other exit, a buffer that
-- is far larger than needed, is only taken where its condition would end it as well.)
unfoldable pub pull_until : ℕ → ℕ → Session → Session × Bool
pull_until zero need s = (s, leb need (length s.recv_buffer))
pull_until (suc fuel) need s =
    let again = pull_until fuel need (pull_bytes s).0 in
    if ltb (length s.recv_buffer) need
    then if (pull_bytes s).1 then again else ((pull_bytes s).0, false)
    else (s, true)

-- The end of `read_frame_`, with the whole frame in the buffer: a DATA frame is left there.
unfoldable pub take_frame : Session → Frame → Session × Option Frame
take_frame s f = if f.type == type_data then (s, some f) else (
  record s { recv_buffer = drop (9 + f.length) s.recv_buffer },
  some (record f { payload = take f.length (drop 9 s.recv_buffer) }),
)

-- `read_frame_` with its header in the buffer.
unfoldable pub read_payload : Session → Session × Option Frame
read_payload s = elim (read_header s.recv_buffer) [
  | none ↦ (s, none)
  | some f ↦
      let pulled = pull_until (suc (length s.incoming)) (9 + f.length) s in
      if ltb max_frame_size f.length
      then (s, none)
      else if pulled.1
      then take_frame pulled.0 f
      else (pulled.0, none)
]

-- `if (recv_buffer_.size() > MAX_FRAME_SIZE * 2) recv_buffer_.clear();`
unfoldable pub clear_oversized : Session → Session
clear_oversized s =
    if ltb (max_frame_size * 2) (length s.recv_buffer) then record s { recv_buffer = [] } else s

-- `read_frame_`; the frame is `none` where it returns false.
unfoldable pub read_frame : Session → Session × Option Frame
read_frame s =
    let (s₁, first) = pull_bytes (clear_oversized s) in
    let (s₂, header) = pull_until (suc (length s₁.incoming)) 9 s₁ in
    if first then if header then read_payload s₂ else (s₂, none) else (s₁, none)

abbrev pub settings_payload : Bytes
settings_payload =
    0
    ∷ 2
    ∷ 0
    ∷ 0
    ∷ 0
    ∷ 0
    ∷ 0
    ∷ 5
    ∷ (max_frame_size / 2 ^ 24 % 256)
    ∷ (max_frame_size / 2 ^ 16 % 256)
    ∷ (max_frame_size / 2 ^ 8 % 256)
    ∷ (max_frame_size % 256)
    ∷ []

unfoldable pub send_initial_settings : Session → Session × Bool
send_initial_settings s = send_frame s (record {
  length = length settings_payload;
  type = type_settings;
  flags = 0;
  stream_id = 0;
  payload = settings_payload;
})

-- `init`, with both callbacks set or not.
unfoldable pub init : Session → Bool → Bool → Session × Bool
init s send_set recv_set = send_initial_settings (record s {
  send_set = send_set;
  recv_set = recv_set;
  recv_buffer = [];
  settings_ack_sent = false;
  settings_exchanged = false;
  response_buffer = [];
})

abbrev pub handle_settings : Frame → Bool
handle_settings f = f.stream_id == 0

abbrev pub settings_ack : Frame
settings_ack = record {
  length = 0;
  type = type_settings;
  flags = flag_ack;
  stream_id = 0;
  payload = [];
}

unfoldable pub send_settings_ack : Session → Session × Bool
send_settings_ack s =
    if s.settings_ack_sent
    then (s, true)
    else let (s', done) = send_frame s settings_ack in
      if done then (record s' { settings_ack_sent = true }, true) else (s', false)

-- The guards of `process_control_frames` on the first frame.
abbrev pub is_server_settings : Frame → Bool
is_server_settings f = f.stream_id == 0 && f.type == type_settings && f.flags % 2 == 0

unfoldable pub process_control_frames : Session → Session × Bool
process_control_frames s =
    if s.settings_exchanged
    then (s, true)
    else let (s₁, r) = read_frame s in
      elim r [
        | none ↦ (s₁, false)
        | some f ↦
            let (s₂, done) = send_settings_ack s₁ in
            if is_server_settings f && handle_settings f
            then if done then (record s₂ { settings_exchanged = true }, true) else (s₂, false)
            else (s₁, false)
      ]

-- `send_data_on_stream`.
unfoldable pub send_data_on_stream : Session → ℕ → Bytes → Session × Bool
send_data_on_stream s stream_id text =
    let wire = append_uint32 [] (length text) ++ text in
    send_frame s (record {
      length = length wire;
      type = type_data;
      flags = 0;
      stream_id = stream_id;
      payload = wire;
    })
