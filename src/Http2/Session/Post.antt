-- ===== src/Http2/Session/Post.antt =====
-- `Http2Session::post_json`: the request, and the loop over the response frames.
pub mod Sending
pub mod Loop
pub mod Data
pub mod Log
use tailscale_iot.Base.{
  ℕ, zero, suc, ◌+◌, ◌-◌, ◌*◌, ◌/◌, ◌%◌, ◌^◌, ◌<◌, ◌≡◌, List, [], ◌∷◌, ◌++◌, length, take, drop,
  get_or, Bytes, Option, none, some, Bool, true, false, not, ◌&&◌, ◌||◌, ltb, leb, ◌==◌,
  if◌then◌else◌, codes, ℤ, pos, negsuc, is_digit,
}
use tailscale_iot.JsonStream
use tailscale_iot.JsonStream.{feed}
use tailscale_iot.Http2.Complete.{has_complete_json}
use tailscale_iot.Http2.Hpack.{encode_literal_header, decode_status_header}
use tailscale_iot.Http2.Frame.{
  Frame, type_data, type_headers, type_settings, type_goaway, type_window_update, flag_end_stream,
  flag_end_headers, append_frame, append_uint32,
}
use tailscale_iot.Http2.Session.{
  Session, send, send_frame, read_frame, handle_settings, send_settings_ack,
}

-- `kFilteredBufferSize`.
abbrev pub buffer_size : ℕ
buffer_size = 65536

-- The decimal digits of `std::to_string(size_t)`, ten at most below 2 ^ 32.
unfoldable pub decimal : ℕ → ℕ → Bytes
decimal zero n = []
decimal (suc fuel) n =
    let rest = decimal fuel (n / 10) in
    if ltb n 10 then (b'0' + n) ∷ [] else rest ++ (b'0' + n % 10) ∷ []

pub record Request : Type 0 where
  pub stream_id : ℕ
  pub scheme : Bytes
  pub authority : Bytes
  pub path : Bytes
  pub payload : Bytes
  pub close_stream : Bool
  pub filter_node_only : Bool

unfoldable pub header_block : Request → Bytes
header_block r =
    let b₁ = encode_literal_header [] (codes ":method") (codes "POST") in
    let b₂ = encode_literal_header b₁ (codes ":scheme") r.scheme in
    let b₃ = encode_literal_header b₂ (codes ":authority") r.authority in
    let b₄ = encode_literal_header b₃ (codes ":path") r.path in
    let b₅ = encode_literal_header b₄ (codes "content-type") (codes "application/json") in
    let b₆ = encode_literal_header b₅ (codes "content-length") (decimal 10 (length r.payload)) in
    encode_literal_header b₆ (codes "accept") (codes "application/json")

abbrev pub headers_frame : Request → Frame
headers_frame r = record {
  length = length (header_block r);
  type = type_headers;
  flags = flag_end_headers;
  stream_id = r.stream_id;
  payload = header_block r;
}

abbrev pub data_frame : Request → Frame
data_frame r = record {
  length = length r.payload;
  type = type_data;
  flags = flag_end_stream;
  stream_id = r.stream_id;
  payload = r.payload;
}

-- Both frames in one buffer.
unfoldable pub request_bytes : Request → Bytes
request_bytes r = append_frame (append_frame [] (headers_frame r)) (data_frame r)

-- The state of the parser and of the response buffer at the start.
abbrev pub reset_json : Session → Bool → Session
reset_json s filter = record s {
  filter_node_only = filter;
  json_parser = JsonStream.initial;
  parsing_json = false;
  json_complete = false;
  filtered = [];
  json_bytes_processed = 0;
}

-- The payload of a DATA frame whose first byte is no brace and whose fifth is one.
abbrev pub has_wire_format : Bytes → Bool
has_wire_format (a ∷ b ∷ c ∷ d ∷ e ∷ rest) = not (a == b'{') && e == b'{'
has_wire_format _ = false

-- The first DATA frame of a response may begin with a length.
abbrev pub is_wire : Session → Bytes → Bool
is_wire s payload = s.json_bytes_processed == 0 && has_wire_format payload

abbrev pub json_data : Session → Bytes → Bytes
json_data s payload = if is_wire s payload then drop 4 payload else payload

-- What the parser's answer changes.
abbrev pub after_feed : Session → Bytes → JsonStream.Parser × Bool → Session
after_feed s json (p, done) =
    let t : Session = record s {
      json_parser = p;
      json_bytes_processed = s.json_bytes_processed + length json;
    } in
    if done && p.found_node then record t { json_complete = true; filtered = p.output } else t

-- The filtering mode: the streaming parser writes to the response buffer.
unfoldable pub filter_data : Session → Bytes → Session
filter_data s json =
    if s.parsing_json && not s.json_complete
    then after_feed s json (feed buffer_size s.json_parser json)
    else s

-- The full mode: append to the response buffer what it can hold, and look whether it is whole.
unfoldable pub append_json : Session → Bytes → Session
append_json s json =
    let space_left = buffer_size - length s.filtered - 1 in
    let copied = take space_left json in
    let buffer = s.filtered ++ copied in
    if ltb 0 (length copied)
    then record s { filtered = buffer; json_complete = s.json_complete || has_complete_json buffer }
    else s

unfoldable pub full_data : Session → Bytes → Session
full_data s json =
    if s.parsing_json
    then record (append_json s json) { json_bytes_processed = s.json_bytes_processed + length json }
    else s

-- Up to the erasure of the frame from `recv_buffer_`.
unfoldable pub take_data : Session → Bytes → Session
take_data s payload =
    let wire = is_wire s payload in
    let json = json_data s payload in
    let t : Session = record s {
      parsing_json =
          s.parsing_json
          || wire
          || (not s.filter_node_only && not wire && s.json_bytes_processed == 0);
    } in
    if s.filter_node_only then filter_data t json else full_data t json

unfoldable pub erase_data : Session → Frame → Session
erase_data s f = record s { recv_buffer = drop (9 + f.length) s.recv_buffer }

abbrev pub window_update : ℕ → ℕ → Frame
window_update stream_id increment = record {
  length = 4;
  type = type_window_update;
  flags = 0;
  stream_id = stream_id;
  payload = append_uint32 [] increment;
}

-- Two WINDOW_UPDATE frames, whose failure is only logged.
unfoldable pub update_windows : Session → ℕ → ℕ → Session
update_windows s stream_id increment =
    if ltb 0 increment
    then (send_frame (send_frame s (window_update stream_id increment)).0
        (window_update 0 increment)).0
    else s

-- How an iteration of the loop ends.
pub data Turn : Type 0 where
  continue : Turn
  leave : Turn
  return : Bool → Turn

abbrev pub has_end_stream : Frame → Bool
has_end_stream f = f.flags % 2 == 1

-- `case kFrameTypeData`.
unfoldable pub handle_data : Session → Request → Frame → Session × Turn
handle_data s r f =
    let payload = take f.length (drop 9 s.recv_buffer) in
    let t = update_windows (erase_data (take_data s payload) f) r.stream_id f.length in
    if t.json_complete
    then (t, if t.filter_node_only || r.close_stream then leave else return true)
    else if has_end_stream f
    then (record t { json_complete = true }, leave)
    else (t, continue)

-- `case kFrameTypeHeaders`; the number is `status_code`.
unfoldable pub status_after : ℕ → Bytes → ℕ
status_after status block = elim (decode_status_header block) [
  | negsuc n ↦ status
  | pos n ↦ if n == 0 then status else n
]

-- `case kFrameTypeSettings`.
unfoldable pub settings_turn : Session → Frame → Session × Turn
settings_turn s f =
    let (t, done) = send_settings_ack s in
    if not (handle_settings f)
    then (s, return false)
    else if f.flags % 2 == 0
    then (t, if done then continue else return false)
    else (s, continue)

unfoldable pub handle_frame : Session → ℕ → Request → Frame → Session × ℕ × Turn
handle_frame s status r f =
    if not (f.stream_id == r.stream_id) && not (f.stream_id == 0)
    then (s, status, return false)
    else if f.type == type_headers
    then (s, status_after status f.payload, if has_end_stream f then leave else continue)
    else if f.type == type_data
    then ((handle_data s r f).0, status, (handle_data s r f).1)
    else if f.type == type_settings
    then ((settings_turn s f).0, status, (settings_turn s f).1)
    else if f.type == type_goaway
    then (s, status, return false)
    else (s, status, continue)

-- What `post_json` returns: its result, `status_code`, and the response where it succeeds.
pub record Reply : Type 0 where
  pub done : Bool
  pub status : ℕ
  pub response : Option Bytes

abbrev pub reply : Session → Bool → ℕ → Reply
reply s done status = record {
  done = done;
  status = status;
  response = if done then some s.filtered else none;
}

-- The loop; each round takes a chunk or ends. `none` means that the fuel ran out.
unfoldable pub response_loop : ℕ → Session → ℕ → Request → Option (Session × Reply)
response_loop zero s status r = none
response_loop (suc fuel) s status r =
    let (s₁, read) = read_frame s in
    elim read [
      | none ↦
          let whole = ltb 0 (length s₁.response_buffer) && has_complete_json s₁.response_buffer in
          some (s₁, reply s₁ whole status)
      | some f ↦
          let (s₂, status', turn) = handle_frame s₁ status r f in
          let rest = response_loop fuel s₂ status' r in
          elim turn [
            | continue ↦ rest
            | leave ↦ some (s₂, reply s₂ true status')
            | return done ↦ some (s₂, reply s₂ done status')
          ]
    ]

-- `post_json`; `status` is what `status_code` was before. Every frame that is read takes a chunk.
unfoldable pub post_json : Session → ℕ → Request → Option (Session × Reply)
post_json s status r =
    let (s₁, done) = send (reset_json s r.filter_node_only) (request_bytes r) in
    let s₂ : Session = record s₁ { response_buffer = [] } in
    if done
    then response_loop (suc (length s₂.incoming)) s₂ 0 r
    else some (s₁, record { done = false; status = status; response = none })
