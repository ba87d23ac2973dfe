-- ===== src/Http2/Session/Next.antt =====
-- `Http2Session::read_next_message`, which waits for one message on an open stream.
pub mod Timing
pub mod Credit
use tailscale_iot.Base.{
  ℕ, ◌+◌, ◌-◌, ◌%◌, ◌^◌, List, [], ◌∷◌, length, take, drop, Bytes, Option, none, some, Bool, true,
  false, not, ◌&&◌, ◌||◌, ltb, leb, ◌==◌, if◌then◌else◌,
}
use tailscale_iot.Http2.Frame.{Frame, type_headers, type_data, type_settings, type_goaway}
use tailscale_iot.Http2.Session.{Session, read_frame}
use tailscale_iot.Http2.Session.Post.{
  Turn, continue, leave, return, reset_json, is_wire, json_data, append_json, erase_data,
  has_end_stream, settings_turn,
}

-- A frame for another stream: a DATA frame is taken out of the buffer.
unfoldable pub drop_frame : Session → Frame → Session
drop_frame s f =
    if f.type == type_data && leb (9 + f.length) (length s.recv_buffer) then erase_data s f else s

-- `case kFrameTypeData`; `return true` where the message is whole.
unfoldable pub next_data : Session → Frame → Session × Turn
next_data s f =
    let payload = take f.length (drop 9 s.recv_buffer) in
    let json = json_data s payload in
    let started : Session = record s {
      parsing_json = s.parsing_json || is_wire s payload || s.json_bytes_processed == 0;
    } in
    let t = append_json started json in
    let whole = started.parsing_json && not s.json_complete && t.json_complete in
    let u : Session =
      if started.parsing_json
      then record t { json_bytes_processed = s.json_bytes_processed + length json }
      else started in
    if whole
    then (erase_data t f, return true)
    else (erase_data u f, if has_end_stream f then return false else continue)

unfoldable pub next_frame : Session → ℕ → Frame → Session × Turn
next_frame s stream_id f =
    if not (f.stream_id == stream_id) && not (f.stream_id == 0)
    then (drop_frame s f, continue)
    else if f.type == type_headers
    then (s, continue)
    else if f.type == type_data
    then next_data s f
    else if f.type == type_settings
    then settings_turn s f
    else if f.type == type_goaway
    then (s, return false)
    else (s, continue)

-- `millis() - start_time > timeout_ms` on 32 bits.
abbrev pub is_late : ℕ → ℕ → ℕ → Bool
is_late start timeout now = ltb timeout ((now + 2 ^ 32 - start) % 2 ^ 32)

abbrev pub answer : Session → Bool → Session × Option Bytes
answer s done = (s, if done then some s.filtered else none)

-- The loop, one reading of the clock a round; `none` means that the list of readings ended.
unfoldable pub next_loop : List ℕ → ℕ → ℕ → Session → ℕ → Option (Session × Option Bytes)
next_loop [] start timeout s stream_id = none
next_loop (now ∷ clock) start timeout s stream_id =
    let (s₁, read) = read_frame s in
    let retry = next_loop clock start timeout s₁ stream_id in
    if is_late start timeout now then some (s, none) else elim read [
      | none ↦ retry
      | some f ↦
          let (s₂, turn) = next_frame s₁ stream_id f in
          let rest = next_loop clock start timeout s₂ stream_id in
          elim turn [
            | continue ↦ rest
            | leave ↦ some (answer s₂ false)
            | return done ↦ some (answer s₂ done)
          ]
    ]

-- `clock` is what `millis()` gives at the start and in each round.
unfoldable pub read_next_message : List ℕ → Session → ℕ → ℕ → Option (Session × Option Bytes)
read_next_message [] s stream_id timeout = none
read_next_message (start ∷ clock) s stream_id timeout =
    next_loop clock start timeout (reset_json s false) stream_id
