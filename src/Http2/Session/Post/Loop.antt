-- ===== src/Http2/Session/Post/Loop.antt =====
-- `post_json` comes to an end, and its answer when it gives up.
use tailscale_iot.Base.{
  ℕ, zero, suc, ◌+◌, ◌<◌, ◌≤◌, ◌≡◌, ◌≢◌, refl, List, [], ◌∷◌, length, take, drop, Bytes, Option,
  none, some, Bool, true, arith, Option-cases, inl, inr,
}
use tailscale_iot.Http2.Frame.{Frame, read_header, append_frame}
use tailscale_iot.Http2.Session.{
  Session, send, send_frame, send_settings_ack, pull_bytes, pull_until, take_frame, read_payload,
  clear_oversized, read_frame, settings_ack,
}
use tailscale_iot.Http2.Session.Post.{
  Request, handle_frame, handle_data, settings_turn, take_data, filter_data, full_data, append_json,
  update_windows, erase_data, response_loop, post_json, window_update, request_bytes, reset_json,
}

abbrev chunks : Session → ℕ
chunks s = length s.incoming

pull_bytes-chunks_at :
    (l : List (Option Bytes)) (s : Session) → s.incoming ≡ l → chunks (pull_bytes s).0 ≤ chunks s
unfolding pull_bytes
pull_bytes-chunks_at [] s e = ground arith
pull_bytes-chunks_at (none ∷ l) s e = ground arith
pull_bytes-chunks_at (some c ∷ l) s e = ground arith

pull_bytes-chunks : (s : Session) → chunks (pull_bytes s).0 ≤ chunks s
pull_bytes-chunks s = pull_bytes-chunks_at s.incoming s refl

pull_bytes-chunks_lt : (s : Session) → (pull_bytes s).1 ≡ true → chunks (pull_bytes s).0 < chunks s
unfolding pull_bytes
pull_bytes-chunks_lt s h = ground arith

pull_until-chunks : (f need : ℕ) (s : Session) → chunks (pull_until f need s).0 ≤ chunks s
unfolding pull_until
pull_until-chunks zero need s = omega arith
pull_until-chunks (suc f) need s =
    ground (arith, pull_bytes-chunks s, pull_until-chunks f need (pull_bytes s).0)

read_payload-chunks : (s : Session) → chunks (read_payload s).0 ≤ chunks s
unfolding read_payload take_frame
read_payload-chunks s = elim (Option-cases (read_header s.recv_buffer)) [
  | inl e ↦ ground (arith, e)
  | inr (f, e) ↦ ground (arith, e, pull_until-chunks (suc (length s.incoming)) (9 + f.length) s)
]

-- A frame costs a chunk.
pub read_frame-chunks_lt :
    (s : Session) → (read_frame s).1 ≢ none → chunks (read_frame s).0 < chunks s
unfolding read_frame clear_oversized
read_frame-chunks_lt s h =
    let s₀ : Session = clear_oversized s in
    let s₁ : Session = (pull_bytes s₀).0 in
    ground (
      arith,
      pull_bytes-chunks_lt s₀,
      pull_until-chunks (suc (length s₁.incoming)) 9 s₁,
      read_payload-chunks (pull_until (suc (length s₁.incoming)) 9 s₁).0,
    )

-- What handling a frame leaves alone.
pub record Keeps (s t : Session) : Type 0 where
  pub incoming : t.incoming ≡ s.incoming
  pub response_buffer : t.response_buffer ≡ s.response_buffer

send-Keeps : (s : Session) (out : Bytes) → Keeps s (send s out).0
unfolding send
send-Keeps s out = ground arith

send_frame-Keeps : (s : Session) (f : Frame) → Keeps s (send_frame s f).0
unfolding send_frame
send_frame-Keeps s f = ground (arith, send-Keeps s (append_frame [] f))

update_windows-Keeps : (s : Session) (id n : ℕ) → Keeps s (update_windows s id n)
unfolding update_windows
update_windows-Keeps s id n = ground (
  arith,
  send_frame-Keeps s (window_update id n),
  send_frame-Keeps (send_frame s (window_update id n)).0 (window_update 0 n),
)

take_data-Keeps : (s : Session) (payload : Bytes) → Keeps s (take_data s payload)
unfolding take_data filter_data full_data append_json
take_data-Keeps s payload = ground arith

handle_data-Keeps : (s : Session) (r : Request) (f : Frame) → Keeps s (handle_data s r f).0
unfolding handle_data erase_data
handle_data-Keeps s r f =
    let payload : Bytes = take f.length (drop 9 s.recv_buffer) in
    ground (
      arith,
      take_data-Keeps s payload,
      update_windows-Keeps (erase_data (take_data s payload) f) r.stream_id f.length,
    )

settings_turn-Keeps : (s : Session) (f : Frame) → Keeps s (settings_turn s f).0
unfolding settings_turn send_settings_ack
settings_turn-Keeps s f = ground (arith, send_frame-Keeps s settings_ack)

handle_frame-Keeps :
    (s : Session) (status : ℕ) (r : Request) (f : Frame) → Keeps s (handle_frame s status r f).0
unfolding handle_frame
handle_frame-Keeps s status r f = ground (arith, handle_data-Keeps s r f, settings_turn-Keeps s f)

response_loop-total :
    (fuel : ℕ) (s : Session) (status : ℕ) (r : Request)
    → chunks s < fuel
    → response_loop fuel s status r ≢ none
unfolding response_loop
response_loop-total zero s status r h = absurd (omega arith)
response_loop-total (suc fuel) s status r h = elim (Option-cases (read_frame s).1) [
  | inl e ↦ ground (arith, e)
  | inr (f, e) ↦ ground (
    arith,
    e,
    read_frame-chunks_lt s,
    handle_frame-Keeps (read_frame s).0 status r f,
    response_loop-total fuel (handle_frame (read_frame s).0 status r f).0
        (handle_frame (read_frame s).0 status r f).1 r,
  )
]

-- `post_json` returns, whatever the transport delivers and however long the response is: the fuel
-- that it gives to its loop is enough.
pub post_json-total : (s : Session) (status : ℕ) (r : Request) → post_json s status r ≢ none
unfolding post_json
post_json-total s status r = ground (
  arith,
  response_loop-total (suc (length started.0.incoming)) (record started.0 { response_buffer = [] })
      0 r,
)
  where
    started : Session × Bool
    started = send (reset_json s r.filter_node_only) (request_bytes r)
