-- ===== src/Transport/Requests.antt =====
-- The HTTP/2 session of Ts2021Transport: its start, and the numbers of its streams.
use tailscale_iot.Base.{
  ℕ, ◌+◌, ◌%◌, ◌^◌, List, [], Bytes, codes, Bool, true, false, if◌then◌else◌, ◌==◌, Option, none,
  some,
}
use tailscale_iot.Http2.Session.{Session, init, process_control_frames, send_data_on_stream}
use tailscale_iot.Http2.Session.Post.{Request, Reply, post_json}
use tailscale_iot.Http2.Session.Next.{read_next_message}
use tailscale_iot.Transport.{Noise, transport_ready, Transport, is_in}
use tailscale_iot.Transport.Records.{send_plaintext}

abbrev pub preface : Bytes
preface = codes "PRI * HTTP/2.0\r\n\r\nSM\r\n\r\n"

-- `start_http2_session`. `fresh` is the new Http2Session with what its two callbacks will give.
unfoldable pub start_http2_session :
    {H C : Type 0}
    → Noise H C
    → List ℕ
    → Bytes
    → Session
    → Transport H C
    → Transport H C × Bytes × Bool
start_http2_session {H} {C} noise results mask fresh t =
    let (t₁, out, sent) = send_plaintext noise results mask preface t in
    let (s, ready) = init fresh true true in
    let started : Transport H C = record t₁ { http2_session = if ready then some s else none } in
    elim t.http2_session [
      | some _ ↦ (t, [], is_in transport_ready t)
      | none ↦
          if is_in transport_ready t
          then if sent then (started, out, ready) else (t₁, out, false)
          else (t, [], false)
    ]

-- `http2_post_json`; the stream's number is the transport's, whatever the request says, and
-- `status` is what `status_code` was before. `none` is a response loop that ran out of fuel.
unfoldable pub http2_post_json :
    {H C : Type 0} → ℕ → Request → Transport H C → Option (Transport H C × Reply)
http2_post_json {H} {C} status r t =
    let refused = some (t, record { done = false; status = status; response = none }) in
    let numbered : Transport H C = record t {
      next_stream_id = (t.next_stream_id + 2) % 2 ^ 32;
      persistent_stream_id = if r.close_stream then t.persistent_stream_id else t.next_stream_id;
    } in
    elim t.http2_session [
      | none ↦ refused
      | some s ↦ elim t.upgrade [
        | none ↦ refused
        | some _ ↦
            elim (post_json (process_control_frames s).0 status
              (record r { stream_id = t.next_stream_id })) [
                | none ↦ none
                | some (s₁, reply) ↦ some (record numbered { http2_session = some s₁ }, reply)
              ]
      ]
    ]

-- `http2_read_next_message`, with what `millis()` gives.
unfoldable pub http2_read_next_message :
    {H C : Type 0} → List ℕ → ℕ → Transport H C → Option (Transport H C × Option Bytes)
http2_read_next_message clock timeout t = elim t.http2_session [
  | none ↦ some (t, none)
  | some s ↦
      if t.persistent_stream_id == 0
      then some (t, none)
      else elim (read_next_message clock s t.persistent_stream_id timeout) [
        | none ↦ none
        | some (s₁, text) ↦ some (record t { http2_session = some s₁ }, text)
      ]
]

unfoldable pub http2_send_on_persistent_stream :
    {H C : Type 0} → Bytes → Transport H C → Transport H C × Bool
http2_send_on_persistent_stream bytes t = elim t.http2_session [
  | none ↦ (t, false)
  | some s ↦
      let (s₁, ok) = send_data_on_stream s t.persistent_stream_id bytes in
      if t.persistent_stream_id == 0 then (t, false) else (record t { http2_session = some s₁ }, ok)
]
