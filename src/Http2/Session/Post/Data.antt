-- ===== src/Http2/Session/Post/Data.antt =====
-- The response buffer of 64 KB, and the window updates.
use tailscale_iot.Base.{
  ℕ, zero, suc, ◌+◌, ◌-◌, ◌<◌, ◌≡◌, refl, List, [], ◌∷◌, length, length-append, length-take, take,
  drop, Bytes, Option, none, some, true, arith, Option-cases, inl, inr, not, ap, sym, subst, ◌&&◌,
  ◌||◌, ◌==◌,
}
use tailscale_iot.JsonStream.Bounds.{Fits, feed-Fits, initial-Fits}
use tailscale_iot.Http2.Frame.{Frame, read_header}
use tailscale_iot.Http2.Session.{
  Session, send, send_frame, send_settings_ack, pull_bytes, pull_until, take_frame, read_payload,
  clear_oversized, read_frame, settings_ack,
}
use tailscale_iot.Http2.Session.Post.{
  Request, Reply, handle_frame, handle_data, settings_turn, take_data, filter_data, full_data,
  append_json, update_windows, erase_data, response_loop, post_json, window_update, request_bytes,
  reset_json, buffer_size, is_wire, json_data,
}

-- The response and its terminating NUL fit the buffer, as does what the streaming parser writes.
pub record IsSafe (s : Session) : Type 0 where
  pub filtered_fits : length s.filtered < buffer_size
  pub parser_fits : Fits buffer_size s.json_parser

append_json-IsSafe : (s : Session) (json : Bytes) → IsSafe s → IsSafe (append_json s json)
unfolding append_json
append_json-IsSafe s json v = ground (
  arith,
  length-take (buffer_size - length s.filtered - 1) json,
  length-append s.filtered (take (buffer_size - length s.filtered - 1) json),
)

filter_data-IsSafe : (s : Session) (json : Bytes) → IsSafe s → IsSafe (filter_data s json)
unfolding filter_data
filter_data-IsSafe s json v = ground (arith, feed-Fits buffer_size s.json_parser json v.parser_fits)

take_data-IsSafe : (s : Session) (payload : Bytes) → IsSafe s → IsSafe (take_data s payload)
unfolding take_data full_data
take_data-IsSafe s payload v = ground (
  arith,
  append_json-IsSafe (started s payload) (json_data s payload),
  filter_data-IsSafe (started s payload) (json_data s payload),
)
  where
    started : Session → Bytes → Session
    started s payload = record s {
      parsing_json =
          s.parsing_json
          || is_wire s payload
          || (not s.filter_node_only && not (is_wire s payload) && s.json_bytes_processed == 0);
    }

-- The operations below do not touch the response.
pub record KeepsJson (s t : Session) : Type 0 where
  pub filtered : t.filtered ≡ s.filtered
  pub json_parser : t.json_parser ≡ s.json_parser

KeepsJson-IsSafe : (s t : Session) → KeepsJson s t → IsSafe s → IsSafe t
KeepsJson-IsSafe s t k v = record {
  filtered_fits = omega (arith, ap (λ (u : Bytes). length u) k.filtered, v.filtered_fits);
  parser_fits = subst (Fits buffer_size) (sym k.json_parser) v.parser_fits;
}

pull_bytes-KeepsJson_at :
    (l : List (Option Bytes)) (s : Session) → s.incoming ≡ l → KeepsJson s (pull_bytes s).0
unfolding pull_bytes
pull_bytes-KeepsJson_at [] s e = ground arith
pull_bytes-KeepsJson_at (none ∷ l) s e = ground arith
pull_bytes-KeepsJson_at (some c ∷ l) s e = ground arith

pull_until-KeepsJson : (f need : ℕ) (s : Session) → KeepsJson s (pull_until f need s).0
unfolding pull_until
pull_until-KeepsJson zero need s = record { filtered = refl; json_parser = refl }
pull_until-KeepsJson (suc f) need s =
    ground (
      arith,
      pull_bytes-KeepsJson_at s.incoming s refl,
      pull_until-KeepsJson f need (pull_bytes s).0,
    )

read_payload-KeepsJson : (s : Session) → KeepsJson s (read_payload s).0
unfolding read_payload take_frame
read_payload-KeepsJson s = elim (Option-cases (read_header s.recv_buffer)) [
  | inl e ↦ ground (arith, e)
  | inr (f, e) ↦ ground (arith, e, pull_until-KeepsJson (suc (length s.incoming)) (9 + f.length) s)
]

read_frame-KeepsJson : (s : Session) → KeepsJson s (read_frame s).0
unfolding read_frame clear_oversized
read_frame-KeepsJson s =
    let s₀ : Session = clear_oversized s in
    let s₁ : Session = (pull_bytes s₀).0 in
    ground (
      arith,
      pull_bytes-KeepsJson_at s₀.incoming s₀ refl,
      pull_until-KeepsJson (suc (length s₁.incoming)) 9 s₁,
      read_payload-KeepsJson (pull_until (suc (length s₁.incoming)) 9 s₁).0,
    )

send_frame-KeepsJson : (s : Session) (f : Frame) → KeepsJson s (send_frame s f).0
unfolding send_frame send
send_frame-KeepsJson s f = ground arith

update_windows-KeepsJson : (s : Session) (id n : ℕ) → KeepsJson s (update_windows s id n)
unfolding update_windows
update_windows-KeepsJson s id n = ground (
  arith,
  send_frame-KeepsJson s (window_update id n),
  send_frame-KeepsJson (send_frame s (window_update id n)).0 (window_update 0 n),
)

handle_data-IsSafe :
    (s : Session) (r : Request) (f : Frame) → IsSafe s → IsSafe (handle_data s r f).0
unfolding handle_data erase_data
handle_data-IsSafe s r f v =
    let payload : Bytes = take f.length (drop 9 s.recv_buffer) in
    let erased : Session = erase_data (take_data s payload) f in
    let t : Session = update_windows erased r.stream_id f.length in
    let v₁ : IsSafe erased =
      KeepsJson-IsSafe (take_data s payload) erased (record { filtered = refl; json_parser = refl })
        (take_data-IsSafe s payload v) in
    let w : IsSafe t =
      KeepsJson-IsSafe erased t (update_windows-KeepsJson erased r.stream_id f.length) v₁ in
    ground (
      arith,
      w,
      KeepsJson-IsSafe t (record t { json_complete = true })
          (record { filtered = refl; json_parser = refl }) w,
    )

settings_turn-KeepsJson : (s : Session) (f : Frame) → KeepsJson s (settings_turn s f).0
unfolding settings_turn send_settings_ack
settings_turn-KeepsJson s f = ground (arith, send_frame-KeepsJson s settings_ack)

handle_frame-IsSafe :
    (s : Session) (status : ℕ) (r : Request) (f : Frame)
    → IsSafe s
    → IsSafe (handle_frame s status r f).0
unfolding handle_frame
handle_frame-IsSafe s status r f v = ground (
  arith,
  handle_data-IsSafe s r f v,
  KeepsJson-IsSafe s (settings_turn s f).0 (settings_turn-KeepsJson s f) v,
)

response_loop-fits :
    (fuel : ℕ) (s : Session) (status : ℕ) (r : Request) (t : Session) (a : Reply) (x : Bytes)
    → IsSafe s
    → response_loop fuel s status r ≡ some (t, a)
    → a.response ≡ some x
    → length x < buffer_size
unfolding response_loop
response_loop-fits zero s status r t a x v e h = cc
response_loop-fits (suc fuel) s status r t a x v e h =
    let s₁ : Session = (read_frame s).0 in
    let v₁ : IsSafe s₁ = KeepsJson-IsSafe s s₁ (read_frame-KeepsJson s) v in
    elim (Option-cases (read_frame s).1) [
      | inl none_read ↦ ground (arith, none_read, v₁.filtered_fits)
      | inr (f, read) ↦
          let s₂ : Session = (handle_frame s₁ status r f).0 in
          let v₂ : IsSafe s₂ = handle_frame-IsSafe s₁ status r f v₁ in
          ground (
            arith,
            read,
            v₂.filtered_fits,
            response_loop-fits fuel s₂ (handle_frame s₁ status r f).1 r t a x v₂,
          )
    ]

send-KeepsJson : (s : Session) (out : Bytes) → KeepsJson s (send s out).0
unfolding send
send-KeepsJson s out = ground arith

-- No response overflows the buffer of 64 KB: what `post_json` gives its caller leaves room for the
-- terminating NUL, in both modes, whatever the server sends.
pub post_json-fits :
    (s : Session) (status : ℕ) (r : Request) {t : Session} {a : Reply} (x : Bytes)
    → post_json s status r ≡ some (t, a)
    → a.response ≡ some x
    → length x < buffer_size
unfolding post_json
post_json-fits s status r {t} {a} x e h = ground (
  arith,
  response_loop-fits (suc (length sent.incoming)) (record sent { response_buffer = [] }) 0 r t a x
      safe,
)
  where
    reset : Session
    reset = reset_json s r.filter_node_only

    sent : Session
    sent = (send reset (request_bytes r)).0

    safe : IsSafe (record sent { response_buffer = [] })
    safe =
        KeepsJson-IsSafe reset (record sent { response_buffer = [] })
          (ground (arith, send-KeepsJson reset (request_bytes r)))
          (record {
            filtered_fits = omega arith;
            parser_fits = initial-Fits buffer_size (omega arith);
          })
