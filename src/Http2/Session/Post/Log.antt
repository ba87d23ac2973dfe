-- ===== src/Http2/Session/Post/Log.antt =====
-- What `post_json` hands to the send callback.
use tailscale_iot.Base.{
  ℕ, zero, suc, ◌≡◌, refl, sym, subst, List, [], ◌∷◌, Bytes, Bool, some, arith, Option-cases,
  Bool-cases, ltb, not, ◌&&◌, ◌==◌, ◌%◌, ◌∙◌, ◌⊎◌, take, drop, inl, inr, length,
}
use tailscale_iot.Http2.Frame.{Frame, type_data, type_headers, type_settings, append_frame}
use tailscale_iot.Http2.Session.{
  Session, send, send_frame, send_settings_ack, handle_settings, read_frame, settings_ack,
  is_server_settings, process_control_frames,
}
use tailscale_iot.Http2.Session.Next.Credit.{read_frame-sent}
use tailscale_iot.Http2.Session.Post.{
  Turn, Request, Reply, request_bytes, reset_json, take_data, erase_data, window_update,
  update_windows, handle_data, settings_turn, handle_frame, continue, leave, return, response_loop,
  post_json,
}
use tailscale_iot.Http2.Session.Post.Sending.{send-sent, take_data-sent}

-- The log, newest first, has grown to the new one.
pub data Grows (old : List Bytes) : List Bytes → Type 0 where
  same : Grows old old
  more : {new : List Bytes} (bytes : Bytes) → Grows old new → Grows old (bytes ∷ new)

pub Grows-trans : (a b c : List Bytes) → Grows a b → Grows b c → Grows a c
Grows-trans a b _ g same = g
Grows-trans a b _ g (more {new} bytes h) = more bytes (Grows-trans a b new g h)

Grows-equal : (a b : List Bytes) → b ≡ a → Grows a b
Grows-equal a b e = subst (Grows a) (sym e) same

Grows-to : (a b c : List Bytes) → c ≡ b → Grows a b → Grows a c
Grows-to a b c e g = subst (Grows a) (sym e) g

send-Grows : (s : Session) (out : Bytes) → Grows s.sent (send s out).0.sent
send-Grows s out = Grows-to s.sent (out ∷ s.sent) _ (send-sent s out) (more out same)

send_frame-Grows : (s : Session) (f : Frame) → Grows s.sent (send_frame s f).0.sent
unfolding send_frame
send_frame-Grows s f = elim (Bool-cases s.send_set) [
  | inl e ↦
      Grows-to s.sent (send s (append_frame [] f)).0.sent _ (ground (arith, e))
        (send-Grows s (append_frame [] f))
  | inr e ↦ Grows-equal s.sent _ (ground (arith, e))
]

update_windows-Grows :
    (s : Session) (stream_id n : ℕ) → Grows s.sent (update_windows s stream_id n).sent
unfolding update_windows
update_windows-Grows s stream_id n =
    let t = (send_frame s (window_update stream_id n)).0 in
    let both =
      Grows-trans s.sent t.sent (send_frame t (window_update 0 n)).0.sent
        (send_frame-Grows s (window_update stream_id n)) (send_frame-Grows t (window_update 0 n)) in
    elim (Bool-cases (ltb 0 n)) [
      | inl e ↦ Grows-to s.sent (send_frame t (window_update 0 n)).0.sent _ (ground (arith, e)) both
      | inr e ↦ Grows-equal s.sent _ (ground (arith, e))
    ]

read_frame-Grows : (s : Session) → Grows s.sent (read_frame s).0.sent
read_frame-Grows s = Grows-equal s.sent (read_frame s).0.sent (read_frame-sent s)

send_settings_ack-Grows : (s : Session) → Grows s.sent (send_settings_ack s).0.sent
unfolding send_settings_ack
send_settings_ack-Grows s = elim (Bool-cases s.settings_ack_sent) [
  | inl e ↦ Grows-equal s.sent _ (ground (arith, e))
  | inr e ↦
      Grows-to s.sent (send_frame s settings_ack).0.sent _ (ground (arith, e))
        (send_frame-Grows s settings_ack)
]

pub process_control_frames-Grows : (s : Session) → Grows s.sent (process_control_frames s).0.sent
unfolding process_control_frames
process_control_frames-Grows s = elim (Bool-cases s.settings_exchanged) [
  | inl e ↦ Grows-equal s.sent _ (ground (arith, e))
  | inr e ↦ elim (Option-cases (read_frame s).1) [
    | inl f ↦ Grows-to s.sent (read_frame s).0.sent _ (ground (arith, e, f)) (read_frame-Grows s)
    | inr (f, g) ↦
        let s₁ = (read_frame s).0 in
        elim (Bool-cases (is_server_settings f && handle_settings f)) [
          | inl k ↦ Grows-to s.sent (send_settings_ack s₁).0.sent _ (ground (arith, e, g, k)) (
              Grows-trans s.sent s₁.sent (send_settings_ack s₁).0.sent (read_frame-Grows s)
                (send_settings_ack-Grows s₁))
          | inr k ↦ Grows-to s.sent s₁.sent _ (ground (arith, e, g, k)) (read_frame-Grows s)
        ]
  ]
]

settings_turn-Grows : (s : Session) (f : Frame) → Grows s.sent (settings_turn s f).0.sent
unfolding settings_turn
settings_turn-Grows s f = elim (Bool-cases (handle_settings f)) [
  | inr e ↦ Grows-equal s.sent _ (ground (arith, e))
  | inl e ↦ elim (Bool-cases (f.flags % 2 == 0)) [
    | inr g ↦ Grows-equal s.sent _ (ground (arith, e, g))
    | inl g ↦
        Grows-to s.sent (send_settings_ack s).0.sent _ (ground (arith, e, g))
          (send_settings_ack-Grows s)
  ]
]

handle_data-Grows :
    (s : Session) (r : Request) (f : Frame) → Grows s.sent (handle_data s r f).0.sent
unfolding handle_data erase_data
handle_data-Grows s r f =
    let payload = take f.length (drop 9 s.recv_buffer) in
    let t = erase_data (take_data s payload) f in
    let u = update_windows t r.stream_id f.length in
    Grows-to s.sent u.sent _ (ground arith) (
      Grows-trans s.sent t.sent u.sent (Grows-equal s.sent t.sent (take_data-sent s payload).0)
        (update_windows-Grows t r.stream_id f.length))

handle_frame-Grows :
    (s : Session) (status : ℕ) (r : Request) (f : Frame)
    → Grows s.sent (handle_frame s status r f).0.sent
unfolding handle_frame
handle_frame-Grows s status r f =
    let out = (handle_frame s status r f).0.sent in
    elim (Bool-cases (not (f.stream_id == r.stream_id) && not (f.stream_id == 0))) [
      | inl e ↦ Grows-equal s.sent out (ground (arith, e))
      | inr e ↦ elim (Bool-cases (f.type == type_headers)) [
        | inl g ↦ Grows-equal s.sent out (ground (arith, e, g))
        | inr g ↦ elim (Bool-cases (f.type == type_data)) [
          | inl k ↦
              Grows-to s.sent (handle_data s r f).0.sent out (ground (arith, e, g, k))
                (handle_data-Grows s r f)
          | inr k ↦ elim (Bool-cases (f.type == type_settings)) [
            | inl m ↦
                Grows-to s.sent (settings_turn s f).0.sent out (ground (arith, e, g, k, m))
                  (settings_turn-Grows s f)
            | inr m ↦ Grows-equal s.sent out (ground (arith, e, g, k, m))
          ]
        ]
      ]
    ]

Turn-cases :
    (turn : Turn) → (turn ≡ continue) ⊎ ((turn ≡ leave) ⊎ ((done : Bool) × (turn ≡ return done)))
Turn-cases continue = inl refl
Turn-cases leave = inr (inl refl)
Turn-cases (return done) = inr (inr (done, refl))

response_loop-Grows :
    (fuel : ℕ) (s : Session) (status : ℕ) (r : Request) (t : Session) (a : Reply)
    → response_loop fuel s status r ≡ some (t, a)
    → Grows s.sent t.sent
unfolding response_loop
response_loop-Grows zero s status r t a h = absurd (ground (arith, h))
response_loop-Grows (suc fuel) s status r t a h = elim (Option-cases (read_frame s).1) [
  | inl e ↦
      let same_end : t.sent ≡ (read_frame s).0.sent = ground (arith, e, h) in
      Grows-equal s.sent t.sent (same_end ∙ read_frame-sent s)
  | inr (f, e) ↦
      let s₁ = (read_frame s).0 in
      let (s₂, status₂, turn) = handle_frame s₁ status r f in
      let step =
        Grows-trans s.sent s₁.sent s₂.sent (Grows-equal s.sent s₁.sent (read_frame-sent s))
          (handle_frame-Grows s₁ status r f) in
      elim (Turn-cases turn) [
        | inl k ↦
            Grows-trans s.sent s₂.sent t.sent step
              (response_loop-Grows fuel s₂ status₂ r t a (ground (arith, e, h, k)))
        | inr (inl k) ↦ Grows-to s.sent s₂.sent t.sent (ground (arith, e, h, k)) step
        | inr (inr (done, k)) ↦ Grows-to s.sent s₂.sent t.sent (ground (arith, e, h, k)) step
      ]
]

-- The request goes first, whatever comes behind it.
pub post_json-Grows :
    (s : Session) (status : ℕ) (r : Request) (t : Session) (a : Reply)
    → post_json s status r ≡ some (t, a)
    → Grows (request_bytes r ∷ s.sent) t.sent
unfolding post_json
post_json-Grows s status r t a h =
    let start = reset_json s r.filter_node_only in
    let sent = (send start (request_bytes r)).0 in
    let first : sent.sent ≡ request_bytes r ∷ s.sent = send-sent start (request_bytes r) in
    elim (Bool-cases (send start (request_bytes r)).1) [
      | inl e ↦
          Grows-trans (request_bytes r ∷ s.sent) sent.sent t.sent
            (Grows-equal (request_bytes r ∷ s.sent) sent.sent first)
            (response_loop-Grows (suc (length sent.incoming)) (record sent { response_buffer = [] })
              0 r t a (ground (arith, e, h)))
      | inr e ↦
          let last : t.sent ≡ sent.sent = ground (arith, e, h) in
          Grows-equal (request_bytes r ∷ s.sent) t.sent (last ∙ first)
    ]
