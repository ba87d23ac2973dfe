-- ===== src/Http2/Session/Next/Credit.antt =====
-- `read_next_message` gives no credit back to the server.
use tailscale_iot.Base.{
  ℕ, zero, suc, ◌+◌, ◌≡◌, ◌⊎◌, refl, sym, subst, List, [], ◌∷◌, length, Bytes, Option, none, some,
  false, arith, Option-cases, inl, inr,
}
use tailscale_iot.Http2.Frame.{Frame, read_header, append_frame}
use tailscale_iot.Http2.Session.{
  Session, send, send_frame, send_settings_ack, pull_bytes, pull_until, take_frame, read_payload,
  clear_oversized, read_frame, settings_ack,
}
use tailscale_iot.Http2.Session.Post.{settings_turn, append_json, erase_data, reset_json}
use tailscale_iot.Http2.Session.Next.{
  drop_frame, next_data, next_frame, next_loop, read_next_message,
}

pull_bytes-sent_at :
    (l : List (Option Bytes)) (s : Session) → s.incoming ≡ l → (pull_bytes s).0.sent ≡ s.sent
unfolding pull_bytes
pull_bytes-sent_at [] s e = ground arith
pull_bytes-sent_at (none ∷ l) s e = ground arith
pull_bytes-sent_at (some c ∷ l) s e = ground arith

pull_until-sent : (f need : ℕ) (s : Session) → (pull_until f need s).0.sent ≡ s.sent
unfolding pull_until
pull_until-sent zero need s = refl
pull_until-sent (suc f) need s =
    ground (arith, pull_bytes-sent_at s.incoming s refl, pull_until-sent f need (pull_bytes s).0)

read_payload-sent : (s : Session) → (read_payload s).0.sent ≡ s.sent
unfolding read_payload take_frame
read_payload-sent s = elim (Option-cases (read_header s.recv_buffer)) [
  | inl e ↦ ground (arith, e)
  | inr (f, e) ↦ ground (arith, e, pull_until-sent (suc (length s.incoming)) (9 + f.length) s)
]

pub read_frame-sent : (s : Session) → (read_frame s).0.sent ≡ s.sent
unfolding read_frame clear_oversized
read_frame-sent s =
    let s₀ : Session = clear_oversized s in
    let s₁ : Session = (pull_bytes s₀).0 in
    ground (
      arith,
      pull_bytes-sent_at s₀.incoming s₀ refl,
      pull_until-sent (suc (length s₁.incoming)) 9 s₁,
      read_payload-sent (pull_until (suc (length s₁.incoming)) 9 s₁).0,
    )

-- The log of what was sent grew by acknowledgements of SETTINGS and nothing else.
pub data OnlyAcks (old : List Bytes) : List Bytes → Type 0 where
  same : OnlyAcks old old
  ack : {new : List Bytes} → OnlyAcks old new → OnlyAcks old (append_frame [] settings_ack ∷ new)

OnlyAcks-trans : {a b c : List Bytes} → OnlyAcks a b → OnlyAcks b c → OnlyAcks a c
OnlyAcks-trans p same = p
OnlyAcks-trans p (ack q) = ack (OnlyAcks-trans p q)

next_data-sent : (s : Session) (f : Frame) → (next_data s f).0.sent ≡ s.sent
unfolding next_data append_json erase_data
next_data-sent s f = ground arith

abbrev SameOrAck : Session → Session → Type 0
SameOrAck s t = (t.sent ≡ s.sent) ⊎ (t.sent ≡ append_frame [] settings_ack ∷ s.sent)

settings_turn-SameOrAck : (s : Session) (f : Frame) → SameOrAck s (settings_turn s f).0
unfolding settings_turn send_settings_ack send_frame send
settings_turn-SameOrAck s f = ground arith

next_frame-SameOrAck :
    (s : Session) (stream_id : ℕ) (f : Frame) → SameOrAck s (next_frame s stream_id f).0
unfolding next_frame drop_frame erase_data
next_frame-SameOrAck s stream_id f = ground (arith, next_data-sent s f, settings_turn-SameOrAck s f)

OnlyAcks-step :
    (old : List Bytes) (s t : Session) → SameOrAck s t → OnlyAcks old s.sent → OnlyAcks old t.sent
OnlyAcks-step old s t (inl e) w = subst (OnlyAcks old) (sym e) w
OnlyAcks-step old s t (inr e) w = subst (OnlyAcks old) (sym e) (ack w)

next_loop-OnlyAcks :
    (clock : List ℕ) (start timeout : ℕ) (s : Session) (stream_id : ℕ) (old : List Bytes)
    (t : Session) (x : Option Bytes)
    → OnlyAcks old s.sent
    → next_loop clock start timeout s stream_id ≡ some (t, x)
    → OnlyAcks old t.sent
unfolding next_loop
next_loop-OnlyAcks [] start timeout s stream_id old t x w h = cc
next_loop-OnlyAcks (now ∷ clock) start timeout s stream_id old t x w h =
    let s₁ : Session = (read_frame s).0 in
    let w₁ : OnlyAcks old s₁.sent = OnlyAcks-step old s s₁ (inl (read_frame-sent s)) w in
    elim (Option-cases (read_frame s).1) [
      | inl e ↦
          ground (arith, e, w₁, next_loop-OnlyAcks clock start timeout s₁ stream_id old t x w₁)
      | inr (f, e) ↦
          let s₂ : Session = (next_frame s₁ stream_id f).0 in
          let w₂ : OnlyAcks old s₂.sent =
            OnlyAcks-step old s₁ s₂ (next_frame-SameOrAck s₁ stream_id f) w₁ in
          ground (arith, e, w₁, w₂, next_loop-OnlyAcks clock start timeout s₂ stream_id old t x w₂)
    ]

-- Whatever `read_next_message` receives, all that it sends is acknowledgements of SETTINGS: no
-- WINDOW_UPDATE goes out for the DATA frames that it consumes, so that the credit of the
-- stream and of the connection only falls while it is in use.
pub read_next_message-OnlyAcks :
    (clock : List ℕ) (s : Session) (stream_id timeout : ℕ) {t : Session} {x : Option Bytes}
    → read_next_message clock s stream_id timeout ≡ some (t, x)
    → OnlyAcks s.sent t.sent
unfolding read_next_message
read_next_message-OnlyAcks [] s stream_id timeout {t} {x} h = cc
read_next_message-OnlyAcks (start ∷ clock) s stream_id timeout {t} {x} h =
    next_loop-OnlyAcks clock start timeout (reset_json s false) stream_id s.sent t x same h
