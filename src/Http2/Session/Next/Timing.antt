-- ===== src/Http2/Session/Next/Timing.antt =====
-- When `read_next_message` returns, with what, and what it has sent by then.
use tailscale_iot.Base.{
  ℕ, ◌≤◌, ◌≡◌, ◌≢◌, ◌⊎◌, List, [], ◌∷◌, length, Bytes, none, some, true, false, arith, Option-cases,
  inl, inr,
}
use tailscale_iot.Http2.Complete.{has_complete_json}
use tailscale_iot.Http2.Complete.Short.{has_complete_json_short}
use tailscale_iot.Http2.Frame.{Frame}
use tailscale_iot.Http2.Session.{Session, read_frame}
use tailscale_iot.Http2.Session.Post.{return, settings_turn, append_json, erase_data, reset_json}
use tailscale_iot.Http2.Session.Next.{next_data, next_frame, is_late, next_loop, read_next_message}

-- Some reading of the clock is later than the time-out allows.
abbrev pub HasLate : ℕ → ℕ → List ℕ → Type 0
HasLate start timeout [] = ⊥
HasLate start timeout (now ∷ clock) =
    (is_late start timeout now ≡ true) ⊎ HasLate start timeout clock

next_loop-total :
    (clock : List ℕ) (start timeout : ℕ) (s : Session) (stream_id : ℕ)
    → HasLate start timeout clock
    → next_loop clock start timeout s stream_id ≢ none
unfolding next_loop
next_loop-total [] start timeout s stream_id h = absurd h
next_loop-total (now ∷ clock) start timeout s stream_id h = elim (Option-cases (read_frame s).1) [
  | inl e ↦ ground (arith, e, next_loop-total clock start timeout (read_frame s).0 stream_id)
  | inr (f, e) ↦ ground (
    arith,
    e,
    next_loop-total clock start timeout (next_frame (read_frame s).0 stream_id f).0 stream_id,
  )
]

-- The wait ends, with a message or without, by the first reading of the clock that is too late:
-- frames for other streams, empty reads and settings do not hold it up.
pub read_next_message-total :
    (start : ℕ) (clock : List ℕ) (s : Session) (stream_id timeout : ℕ)
    → HasLate start timeout clock
    → read_next_message (start ∷ clock) s stream_id timeout ≢ none
unfolding read_next_message
read_next_message-total start clock s stream_id timeout h =
    next_loop-total clock start timeout (reset_json s false) stream_id h

next_data-whole :
    (s : Session) (f : Frame)
    → (next_data s f).1 ≡ return true
    → has_complete_json (next_data s f).0.filtered ≡ true
unfolding next_data append_json erase_data
next_data-whole s f h = ground arith

settings_turn-return : (s : Session) (f : Frame) → (settings_turn s f).1 ≢ return true
unfolding settings_turn
settings_turn-return s f = ground arith

next_frame-whole :
    (s : Session) (stream_id : ℕ) (f : Frame)
    → (next_frame s stream_id f).1 ≡ return true
    → has_complete_json (next_frame s stream_id f).0.filtered ≡ true
unfolding next_frame
next_frame-whole s stream_id f h = ground (arith, next_data-whole s f, settings_turn-return s f)

next_loop-whole :
    (clock : List ℕ) (start timeout : ℕ) (s : Session) (stream_id : ℕ) (t : Session) (x : Bytes)
    → next_loop clock start timeout s stream_id ≡ some (t, some x)
    → has_complete_json x ≡ true
unfolding next_loop
next_loop-whole [] start timeout s stream_id t x h = cc
next_loop-whole (now ∷ clock) start timeout s stream_id t x h =
    elim (Option-cases (read_frame s).1) [
      | inl e ↦
          ground (arith, e, next_loop-whole clock start timeout (read_frame s).0 stream_id t x)
      | inr (f, e) ↦ ground (
        arith,
        e,
        next_frame-whole (read_frame s).0 stream_id f,
        next_loop-whole clock start timeout (next_frame (read_frame s).0 stream_id f).0 stream_id t
            x,
      )
    ]

-- What is delivered as a message passed the test for completeness, and so is never shorter than
-- 100 bytes. This is not what the function is for: its callers wait for the server's keep-alives,
-- and one such as `{"KeepAlive":true}` of fewer than 100 bytes is never delivered.
pub read_next_message-whole :
    (clock : List ℕ) (s : Session) (stream_id timeout : ℕ) {t : Session} (x : Bytes)
    → read_next_message clock s stream_id timeout ≡ some (t, some x)
    → (has_complete_json x ≡ true) × (100 ≤ length x)
unfolding read_next_message
read_next_message-whole [] s stream_id timeout {t} x h = cc
read_next_message-whole (start ∷ clock) s stream_id timeout {t} x h =
    let whole = next_loop-whole clock start timeout (reset_json s false) stream_id t x h in
    (whole, ground (arith, whole, has_complete_json_short x))
