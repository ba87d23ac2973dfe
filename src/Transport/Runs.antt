-- ===== src/Transport/Runs.antt =====
-- The runs of the transport: its calls in any order, with any server.
use tailscale_iot.Base.{
  false, ℕ, ◌≡◌, inl, inr, List, Bytes, true, arith, some, Option, Option-cases,
}
use tailscale_iot.Upgrade.{Upgrade, Read}
use tailscale_iot.Http2.Session.{Session}
use tailscale_iot.Http2.Session.Post.{Request, Reply}
use tailscale_iot.Transport.{
  Noise, NoiseSession, Transport, mark_failed, reset, initialize_ik, initialize_transport,
  begin_handshake, attach_upgrade, new_transport,
}
use tailscale_iot.Transport.Handshake.{
  build_handshake_message, accept_handshake_message, read_handshake_bytes,
}
use tailscale_iot.Transport.Records.{send_plaintext, receive_plaintext}
use tailscale_iot.Transport.Requests.{
  start_http2_session, http2_post_json, http2_read_next_message, http2_send_on_persistent_stream,
  preface,
}
use tailscale_iot.Transport.Stages.{has_ciphers, IsSound, send_plaintext-IsSound}

module _ {H C : Type 0} (noise : Noise H C) where
  -- One call.
  pub data Step : Transport H C → Transport H C → Type 0 where
    begin : (s : NoiseSession H C) (t : Transport H C) → Step t (begin_handshake s t).0
    build : (t : Transport H C) → Step t (build_handshake_message noise t).0
    attach : (u : Upgrade) (t : Transport H C) → Step t (attach_upgrade u t)
    await :
        (max_len timeout : ℕ) (reads : List Read) (t : Transport H C)
        → Step t (read_handshake_bytes max_len timeout reads t).0
    accept : (bytes : Bytes) (t : Transport H C) → Step t (accept_handshake_message noise bytes t).0
    send :
        (results : List ℕ) (mask bytes : Bytes) (t : Transport H C)
        → Step t (send_plaintext noise results mask bytes t).0
    receive :
        (timeout : ℕ) (reads : List Read) (t : Transport H C)
        → Step t (receive_plaintext noise timeout reads t).0
    start :
        (results : List ℕ) (mask : Bytes) (fresh : Session) (t : Transport H C)
        → Step t (start_http2_session noise results mask fresh t).0
    post :
        {t after : Transport H C} (status : ℕ) (r : Request) (reply : Reply)
        → http2_post_json status r t ≡ some (after, reply)
        → Step t after
    next_message :
        {t after : Transport H C} (clock : List ℕ) (timeout : ℕ) (text : Option Bytes)
        → http2_read_next_message clock timeout t ≡ some (after, text)
        → Step t after
    send_persistent :
        (bytes : Bytes) (t : Transport H C) → Step t (http2_send_on_persistent_stream bytes t).0
    fail : (t : Transport H C) → Step t (mark_failed t)
    clear : (t : Transport H C) → Step t (reset t)
    initialize :
        (s : NoiseSession H C) (t : Transport H C)
        → (initialize_ik noise s).1 ≡ true
        → Step t (initialize_transport noise s t).0

  pub data Reach : Transport H C → Type 0 where
    here : Reach new_transport
    next : {t after : Transport H C} → Reach t → Step t after → Reach after

  pub begin_handshake-IsSound :
      (s : NoiseSession H C) (t : Transport H C) → IsSound (begin_handshake s t).0
  unfolding begin_handshake
  begin_handshake-IsSound s t = elim (Option-cases s.handshake) [
    | inl e ↦ inl (ground (arith, e))
    | inr (h, e) ↦ inl (ground (arith, e))
  ]

  pub read_handshake_bytes-IsSound :
      (max_len timeout : ℕ) (reads : List Read) (t : Transport H C)
      → IsSound t
      → IsSound (read_handshake_bytes max_len timeout reads t).0
  unfolding read_handshake_bytes
  read_handshake_bytes-IsSound max_len timeout reads t i = elim (Option-cases t.upgrade) [
    | inl e ↦ ground (arith, e, i)
    | inr (u, e) ↦ ground (arith, e, i)
  ]

  pub start_http2_session-IsSound :
      (results : List ℕ) (mask : Bytes) (fresh : Session) (t : Transport H C)
      → IsSound t
      → IsSound (start_http2_session noise results mask fresh t).0
  unfolding start_http2_session
  start_http2_session-IsSound results mask fresh t i = elim (Option-cases t.http2_session) [
    | inl e ↦ ground (arith, e, i, send_plaintext-IsSound noise results mask preface t i)
    | inr (s, e) ↦ ground (arith, e, i)
  ]

  -- The exception: an initialisation of the session that fails takes the ciphers away from a
  -- transport that stays ready.
  initialize_transport_fails :
      (s : NoiseSession H C) (t : Transport H C)
      → (initialize_ik noise s).1 ≡ false
      → ((initialize_transport noise s t).0.stage ≡ t.stage)
        × (has_ciphers (initialize_transport noise s t).0 ≡ false)
  unfolding initialize_transport initialize_ik
  initialize_transport_fails s t e = elim (Option-cases noise.new_by_name) [
    | inl f ↦ elim (Option-cases t.session) [
      | inl g ↦ ground (arith, e, f, g)
      | inr (u, g) ↦ ground (arith, e, f, g)
    ]
    | inr (h, f) ↦ elim (Option-cases t.session) [
      | inl g ↦ ground (arith, e, f, g)
      | inr (u, g) ↦ ground (arith, e, f, g)
    ]
  ]
