-- ===== src/Transport/Up.antt =====
-- What `ensure_ts2021_ready_` promises.
use tailscale_iot.Base.{
  ℕ, zero, suc, ◌≡◌, inl, inr, List, [], ◌++◌, Bytes, Bool, true, arith, some, Option-cases,
}
use tailscale_iot.Upgrade.{Upgrade, Read}
use tailscale_iot.Http2.Session.{Session}
use tailscale_iot.Transport.{
  Noise, NoiseSession, Transport, transport_ready, is_in, set_local_static, set_remote_static,
}
use tailscale_iot.Transport.Handshake.{accept_handshake_message, read_handshake_bytes}
use tailscale_iot.Transport.Records.{encrypt_payload, send_plaintext}
use tailscale_iot.Transport.Requests.{start_http2_session, preface}
use tailscale_iot.Transport.Stages.{
  is_set, has_ciphers, IsSound, build_handshake_message-IsSound, accept_handshake_message-IsSound,
  send_plaintext-IsSound,
}
use tailscale_iot.Transport.Runs.{begin_handshake-IsSound, read_handshake_bytes-IsSound}
use tailscale_iot.Transport.Ready.{
  Outside, begin_if_idle, build_if_begun, connect_channel, handshake_rounds, finish,
  ensure_ts2021_ready, reads_of, later_of,
}

module _ {H C : Type 0} (noise : Noise H C) where
  -- An open HTTP/2 session on a transport that is ready.
  pub record IsUp (t : Transport H C) : Type 0 where
    pub ready : is_in transport_ready t ≡ true
    pub ciphers : has_ciphers t ≡ true
    pub session : is_set t.http2_session ≡ true

  encrypt_payload_stage :
      (bytes c : Bytes) (t : Transport H C)
      → (encrypt_payload noise bytes t).1 ≡ some c
      → (encrypt_payload noise bytes t).0.stage ≡ t.stage
  unfolding encrypt_payload
  encrypt_payload_stage bytes c t h = elim (Option-cases t.session) [
    | inl e ↦ ground (arith, e)
    | inr (s, e) ↦ elim (Option-cases s.send_cipher) [
      | inl f ↦ absurd (ground (arith, e, f, h))
      | inr (k, f) ↦ elim (Option-cases (noise.encrypt bytes k).1) [
        | inl g ↦ absurd (ground (arith, e, f, g, h))
        | inr (d, g) ↦ ground (arith, e, f, g, h)
      ]
    ]
  ]

  send_plaintext_stage :
      (results : List ℕ) (mask bytes : Bytes) (t : Transport H C)
      → (send_plaintext noise results mask bytes t).2 ≡ true
      → (send_plaintext noise results mask bytes t).0.stage ≡ t.stage
  unfolding send_plaintext
  send_plaintext_stage results mask bytes t h = elim (Option-cases t.upgrade) [
    | inl e ↦ ground (arith, e)
    | inr (u, e) ↦ elim (Option-cases (encrypt_payload noise bytes t).1) [
      | inl f ↦ ground (arith, e, f, h)
      | inr (c, f) ↦ ground (arith, e, f, h, encrypt_payload_stage bytes c t f)
    ]
  ]

  start_http2_session-IsUp :
      (results : List ℕ) (mask : Bytes) (fresh : Session) (t : Transport H C)
      → IsSound t
      → (start_http2_session noise results mask fresh t).2 ≡ true
      → IsUp (start_http2_session noise results mask fresh t).0
  unfolding start_http2_session
  start_http2_session-IsUp results mask fresh t i h = elim (Option-cases t.http2_session) [
    | inr (s, e) ↦ ground (arith, e, h, i)
    | inl e ↦ ground (
      arith,
      e,
      h,
      i,
      send_plaintext_stage results mask preface t,
      send_plaintext-IsSound noise results mask preface t i,
    )
  ]

  begin_if_idle-IsSound :
      (o : Outside) (s : NoiseSession H C) (t : Transport H C)
      → IsSound t
      → IsSound (begin_if_idle noise o s t).0
  unfolding begin_if_idle
  begin_if_idle-IsSound o s t i = elim (Option-cases o.machine_keys) [
    | inl e ↦ ground (arith, e, i)
    | inr ((private_key, public_key), e) ↦ elim (Option-cases o.control_key) [
      | inl f ↦ ground (arith, e, f, i)
      | inr (key, f) ↦
          let s₁ = (set_local_static noise private_key public_key s).0 in
          let s₂ = (set_remote_static noise key s₁).0 in
          ground (arith, e, f, i, begin_handshake-IsSound noise s₂ t)
    ]
  ]

  build_if_begun-IsSound : (t : Transport H C) → IsSound t → IsSound (build_if_begun noise t).0
  unfolding build_if_begun
  build_if_begun-IsSound t i = ground (arith, i, build_handshake_message-IsSound noise t i)

  connect_channel-IsSound :
      (o : Outside) (u : Upgrade) (t : Transport H C)
      → IsSound t
      → IsSound (connect_channel noise o u t).0
  unfolding connect_channel
  connect_channel-IsSound o u t i = elim (Option-cases o.opened) [
    | inl e ↦ ground (arith, e, i)
    | inr (v, e) ↦ ground (arith, e, i)
  ]

  handshake_rounds-IsSound :
      (k : ℕ) (early : List Read) (arriving : List (List Read)) (t : Transport H C)
      → IsSound t
      → IsSound (handshake_rounds noise k early arriving t).0
  unfolding handshake_rounds
  handshake_rounds-IsSound zero early arriving t i = i
  handshake_rounds-IsSound (suc k) early arriving t i =
      let reads = early ++ reads_of arriving in
      let (t₁, out, rest) = read_handshake_bytes 256 2000 reads t in
      let sound = read_handshake_bytes-IsSound noise 256 2000 reads t i in
      let waited = handshake_rounds-IsSound k rest (later_of arriving) t₁ sound in
      elim (Option-cases (read_handshake_bytes 256 2000 reads t).1) [
        | inl e ↦ ground (arith, e, i, waited)
        | inr (bytes, e) ↦
            let t₂ = (accept_handshake_message noise bytes t₁).0 in
            let accepted = accept_handshake_message-IsSound noise bytes t₁ sound in
            ground (
              arith,
              e,
              i,
              waited,
              accepted,
              handshake_rounds-IsSound k rest (later_of arriving) t₂ accepted,
            )
      ]

  finish-IsUp :
      (o : Outside) (t : Transport H C) (ok : Bool)
      → IsSound t
      → (finish noise o (t, ok)).1 ≡ true
      → IsUp (finish noise o (t, ok)).0
  unfolding finish
  finish-IsUp o t ok i h = ground (arith, h, start_http2_session-IsUp o.results o.mask o.fresh t i)

  -- If `ensure_ts2021_ready_` returns true, then the handshake is complete, the session has a cipher
  -- for each direction, and there is an HTTP/2 session, whatever stage the call began in, whatever
  -- the keys and the channel were, and whatever the server sent in the six rounds. (Before the
  -- call, a transport that was ready had its ciphers.)
  pub ensure_ts2021_ready-IsUp :
      (o : Outside) (s : NoiseSession H C) (u : Upgrade) (t : Transport H C)
      → IsSound t
      → (ensure_ts2021_ready noise o s u t).1 ≡ true
      → IsUp (ensure_ts2021_ready noise o s u t).0
  unfolding ensure_ts2021_ready
  ensure_ts2021_ready-IsUp o s u t i h =
      let t₁ = (begin_if_idle noise o s t).0 in
      let t₂ = (build_if_begun noise t₁).0 in
      let t₃ = (connect_channel noise o u t₂).0 in
      let i₃ =
        connect_channel-IsSound o u t₂
          (build_if_begun-IsSound t₁ (begin_if_idle-IsSound o s t i)) in
      let (t₄, ok) = handshake_rounds noise 6 [] o.arriving t₃ in
      ground (
        arith,
        h,
        start_http2_session-IsUp o.results o.mask o.fresh t i,
        finish-IsUp o t₄ ok (handshake_rounds-IsSound 6 [] o.arriving t₃ i₃),
      )
