-- ===== src/Transport/Ready.antt =====
-- `ensure_ts2021_ready_` of components/tailscale/tailscale.cpp: from an idle transport to an HTTP/2
-- session.
-- The decoding of the keys and the opening of the upgrade channel stand outside.
use tailscale_iot.Base.{
  ℕ, zero, suc, List, [], ◌∷◌, ◌++◌, Bytes, Bool, true, false, not, ◌&&◌, if◌then◌else◌, ◌==◌,
  length, Option, none, some,
}
use tailscale_iot.Upgrade.{Upgrade, Read, close}
use tailscale_iot.Http2.Session.{Session}
use tailscale_iot.Transport.{
  Noise, NoiseSession, Transport, idle, client_init, transport_ready, stage_failed, is_in,
  mark_failed, attach_upgrade, begin_handshake, set_local_static, set_remote_static,
}
use tailscale_iot.Transport.Handshake.{
  build_handshake_message, accept_handshake_message, read_handshake_bytes,
}
use tailscale_iot.Transport.Requests.{start_http2_session}
use tailscale_iot.Transport.Stages.{is_set}

-- What one call finds outside: the machine's keys, if there are any; the server's key, if it is
-- configured or can be fetched; the channel that `connect` would open; the reads of each round; and
-- what the first write of the HTTP/2 session meets.
pub record Outside : Type 0 where
  pub machine_keys : Option (Bytes × Bytes)
  pub control_key : Option Bytes
  pub opened : Option Upgrade
  pub arriving : List (List Read)
  pub results : List ℕ
  pub mask : Bytes
  pub fresh : Session

abbrev pub reads_of : List (List Read) → List Read
reads_of [] = []
reads_of (r ∷ arriving) = r

abbrev pub later_of : List (List Read) → List (List Read)
later_of [] = []
later_of (r ∷ arriving) = arriving

module _ {H C : Type 0} (noise : Noise H C) where
  -- An idle transport begins the handshake, on a session with both keys.
  unfoldable pub begin_if_idle : Outside → NoiseSession H C → Transport H C → Transport H C × Bool
  begin_if_idle o s t =
      let begun : Transport H C × Bool = elim o.machine_keys [
        | none ↦ (t, false)
        | some (private_key, public_key) ↦ elim o.control_key [
          | none ↦ (t, false)
          | some key ↦
              let (s₁, local) = set_local_static noise private_key public_key s in
              let (s₂, remote) = set_remote_static noise key s₁ in
              if local && remote then begin_handshake s₂ t else (t, false)
        ]
      ] in
      if is_in idle t then begun else (t, true)

  unfoldable pub build_if_begun : Transport H C → Transport H C × Bool
  build_if_begun t =
      let (t₁, message) = build_handshake_message noise t in
      if is_in client_init t
      then if is_set message then (t₁, true) else (mark_failed t₁, false)
      else (t, true)

  -- The channel is opened where it is not connected.
  unfoldable pub connect_channel : Outside → Upgrade → Transport H C → Transport H C × Bool
  connect_channel o u t =
      let connected : Transport H C × Bool = elim o.opened [
        | none ↦ (mark_failed t, false)
        | some v ↦ (attach_upgrade v t, true)
      ] in
      if u.connected then (attach_upgrade u t, true) else connected

  -- The rounds; what is read too early is kept for the next one.
  unfoldable pub handshake_rounds :
      ℕ → List Read → List (List Read) → Transport H C → Transport H C × Bool
  handshake_rounds zero early arriving t = (t, true)
  handshake_rounds (suc k) early arriving t =
      let (t₁, out, rest) = read_handshake_bytes 256 2000 (early ++ reads_of arriving) t in
      let waited = handshake_rounds k rest (later_of arriving) t₁ in
      let read : Transport H C × Bool = elim out [
        | none ↦ waited
        | some bytes ↦
            let (t₂, ok) = accept_handshake_message noise bytes t₁ in
            let on = handshake_rounds k rest (later_of arriving) t₂ in
            if length bytes == 0
            then waited
            else if not ok && is_in stage_failed t₂
            then (t₂, false)
            else on
      ] in
      if is_in transport_ready t then (t, true) else read

  abbrev pub close_channel : Transport H C → Transport H C
  close_channel t = elim t.upgrade [ none ↦ t | some u ↦ record t { upgrade = some (close u) } ]

  -- Behind the rounds.
  unfoldable pub finish : Outside → Transport H C × Bool → Transport H C × Bool
  finish o (t, ok) =
      let (t₁, out, up) = start_http2_session noise o.results o.mask o.fresh t in
      if ok && is_in transport_ready t
      then if up then (t₁, true) else (close_channel (mark_failed t₁), false)
      else (close_channel t, false)

  unfoldable pub ensure_ts2021_ready :
      Outside → NoiseSession H C → Upgrade → Transport H C → Transport H C × Bool
  ensure_ts2021_ready o s u t =
      let (up, out, started) = start_http2_session noise o.results o.mask o.fresh t in
      let (t₁, begun) = begin_if_idle o s t in
      let (t₂, built) = build_if_begun t₁ in
      let (t₃, connected) = connect_channel o u t₂ in
      let done = finish o (handshake_rounds 6 [] o.arriving t₃) in
      if is_in transport_ready t
      then (up, started)
      else if begun
      then if built then if connected then done else (t₃, false) else (t₂, false)
      else (t₁, false)
