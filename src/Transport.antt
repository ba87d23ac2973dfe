-- ===== src/Transport.antt =====
-- `Ts2021Transport` of components/tailscale/ts2021_transport.cpp and `NoiseSession` of
-- components/tailscale/noise_session.cpp: their state, and how a session begins and ends.
-- The Noise library (components/tailscale/noise) stands outside: its handshake states and cipher
-- states are two types, and the calls of it are the functions of the record `Noise`.
pub mod Handshake
pub mod Records
pub mod Requests
pub mod Stages
pub mod Runs
pub mod Delivery
pub mod Streams
pub mod Outcome
pub mod Ready
pub mod Up
mod Tests
use tailscale_iot.Base.{
  ℕ, zero, suc, ◌+◌, ◌*◌, List, [], ◌∷◌, Bytes, codes, Bool, true, false, not, ◌&&◌, if◌then◌else◌,
  ◌==◌, length, Option, none, some,
}
use tailscale_iot.Upgrade.{Upgrade}
use tailscale_iot.Http2.Session.{Session}

-- `NOISE_ACTION_NONE`, `..._WRITE_MESSAGE`, `..._READ_MESSAGE`, `..._SPLIT`, and the others.
pub data NoiseAction : Type 0 where
  no_action : NoiseAction
  write_message : NoiseAction
  read_message : NoiseAction
  split_action : NoiseAction
  other_action : NoiseAction

-- What `noise_handshakestate_start` returns.
pub data StartResult : Type 0 where
  started : StartResult
  invalid_state : StartResult
  start_failed : StartResult

-- The calls of the Noise library on a handshake state and on a cipher state. Each gives the state
-- behind the call; `none` and false are errors.
pub record Noise (H C : Type 0) : Type 0 where
  pub new_by_name : Option H
  pub set_prologue : Bytes → H → H × Bool
  pub set_keypair : Bytes → Bytes → H → H × Bool
  pub set_public_key : Bytes → H → H × Bool
  pub set_pre_shared_key : Bytes → H → H × Bool
  pub start : H → H × StartResult
  pub get_action : H → NoiseAction
  pub write : H → H × Option Bytes
  pub read : Bytes → H → H × Bool
  pub split : H → H × Option (C × C)
  pub encrypt : Bytes → C → C × Option Bytes
  pub decrypt : Bytes → C → C × Option Bytes

pub record NoiseSession (H C : Type 0) : Type 0 where
  pub handshake : Option H
  pub send_cipher : Option C
  pub recv_cipher : Option C

pub data Stage : Type 0 where
  idle : Stage
  client_init : Stage
  awaiting_server_response : Stage
  transport_ready : Stage
  stage_failed : Stage

abbrev pub is_stage : Stage → Stage → Bool
is_stage idle idle = true
is_stage client_init client_init = true
is_stage awaiting_server_response awaiting_server_response = true
is_stage transport_ready transport_ready = true
is_stage stage_failed stage_failed = true
is_stage _ _ = false

-- The session and the upgrade channel stand here for the pointers to them. The component holds both
-- as well; what it does to the session behind the transport's back is `initialize_transport`.
pub record Transport (H C : Type 0) : Type 0 where
  pub stage : Stage
  pub session : Option (NoiseSession H C)
  pub upgrade : Option Upgrade
  pub http2_session : Option Session
  pub next_stream_id : ℕ
  pub persistent_stream_id : ℕ
  pub tx_count : ℕ
  pub rx_count : ℕ

-- The prologue of `initialize_ik`.
abbrev pub prologue : Bytes
prologue = codes "Tailscale Control Protocol v1"

module _ {H C : Type 0} where
  -- `NoiseSession::reset_transport` and `reset`.
  abbrev pub reset_transport : NoiseSession H C → NoiseSession H C
  reset_transport s = record s { send_cipher = none; recv_cipher = none }

  abbrev pub reset_session : NoiseSession H C → NoiseSession H C
  reset_session s = record (reset_transport s) { handshake = none }

  unfoldable pub initialize_ik : Noise H C → NoiseSession H C → NoiseSession H C × Bool
  initialize_ik noise s = elim noise.new_by_name [
    | none ↦ (reset_session s, false)
    | some h ↦
        let (h₁, ok) = noise.set_prologue prologue h in
        if ok
        then (record (reset_session s) { handshake = some h₁ }, true)
        else (reset_session s, false)
  ]

  -- A call on the handshake state, if there is one: `set_local_static`, `set_remote_static` and
  -- `set_psk`.
  abbrev on_handshake : (H → H × Bool) → NoiseSession H C → NoiseSession H C × Bool
  on_handshake call s = elim s.handshake [
    | none ↦ (s, false)
    | some h ↦ (record s { handshake = some (call h).0 }, (call h).1)
  ]

  unfoldable pub set_local_static :
      Noise H C → Bytes → Bytes → NoiseSession H C → NoiseSession H C × Bool
  set_local_static noise private_key public_key s =
      on_handshake (noise.set_keypair private_key public_key) s

  unfoldable pub set_remote_static : Noise H C → Bytes → NoiseSession H C → NoiseSession H C × Bool
  set_remote_static noise public_key s = on_handshake (noise.set_public_key public_key) s

  unfoldable pub set_psk : Noise H C → Bytes → NoiseSession H C → NoiseSession H C × Bool
  set_psk noise psk s = on_handshake (noise.set_pre_shared_key psk) s

  unfoldable pub split_transport : Noise H C → NoiseSession H C → NoiseSession H C × Bool
  split_transport noise s = elim s.handshake [
    | none ↦ (s, false)
    | some h ↦
        let (h₁, ciphers) = noise.split h in
        let cleared : NoiseSession H C = record (reset_transport s) { handshake = some h₁ } in
        elim ciphers [
          | none ↦ (cleared, false)
          | some (c₁, c₂) ↦ (record cleared { send_cipher = some c₁; recv_cipher = some c₂ }, true)
        ]
  ]

  -- `Ts2021Transport::reset`.
  unfoldable pub reset : Transport H C → Transport H C
  reset t = record t {
    stage = idle;
    session = none;
    upgrade = none;
    http2_session = none;
    next_stream_id = 1;
  }

  -- A new Ts2021Transport.
  abbrev pub new_transport : Transport H C
  new_transport = record {
    stage = idle;
    session = none;
    upgrade = none;
    http2_session = none;
    next_stream_id = 1;
    persistent_stream_id = 0;
    tx_count = 0;
    rx_count = 0;
  }

  -- `handle_initializing_state_` of the component on the session `s`, which the transport shares if
  -- it has one: a session that was initialised gets a new transport, one that was not leaves the old
  -- transport as it was.
  unfoldable pub initialize_transport :
      Noise H C → NoiseSession H C → Transport H C → Transport H C × NoiseSession H C × Bool
  initialize_transport noise s t =
      let (s₁, ok) = initialize_ik noise s in
      let shared : Option (NoiseSession H C) = elim t.session [ none ↦ none | some _ ↦ some s₁ ] in
      if ok then (new_transport, s₁, true) else (record t { session = shared }, s₁, false)

  abbrev pub mark_failed : Transport H C → Transport H C
  mark_failed t = record t { stage = stage_failed }

  abbrev pub is_in : Stage → Transport H C → Bool
  is_in stage t = is_stage t.stage stage

  abbrev pub attach_upgrade : Upgrade → Transport H C → Transport H C
  attach_upgrade u t = record t { upgrade = some u }

  unfoldable pub begin_handshake : NoiseSession H C → Transport H C → Transport H C × Bool
  begin_handshake s t = elim s.handshake [
    | none ↦ (mark_failed t, false)
    | some h ↦ (record t { session = some s; stage = client_init }, true)
  ]
