-- ===== src/Transport/Handshake.antt =====
-- The handshake messages of Ts2021Transport and their framing.
use tailscale_iot.Base.{
  ℕ, ◌+◌, ◌*◌, ◌/◌, ◌%◌, ◌^◌, List, [], ◌∷◌, Bytes, Bool, true, false, not, ◌||◌, ltb,
  if◌then◌else◌, ◌==◌, length, take, drop, get_or, Option, none, some,
}
use tailscale_iot.Upgrade.{Read, read_raw, write_raw}
use tailscale_iot.Transport.{
  no_action, write_message, read_message, split_action, other_action, started, invalid_state,
  start_failed, Noise, NoiseSession, split_transport, client_init, awaiting_server_response,
  transport_ready, Transport, mark_failed, is_in,
}

-- The version, the type of an initiation, and 16 bits of length in front of the payload.
unfoldable pub initiation : Bytes → Bytes
initiation payload = 0 ∷ 1 ∷ 1 ∷ (length payload / 2 ^ 8 % 256) ∷ (length payload % 256) ∷ payload

-- The payload of a response: its type is 2, and it has arrived whole.
unfoldable pub parse_response : Bytes → Option Bytes
parse_response bytes =
    let n = get_or bytes 1 0 * 2 ^ 8 + get_or bytes 2 0 in
    if ltb (length bytes) 3 || not (get_or bytes 0 0 == 2) || ltb (length bytes) (3 + n)
    then none
    else some (take n (drop 3 bytes))

module _ {H C : Type 0} (noise : Noise H C) where
  -- The handshake state starts where nothing has been done yet.
  unfoldable pub start_if_new : H → H × Bool
  start_if_new h = elim (noise.get_action h) [
    | no_action ↦ elim (noise.start h).1 [
      | started ↦ ((noise.start h).0, true)
      | invalid_state ↦ ((noise.start h).0, true)
      | start_failed ↦ ((noise.start h).0, false)
    ]
    | write_message ↦ (h, true)
    | read_message ↦ (h, true)
    | split_action ↦ (h, true)
    | other_action ↦ (h, true)
  ]

  abbrev with_handshake : H → NoiseSession H C → NoiseSession H C
  with_handshake h s = record s { handshake = some h }

  abbrev with_session : NoiseSession H C → Transport H C → Transport H C
  with_session s t = record t { session = some s }

  -- Where the library says split, the transport is ready if the split succeeds.
  unfoldable pub split_or_fail : NoiseSession H C → Transport H C → Transport H C × Bool
  split_or_fail s t =
      let (s₁, ok) = split_transport noise s in
      if ok
      then (record t { session = some s₁; stage = transport_ready }, true)
      else (mark_failed (with_session s₁ t), false)

  -- What follows the action behind a message that was written.
  unfoldable pub after_write : H → NoiseSession H C → Transport H C → Transport H C × Bool
  after_write h s t =
      let waiting : Transport H C × Bool = (
        record t { session = some (with_handshake h s); stage = awaiting_server_response },
        true,
      ) in
      elim (noise.get_action h) [
        | split_action ↦ split_or_fail (with_handshake h s) t
        | no_action ↦ waiting
        | write_message ↦ waiting
        | read_message ↦ waiting
        | other_action ↦ waiting
      ]

  abbrev fail_with : H → NoiseSession H C → Transport H C → Transport H C × Option Bytes
  fail_with h s t = (mark_failed (with_session (with_handshake h s) t), none)

  unfoldable pub write_first : H → NoiseSession H C → Transport H C → Transport H C × Option Bytes
  write_first h s t =
      let (h₁, written) = noise.write h in
      elim written [
        | none ↦ fail_with h₁ s t
        | some payload ↦
            let (t₁, ok) = after_write h₁ s t in
            (t₁, if ok then some (initiation payload) else none)
      ]

  unfoldable pub start_and_write :
      H → NoiseSession H C → Transport H C → Transport H C × Option Bytes
  start_and_write h s t =
      let (h₁, ok) = start_if_new h in
      if ok
      then elim (noise.get_action h₁) [
        | write_message ↦ write_first h₁ s t
        | no_action ↦ fail_with h₁ s t
        | read_message ↦ fail_with h₁ s t
        | split_action ↦ fail_with h₁ s t
        | other_action ↦ fail_with h₁ s t
      ]
      else fail_with h₁ s t

  -- `build_handshake_message`; no message is a result of false.
  unfoldable pub build_handshake_message : Transport H C → Transport H C × Option Bytes
  build_handshake_message t = elim t.session [
    | none ↦ (t, none)
    | some s ↦
        let built : Transport H C × Option Bytes = elim s.handshake [
          | none ↦ (mark_failed t, none)
          | some h ↦ start_and_write h s t
        ] in
        if is_in client_init t then built else (t, none)
  ]

  -- What follows the action behind a message that was read.
  unfoldable pub after_read : H → NoiseSession H C → Transport H C → Transport H C × Bool
  after_read h s t =
      let failure : Transport H C × Bool =
        (mark_failed (with_session (with_handshake h s) t), false) in
      elim (noise.get_action h) [
        | write_message ↦
            (record t { session = some (with_handshake h s); stage = client_init }, true)
        | split_action ↦ split_or_fail (with_handshake h s) t
        | no_action ↦ failure
        | read_message ↦ failure
        | other_action ↦ failure
      ]

  unfoldable pub read_response : Bytes → H → NoiseSession H C → Transport H C → Transport H C × Bool
  read_response payload h s t =
      let (h₁, ok) = noise.read payload h in
      if ok then after_read h₁ s t else (mark_failed (with_session (with_handshake h₁ s) t), false)

  unfoldable pub accept_handshake_message : Bytes → Transport H C → Transport H C × Bool
  accept_handshake_message bytes t = elim t.session [
    | none ↦ (t, false)
    | some s ↦
        let accepted : Transport H C × Bool = elim (parse_response bytes) [
          | none ↦ (mark_failed t, false)
          | some payload ↦ elim s.handshake [
            | none ↦ (mark_failed t, false)
            | some h ↦ read_response payload h s t
          ]
        ] in
        if is_in awaiting_server_response t then accepted else (t, false)
  ]

-- `send_handshake_bytes` and `read_handshake_bytes`.
unfoldable pub send_handshake_bytes :
    {H C : Type 0} → List ℕ → Bytes → Bytes → Transport H C → Bytes × Bool
send_handshake_bytes results mask payload t = elim t.upgrade [
  | none ↦ ([], false)
  | some u ↦ write_raw results u mask payload
]

unfoldable pub read_handshake_bytes :
    {H C : Type 0} → ℕ → ℕ → List Read → Transport H C → Transport H C × Option Bytes × List Read
read_handshake_bytes max_len timeout reads t = elim t.upgrade [
  | none ↦ (t, none, reads)
  | some u ↦
      let (u₁, out, rest) = read_raw max_len timeout reads u in
      (record t { upgrade = some u₁ }, out, rest)
]
