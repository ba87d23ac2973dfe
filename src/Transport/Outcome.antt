-- ===== src/Transport/Outcome.antt =====
-- What the two steps of the handshake return, and the stage behind them.
use tailscale_iot.Base.{
  ◌≡◌, ◌⊎◌, inl, inr, Bytes, Bool, true, false, arith, none, some, Option-cases, ◌≢◌,
}
use tailscale_iot.Transport.{
  Noise, NoiseSession, transport_ready, client_init, awaiting_server_response, stage_failed,
  Transport, is_in, begin_handshake, other_action, split_transport,
}
use tailscale_iot.Transport.Handshake.{
  build_handshake_message, accept_handshake_message, start_and_write, start_if_new, parse_response,
  read_response, after_read, split_or_fail,
}
use tailscale_iot.Transport.Stages.{has_ciphers}

module _ {H C : Type 0} (noise : Noise H C) where
  -- True with a transport that is ready and has its ciphers, or that writes again; or false with
  -- a failed one.
  abbrev pub IsOutcome : Transport H C × Bool → Type 0
  IsOutcome (t, ok) =
      ((ok ≡ true) × (is_in transport_ready t ≡ true) × (has_ciphers t ≡ true))
      ⊎ ((ok ≡ true) × (is_in client_init t ≡ true))
      ⊎ ((ok ≡ false) × (is_in stage_failed t ≡ true))

  split_or_fail-IsOutcome :
      (s : NoiseSession H C) (t : Transport H C) → IsOutcome (split_or_fail noise s t)
  unfolding split_or_fail split_transport
  split_or_fail-IsOutcome s t = elim (Option-cases s.handshake) [
    | inl e ↦ ground (arith, e)
    | inr (h, e) ↦ elim (Option-cases (noise.split h).1) [
      | inl f ↦ ground (arith, e, f)
      | inr ((c, d), f) ↦ ground (arith, e, f)
    ]
  ]

  after_read-IsOutcome :
      (h : H) (s : NoiseSession H C) (t : Transport H C) → IsOutcome (after_read noise h s t)
  unfolding after_read
  after_read-IsOutcome h s t =
      ground (arith, split_or_fail-IsOutcome (record s { handshake = some h }) t)

  read_response-IsOutcome :
      (payload : Bytes) (h : H) (s : NoiseSession H C) (t : Transport H C)
      → IsOutcome (read_response noise payload h s t)
  unfolding read_response
  read_response-IsOutcome payload h s t =
      ground (arith, after_read-IsOutcome (noise.read payload h).0 s t)

  -- A transport that awaits the server's response answers every message, whatever its bytes, in
  -- one of three ways: true and ready, with a cipher for each direction; true and about to write
  -- again; or false and failed. A message that is no whole response always ends in the last.
  pub accept_handshake_message-IsOutcome :
      (bytes : Bytes) (s : NoiseSession H C) (t : Transport H C)
      → is_in awaiting_server_response t ≡ true
      → t.session ≡ some s
      → IsOutcome (accept_handshake_message noise bytes t)
        × ((parse_response bytes ≢ none)
            ⊎ (is_in stage_failed (accept_handshake_message noise bytes t).0 ≡ true))
  unfolding accept_handshake_message
  accept_handshake_message-IsOutcome bytes s t a e = elim (Option-cases (parse_response bytes)) [
    | inl f ↦ (ground (arith, a, e, f), inr (ground (arith, a, e, f)))
    | inr (p, f) ↦ elim (Option-cases s.handshake) [
      | inl g ↦ (ground (arith, a, e, f, g), inl (ground (arith, f)))
      | inr (h, g) ↦
          (ground (arith, a, e, f, g, read_response-IsOutcome p h s t), inl (ground (arith, f)))
    ]
  ]

  -- A handshake that has been completed cannot be begun again: with a session whose handshake
  -- state is past its last message, `begin_handshake` returns true, and the message that
  -- should follow is not built but fails the transport.
  pub begin_handshake_completed :
      (h : H) (s : NoiseSession H C) (t : Transport H C)
      → s.handshake ≡ some h
      → noise.get_action h ≡ other_action
      → ((begin_handshake s t).1 ≡ true)
        × ((build_handshake_message noise (begin_handshake s t).0).1 ≡ none)
        × (is_in stage_failed (build_handshake_message noise (begin_handshake s t).0).0 ≡ true)
  unfolding begin_handshake build_handshake_message start_and_write start_if_new
  begin_handshake_completed h s t e a = ground (arith, e, a)
