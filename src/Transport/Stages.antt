-- ===== src/Transport/Stages.antt =====
-- The stages of the transport: its runs, and what the stage says about the session.
use tailscale_iot.Base.{
  ℕ, ◌≡◌, ◌⊎◌, inl, inr, List, Bytes, Bool, true, false, ◌&&◌, arith, Option, none, some,
  Option-cases,
}
use tailscale_iot.Upgrade.{Read, read_raw}
use tailscale_iot.Transport.{
  Noise, NoiseSession, transport_ready, Transport, is_in, split_transport,
}
use tailscale_iot.Transport.Handshake.{
  build_handshake_message, accept_handshake_message, start_and_write, write_first, after_write,
  after_read, read_response, split_or_fail, start_if_new, parse_response,
}
use tailscale_iot.Transport.Records.{
  encrypt_payload, decrypt_payload, send_plaintext, receive_plaintext, open_record, parse_record,
}

abbrev pub is_set : {A : Type 0} → Option A → Bool
is_set none = false
is_set (some x) = true

module _ {H C : Type 0} where
  -- The session with a cipher for each direction.
  abbrev pub has_ciphers : Transport H C → Bool
  has_ciphers t = elim t.session [
    | none ↦ false
    | some s ↦ is_set s.send_cipher && is_set s.recv_cipher
  ]

  abbrev pub IsSound : Transport H C → Type 0
  IsSound t = (is_in transport_ready t ≡ false) ⊎ (has_ciphers t ≡ true)

module _ {H C : Type 0} (noise : Noise H C) where
  split_or_fail-IsSound :
      (s : NoiseSession H C) (t : Transport H C) → IsSound (split_or_fail noise s t).0
  unfolding split_or_fail split_transport
  split_or_fail-IsSound s t = elim (Option-cases s.handshake) [
    | inl e ↦ inl (ground (arith, e))
    | inr (h, e) ↦ elim (Option-cases (noise.split h).1) [
      | inl f ↦ inl (ground (arith, e, f))
      | inr ((c, d), f) ↦ inr (ground (arith, e, f))
    ]
  ]

  after_write-IsSound :
      (h : H) (s : NoiseSession H C) (t : Transport H C) → IsSound (after_write noise h s t).0
  unfolding after_write
  after_write-IsSound h s t =
      ground (arith, split_or_fail-IsSound (record s { handshake = some h }) t)

  write_first-IsSound :
      (h : H) (s : NoiseSession H C) (t : Transport H C) → IsSound (write_first noise h s t).0
  unfolding write_first
  write_first-IsSound h s t = elim (Option-cases (noise.write h).1) [
    | inl e ↦ inl (ground (arith, e))
    | inr (p, e) ↦ ground (arith, e, after_write-IsSound (noise.write h).0 s t)
  ]

  start_and_write-IsSound :
      (h : H) (s : NoiseSession H C) (t : Transport H C) → IsSound (start_and_write noise h s t).0
  unfolding start_and_write
  start_and_write-IsSound h s t = ground (arith, write_first-IsSound (start_if_new noise h).0 s t)

  pub build_handshake_message-IsSound :
      (t : Transport H C) → IsSound t → IsSound (build_handshake_message noise t).0
  unfolding build_handshake_message
  build_handshake_message-IsSound t i = elim (Option-cases t.session) [
    | inl e ↦ ground (arith, e, i)
    | inr (s, e) ↦ elim (Option-cases s.handshake) [
      | inl f ↦ ground (arith, e, f, i)
      | inr (h, f) ↦ ground (arith, e, f, i, start_and_write-IsSound h s t)
    ]
  ]

  after_read-IsSound :
      (h : H) (s : NoiseSession H C) (t : Transport H C) → IsSound (after_read noise h s t).0
  unfolding after_read
  after_read-IsSound h s t =
      ground (arith, split_or_fail-IsSound (record s { handshake = some h }) t)

  read_response-IsSound :
      (payload : Bytes) (h : H) (s : NoiseSession H C) (t : Transport H C)
      → IsSound (read_response noise payload h s t).0
  unfolding read_response
  read_response-IsSound payload h s t =
      ground (arith, after_read-IsSound (noise.read payload h).0 s t)

  pub accept_handshake_message-IsSound :
      (bytes : Bytes) (t : Transport H C)
      → IsSound t
      → IsSound (accept_handshake_message noise bytes t).0
  unfolding accept_handshake_message
  accept_handshake_message-IsSound bytes t i = elim (Option-cases t.session) [
    | inl e ↦ ground (arith, e, i)
    | inr (s, e) ↦ elim (Option-cases (parse_response bytes)) [
      | inl f ↦ ground (arith, e, f, i)
      | inr (p, f) ↦ elim (Option-cases s.handshake) [
        | inl g ↦ ground (arith, e, f, g, i)
        | inr (h, g) ↦ ground (arith, e, f, g, i, read_response-IsSound p h s t)
      ]
    ]
  ]

  encrypt_payload-IsSound :
      (bytes : Bytes) (t : Transport H C) → IsSound t → IsSound (encrypt_payload noise bytes t).0
  unfolding encrypt_payload
  encrypt_payload-IsSound bytes t i = elim (Option-cases t.session) [
    | inl e ↦ ground (arith, e, i)
    | inr (s, e) ↦ elim (Option-cases s.send_cipher) [
      | inl f ↦ ground (arith, e, f, i)
      | inr (c, f) ↦ elim (Option-cases (noise.encrypt bytes c).1) [
        | inl g ↦ ground (arith, e, f, g, i)
        | inr (d, g) ↦ ground (arith, e, f, g, i)
      ]
    ]
  ]

  decrypt_payload-IsSound :
      (bytes : Bytes) (t : Transport H C) → IsSound t → IsSound (decrypt_payload noise bytes t).0
  unfolding decrypt_payload
  decrypt_payload-IsSound bytes t i = elim (Option-cases t.session) [
    | inl e ↦ ground (arith, e, i)
    | inr (s, e) ↦ elim (Option-cases s.recv_cipher) [
      | inl f ↦ ground (arith, e, f, i)
      | inr (c, f) ↦ elim (Option-cases (noise.decrypt bytes c).1) [
        | inl g ↦ ground (arith, e, f, g, i)
        | inr (d, g) ↦ ground (arith, e, f, g, i)
      ]
    ]
  ]

  pub send_plaintext-IsSound :
      (results : List ℕ) (mask bytes : Bytes) (t : Transport H C)
      → IsSound t
      → IsSound (send_plaintext noise results mask bytes t).0
  unfolding send_plaintext
  send_plaintext-IsSound results mask bytes t i = elim (Option-cases t.upgrade) [
    | inl e ↦ ground (arith, e, i)
    | inr (u, e) ↦ elim (Option-cases (encrypt_payload noise bytes t).1) [
      | inl f ↦ ground (arith, e, f, i, encrypt_payload-IsSound bytes t i)
      | inr (c, f) ↦ ground (arith, e, f, i, encrypt_payload-IsSound bytes t i)
    ]
  ]

  open_record-IsSound :
      (bytes : Bytes) (t : Transport H C) → IsSound t → IsSound (open_record noise bytes t).0
  unfolding open_record
  open_record-IsSound bytes t i = elim (Option-cases (parse_record bytes)) [
    | inl e ↦ ground (arith, e, i)
    | inr (c, e) ↦ ground (arith, e, i, decrypt_payload-IsSound c t i)
  ]

  pub receive_plaintext-IsSound :
      (timeout : ℕ) (reads : List Read) (t : Transport H C)
      → IsSound t
      → IsSound (receive_plaintext noise timeout reads t).0
  unfolding receive_plaintext
  receive_plaintext-IsSound timeout reads t i = elim (Option-cases t.upgrade) [
    | inl e ↦ ground (arith, e, i)
    | inr (u, e) ↦
        let v = record t { upgrade = some (read_raw 8192 timeout reads u).0 } in
        elim (Option-cases (read_raw 8192 timeout reads u).1) [
          | inl f ↦ ground (arith, e, f, i)
          | inr (bytes, f) ↦ ground (arith, e, f, i, open_record-IsSound bytes v i)
        ]
  ]
