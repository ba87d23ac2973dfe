-- ===== src/Transport/Records.antt =====
-- The encrypted records of Ts2021Transport.
use tailscale_iot.Base.{
  ℕ, ◌+◌, ◌*◌, ◌/◌, ◌%◌, ◌^◌, List, [], ◌∷◌, Bytes, Bool, false, not, ◌||◌, ltb, if◌then◌else◌,
  ◌==◌, length, take, drop, get_or, Option, none, some,
}
use tailscale_iot.Upgrade.{Read, read_raw, write_raw}
use tailscale_iot.Transport.{Noise, transport_ready, Transport, mark_failed, is_in}

-- The type of a record and 16 bits of length in front of the ciphertext.
unfoldable pub framed : Bytes → Bytes
framed ciphertext = 4 ∷ (length ciphertext / 2 ^ 8 % 256) ∷ (length ciphertext % 256) ∷ ciphertext

-- The ciphertext of a record that has arrived whole.
unfoldable pub parse_record : Bytes → Option Bytes
parse_record bytes =
    let n = get_or bytes 1 0 * 2 ^ 8 + get_or bytes 2 0 in
    if ltb (length bytes) 3 || not (get_or bytes 0 0 == 4) || ltb (length bytes) (3 + n)
    then none
    else some (take n (drop 3 bytes))

module _ {H C : Type 0} (noise : Noise H C) where
  unfoldable pub encrypt_payload : Bytes → Transport H C → Transport H C × Option Bytes
  encrypt_payload plaintext t = elim t.session [
    | none ↦ (t, none)
    | some s ↦
        let encrypted : Transport H C × Option Bytes = elim s.send_cipher [
          | none ↦ (mark_failed t, none)
          | some c ↦
              let (c₁, ciphertext) = noise.encrypt plaintext c in
              let counted : Transport H C = record t {
                session = some (record s { send_cipher = some c₁ });
                tx_count = (t.tx_count + 1) % 2 ^ 64;
              } in
              elim ciphertext [
                | none ↦ (mark_failed counted, none)
                | some bytes ↦ (counted, some bytes)
              ]
        ] in
        if is_in transport_ready t then encrypted else (t, none)
  ]

  unfoldable pub decrypt_payload : Bytes → Transport H C → Transport H C × Option Bytes
  decrypt_payload bytes t = elim t.session [
    | none ↦ (t, none)
    | some s ↦
        let decrypted : Transport H C × Option Bytes = elim s.recv_cipher [
          | none ↦ (mark_failed t, none)
          | some c ↦
              let (c₁, plaintext) = noise.decrypt bytes c in
              let t₁ : Transport H C = (record t {
                session = some (record s { recv_cipher = some c₁ });
              }) in
              elim plaintext [
                | none ↦ (mark_failed t₁, none)
                | some text ↦ (record t₁ { rx_count = (t.rx_count + 1) % 2 ^ 64 }, some text)
              ]
        ] in
        if is_in transport_ready t then decrypted else (t, none)
  ]

  -- `send_plaintext`, with the results of `esp_tls_conn_write` and the random mask: what goes out
  -- and the result.
  unfoldable pub send_plaintext :
      List ℕ → Bytes → Bytes → Transport H C → Transport H C × Bytes × Bool
  send_plaintext results mask bytes t = elim t.upgrade [
    | none ↦ (t, [], false)
    | some u ↦
        let (t₁, ciphertext) = encrypt_payload bytes t in
        let sent : Transport H C × Bytes × Bool = elim ciphertext [
          | none ↦ (t₁, [], false)
          | some c ↦ let (out, ok) = write_raw results u mask (framed c) in (t₁, out, ok)
        ] in
        if length bytes == 0 then (t, [], false) else sent
  ]

  -- A message that `receive_plaintext` has read.
  unfoldable pub open_record : Bytes → Transport H C → Transport H C × Option Bytes
  open_record bytes t = elim (parse_record bytes) [
    | none ↦ (mark_failed t, none)
    | some ciphertext ↦ decrypt_payload ciphertext t
  ]

  -- `receive_plaintext`, with the reads before the deadline, of which the rest is given back.
  unfoldable pub receive_plaintext :
      ℕ → List Read → Transport H C → Transport H C × Option Bytes × List Read
  receive_plaintext timeout reads t = elim t.upgrade [
    | none ↦ (t, none, reads)
    | some u ↦
        let (u₁, out, rest) = read_raw 8192 timeout reads u in
        let t₁ : Transport H C = record t { upgrade = some u₁ } in
        elim out [
          | none ↦ (t₁, none, rest)
          | some bytes ↦
              let (t₂, text) = open_record bytes t₁ in
              if length bytes == 0 then (t₁, none, rest) else (t₂, text, rest)
        ]
  ]
