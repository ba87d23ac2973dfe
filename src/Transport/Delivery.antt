-- ===== src/Transport/Delivery.antt =====
-- Records on their way through the WebSocket framing, both ways, and the answers to a handshake.
use tailscale_iot.Base.{
  ℕ, ◌+◌, ◌%◌, ◌^◌, ◌<◌, ◌≤◌, ◌≡◌, sym, List, [], Bytes, All, IsByte, true, length, take, arith,
  some, append-nil, take_length, subst,
}
use tailscale_iot.WebSocket.{encode, decode}
use tailscale_iot.WebSocket.RoundTrip.{decode-encode}
use tailscale_iot.WebSocket.Server.{server_frame}
use tailscale_iot.Upgrade.{Upgrade, Read, write_raw}
use tailscale_iot.Upgrade.Stream.{Arrives, read_raw-server_frame, write_raw-whole}
use tailscale_iot.Transport.{Noise, NoiseSession, transport_ready, Transport, is_in}
use tailscale_iot.Transport.Records.{
  framed, parse_record, encrypt_payload, decrypt_payload, send_plaintext, open_record,
  receive_plaintext,
}

-- The receiver of a record whose ciphertext has fewer than 65536 bytes finds just that ciphertext.
parse_record-framed : (c : Bytes) → length c < 2 ^ 16 → parse_record (framed c) ≡ some c
unfolding parse_record framed
parse_record-framed c h = ground (arith, take_length c)

framed-bytes : (c : Bytes) → All IsByte c → All IsByte (framed c)
unfolding framed
framed-bytes c h = (omega arith, (omega arith, (omega arith, h)))

length-framed : (c : Bytes) → length c ≤ 8189 → length (framed c) ≤ 8192
unfolding framed
length-framed c h = omega (arith, h)

length-framed_positive : (c : Bytes) → 0 < length (framed c)
unfolding framed
length-framed_positive c = omega arith

-- A longer ciphertext does not fit the 16 bits of the record's length, which `send_plaintext` does
-- not check: the receiver takes the first bytes of it for the whole.
pub parse_record-framed_long :
    (c : Bytes) → 2 ^ 16 ≤ length c → parse_record (framed c) ≡ some (take (length c % 2 ^ 16) c)
unfolding parse_record framed
parse_record-framed_long c h = ground arith

module _ {H C : Type 0} (noise : Noise H C) where
  encrypt_payload-cipher :
      (bytes c : Bytes) (k k' : C) (s : NoiseSession H C) (t : Transport H C)
      → is_in transport_ready t ≡ true
      → t.session ≡ some s
      → s.send_cipher ≡ some k
      → noise.encrypt bytes k ≡ (k', some c)
      → encrypt_payload noise bytes t ≡ (
        record t {
          session = some (record s { send_cipher = some k' });
          tx_count = (t.tx_count + 1) % 2 ^ 64;
        },
        some c,
      )
  unfolding encrypt_payload
  encrypt_payload-cipher bytes c k k' s t r e f d = ground (arith, r, e, f, d)

  -- If `send_plaintext` returns true on a ready transport behind the upgrade, then what went out is
  -- one WebSocket frame, which the peer's decoder reads whole, and holds the record of the
  -- session's ciphertext of the bytes and nothing else, from which the peer gets that ciphertext
  -- back; the session goes on with the cipher's next state, and the record is counted. (The
  -- ciphertext has at most 8189 bytes, the size of the decoder's buffer less the record's header.)
  pub send_plaintext-record :
      (results : List ℕ) (mask bytes c : Bytes) (k k' : C) (s : NoiseSession H C)
      (t : Transport H C) (u : Upgrade)
      → is_in transport_ready t ≡ true
      → t.session ≡ some s
      → s.send_cipher ≡ some k
      → noise.encrypt bytes k ≡ (k', some c)
      → All IsByte c
      → length c ≤ 8189
      → t.upgrade ≡ some u
      → u.upgrade_complete ≡ true
      → All IsByte mask
      → length mask ≡ 4
      → (send_plaintext noise results mask bytes t).2 ≡ true
      → ((send_plaintext noise results mask bytes t).0 ≡ record t {
        session = some (record s { send_cipher = some k' });
        tx_count = (t.tx_count + 1) % 2 ^ 64;
      })
        × (decode (send_plaintext noise results mask bytes t).1 ≡ record {
          payload = framed c;
          consumed = length (send_plaintext noise results mask bytes t).1;
        })
        × (parse_record (framed c) ≡ some c)
  unfolding send_plaintext
  send_plaintext-record results mask bytes c k k' s t u r e f d hc l v w hm h4 h =
      let opened = encrypt_payload-cipher bytes c k k' s t r e f d in
      let frame = encode (framed c) mask true in
      let done : (write_raw results u mask (framed c)).1 ≡ true = ground (arith, opened, v, h) in
      let out : (write_raw results u mask (framed c)).0 ≡ frame =
        (ground (arith, write_raw-whole results u mask (framed c) done, w)) in
      let wire : (send_plaintext noise results mask bytes t).1 ≡ frame =
        ground (arith, opened, v, h, out) in
      let read =
        decode-encode (framed c) mask [] true (framed-bytes c hc) hm h4 (length-framed c l) in
      (
        ground (arith, opened, v, h),
        subst (λ (o : Bytes). decode o ≡ record { payload = framed c; consumed = length o })
            (sym wire)
            (subst
              (λ (o : Bytes). decode o ≡ record { payload = framed c; consumed = length frame })
              (append-nil frame) read),
        parse_record-framed c (omega (arith, l)),
      )

  open_record-framed :
      (c text : Bytes) (k k' : C) (s : NoiseSession H C) (t : Transport H C)
      → is_in transport_ready t ≡ true
      → t.session ≡ some s
      → s.recv_cipher ≡ some k
      → noise.decrypt c k ≡ (k', some text)
      → length c < 2 ^ 16
      → open_record noise (framed c) t ≡ (
        record t {
          session = some (record s { recv_cipher = some k' });
          rx_count = (t.rx_count + 1) % 2 ^ 64;
        },
        some text,
      )
  unfolding open_record decrypt_payload
  open_record-framed c text k k' s t r e f d h = ground (arith, r, e, f, d, parse_record-framed c h)

  -- A record of the server reaches the reader: in whatever chunks its frame arrives before the
  -- deadline, and however often the TLS library asks to wait, `receive_plaintext` gives the text
  -- that the session's cipher decrypts, leaves the cipher's next state for the next record, counts
  -- the record, keeps in the buffer just the bytes `rest` that came behind the frame with its last
  -- chunk, and takes no later read. (The transport is
  -- ready, the time-out is above 5 ms, and the ciphertext has at most 8189 bytes.)
  pub receive_plaintext-record :
      (timeout : ℕ) (c text rest : Bytes) (k k' : C) (s : NoiseSession H C) (t : Transport H C)
      (u : Upgrade) (later reads : List Read)
      → is_in transport_ready t ≡ true
      → t.session ≡ some s
      → s.recv_cipher ≡ some k
      → noise.decrypt c k ≡ (k', some text)
      → length c ≤ 8189
      → t.upgrade ≡ some u
      → u.connected ≡ true
      → u.upgrade_complete ≡ true
      → 5 < timeout
      → Arrives (server_frame (framed c)) rest later u.recv_buffer reads
      → receive_plaintext noise timeout reads t ≡ (
        record t {
          session = some (record s { recv_cipher = some k' });
          upgrade = some (record u { recv_buffer = rest });
          rx_count = (t.rx_count + 1) % 2 ^ 64;
        },
        some text,
        later,
      )
  unfolding receive_plaintext
  receive_plaintext-record timeout c text rest k k' s t u later reads r e f d h v x y b a =
      let read =
        read_raw-server_frame 8192 timeout (framed c) rest later reads u x y (omega arith) b
          (length-framed_positive c) (length-framed c h) a in
      let t₁ = record t { upgrade = some (record u { recv_buffer = rest }) } in
      let opened = open_record-framed c text k k' s t₁ r e f d (omega (arith, h)) in
      ground (arith, v, read, opened, length-framed_positive c)
