-- ===== src/Http2/Session/Post/Sending.antt =====
-- What `post_json` puts on the wire: the request, and the credit for the bytes that it took.
use tailscale_iot.Base.{
  ℕ, zero, suc, ◌+◌, ◌/◌, ◌%◌, ◌^◌, ◌<◌, ◌≡◌, refl, List, [], ◌∷◌, ◌++◌, append_assoc, append-nil,
  length, take, drop, Bytes, some, true, arith, ltb, Bool-cases, inl, inr,
}
use native.Mathlib.Nat.{pow-suc}
use tailscale_iot.Http2.Hpack.{digits}
use tailscale_iot.Http2.Frame.{Frame, append_frame, read_header}
use tailscale_iot.Http2.Frame.Layout.{append_frame-append, read_header-append_frame}
use tailscale_iot.Http2.Session.{Session, send, send_frame}
use tailscale_iot.Http2.Session.Post.{
  Request, headers_frame, data_frame, header_block, request_bytes, decimal, update_windows,
  window_update, take_data, full_data, append_json, filter_data, erase_data, handle_data,
}

digits_nil : (n : ℕ) → digits n [] ≡ n
unfolding digits
digits_nil n = refl

-- The digits spell the number, whatever follows them.
digits-decimal :
    (fuel n : ℕ) (rest : Bytes) → n < 10 ^ fuel → digits 0 (decimal fuel n ++ rest) ≡ digits n rest
unfolding digits decimal
digits-decimal zero n rest h = ground arith
digits-decimal (suc fuel) n rest h = elim (Bool-cases (ltb n 10)) [
  | inl e ↦ ground (arith, e)
  | inr e ↦ ground (
    arith,
    e,
    append_assoc (decimal fuel (n / 10)) ((b'0' + n % 10) ∷ []) rest,
    digits-decimal fuel (n / 10) ((b'0' + n % 10) ∷ rest) (omega (arith, pow-suc 10 fuel)),
  )
]

-- The request is a HEADERS frame and a DATA frame in one buffer: a receiver reads the first with
-- the header block, its END_HEADERS flag and the stream number, and behind it the second with
-- the payload and END_STREAM. The decimal that it writes for `content-length` spells the payload's
-- length. (Block and payload are shorter than 2 ^ 24, and the stream number fits 31 bits.)
pub request_bytes-frames :
    (r : Request)
    → length (header_block r) < 2 ^ 24
    → length r.payload < 2 ^ 24
    → r.stream_id < 2 ^ 31
    → (read_header (request_bytes r) ≡ some (record (headers_frame r) { payload = [] }))
      × (drop 9 (request_bytes r) ≡ header_block r ++ append_frame [] (data_frame r))
      × (read_header (append_frame [] (data_frame r))
          ≡ some (record (data_frame r) { payload = [] }))
      × (drop 9 (append_frame [] (data_frame r)) ≡ r.payload)
      × (digits 0 (decimal 10 (length r.payload)) ≡ length r.payload)
unfolding request_bytes
request_bytes-frames r hb hp hs =
    let h = read_header-append_frame (headers_frame r) (append_frame [] (data_frame r)) hb in
    let d = read_header-append_frame (data_frame r) [] hp in
    let joined = append_frame-append (append_frame [] (headers_frame r)) (data_frame r) in
    let second = append_frame-append [] (data_frame r) in
    (
      ground (arith, h, joined, second),
      ground (arith, h, joined, second),
      ground (arith, d, append-nil (append_frame [] (data_frame r))),
      ground (arith, d, append-nil (append_frame [] (data_frame r)), append-nil r.payload),
      ground (
        arith,
        digits-decimal 10 (length r.payload) [],
        append-nil (decimal 10 (length r.payload)),
        digits_nil (length r.payload),
      ),
    )

pub send-sent : (s : Session) (out : Bytes) → (send s out).0.sent ≡ out ∷ s.sent
unfolding send
send-sent s out = ground arith

send-recv_buffer : (s : Session) (out : Bytes) → (send s out).0.recv_buffer ≡ s.recv_buffer
unfolding send
send-recv_buffer s out = ground arith

send-send_set : (s : Session) (out : Bytes) → (send s out).0.send_set ≡ s.send_set
unfolding send
send-send_set s out = ground arith

pub take_data-sent :
    (s : Session) (payload : Bytes)
    → ((take_data s payload).sent ≡ s.sent)
      × ((take_data s payload).send_set ≡ s.send_set)
      × ((take_data s payload).recv_buffer ≡ s.recv_buffer)
unfolding take_data full_data append_json filter_data
take_data-sent s payload = ground arith

-- Credit given back for `n` bytes.
abbrev pub credit : Request → ℕ → List Bytes → List Bytes
credit r zero sent = sent
credit r n sent =
    append_frame [] (window_update 0 n) ∷ append_frame [] (window_update r.stream_id n) ∷ sent

update_windows-credit :
    (s : Session) (r : Request) (n : ℕ)
    → s.send_set ≡ true
    → ((update_windows s r.stream_id n).sent ≡ credit r n s.sent)
      × ((update_windows s r.stream_id n).recv_buffer ≡ s.recv_buffer)
unfolding update_windows send_frame
update_windows-credit s r zero h = ground arith
update_windows-credit s r (suc n) h =
    let first : Bytes = append_frame [] (window_update r.stream_id (suc n)) in
    let second : Bytes = append_frame [] (window_update 0 (suc n)) in
    ground (
      arith,
      send-sent s first,
      send-send_set s first,
      send-recv_buffer s first,
      send-sent (send s first).0 second,
      send-recv_buffer (send s first).0 second,
    )

-- For every DATA frame with a payload that `post_json` takes while the send callback is set, two
-- WINDOW_UPDATE frames are handed to that callback, for the stream and for the connection, both of
-- exactly the frame's length, whether the payload was used or not and whatever the callback says;
-- and the frame is taken out of the receive buffer.
pub handle_data-credit :
    (s : Session) (r : Request) (f : Frame)
    → s.send_set ≡ true
    → ((handle_data s r f).0.sent ≡ credit r f.length s.sent)
      × ((handle_data s r f).0.recv_buffer ≡ drop (9 + f.length) s.recv_buffer)
unfolding handle_data erase_data
handle_data-credit s r f h =
    let taken : Session = take_data s (take f.length (drop 9 s.recv_buffer)) in
    ground (
      arith,
      take_data-sent s (take f.length (drop 9 s.recv_buffer)),
      update_windows-credit (erase_data taken f) r f.length,
    )
