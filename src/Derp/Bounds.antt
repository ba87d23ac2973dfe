-- ===== src/Derp/Bounds.antt =====
-- The buffers for payloads.
use tailscale_iot.Base.{
  ℕ, ◌+◌, ◌-◌, ◌<◌, ◌≤◌, ◌≡◌, ap, ◌∙◌, List, [], ◌∷◌, ◌++◌, Bytes, length, drop, arith,
  Option-cases, inl, inr, length-append, length-take,
}
use tailscale_iot.Derp.{
  SockRead, got, ended, again, broken, DerpClient, rest_of, read_header, read_loop, read_payload,
  frame_header, send_frame, handle_recv_packet, handle_ping, handle_health, skip_payload,
  handle_frame, keep_alive, read_one, process_ready, handle_server_key,
}
use tailscale_iot.Derp.Reading.{
  bytes_of, IsFlowing, bytes_of-rest_of, rest_of-IsFlowing, read_header-stream, drop-frame_header,
}
use tailscale_iot.Derp.Frames.{read_payload-stream}

length-read_loop : (n : ℕ) (reads : List SockRead) → length (read_loop n reads).0 ≤ n
unfolding read_loop
length-read_loop n [] = omega arith
length-read_loop n (got c ∷ reads) = ground (
  arith,
  length-take n c,
  length-append c (read_loop (n - length c) reads).0,
  length-read_loop (n - length c) reads,
)
length-read_loop n (ended ∷ reads) = omega arith
length-read_loop n (again late ∷ reads) = ground (arith, length-read_loop n reads)
length-read_loop n (broken ∷ reads) = omega arith

-- A payload that the caller has found small enough stays within its buffer, as does any in the
-- buffer of 2048 bytes.
read_payload_overrun :
    (room n : ℕ) (d : DerpClient) → n ≤ room → (read_payload room n d).0.overrun ≡ d.overrun
unfolding read_payload
read_payload_overrun room n d h = ground (arith, length-read_loop n d.reads)

read_payload_overrun_whole :
    (n : ℕ) (d : DerpClient) → (read_payload 2048 n d).0.overrun ≡ d.overrun
unfolding read_payload
read_payload_overrun_whole n d = ground (arith, length-read_loop n d.reads)

send_frame_overrun :
    (kind : ℕ) (payload : Bytes) (d : DerpClient)
    → (send_frame kind payload d).0.overrun ≡ d.overrun
unfolding send_frame
send_frame_overrun kind payload d = ground arith

read_header_overrun : (d : DerpClient) → (read_header d).0.overrun ≡ d.overrun
unfolding read_header
read_header_overrun d = ground arith

handle_frame_overrun : (kind n : ℕ) (d : DerpClient) → (handle_frame kind n d).overrun ≡ d.overrun
unfolding handle_frame handle_recv_packet handle_ping handle_health skip_payload
handle_frame_overrun kind n d = ground (
  arith,
  read_payload_overrun_whole n d,
  read_payload_overrun 8 n d,
  read_payload_overrun 1024 n d,
  send_frame_overrun 0x13 (read_payload 8 n d).1 (read_payload 8 n d).0,
)

keep_alive_overrun : (now : ℕ) (d : DerpClient) → (keep_alive now d).overrun ≡ d.overrun
unfolding keep_alive
keep_alive_overrun now d = ground (arith, send_frame_overrun 6 [] d)

read_one_overrun : (now : ℕ) (d : DerpClient) → (read_one now d).overrun ≡ d.overrun
unfolding read_one
read_one_overrun now d = elim (Option-cases (read_header d).1) [
  | inl e ↦ ground (arith, e, read_header_overrun d)
  | inr ((kind, n), e) ↦ ground (
    arith,
    e,
    read_header_overrun d,
    handle_frame_overrun kind n (record (read_header d).0 { last_activity = now }),
  )
]

-- Whatever the relay sends to a ready client, a frame of any type with any length, and whatever the
-- socket says, `process` writes no byte behind the end of a buffer.
pub process_ready-overrun : (now : ℕ) (d : DerpClient) → (process_ready now d).overrun ≡ d.overrun
unfolding process_ready
process_ready-overrun now d =
    ground (arith, keep_alive_overrun now d, read_one_overrun now (keep_alive now d))

-- In the handshake bytes are written behind the end of a buffer: the frame with the server's key
-- may have up to 2048 bytes, and is read into a buffer of 256; all bytes from the 257th on go behind
-- its end.
pub handle_server_key_overrun :
    (payload c after : Bytes) (reads : List SockRead) (d : DerpClient)
    → d.reads ≡ got c ∷ reads
    → IsFlowing reads
    → 5 ≤ length c
    → 256 < length payload
    → length payload ≤ 2048
    → c ++ bytes_of reads ≡ frame_header 1 (length payload) ++ (payload ++ after)
    → (handle_server_key d).0.overrun ≡ d.overrun + (length payload - 256)
unfolding handle_server_key
handle_server_key_overrun payload c after reads d e f h l m s =
    let n = length payload in
    let head = read_header-stream 1 n c (payload ++ after) reads d e h (omega (arith, m)) s in
    let d₁ = record d { reads = rest_of 5 c reads } in
    let behind : bytes_of d₁.reads ≡ payload ++ after =
      (bytes_of-rest_of 5 c reads h ∙ ap (drop 5) s ∙ drop-frame_header 1 n (payload ++ after)) in
    let (read, left, flowing) =
      read_payload-stream 256 payload after d₁ (rest_of-IsFlowing 5 c reads f) (omega (arith, l)) m
        behind in
    ground (arith, head, read, l, m)

-- A frame of more than 2048 bytes is not read, whatever its type: all of its payload stays in the
-- stream, where the next header is looked for in it.
pub handle_frame_long :
    (kind n : ℕ) (d : DerpClient) → 2048 < n → (handle_frame kind n d).reads ≡ d.reads
unfolding handle_frame handle_recv_packet handle_ping handle_health skip_payload read_payload
handle_frame_long kind n d h = ground (arith, h)
