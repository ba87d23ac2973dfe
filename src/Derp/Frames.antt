-- ===== src/Derp/Frames.antt =====
-- A relayed packet on its way to the callback.
use tailscale_iot.Base.{
  ℕ, ◌+◌, ◌-◌, ◌<◌, ◌≤◌, ◌≡◌, ap, sym, ◌∙◌, subst, List, ◌∷◌, ◌++◌, Bytes, true, length, take, drop,
  arith, take-length_append, drop-length_append, length-append,
}
use tailscale_iot.Led.{elapsed}
use tailscale_iot.Derp.{
  SockRead, got, DerpClient, DerpState, rest_of, read_loop, read_payload, frame_header,
  handle_recv_packet, handle_frame, keep_alive, read_one, process_ready,
}
use tailscale_iot.Derp.Reading.{
  bytes_of, IsFlowing, bytes_of-rest_of, rest_of-IsFlowing, read_loop-stream, read_header-stream,
  drop-frame_header,
}

-- A payload that flows is read whole, and what stands behind it stays.
pub read_payload-stream :
    (room : ℕ) (payload after : Bytes) (d : DerpClient)
    → IsFlowing d.reads
    → 0 < length payload
    → length payload ≤ 2048
    → bytes_of d.reads ≡ payload ++ after
    → (read_payload room (length payload) d ≡ (
      record d {
        reads = (read_loop (length payload) d.reads).2;
        overrun = d.overrun + (length payload - room);
      },
      payload,
      true,
    ))
      × (bytes_of (read_loop (length payload) d.reads).2 ≡ after)
      × IsFlowing (read_loop (length payload) d.reads).2
unfolding read_payload
read_payload-stream room payload after d f p h s =
    let n = length payload in
    let enough : n ≤ length (bytes_of d.reads) =
      (omega (arith, ap length s, length-append payload after)) in
    let (bytes, ok, left, flowing) = read_loop-stream n d.reads f p enough in
    let same : (read_loop n d.reads).0 ≡ payload =
      (bytes ∙ ap (take n) s ∙ take-length_append payload after) in
    (
      ground (arith, same, ok, p, h),
      left ∙ ap (drop n) s ∙ drop-length_append payload after,
      flowing,
    )

-- A frame with a packet of a peer, as the relay sends it, reaches the callback: behind one
-- `process` of a ready client the callback was given just the key and the packet, what stands
-- behind the frame in the stream is what is left, and the client is still ready. The
-- payload may come in any pieces, with any number of waits between them of which each ends while the
-- 5 seconds for the whole payload are not over. (The header comes in one read, the frame has at most
-- 2048 bytes, and neither a keep-alive nor the time-out is due.)
pub process_ready-packet :
    (now : ℕ) (key packet c after : Bytes) (reads : List SockRead) (d : DerpClient)
    → d.state ≡ DerpState.ready
    → elapsed now d.last_keep_alive ≤ 60000
    → elapsed now d.last_activity ≤ 180000
    → d.reads ≡ got c ∷ reads
    → IsFlowing reads
    → 5 ≤ length c
    → length key ≡ 32
    → length (key ++ packet) ≤ 2048
    → c ++ bytes_of reads ≡ frame_header 5 (length (key ++ packet)) ++ ((key ++ packet) ++ after)
    → ((process_ready now d).packets ≡ record { key = key; bytes = packet } ∷ d.packets)
      × (bytes_of (process_ready now d).reads ≡ after)
      × IsFlowing (process_ready now d).reads
      × ((process_ready now d).state ≡ DerpState.ready)
      × ((process_ready now d).overrun ≡ d.overrun)
unfolding process_ready keep_alive read_one handle_frame handle_recv_packet
process_ready-packet now key packet c after reads d r k i e f h l m s =
    let payload = key ++ packet in
    let n = length payload in
    let size : n ≡ 32 + length packet = omega (arith, length-append key packet, l) in
    let head = read_header-stream 5 n c (payload ++ after) reads d e h (omega (arith, m)) s in
    let d₁ = record d { reads = rest_of 5 c reads; last_activity = now } in
    let behind : bytes_of d₁.reads ≡ payload ++ after =
      (bytes_of-rest_of 5 c reads h ∙ ap (drop 5) s ∙ drop-frame_header 5 n (payload ++ after)) in
    let (read, left, flowing) =
      read_payload-stream 2048 payload after d₁ (rest_of-IsFlowing 5 c reads f)
        (omega (arith, size)) m behind in
    let first : take 32 payload ≡ key =
      (ap (λ (j : ℕ). take j payload) (sym l) ∙ take-length_append key packet) in
    let second : drop 32 payload ≡ packet =
      (ap (λ (j : ℕ). drop j payload) (sym l) ∙ drop-length_append key packet) in
    let result : process_ready now d ≡ record d₁ {
      reads = (read_loop n d₁.reads).2;
      packets = record { key = key; bytes = packet } ∷ d.packets;
    } =
      (ground (arith, k, i, head, read, size, first, second, m)) in
    (
      ap DerpClient.packets result,
      ap (λ (x : DerpClient). bytes_of x.reads) result ∙ left,
      subst (λ (x : DerpClient). IsFlowing x.reads) (sym result) flowing,
      ap DerpClient.state result ∙ r,
      ap DerpClient.overrun result,
    )
