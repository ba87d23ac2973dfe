-- ===== src/Upgrade/Stream.antt =====
-- Reading and writing the stream behind the upgrade.
use tailscale_iot.Base.{
  ℕ, ◌<◌, ◌≤◌, ◌≡◌, refl, ap, List, [], ◌∷◌, ◌++◌, ◌∙◌, drop-length_append, Bytes, true, false,
  length, drop, arith, none, some, length-append, take-append-drop, if◌then◌else◌,
}
use tailscale_iot.WebSocket.{encode, decode}
use tailscale_iot.WebSocket.Server.{
  server_frame, length-server_frame, decode-server_frame, decode-server_frame_prefix,
}
use tailscale_iot.Upgrade.{Upgrade, Read, deliver, read_loop, read_raw, write_loop, write_raw}

-- The reads complete the frame from the part `pre` that is in the buffer; with its last byte may
-- come bytes `rest` that stand behind it, and `later` is left.
pub data Arrives (frame rest : Bytes) (later : List Read) : Bytes → List Read → Type 0 where
  whole :
      {pre : Bytes} {reads : List Read}
      → pre ≡ frame ++ rest
      → reads ≡ later
      → Arrives frame rest later pre reads
  chunk :
      {pre : Bytes} {reads : List Read} (b c : ℕ) (bytes missing : Bytes)
      → pre ++ c ∷ missing ≡ frame
      → Arrives frame rest later (pre ++ b ∷ bytes) reads
      → Arrives frame rest later pre (Read.received b bytes ∷ reads)
  idle :
      {pre : Bytes} {reads : List Read} (b : ℕ) (bytes : Bytes)
      → pre ++ b ∷ bytes ≡ frame
      → Arrives frame rest later pre reads
      → Arrives frame rest later pre (Read.want ∷ reads)

deliver-frame :
    (u : Upgrade) (max_len : ℕ) (payload rest : Bytes)
    → u.upgrade_complete ≡ true
    → 0 < length payload
    → length payload ≤ 8192
    → u.recv_buffer ≡ server_frame payload ++ rest
    → deliver u max_len ≡ some (record u { recv_buffer = rest }, some payload)
unfolding deliver
deliver-frame u max_len payload rest c lo hi e =
    let here : decode u.recv_buffer
        ≡ record { payload = payload; consumed = length (server_frame payload) } =
      (cc (decode-server_frame payload rest hi, e)) in
    let behind : drop (length (server_frame payload)) u.recv_buffer ≡ rest =
      ap (drop (length (server_frame payload))) e
      ∙ drop-length_append (server_frame payload) rest in
    let some_bytes : 0 < length u.recv_buffer = omega (
      arith,
      ap length e,
      length-append (server_frame payload) rest,
      length-server_frame payload,
    ) in
    ground (arith, here, behind, some_bytes, length-server_frame payload)

deliver-prefix :
    (u : Upgrade) (max_len : ℕ) (payload : Bytes) (b : ℕ) (more : Bytes)
    → u.upgrade_complete ≡ true
    → length payload ≤ 8192
    → u.recv_buffer ++ b ∷ more ≡ server_frame payload
    → deliver u max_len ≡ none
unfolding deliver
deliver-prefix u max_len payload b more c hi e =
    ground (arith, decode-server_frame_prefix payload u.recv_buffer b more hi e)

-- The loop from the point where `pre` has arrived.
read_loop-frame :
    (max_len : ℕ) (payload rest : Bytes) (later reads : List Read) (u : Upgrade)
    → u.upgrade_complete ≡ true
    → 0 < length payload
    → length payload ≤ 8192
    → Arrives (server_frame payload) rest later u.recv_buffer reads
    → read_loop max_len false reads u ≡ (record u { recv_buffer = rest }, some payload, later)
unfolding read_loop
read_loop-frame max_len payload rest later [] u c lo hi (Arrives.whole e f) =
    ground (arith, deliver-frame u max_len payload rest c lo hi e)
read_loop-frame max_len payload rest later (r ∷ rs) u c lo hi (Arrives.whole e f) =
    ground (arith, deliver-frame u max_len payload rest c lo hi e)
read_loop-frame max_len payload rest later _ u c lo hi
      (Arrives.chunk {pre} {reads} b d bytes missing e a) =
    let v = record u { recv_buffer = u.recv_buffer ++ b ∷ bytes } in
    ground (
      arith,
      deliver-prefix u max_len payload d missing c hi e,
      read_loop-frame max_len payload rest later reads v c lo hi a,
    )
read_loop-frame max_len payload rest later _ u c lo hi (Arrives.idle {pre} {reads} b bytes e a) =
    ground (
      arith,
      deliver-prefix u max_len payload b bytes c hi e,
      read_loop-frame max_len payload rest later reads u c lo hi a,
    )

-- Behind the upgrade, with a time-out above 5 ms: a server's frame with 1 to 8192 bytes of
-- payload is returned as that payload, in whatever chunks it arrives before the deadline and
-- however often the TLS library asks to wait in between; just the bytes `rest` that came behind
-- it with its last chunk are left in the buffer, and no later read is taken.
pub read_raw-server_frame :
    (max_len timeout : ℕ) (payload rest : Bytes) (later reads : List Read) (u : Upgrade)
    → u.connected ≡ true
    → u.upgrade_complete ≡ true
    → 0 < max_len
    → 5 < timeout
    → 0 < length payload
    → length payload ≤ 8192
    → Arrives (server_frame payload) rest later u.recv_buffer reads
    → read_raw max_len timeout reads u ≡ (record u { recv_buffer = rest }, some payload, later)
unfolding read_raw
read_raw-server_frame max_len timeout payload rest later reads u k c m t lo hi a =
    ground (arith, read_loop-frame max_len payload rest later reads u c lo hi a)

write_loop-whole :
    (results : List ℕ) (bytes : Bytes)
    → (write_loop results bytes).1 ≡ true
    → (write_loop results bytes).0 ≡ bytes
unfolding write_loop
write_loop-whole results [] h = refl
write_loop-whole [] (b ∷ bytes) h = ground arith
write_loop-whole (n ∷ results) (b ∷ bytes) h =
    ground (arith, write_loop-whole results (drop n (b ∷ bytes)), take-append-drop n (b ∷ bytes))

-- `write_raw` on a connected stream returns true only if everything has gone out: the bytes
-- themselves before the upgrade, the whole WebSocket frame behind it.
pub write_raw-whole :
    (results : List ℕ) (u : Upgrade) (mask bytes : Bytes)
    → (write_raw results u mask bytes).1 ≡ true
    → (write_raw results u mask bytes).0
      ≡ (if u.upgrade_complete then encode bytes mask true else bytes)
unfolding write_raw
write_raw-whole results u mask bytes h =
    ground (
      arith,
      write_loop-whole results (if u.upgrade_complete then encode bytes mask true else bytes),
    )
