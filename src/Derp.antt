-- ===== src/Derp.antt =====
-- The DERP relay client, `DerpClient` of components/tailscale/derp_client.cpp: its frames, the
-- handshake behind the HTTP upgrade, and `process`.
-- The socket stands outside: `reads` is what has arrived and what its reads will say, `writes` is how
-- many bytes each write takes (all from the list's end on), and `sent` what was written, newest
-- first. `overrun` counts the bytes that were written behind the end of a buffer.
pub mod Reading
pub mod Frames
pub mod Bounds
mod Tests
use tailscale_iot.Base.{
  ℕ, zero, suc, ◌+◌, ◌-◌, ◌*◌, ◌/◌, ◌%◌, ◌^◌, List, [], ◌∷◌, ◌++◌, Bytes, codes, Bool, true, false,
  not, ◌&&◌, ◌||◌, length, take, drop, get_or, equal, if◌then◌else◌, ltb, leb, ◌==◌, Option, none,
  some,
}
use tailscale_iot.Led.{elapsed}

pub data DerpState : Type 0 where
  disconnected : DerpState
  wait_server_key : DerpState
  send_client_info : DerpState
  wait_server_info : DerpState
  ready : DerpState
  derp_error : DerpState

-- What a read says: bytes (of which a read takes no more than it asks for), the end of the stream,
-- EAGAIN (and whether the time for a payload is over), another error.
pub data SockRead : Type 0 where
  got : Bytes → SockRead
  ended : SockRead
  again : Bool → SockRead
  broken : SockRead

-- A packet for the callback: the peer's key and the bytes.
pub record Packet : Type 0 where
  pub key : Bytes
  pub bytes : Bytes

pub record DerpClient : Type 0 where
  pub state : DerpState
  pub our_key : Bytes
  pub server_key : Bytes
  pub last_keep_alive : ℕ
  pub last_activity : ℕ
  pub reads : List SockRead
  pub writes : List ℕ
  pub sent : List Bytes
  pub packets : List Packet
  pub overrun : ℕ

-- The rest of a chunk, for the next read.
abbrev pub rest_of : ℕ → Bytes → List SockRead → List SockRead
rest_of n c reads = if ltb n (length c) then got (drop n c) ∷ reads else reads

abbrev pub disconnect : DerpClient → DerpClient
disconnect d = record d { state = disconnected }

abbrev pub sock_write : Bytes → DerpClient → DerpClient × Bool
sock_write bytes d = elim d.writes [
  | [] ↦ (record d { sent = bytes ∷ d.sent }, true)
  | n ∷ rest ↦ (record d { sent = take n bytes ∷ d.sent; writes = rest }, leb (length bytes) n)
]

-- The header: the type and 32 bits of length.
unfoldable pub frame_header : ℕ → ℕ → Bytes
frame_header kind n =
    kind ∷ (n / 2 ^ 24 % 256) ∷ (n / 2 ^ 16 % 256) ∷ (n / 2 ^ 8 % 256) ∷ (n % 256) ∷ []

unfoldable pub send_frame : ℕ → Bytes → DerpClient → DerpClient × Bool
send_frame kind payload d =
    let (d₁, head) = sock_write (frame_header kind (length payload)) d in
    let (d₂, body) = sock_write payload d₁ in
    if head then if ltb 0 (length payload) then (d₂, body) else (d₁, true) else (d₁, false)

abbrev pub frame_length : Bytes → ℕ
frame_length h = get_or h 1 0 * 2 ^ 24 + get_or h 2 0 * 2 ^ 16 + get_or h 3 0 * 2 ^ 8 + get_or h 4 0

-- A header of fewer than five bytes is given up, with the bytes that it had.
unfoldable pub read_header : DerpClient → DerpClient × Option (ℕ × ℕ)
read_header d = elim d.reads [
  | [] ↦ (d, none)
  | got c ∷ reads ↦
      let d₁ : DerpClient = record d { reads = rest_of 5 c reads } in
      if ltb (length c) 5 then (d₁, none) else (d₁, some (get_or c 0 0, frame_length c))
  | ended ∷ reads ↦ (disconnect (record d { reads = reads }), none)
  | again late ∷ reads ↦ (record d { reads = reads }, none)
  | broken ∷ reads ↦ (record d { reads = reads }, none)
]

-- The loop for `n` more bytes, at least one: the bytes, the result, and the reads that are left.
unfoldable pub read_loop : ℕ → List SockRead → Bytes × Bool × List SockRead
read_loop n [] = ([], false, [])
read_loop n (got c ∷ reads) =
    let (bytes, ok, left) = read_loop (n - length c) reads in
    if leb n (length c) then (take n c, true, rest_of n c reads) else (c ++ bytes, ok, left)
read_loop n (ended ∷ reads) = ([], false, reads)
read_loop n (again late ∷ reads) =
    let rest = read_loop n reads in if late then ([], false, reads) else rest
read_loop n (broken ∷ reads) = ([], false, reads)

-- `RECV_BUFFER_SIZE`.
abbrev pub recv_buffer_size : ℕ
recv_buffer_size = 2048

-- `read_frame_payload_` of `n` bytes into a buffer with room for `room`.
unfoldable pub read_payload : ℕ → ℕ → DerpClient → DerpClient × Bytes × Bool
read_payload room n d =
    let (bytes, ok, left) = read_loop n d.reads in
    let done : DerpClient = (record d {
      reads = left;
      overrun = d.overrun + (length bytes - room);
    }) in
    if n == 0
    then (d, [], true)
    else if ltb recv_buffer_size n
    then (d, [], false)
    else (done, bytes, ok)

-- "DERP" and a key.
abbrev pub magic : Bytes
magic = 0x44 ∷ 0x45 ∷ 0x52 ∷ 0x50 ∷ 0xf0 ∷ 0x9f ∷ 0x94 ∷ 0x91 ∷ []

unfoldable pub handle_server_key : DerpClient → DerpClient × Bool
handle_server_key d =
    let (d₁, head) = read_header d in
    elim head [
      | none ↦ (d₁, false)
      | some (kind, n) ↦
          let (d₂, bytes, ok) = read_payload 256 n d₁ in
          let keyed : DerpClient = record d₂ { server_key = take 32 (drop 8 bytes) } in
          if not (kind == 1) || ltb n 40
          then (d₁, false)
          else if ok && equal (take 8 bytes) magic
          then (keyed, true)
          else (d₂, false)
    ]

unfoldable pub handle_server_info : DerpClient → DerpClient × Bool
handle_server_info d =
    let (d₁, head) = read_header d in
    elim head [
      | none ↦ (d₁, false)
      | some (kind, n) ↦
          let (d₂, bytes, ok) = read_payload recv_buffer_size n d₁ in
          if not (kind == 3)
          then (d₁, false)
          else if ltb 0 n && ltb n 4096
          then (d₂, ok)
          else (d₁, true)
    ]

-- `box` is what crypto_box makes of the client's JSON for the server's key, if it does.
unfoldable pub send_info : (Bytes → Bytes → Option Bytes) → Bytes → DerpClient → DerpClient × Bool
send_info box nonce d = elim (box nonce d.server_key) [
  | none ↦ (d, false)
  | some sealed ↦ send_frame 2 (d.our_key ++ nonce ++ sealed) d
]

unfoldable pub handle_recv_packet : ℕ → DerpClient → DerpClient
handle_recv_packet n d =
    let (d₁, bytes, ok) = read_payload recv_buffer_size n d in
    let taken : DerpClient = record d₁ {
      packets = record { key = take 32 bytes; bytes = drop 32 bytes } ∷ d₁.packets;
    } in
    if ltb n 32 then d else if ok then taken else d₁

-- `handle_peer_present_`, `handle_peer_gone_` and the frames of a type that is not known.
unfoldable pub skip_payload : ℕ → DerpClient → DerpClient
skip_payload n d =
    if ltb 0 n && ltb n recv_buffer_size then (read_payload recv_buffer_size n d).0 else d

-- The text and the NUL behind it go into a buffer of 1024 bytes.
unfoldable pub handle_health : ℕ → DerpClient → DerpClient
handle_health n d =
    let read = (read_payload 1024 n d).0 in
    if ltb 0 n && ltb n 1024 then record read { overrun = read.overrun + (suc n - 1024) } else d

unfoldable pub handle_ping : ℕ → DerpClient → DerpClient
handle_ping n d =
    let (d₁, bytes, ok) = read_payload 8 n d in
    if not (n == 8) then d else if ok then (send_frame 0x13 bytes d₁).0 else d₁

unfoldable pub handle_frame : ℕ → ℕ → DerpClient → DerpClient
handle_frame kind n d =
    if kind == 5
    then handle_recv_packet n d
    else if kind == 6
    then d
    else if kind == 0x12
    then handle_ping n d
    else if kind == 0x14
    then handle_health n d
    else skip_payload n d

unfoldable pub keep_alive : ℕ → DerpClient → DerpClient
keep_alive now d =
    if ltb 60000 (elapsed now d.last_keep_alive)
    then record (send_frame 6 [] d).0 { last_keep_alive = now }
    else d

unfoldable pub read_one : ℕ → DerpClient → DerpClient
read_one now d =
    let (d₁, head) = read_header d in
    elim head [
      | none ↦ d₁
      | some (kind, n) ↦ handle_frame kind n (record d₁ { last_activity = now })
    ]

-- The ready state of `process`: keep-alive, time-out, one frame.
unfoldable pub process_ready : ℕ → DerpClient → DerpClient
process_ready now d =
    let alive = keep_alive now d in
    if ltb 180000 (elapsed now alive.last_activity) then disconnect alive else read_one now alive

abbrev pub is_ready : DerpState → Bool
is_ready ready = true
is_ready _ = false

-- The steps of the handshake, each of which goes on to the next.
unfoldable pub process_info : ℕ → DerpClient → DerpClient
process_info now d =
    let (d₁, ok) = handle_server_info d in
    let up : DerpClient = (record d₁ {
      state = ready;
      last_activity = now;
      last_keep_alive = now;
    }) in
    if ok then process_ready now up else d₁

unfoldable pub process_client : (Bytes → Bytes → Option Bytes) → Bytes → ℕ → DerpClient → DerpClient
process_client box nonce now d =
    let (d₁, ok) = send_info box nonce d in
    if ok
    then process_info now (record d₁ { state = wait_server_info })
    else record d₁ { state = derp_error }

unfoldable pub process : (Bytes → Bytes → Option Bytes) → Bytes → ℕ → DerpClient → DerpClient
process box nonce now d =
    let (d₁, ok) = handle_server_key d in
    elim d.state [
      | disconnected ↦ d
      | wait_server_key ↦
          if ok then process_client box nonce now (record d₁ { state = send_client_info }) else d₁
      | send_client_info ↦ process_client box nonce now d
      | wait_server_info ↦ process_info now d
      | ready ↦ process_ready now d
      | derp_error ↦ d
    ]

-- `MAX_PACKET_SIZE`.
abbrev pub max_packet_size : ℕ
max_packet_size = 1500

unfoldable pub send_packet : ℕ → Bytes → Bytes → DerpClient → DerpClient × Bool
send_packet now key packet d =
    let (d₁, ok) = send_frame 4 (key ++ packet) d in
    if not (is_ready d.state) || ltb max_packet_size (length packet)
    then (d, false)
    else if ok
    then (record d₁ { last_activity = now }, true)
    else (d₁, false)

-- `connect` up to the state: `opened` is where the socket, TLS and the upgrade come out.
unfoldable pub connect : Option DerpState → ℕ → DerpClient → DerpClient × Bool
connect opened now d = elim d.state [
  | disconnected ↦ elim opened [
    | none ↦
        (record d { state = wait_server_key; last_activity = now; last_keep_alive = now }, true)
    | some failed ↦ (record d { state = failed }, false)
  ]
  | wait_server_key ↦ (d, false)
  | send_client_info ↦ (d, false)
  | wait_server_info ↦ (d, false)
  | ready ↦ (d, false)
  | derp_error ↦ (d, false)
]
