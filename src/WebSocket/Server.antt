-- ===== src/WebSocket/Server.antt =====
-- The frames that the server sends, which carry no mask.
use tailscale_iot.Base.{
  ℕ, ◌/◌, ◌%◌, ◌<◌, ◌≤◌, ◌≡◌, refl, ap, [], ◌∷◌, ◌++◌, Bytes, length, arith, length-append,
  take-length_append, if◌then◌else◌, ltb,
}
use tailscale_iot.WebSocket.{decode, decode_payload, payload_length, nothing}

-- A whole binary frame of at most 65535 bytes.
unfoldable pub server_frame : Bytes → Bytes
server_frame payload =
    let n = length payload in
    let short = n ∷ payload in
    let long = 126 ∷ (n / 256) ∷ (n % 256) ∷ payload in 130 ∷ (if ltb n 126 then short else long)

pub length-server_frame : (payload : Bytes) → length payload < length (server_frame payload)
unfolding server_frame
length-server_frame payload = ground arith

pub decode-server_frame :
    (payload rest : Bytes)
    → length payload ≤ 8192
    → decode (server_frame payload ++ rest)
      ≡ record { payload = payload; consumed = length (server_frame payload) }
unfolding decode decode_payload payload_length server_frame
decode-server_frame payload rest h =
    let body = take-length_append payload rest in
    let size = length-append payload rest in ground (arith, body, size)

-- Of a frame that has not arrived whole nothing is decoded.
pub decode-server_frame_prefix :
    (payload pre : Bytes) (b : ℕ) (more : Bytes)
    → length payload ≤ 8192
    → pre ++ b ∷ more ≡ server_frame payload
    → decode pre ≡ nothing
unfolding decode decode_payload payload_length server_frame
decode-server_frame_prefix payload [] b more l e = refl
decode-server_frame_prefix payload (x ∷ []) b more l e = refl
decode-server_frame_prefix payload (x ∷ y ∷ []) b more l e = ground (arith, ap length e)
decode-server_frame_prefix payload (x ∷ y ∷ z ∷ []) b more l e = ground (arith, ap length e)
decode-server_frame_prefix payload (x ∷ y ∷ z ∷ w ∷ pre) b more l e =
    ground (arith, ap length e, length-append pre (b ∷ more))
