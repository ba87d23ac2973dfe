-- ===== src/Upgrade/Tests.antt =====
-- Runs of the WebSocket framing and of the upgrade, and the theorems at concrete inputs.
use tailscale_iot.Base.{
  ◌≡◌, refl, [], ◌∷◌, ◌++◌, Bytes, codes, List, true, length, arith, none, some, find, starts_with,
  equal, c_str,
}
use tailscale_iot.Http2.Hpack.{digits}
use tailscale_iot.WebSocket.{encode, decode, mask_from, length_bytes}
use tailscale_iot.WebSocket.RoundTrip.{decode-encode}
use tailscale_iot.WebSocket.Bounds.{IsWithin, decode-IsWithin}
use tailscale_iot.WebSocket.Server.{server_frame}
use tailscale_iot.Upgrade.{
  Upgrade, Read, url_encode, strtol, parse_host_port, split_path, parse_url, close, read_raw,
  write_loop, write_raw, upgrade_response,
}
use tailscale_iot.Upgrade.Stream.{Arrives, read_raw-server_frame}

abbrev hello : Bytes
hello = codes "hello"

abbrev key : Bytes
key = 17 ∷ 34 ∷ 51 ∷ 68 ∷ []

masked_frame_run :
    encode hello key true ≡ 130 ∷ 133 ∷ 17 ∷ 34 ∷ 51 ∷ 68 ∷ 121 ∷ 71 ∷ 95 ∷ 40 ∷ 126 ∷ []
unfolding encode mask_from length_bytes
masked_frame_run = refl

decode-encode_example :
    decode (encode hello key true ++ codes "more")
    ≡ record { payload = hello; consumed = length (encode hello key true) }
decode-encode_example =
    decode-encode hello key (codes "more") true (ground arith) (ground arith) refl (omega arith)

decode-IsWithin_example : IsWithin 4 (decode (130 ∷ 2 ∷ 7 ∷ 8 ∷ []))
decode-IsWithin_example = decode-IsWithin (130 ∷ 2 ∷ 7 ∷ 8 ∷ [])

url_encode_run : url_encode (codes "a+b/") ≡ codes "a%2Bb%2F"
unfolding url_encode
url_encode_run = refl

abbrev fresh : Upgrade
fresh = record {
  raw_url = [];
  scheme = [];
  authority = [];
  host = [];
  port = 443;
  path = [];
  connected = true;
  upgrade_complete = true;
  handshake_init = [];
  recv_buffer = [];
}

abbrev url : Bytes
url = codes "https://controlplane.example:8443/ts"

parsed : (parse_url fresh url).0.port ≡ 8443
unfolding parse_url split_path parse_host_port find starts_with equal c_str strtol digits
parsed = refl

accepted : (parse_url fresh url).1 ≡ true
unfolding parse_url split_path parse_host_port find starts_with equal c_str strtol digits
accepted = refl

-- The port of an earlier connection stays where the next URL names none.
kept_port : (parse_url (close (parse_url fresh url).0) (codes "http://example/")).0.port ≡ 8443
unfolding parse_url split_path parse_host_port find starts_with equal c_str strtol digits close
kept_port = refl

abbrev pieces : List Read
pieces =
    Read.received 130 (5 ∷ [])
    ∷ Read.want
    ∷ Read.received b'h' (codes "ello" ++ 130 ∷ [])
    ∷ Read.ended
    ∷ []

-- A byte of the next frame comes with the last piece.
pieces-Arrives : Arrives (server_frame hello) (130 ∷ []) (Read.ended ∷ []) [] pieces
unfolding server_frame
pieces-Arrives = Arrives.chunk 130 130 (5 ∷ []) (5 ∷ hello) refl (
    Arrives.idle b'h' (codes "ello") refl (
      Arrives.chunk b'h' b'h' (codes "ello" ++ 130 ∷ []) (codes "ello") refl
        (Arrives.whole refl refl)))

read_raw-server_frame_example :
    read_raw 1024 500 pieces fresh
    ≡ (record fresh { recv_buffer = 130 ∷ [] }, some hello, Read.ended ∷ [])
read_raw-server_frame_example =
    read_raw-server_frame 1024 500 hello (130 ∷ []) (Read.ended ∷ []) pieces fresh refl refl
      (omega arith) (omega arith) (omega arith) (omega arith) pieces-Arrives

sent_whole : (write_raw (5 ∷ 6 ∷ []) fresh key hello).1 ≡ true
unfolding write_raw write_loop encode mask_from length_bytes
sent_whole = refl

switched :
    upgrade_response (codes "HTTP/1.1 101 OK" ++ 13 ∷ 10 ∷ 13 ∷ 10 ∷ codes "x") ≡ some (codes "x")
unfolding upgrade_response find starts_with
switched = refl

refused : upgrade_response (codes "HTTP/1.1 400 Bad" ++ 13 ∷ 10 ∷ []) ≡ none
unfolding upgrade_response find starts_with
refused = refl
