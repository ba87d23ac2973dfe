-- ===== src/Upgrade.antt =====
-- `Ts2021Upgrade` of components/tailscale/ts2021_upgrade.cpp: the control URL, the reading and
-- writing of the TLS stream behind the WebSocket upgrade, and `close`.
-- The TLS library stands outside: the results of `esp_tls_conn_read` before the deadline are
-- a list, those of `esp_tls_conn_write` another.
pub mod Percent
pub mod Url
pub mod Stream
pub mod Tests
use tailscale_iot.Base.{
  ℕ, zero, suc, contains, ◌+◌, ◌*◌, ◌/◌, ◌%◌, List, [], ◌∷◌, ◌++◌, Bytes, codes, Bool, true, false,
  not, ◌&&◌, ◌||◌, length, take, drop, if◌then◌else◌, ltb, leb, ◌==◌, Option, none, some, find,
  starts_with, equal, c_str, is_alnum, is_space, ℤ, pos, negsuc,
}
use tailscale_iot.Http2.Hpack.{digits}
use tailscale_iot.WebSocket.{encode, decode}

pub record Upgrade : Type 0 where
  pub raw_url : Bytes
  pub scheme : Bytes
  pub authority : Bytes
  pub host : Bytes
  pub port : ℕ
  pub path : Bytes
  pub connected : Bool
  pub upgrade_complete : Bool
  pub handshake_init : Bytes
  pub recv_buffer : Bytes

-- A digit of `%02X`.
abbrev pub hex_digit : ℕ → ℕ
hex_digit d = if ltb d 10 then b'0' + d else 55 + d

abbrev pub is_unreserved : ℕ → Bool
is_unreserved c = is_alnum c || c == b'-' || c == b'_' || c == b'.' || c == b'~'

unfoldable pub url_encode : Bytes → Bytes
url_encode [] = []
url_encode (c ∷ value) =
    if is_unreserved c
    then c ∷ url_encode value
    else b'%' ∷ hex_digit (c / 16) ∷ hex_digit (c % 16) ∷ url_encode value

-- `strtol(s, nullptr, 10)` where no overflow matters: a number that is too large is still above
-- 65535.
unfoldable pub strtol : Bytes → ℤ
strtol [] = pos 0
strtol (c ∷ cs) =
    let rest = strtol cs in
    if is_space c
    then rest
    else if c == b'-'
    then elim (digits 0 cs) [ zero ↦ pos 0 | suc n ↦ negsuc n ]
    else if c == b'+'
    then pos (digits 0 cs)
    else pos (digits 0 (c ∷ cs))

-- `parse_host_port`: the host, the port (the given one where none is written) and the result.
unfoldable pub parse_host_port : Bytes → ℕ → Bytes × ℕ × Bool
parse_host_port authority port = elim (find (b':' ∷ []) authority) [
  | none ↦ (authority, port, true)
  | some (host, rest) ↦ elim (strtol (c_str (drop 1 rest))) [
    | pos n ↦ if leb n 0 || ltb 65535 n then (host, port, false) else (host, n, true)
    | negsuc n ↦ (host, port, false)
  ]
]

abbrev pub default_path : Bytes
default_path = codes "/ts2021"

-- The authority and the path behind the `//`.
unfoldable pub split_path : Bytes → Bytes × Bytes
split_path rest = elim (find (b'/' ∷ []) rest) [
  | none ↦ (rest, default_path)
  | some (authority, path) ↦ (authority, path)
]

unfoldable pub parse_url : Upgrade → Bytes → Upgrade × Bool
parse_url u url = elim (find (codes "//") url) [
  | none ↦ (record u { raw_url = url }, false)
  | some (before, rest) ↦
      let (authority, path) = split_path (drop 2 rest) in
      let (host, port, ok) = parse_host_port authority u.port in
      let scheme = before ++ codes "//" in
      let default =
        if port == 0 then if equal scheme (codes "http://") then 80 else 443 else port in
      (
        record u {
          raw_url = url;
          scheme = scheme;
          authority = authority;
          path = path;
          host = host;
          port = if ok then default else port;
        },
        ok,
      )
]

-- What `ensure_connection_` connects to.
abbrev pub uri : Upgrade → Bytes
uri u = u.scheme ++ u.authority ++ u.path

unfoldable pub close : Upgrade → Upgrade
close u = record u {
  connected = false;
  upgrade_complete = false;
  host = [];
  authority = [];
  recv_buffer = [];
}

-- A result of `esp_tls_conn_read`: at least one byte, 0, WANT_READ or WANT_WRITE, another error.
pub data Read : Type 0 where
  received : ℕ → Bytes → Read
  ended : Read
  want : Read
  failed : Read

-- The top of `read_raw`'s loop: what is in the buffer is delivered, or nothing (`none`) and the
-- loop goes on. An output of `none` is a result of false.
unfoldable pub deliver : Upgrade → ℕ → Option (Upgrade × Option Bytes)
deliver u max_len =
    let d = decode u.recv_buffer in
    let left = record u { recv_buffer = drop d.consumed u.recv_buffer } in
    let raw : Upgrade × Option Bytes =
      (record u { recv_buffer = drop max_len u.recv_buffer }, some (take max_len u.recv_buffer)) in
    let frame : Upgrade × Option Bytes =
      if ltb 0 (length d.payload) then (left, some d.payload) else (left, none) in
    if ltb 0 (length u.recv_buffer)
    then if u.upgrade_complete then if ltb 0 d.consumed then some frame else none else some raw
    else none

-- The loop, with the reads that return before the deadline. `soon` is `timeout_ms <= 5`.
unfoldable pub read_loop : ℕ → Bool → List Read → Upgrade → Upgrade × Option Bytes × List Read
read_loop max_len soon [] u = elim (deliver u max_len) [
  | none ↦ (u, none, [])
  | some (v, out) ↦ (v, out, [])
]
read_loop max_len soon (r ∷ rs) u =
    let next : Upgrade × Option Bytes × List Read = elim r [
      | received b bytes ↦
          read_loop max_len soon rs (record u { recv_buffer = u.recv_buffer ++ b ∷ bytes })
      | ended ↦ (u, none, rs)
      | want ↦ let again = read_loop max_len soon rs u in if soon then (u, none, rs) else again
      | failed ↦ (u, none, rs)
    ] in
    elim (deliver u max_len) [ none ↦ next | some (v, out) ↦ (v, out, r ∷ rs) ]

unfoldable pub read_raw : ℕ → ℕ → List Read → Upgrade → Upgrade × Option Bytes × List Read
read_raw max_len timeout reads u =
    if not u.connected || max_len == 0
    then (u, none, reads)
    else read_loop max_len (leb timeout 5) reads u

-- `write_raw`'s loop over the results of `esp_tls_conn_write`, each a count of bytes or an error
-- (0 or less): the bytes that went out, and the result. No more results are an error.
unfoldable pub write_loop : List ℕ → Bytes → Bytes × Bool
write_loop results [] = ([], true)
write_loop [] (b ∷ bytes) = ([], false)
write_loop (n ∷ results) (b ∷ bytes) =
    let (out, ok) = write_loop results (drop n (b ∷ bytes)) in
    if n == 0 then ([], false) else (take n (b ∷ bytes) ++ out, ok)

unfoldable pub write_raw : List ℕ → Upgrade → Bytes → Bytes → Bytes × Bool
write_raw results u mask bytes =
    let frame = if u.upgrade_complete then encode bytes mask true else bytes in
    if not u.connected || length bytes == 0 then ([], false) else write_loop results frame

unfoldable pub clear_receive_buffer : Upgrade → Upgrade
clear_receive_buffer u = record u { recv_buffer = [] }

-- `perform_http_upgrade_` on the response: the bytes behind the headers where it is accepted.
unfoldable pub upgrade_response : Bytes → Option Bytes
upgrade_response response =
    let rejected : Bool = elim (find (codes "HTTP/") response) [
      | none ↦ false
      | some (_, status) ↦ elim (find (13 ∷ 10 ∷ []) status) [
        | none ↦ false
        | some (line, _) ↦ not (contains (codes " 101 ") line)
      ]
    ] in
    let found = contains (codes "101") response in
    let leftover : Bytes = elim (find (13 ∷ 10 ∷ 13 ∷ 10 ∷ []) response) [
      | none ↦ []
      | some (_, rest) ↦ drop 4 rest
    ] in
    if rejected || not found then none else some leftover
