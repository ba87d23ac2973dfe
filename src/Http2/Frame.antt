-- ===== src/Http2/Frame.antt =====
-- Frames on the wire: `append_uint24`, `append_uint32`, `Frame`, the layout that `send_frame_` and
-- `post_json` write, and the header that `read_frame_` reads.
pub mod Layout
use tailscale_iot.Base.{
  ℕ, suc, ◌+◌, ◌*◌, ◌/◌, ◌%◌, ◌^◌, ◌<◌, ◌≡◌, refl, List, [], ◌∷◌, ◌++◌, length, append_assoc, Bytes,
  arith, Option, none, some, IsByte, All,
}

-- uint8_t, uint32_t fields; a DATA frame that was read keeps its payload in the receive buffer.
pub record Frame : Type 0 where
  pub length : ℕ
  pub type : ℕ
  pub flags : ℕ
  pub stream_id : ℕ
  pub payload : Bytes

abbrev pub type_data : ℕ
type_data = 0

abbrev pub type_headers : ℕ
type_headers = 1

abbrev pub type_settings : ℕ
type_settings = 4

abbrev pub type_goaway : ℕ
type_goaway = 7

abbrev pub type_window_update : ℕ
type_window_update = 8

abbrev pub flag_end_stream : ℕ
flag_end_stream = 1

abbrev pub flag_end_headers : ℕ
flag_end_headers = 4

abbrev pub flag_ack : ℕ
flag_ack = 1

-- `MAX_FRAME_SIZE`.
abbrev pub max_frame_size : ℕ
max_frame_size = 16384

unfoldable pub append_uint24 : Bytes → ℕ → Bytes
append_uint24 out v = out ++ (v / 2 ^ 16 % 256) ∷ (v / 2 ^ 8 % 256) ∷ (v % 256) ∷ []

unfoldable pub append_uint32 : Bytes → ℕ → Bytes
append_uint32 out v =
    out ++ (v / 2 ^ 24 % 256) ∷ (v / 2 ^ 16 % 256) ∷ (v / 2 ^ 8 % 256) ∷ (v % 256) ∷ []

-- The bytes that one frame adds to a buffer.
unfoldable pub append_frame : Bytes → Frame → Bytes
append_frame out f =
    append_uint32 (append_uint24 out f.length ++ f.type ∷ f.flags ∷ []) (f.stream_id % 2 ^ 31)
    ++ f.payload

-- The nine bytes at the head of the receive buffer.
unfoldable pub read_header : Bytes → Option Frame
read_header (l₂ ∷ l₁ ∷ l₀ ∷ type ∷ flags ∷ s₃ ∷ s₂ ∷ s₁ ∷ s₀ ∷ rest) = some (record {
  length = l₂ * 2 ^ 16 + l₁ * 2 ^ 8 + l₀;
  type = type;
  flags = flags;
  stream_id = (s₃ * 2 ^ 24 + s₂ * 2 ^ 16 + s₁ * 2 ^ 8 + s₀) % 2 ^ 31;
  payload = [];
})
read_header _ = none
