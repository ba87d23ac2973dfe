-- ===== src/Http2/Frame/Layout.antt =====
-- A frame that is written can be read back.
use tailscale_iot.Base.{
  ◌+◌, ◌%◌, ◌^◌, ◌<◌, ◌≡◌, [], ◌∷◌, ◌++◌, append_assoc, Bytes, arith, some, drop, length,
}
use tailscale_iot.Http2.Frame.{Frame, append_uint24, append_uint32, append_frame, read_header}

-- The nine bytes of the header.
abbrev pub header_bytes : Frame → Bytes
header_bytes f =
    append_uint32 (append_uint24 [] f.length ++ f.type ∷ f.flags ∷ []) (f.stream_id % 2 ^ 31)

-- What is in the buffer stays in front of the frame.
pub append_frame-append :
    (out : Bytes) (f : Frame) → append_frame out f ≡ out ++ (header_bytes f ++ f.payload)
unfolding append_frame append_uint24 append_uint32
append_frame-append out f = simp append_assoc

-- The receiver finds the length, the type, the flags and the 31 bits of the stream number of a
-- frame whose length fits 24 bits, and the payload behind the header.
pub read_header-append_frame :
    (f : Frame) (rest : Bytes)
    → f.length < 2 ^ 24
    → (read_header (append_frame [] f ++ rest)
        ≡ some (record f { stream_id = f.stream_id % 2 ^ 31; payload = [] }))
      × (drop 9 (append_frame [] f ++ rest) ≡ f.payload ++ rest)
unfolding append_frame append_uint24 append_uint32 read_header
read_header-append_frame f rest h = (ground arith, ground arith)

pub length-append_frame : (f : Frame) → length (append_frame [] f) ≡ 9 + length f.payload
unfolding append_frame append_uint24 append_uint32
length-append_frame f = omega arith
