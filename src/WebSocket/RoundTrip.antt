-- ===== src/WebSocket/RoundTrip.antt =====
-- What the device sends, the peer's decoder reads.
use tailscale_iot.Base.{
  ℕ, ◌+◌, ◌/◌, ◌%◌, ◌^◌, ◌<◌, ◌≤◌, ◌≡◌, ap, [], ◌∷◌, ◌++◌, Bytes, Bool, true, false, length, take,
  drop, All, IsByte, arith, some, length-append, append_assoc, take-length_append,
  drop-length_append, drop-drop, if◌then◌else◌, ltb, ◌==◌, Bool-cases, inl, inr,
}
use tailscale_iot.WebSocket.{
  encode, decode, decode_payload, payload_length, length_bytes, mask_from, nothing,
}
use tailscale_iot.WebSocket.Mask.{mask_from_twice, length-mask_from}

-- The bytes of an encoded frame's length field and the reading of it.
payload_length-length_bytes :
    (n : ℕ) (rest : Bytes)
    → n < 2 ^ 64
    → (b : ℕ) × (more : Bytes) × (h : ℕ) × (length_bytes n ≡ b ∷ more)
      × (payload_length (b % 128) (more ++ rest) ≡ some (n, h))
      × (h ≡ length more + 2)
      × (h ≤ 10)
      × (b / 128 % 2 ≡ 1)
unfolding length_bytes payload_length
payload_length-length_bytes n rest h = elim (Bool-cases (ltb n 126)) [
  | inl e ↦ (128 + n, [], 2, ground arith, ground arith, ground arith, ground arith, ground arith)
  | inr e ↦ elim (Bool-cases (ltb n 65536)) [
    | inl f ↦ (
      254,
      (n / 2 ^ 8 % 256) ∷ (n % 256) ∷ [],
      4,
      ground arith,
      ground arith,
      ground arith,
      ground arith,
      ground arith,
    )
    | inr f ↦ (
      255,
      (n / 2 ^ 56 % 256)
          ∷ (n / 2 ^ 48 % 256)
          ∷ (n / 2 ^ 40 % 256)
          ∷ (n / 2 ^ 32 % 256)
          ∷ (n / 2 ^ 24 % 256)
          ∷ (n / 2 ^ 16 % 256)
          ∷ (n / 2 ^ 8 % 256)
          ∷ (n % 256)
          ∷ [],
      10,
      ground arith,
      ground arith,
      ground arith,
      ground arith,
      ground arith,
    )
  ]
]

-- A masked frame in front of other bytes, its header's first part `front`.
decode_payload-frame :
    (opcode : ℕ) (front mask body rest : Bytes)
    → length mask ≡ 4
    → length front < 16
    → length body ≤ 8192
    → (opcode == 8) ≡ false
    → decode_payload opcode true (length body) (length front) (front ++ (mask ++ (body ++ rest)))
      ≡ record { payload = mask_from 0 mask body; consumed = length front + 4 + length body }
unfolding decode_payload
decode_payload-frame opcode front mask body rest hm hf hb ho =
    let at_mask = drop-length_append front (mask ++ (body ++ rest)) in
    let key = take-length_append mask (body ++ rest) in
    let at_body = drop-length_append mask (body ++ rest) in
    let text = take-length_append body rest in
    let skip = drop-drop (length front) 4 (front ++ (mask ++ (body ++ rest))) in
    let all = front ++ (mask ++ (body ++ rest)) in
    let taken : take 4 (drop (length front) all) ≡ mask = cc (at_mask, key, hm) in
    let left : drop (length front + 4) all ≡ body ++ rest = cc (at_mask, at_body, hm, skip) in
    ground (
      arith,
      taken,
      left,
      text,
      length-append front (mask ++ (body ++ rest)),
      length-append mask (body ++ rest),
      length-append body rest,
    )

-- Too large for the static buffer: nothing is consumed.
decode_payload-oversized :
    (opcode n h : ℕ) (masked : Bool) (bytes : Bytes)
    → 8192 < n
    → (opcode == 8) ≡ false
    → decode_payload opcode masked n h bytes ≡ nothing
unfolding decode_payload
decode_payload-oversized opcode n h masked bytes l ho = ground arith

-- The parts of an encoded frame, with other bytes behind it.
encode-parts :
    (payload mask rest : Bytes) (binary : Bool) (b : ℕ) (more : Bytes)
    → length_bytes (length payload) ≡ b ∷ more
    → encode payload mask binary ++ rest
      ≡ (128 + (if binary then 2 else 1))
        ∷ b
        ∷ (more ++ (mask ++ (mask_from 0 mask payload ++ rest)))
unfolding encode
encode-parts payload mask rest binary b more h = simp (h, append_assoc)

length-encode :
    (payload mask : Bytes) (binary : Bool) (b : ℕ) (more : Bytes)
    → length_bytes (length payload) ≡ b ∷ more
    → length (encode payload mask binary) ≡ length more + 2 + length mask + length payload
unfolding encode
length-encode payload mask binary b more h = ground (
  arith,
  ap length h,
  length-append (length_bytes (length payload) ++ mask) (mask_from 0 mask payload),
  length-append (length_bytes (length payload)) mask,
  length-mask_from 0 mask payload,
)

-- The decoder on a masked frame whose length field is read.
decode-header :
    (opcode b n h : ℕ) (more rest : Bytes)
    → opcode < 16
    → payload_length (b % 128) (more ++ rest) ≡ some (n, h)
    → b / 128 % 2 ≡ 1
    → decode ((128 + opcode) ∷ b ∷ (more ++ rest))
      ≡ decode_payload opcode true n h ((128 + opcode) ∷ b ∷ (more ++ rest))
unfolding decode
decode-header opcode b n h more rest l r m =
    let top : (128 + opcode) % 16 ≡ opcode = omega arith in ground (arith, r, m, top)

-- A frame whose payload fits the decoder's 8192-byte buffer, text or binary, masked by any four
-- bytes and with anything behind it in the buffer, is decoded to its payload, and exactly the
-- frame is consumed.
pub decode-encode :
    (payload mask rest : Bytes) (binary : Bool)
    → All IsByte payload
    → All IsByte mask
    → length mask ≡ 4
    → length payload ≤ 8192
    → decode (encode payload mask binary ++ rest)
      ≡ record { payload = payload; consumed = length (encode payload mask binary) }
decode-encode payload mask rest binary hp hm h4 hl =
    let masked = mask_from 0 mask payload in
    let (b, more, h, e, r, eh, small, em) =
      payload_length-length_bytes (length payload) (mask ++ (masked ++ rest)) (omega arith) in
    let opcode : ℕ = if binary then 2 else 1 in
    ground (
      arith,
      encode-parts payload mask rest binary b more e,
      length-encode payload mask binary b more e,
      decode-header opcode b (length payload) h more (mask ++ (masked ++ rest)) (ground arith) r em,
      eh,
      mask_from_twice 0 mask payload hm hp,
      length-mask_from 0 mask payload,
      decode_payload-frame opcode ((128 + opcode) ∷ b ∷ more) mask masked rest,
    )

-- A frame whose payload exceeds the 8192-byte buffer gives nothing and consumes nothing, although
-- the whole frame has arrived: it stays at the head of the receive buffer for good.
decode-encode_oversized :
    (payload mask rest : Bytes) (binary : Bool)
    → 8192 < length payload
    → length payload < 2 ^ 64
    → decode (encode payload mask binary ++ rest) ≡ record { payload = []; consumed = 0 }
unfolding decode
decode-encode_oversized payload mask rest binary lo hi =
    let masked = mask_from 0 mask payload in
    let (b, more, h, e, r, eh, small, em) =
      payload_length-length_bytes (length payload) (mask ++ (masked ++ rest)) hi in
    let opcode : ℕ = if binary then 2 else 1 in
    let all = (128 + opcode) ∷ b ∷ (more ++ (mask ++ (masked ++ rest))) in
    ground (
      arith,
      encode-parts payload mask rest binary b more e,
      r,
      decode_payload-oversized opcode (length payload) h (b / 128 % 2 == 1) all lo,
    )
