-- ===== src/WebSocket/Bounds.antt =====
-- Whatever arrives, the decoder stays within the buffers.
use tailscale_iot.Base.{
  ℕ, ◌+◌, ◌/◌, ◌%◌, ◌≤◌, ◌≡◌, ◌⊎◌, inl, inr, [], ◌∷◌, Bytes, Bool, length, arith, some, ◌==◌,
  if◌then◌else◌, Option-cases, length-take, length-drop, take, drop,
}
use tailscale_iot.WebSocket.{decode, decode_payload, payload_length, Decoded, eight_bytes}
use tailscale_iot.WebSocket.Mask.{length-mask_from}

-- What a decoding may say of `n` bytes.
abbrev pub IsWithin : ℕ → Decoded → Type 0
IsWithin n d =
    (d.consumed ≤ n)
    × (length d.payload ≤ 8192)
    × ((d.payload ≡ []) ⊎ (length d.payload + 2 ≤ d.consumed))

decode_payload-IsWithin :
    (opcode n h : ℕ) (masked : Bool) (bytes : Bytes)
    → 2 ≤ h
    → h ≤ 10
    → IsWithin (length bytes) (decode_payload opcode masked n h bytes)
unfolding decode_payload
decode_payload-IsWithin opcode n h masked bytes lo hi =
    let header_len : ℕ = if masked then h + 4 else h in
    let body = take n (drop header_len bytes) in
    ground (
      arith,
      length-take n (drop header_len bytes),
      length-drop header_len bytes,
      length-mask_from 0 (take 4 (drop h bytes)) body,
    )

eight_bytes-header : (n h : ℕ) (rest : Bytes) → eight_bytes rest ≡ some (n, h) → h ≡ 10
eight_bytes-header n h (_ ∷ _ ∷ _ ∷ _ ∷ _ ∷ _ ∷ _ ∷ _ ∷ rest) e = ground arith
eight_bytes-header n h _ e = ground arith

payload_length-bounds :
    (b n h : ℕ) (rest : Bytes) → payload_length b rest ≡ some (n, h) → (2 ≤ h) × (h ≤ 10)
unfolding payload_length
payload_length-bounds b n h [] e = ground arith
payload_length-bounds b n h (_ ∷ []) e = ground arith
payload_length-bounds b n h (x ∷ y ∷ rest) e = elim (Option-cases (eight_bytes (x ∷ y ∷ rest))) [
  | inl f ↦ ground arith
  | inr ((m, k), f) ↦ ground (arith, eight_bytes-header m k (x ∷ y ∷ rest) f)
]

-- On any bytes from the network the decoder consumes at most what there is, its payload fits the
-- static buffer, and a payload that is not empty consumes at least its length and two header
-- bytes, so that the reader makes progress.
pub decode-IsWithin : (bytes : Bytes) → IsWithin (length bytes) (decode bytes)
unfolding decode
decode-IsWithin (b₀ ∷ b₁ ∷ rest) = elim (Option-cases (payload_length (b₁ % 128) rest)) [
  | inl e ↦ ground (arith, e)
  | inr ((n, h), e) ↦ ground (
    arith,
    e,
    payload_length-bounds (b₁ % 128) n h rest e,
    decode_payload-IsWithin (b₀ % 16) n h (b₁ / 128 % 2 == 1) (b₀ ∷ b₁ ∷ rest),
  )
]
decode-IsWithin _ = ground arith
