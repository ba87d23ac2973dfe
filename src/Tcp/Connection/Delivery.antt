-- ===== src/Tcp/Connection/Delivery.antt =====
-- Runs of a connection: the whole stream arrives.
use tailscale_iot.Base.{
  ℕ, zero, suc, ◌+◌, ◌^◌, ◌<◌, ◌≤◌, ◌≡◌, refl, ap, sym, ◌∙◌, subst, List, [], ◌∷◌, ◌++◌, Bytes,
  false, length, get_or, arith, All, if◌then◌else◌, ltb, ◌==◌, Option, Bool-cases, inl, inr,
  append_assoc, length-append, take_length,
}
use tailscale_iot.Tcp.Packet.{Segment}
use tailscale_iot.Tcp.Connection.{Handler, Work, handle_known, has_fin}
use tailscale_iot.Tcp.Connection.Kept.{received}
use tailscale_iot.Tcp.Connection.Stream.{accept, IsSlice, IsAt, IsOf, HasPatient, handle_known-IsAt}

abbrev pub join : List Bytes → Bytes
join [] = []
join (c ∷ chunks) = c ++ join chunks

-- Where the chunk with the number `i` begins.
unfoldable pub place_of : List Bytes → ℕ → ℕ
place_of [] i = 0
place_of (c ∷ chunks) zero = 0
place_of (c ∷ chunks) (suc i) = length c + place_of chunks i

place_of_zero : (chunks : List Bytes) → place_of chunks 0 ≡ 0
unfolding place_of
place_of_zero [] = refl
place_of_zero (c ∷ chunks) = refl

place_of-suc :
    (chunks : List Bytes) (i : ℕ)
    → i < length chunks
    → place_of chunks (suc i) ≡ place_of chunks i + length (get_or chunks i [])
unfolding place_of
place_of-suc [] i h = absurd (omega arith)
place_of-suc (c ∷ []) zero h = omega arith
place_of-suc (c ∷ d ∷ chunks) zero h = omega arith
place_of-suc (c ∷ chunks) (suc i) h = omega (arith, place_of-suc chunks i (omega arith))

place_of-length : (chunks : List Bytes) → place_of chunks (length chunks) ≡ length (join chunks)
unfolding place_of
place_of-length [] = refl
place_of-length (c ∷ chunks) = omega (arith, place_of-length chunks, length-append c (join chunks))

-- The chunk stands in the stream at its place.
place_of-IsSlice :
    (chunks : List Bytes) (i : ℕ)
    → i < length chunks
    → IsSlice (join chunks) (place_of chunks i) (get_or chunks i [])
unfolding place_of
place_of-IsSlice [] i h = absurd (omega arith)
place_of-IsSlice (c ∷ chunks) zero h = record {
  before = [];
  after = join chunks;
  whole = refl;
  at = refl;
}
place_of-IsSlice (c ∷ chunks) (suc i) h =
    let rest = place_of-IsSlice chunks i (omega arith) in
    record {
      before = c ++ rest.before;
      after = rest.after;
      whole = ap (λ (t : Bytes). c ++ t) rest.whole ∙ sym (append_assoc c rest.before _);
      at = omega (arith, length-append c rest.before, rest.at);
    }

place_of-lt :
    (chunks : List Bytes) (i j : ℕ)
    → All (λ c. 0 < length c) chunks
    → i < j
    → j ≤ length chunks
    → place_of chunks i < place_of chunks j
unfolding place_of
place_of-lt [] i j a h k = absurd (omega arith)
place_of-lt (c ∷ chunks) i zero a h k = absurd (omega arith)
place_of-lt (c ∷ chunks) zero (suc j) a h k = omega (arith, a.0)
place_of-lt (c ∷ chunks) (suc i) (suc j) a h k =
    omega (arith, place_of-lt chunks i j a.1 (omega arith) (omega arith))

-- The number of chunks received, behind the segment with chunk `i`.
abbrev next : ℕ → ℕ → ℕ
next j i = if i == j then suc j else j

next-accept :
    (chunks : List Bytes) (i j : ℕ)
    → All (λ c. 0 < length c) chunks
    → i < length chunks
    → j ≤ length chunks
    → accept (place_of chunks j) (place_of chunks i) (length (get_or chunks i []))
      ≡ place_of chunks (next j i)
next-accept chunks i j a hi hj = elim (Bool-cases (i == j)) [
  | inl e ↦ ground (arith, e, place_of-suc chunks i hi)
  | inr e ↦ elim (Bool-cases (ltb i j)) [
    | inl f ↦ ground (arith, e, f, place_of-lt chunks i j a)
    | inr f ↦ ground (arith, e, f, place_of-lt chunks j i a)
  ]
]

-- A segment that carries the chunk `i`.
pub record Carries (chunks : List Bytes) (base i : ℕ) (s : Segment) : Type 0 where
  pub index : i < length chunks
  pub seq : s.seq ≡ base + place_of chunks i
  pub payload : s.payload ≡ get_or chunks i []
  pub fin : has_fin s.flags ≡ false

-- What comes in, with its times: from the chunk `j` on every chunk up to the last comes in its
-- turn, and before, between and behind these come any chunks, again or too early.
pub data Sends (chunks : List Bytes) (base : ℕ) : ℕ → List (ℕ × Segment) → Type 0 where
  end : {j : ℕ} → j ≡ length chunks → Sends chunks base j []
  turn :
      {j now : ℕ} {s : Segment} {more : List (ℕ × Segment)}
      → Carries chunks base j s
      → Sends chunks base (suc j) more
      → Sends chunks base j ((now, s) ∷ more)
  again :
      {j now : ℕ} {s : Segment} {more : List (ℕ × Segment)} (i : ℕ)
      → Carries chunks base i s
      → Sends chunks base j more
      → Sends chunks base j ((now, s) ∷ more)

-- `handle_tcp_packet_` on one segment after the other of one connection.
unfoldable pub handle_each : List (ℕ × Segment) → Work → Work
handle_each [] w = w
handle_each ((now, s) ∷ more) w = handle_each more (handle_known now s w).0

module _ (socket : Option Handler) (chunks : List Bytes) (base : ℕ) where
  handle_known-carried :
      (i j now : ℕ) (s : Segment) (w : Work)
      → base + length (join chunks) < 2 ^ 32
      → HasPatient socket
      → All (λ c. 0 < length c) chunks
      → j ≤ length chunks
      → IsAt socket (join chunks) base (place_of chunks j) w
      → Carries chunks base i s
      → IsAt socket (join chunks) base (place_of chunks (next j i)) (handle_known now s w).0
  handle_known-carried i j now s w b p a hj h c =
      let slice =
        subst (IsSlice (join chunks) (place_of chunks i)) (sym c.payload)
          (place_of-IsSlice chunks i c.index) in
      let of : IsOf (join chunks) base (place_of chunks i) s = record {
        seq = c.seq;
        slice = slice;
        fin = c.fin;
      } in
      let size : length s.payload ≡ length (get_or chunks i []) = ap length c.payload in
      let at =
        handle_known-IsAt socket (join chunks) base (place_of chunks j) (place_of chunks i) now s w
          b p h of in
      let equal =
        ap (accept (place_of chunks j) (place_of chunks i)) size
        ∙ next-accept chunks i j a c.index hj in
      subst (λ (m : ℕ). IsAt socket (join chunks) base m (handle_known now s w).0) equal at

  handle_each-IsAt :
      (j k : ℕ) (more : List (ℕ × Segment)) (w : Work)
      → base + length (join chunks) < 2 ^ 32
      → HasPatient socket
      → All (λ c. 0 < length c) chunks
      → j ≤ k
      → k ≤ length chunks
      → IsAt socket (join chunks) base (place_of chunks k) w
      → Sends chunks base j more
      → IsAt socket (join chunks) base (length (join chunks)) (handle_each more w)
  unfolding handle_each
  handle_each-IsAt j k [] w b p a l hk h (Sends.end e) =
      let last : k ≡ length chunks = omega (arith, e) in
      subst (λ (m : ℕ). IsAt socket (join chunks) base m w)
        (ap (place_of chunks) last ∙ place_of-length chunks) h
  handle_each-IsAt j k ((now, s) ∷ more) w b p a l hk h (Sends.turn c rest) =
      handle_each-IsAt (suc j) (next k j) more (handle_known now s w).0 b p a (ground (arith))
        (ground (arith, c.index)) (handle_known-carried j k now s w b p a hk h c) rest
  handle_each-IsAt j k ((now, s) ∷ more) w b p a l hk h (Sends.again i c rest) =
      handle_each-IsAt j (next k i) more (handle_known now s w).0 b p a (ground (arith))
        (ground (arith, c.index)) (handle_known-carried i k now s w b p a hk h c) rest

-- If the peer cuts its stream into chunks and every chunk gets through in its turn, with any
-- number of repeated and early segments before, between and behind, the whole stream is received in the
-- end: what the handler has consumed and what is in the buffer are together exactly the stream.
-- (The connection is established and has received nothing; the stream does not reach the
-- wrap-around of the sequence numbers, no segment has a FIN, and the handler does not close
-- the connection.)
pub handle_each-delivers :
    (socket : Option Handler) (chunks : List Bytes) (base : ℕ) (arriving : List (ℕ × Segment))
    (w : Work)
    → base + length (join chunks) < 2 ^ 32
    → HasPatient socket
    → All (λ c. 0 < length c) chunks
    → IsAt socket (join chunks) base 0 w
    → Sends chunks base 0 arriving
    → received (handle_each arriving w) ≡ join chunks
handle_each-delivers socket chunks base arriving w b p a h s =
    let start =
      subst (λ (m : ℕ). IsAt socket (join chunks) base m w) (sym (place_of_zero chunks)) h in
    let at =
      handle_each-IsAt socket chunks base 0 0 arriving w b p a (omega arith) (omega arith) start
        s in
    at.received ∙ take_length (join chunks)
