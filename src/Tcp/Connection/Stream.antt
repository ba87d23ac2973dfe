-- ===== src/Tcp/Connection/Stream.antt =====
-- What a connection delivers, against an abstract receiver of a byte stream.
use tailscale_iot.Base.{
  ℕ, ◌+◌, ◌%◌, ◌^◌, ◌<◌, ◌≤◌, ◌≡◌, refl, ap, sym, ◌∙◌, subst, [], ◌++◌, Bytes, false, length, take,
  arith, Option, some, if◌then◌else◌, ltb, ◌==◌, some, Option-cases, Bool-cases, inl, inr,
  append_assoc, length-append, take-length_append, take-append_more,
}
use tailscale_iot.Tcp.Packet.{Segment}
use tailscale_iot.Tcp.Connection.{
  established, Handler, Work, send_packet, offer, accept_data, handle_data, handle_ack, handle_fin,
  handle_known, has_fin,
}
use tailscale_iot.Tcp.Connection.Kept.{
  consumed, received, IsKept, IsPatient, send_packet-IsKept, offer-IsKept,
}

-- The abstract receiver: the length of the part of the stream that has been received. Data at
-- exactly that place is taken, and everything else changes nothing.
abbrev pub accept : ℕ → ℕ → ℕ → ℕ
accept m place n = if place == m then m + n else m

-- The bytes stand in the stream at the place.
pub record IsSlice (stream : Bytes) (place : ℕ) (bytes : Bytes) : Type 0 where
  pub before : Bytes
  pub after : Bytes
  pub whole : stream ≡ before ++ (bytes ++ after)
  pub at : length before ≡ place

-- The connection has received the first `m` bytes of the stream, whose first byte has the
-- sequence number `base`.
pub record IsAt (socket : Option Handler) (stream : Bytes) (base m : ℕ) (w : Work) : Type 0 where
  pub handler : w.conn.socket ≡ socket
  pub state : w.conn.state ≡ established
  pub ack : w.conn.ack ≡ base + m
  pub received : received w ≡ take m stream
  pub bound : m ≤ length stream

take-slice :
    (stream : Bytes) (m : ℕ) (bytes : Bytes)
    → IsSlice stream m bytes
    → (take m stream ++ bytes ≡ take (m + length bytes) stream) × (m + length bytes ≤ length stream)
take-slice stream m bytes h =
    let rest = bytes ++ h.after in
    let first : take m stream ≡ h.before = cc (h.whole, h.at, take-length_append h.before rest) in
    let second : take (m + length bytes) stream ≡ h.before ++ take (length bytes) rest =
      (cc (h.whole, h.at, take-append_more h.before rest (length bytes))) in
    (
      cc (first, second, take-length_append bytes h.after),
      omega (
        arith,
        ap length h.whole,
        h.at,
        length-append h.before rest,
        length-append bytes h.after,
      ),
    )

IsKept-IsAt :
    (socket : Option Handler) (stream : Bytes) (base m : ℕ) (v w : Work)
    → IsKept v w
    → IsAt socket stream base m v
    → IsAt socket stream base m w
IsKept-IsAt socket stream base m v w k h = record {
  handler = k.socket ∙ h.handler;
  state = k.state ∙ h.state;
  ack = k.ack ∙ h.ack;
  received = k.received ∙ h.received;
  bound = h.bound;
}

-- The connection with the data in its buffer.
abbrev pub buffered : Segment → Work → Work
buffered s w = record w {
  conn = record w.conn {
    rx_buffer = w.conn.rx_buffer ++ s.payload;
    ack = (s.seq + length s.payload) % 2 ^ 32;
  };
}

buffered-IsAt :
    (socket : Option Handler) (stream : Bytes) (base m : ℕ) (s : Segment) (w : Work)
    → base + length stream < 2 ^ 32
    → IsAt socket stream base m w
    → s.seq ≡ base + m
    → IsSlice stream m s.payload
    → IsAt socket stream base (m + length s.payload) (buffered s w)
buffered-IsAt socket stream base m s w b h e i =
    let (joined, bound) = take-slice stream m s.payload i in
    record {
      handler = h.handler;
      state = h.state;
      ack = omega (arith, e, bound);
      received =
          sym (append_assoc (consumed w.events) w.conn.rx_buffer s.payload)
          ∙ ap (λ (r : Bytes). r ++ s.payload) h.received
          ∙ joined;
      bound = bound;
    }

-- The handler of the connection, if it has one, is patient.
abbrev pub HasPatient : Option Handler → Type 0
HasPatient socket = (h : Handler) → socket ≡ some h → IsPatient h

accept_data-IsKept :
    (s : Segment) (w : Work) → HasPatient w.conn.socket → IsKept (buffered s w) (accept_data s w)
unfolding accept_data
accept_data-IsKept s w p = elim (Option-cases w.conn.socket) [
  | inl e ↦
      subst (IsKept (buffered s w)) {x = send_packet 0x10 [] (buffered s w)} (ground (arith, e))
        (send_packet-IsKept 0x10 [] (buffered s w))
  | inr (h, e) ↦ elim (Bool-cases (ltb 0 (length (w.conn.rx_buffer ++ s.payload)))) [
    | inl f ↦
        subst (IsKept (buffered s w)) {x = offer h (buffered s w)} (ground (arith, e, f))
          (offer-IsKept h (buffered s w) (p h e))
    | inr f ↦
        subst (IsKept (buffered s w)) {x = send_packet 0x10 [] (buffered s w)}
          (ground (arith, e, f)) (send_packet-IsKept 0x10 [] (buffered s w))
  ]
]

-- A segment of the stream whose first byte has the sequence number `base`: data at its place, and
-- no FIN.
pub record IsOf (stream : Bytes) (base place : ℕ) (s : Segment) : Type 0 where
  pub seq : s.seq ≡ base + place
  pub slice : IsSlice stream place s.payload
  pub fin : has_fin s.flags ≡ false

IsAt-equal :
    (socket : Option Handler) (stream : Bytes) (base m n : ℕ) (v w : Work)
    → m ≡ n
    → v ≡ w
    → IsAt socket stream base m v
    → IsAt socket stream base n w
IsAt-equal socket stream base m n v w e f h =
    subst (λ (k : ℕ). IsAt socket stream base k w) e (subst (IsAt socket stream base m) f h)

handle_data-IsAt :
    (socket : Option Handler) (stream : Bytes) (base m place : ℕ) (s : Segment) (w : Work)
    → base + length stream < 2 ^ 32
    → HasPatient socket
    → IsAt socket stream base m w
    → IsOf stream base place s
    → IsAt socket stream base (accept m place (length s.payload)) (handle_data s w).0
unfolding handle_data
handle_data-IsAt socket stream base m place s w b p h o =
    elim (Bool-cases (ltb 0 (length s.payload))) [
      | inr e ↦ IsAt-equal socket stream base m _ w _ (ground (arith, e)) (ground (arith, e)) h
      | inl e ↦ elim (Bool-cases (place == m)) [
        | inl f ↦
            let here : place ≡ m = ground (arith, f) in
            let v = buffered s w in
            let at =
              buffered-IsAt socket stream base m s w b h (omega (arith, here, o.seq))
                (subst (λ (k : ℕ). IsSlice stream k s.payload) here o.slice) in
            IsAt-equal socket stream base (m + length s.payload) _ (accept_data s w) _
              (ground (arith, f)) (ground (arith, e, f, here, h.state, h.ack, o.seq))
              (IsKept-IsAt socket stream base (m + length s.payload) v (accept_data s w)
                (accept_data-IsKept s w (subst HasPatient (sym h.handler) p)) at)
        | inr f ↦ elim (Bool-cases (ltb place m)) [
          | inl g ↦
              IsAt-equal socket stream base m _ (send_packet 0x10 [] w) _ (ground (arith, f))
                (ground (arith, e, f, g, h.state, h.ack, o.seq))
                (IsKept-IsAt socket stream base m w (send_packet 0x10 [] w)
                  (send_packet-IsKept 0x10 [] w) h)
          | inr g ↦
              IsAt-equal socket stream base m _ w _ (ground (arith, f))
                (ground (arith, e, f, g, h.state, h.ack, o.seq)) h
        ]
      ]
    ]

-- The received part of the stream behind a whole segment.
pub handle_known-IsAt :
    (socket : Option Handler) (stream : Bytes) (base m place now : ℕ) (s : Segment) (w : Work)
    → base + length stream < 2 ^ 32
    → HasPatient socket
    → IsAt socket stream base m w
    → IsOf stream base place s
    → IsAt socket stream base (accept m place (length s.payload)) (handle_known now s w).0
unfolding handle_known handle_ack handle_fin
handle_known-IsAt socket stream base m place now s w b p h o =
    let v = record w { conn = record w.conn { last_activity = now } } in
    let at : IsAt socket stream base m v = (record {
      handler = h.handler;
      state = h.state;
      ack = h.ack;
      received = h.received;
      bound = h.bound;
    }) in
    IsAt-equal socket stream base (accept m place (length s.payload)) _ (handle_data s v).0 _ refl
      (ground (arith, h.state, o.fin)) (handle_data-IsAt socket stream base m place s v b p at o)
