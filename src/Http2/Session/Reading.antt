-- ===== src/Http2/Session/Reading.antt =====
-- What `read_frame_` makes of the chunks that the transport delivers.
pub mod Buffer
use tailscale_iot.Base.{
  ℕ, zero, suc, ◌+◌, ◌-◌, ◌*◌, ◌/◌, ◌%◌, ◌^◌, ◌<◌, ◌≤◌, ◌≡◌, ◌≢◌, refl, sym, ap, ◌∙◌, List, [], ◌∷◌,
  ◌++◌, map, length, take, drop, append_assoc, append-nil, length-append, take-length_append,
  take-append-drop, drop-drop, length-map, drop-length_append, Bytes, Option, none, some, Bool,
  true, false, not, ◌&&◌, ◌||◌, ltb, leb, ◌==◌, if◌then◌else◌, arith, All, inl, inr, Bool-cases,
  Option-cases,
}
use tailscale_iot.Http2.Frame.{Frame, type_data, max_frame_size, append_frame, read_header}
use tailscale_iot.Http2.Frame.Layout.{read_header-append_frame, append_frame-append, header_bytes}
use tailscale_iot.Http2.Session.{
  Session, pull_bytes, pull_until, take_frame, read_payload, clear_oversized, read_frame,
  max_recv_buffer,
}

pull_bytes-incoming :
    (s : Session) → (pull_bytes s).1 ≡ true → length (pull_bytes s).0.incoming < length s.incoming
unfolding pull_bytes
pull_bytes-incoming s h = ground arith

pull_until-fuel :
    (f g need : ℕ) (s : Session)
    → length s.incoming < f
    → length s.incoming < g
    → pull_until f need s ≡ pull_until g need s
unfolding pull_until
pull_until-fuel zero g need s hf hg = absurd (omega arith)
pull_until-fuel (suc f) zero need s hf hg = absurd (omega arith)
pull_until-fuel (suc f) (suc g) need s hf hg =
    ground (arith, pull_bytes-incoming s, pull_until-fuel f g need (pull_bytes s).0)

abbrev then_pull : ℕ → Session × Bool → Session × Bool
then_pull need (s, true) = pull_until (suc (length s.incoming)) need s
then_pull need (s, false) = (s, false)

-- Waiting for a part of the bytes first changes nothing.
pull_until-split :
    (f near far : ℕ) (s : Session)
    → near ≤ far
    → length s.incoming < f
    → pull_until f far s ≡ then_pull far (pull_until f near s)
unfolding pull_until
pull_until-split zero near far s h hf = absurd (omega arith)
pull_until-split (suc f) near far s h hf = elim (Bool-cases (ltb (length s.recv_buffer) near)) [
  | inl e ↦ ground (arith, e, pull_bytes-incoming s, pull_until-split f near far (pull_bytes s).0)
  | inr e ↦
      ground (
        arith,
        e,
        pull_until-fuel f (length s.incoming) far (pull_bytes s).0,
        pull_bytes-incoming s,
      )
]

abbrev pub flat : List Bytes → Bytes
flat [] = []
flat (c ∷ cs) = c ++ flat cs

-- Chunks that are not empty, the last of which reaches `need` bytes and no earlier one does.
abbrev pub Reaches : ℕ → ℕ → List Bytes → Type 0
Reaches have need [] = need ≤ have
Reaches have need (c ∷ cs) = (have < need) × (0 < length c) × Reaches (have + length c) need cs

pull_until-Reaches :
    (cs : List Bytes) (more : List (Option Bytes)) (f need : ℕ) (s : Session)
    → s.recv_set ≡ true
    → s.incoming ≡ map some cs ++ more
    → Reaches (length s.recv_buffer) need cs
    → need ≤ max_recv_buffer
    → length cs < f
    → pull_until f need s
      ≡ (record s { recv_buffer = s.recv_buffer ++ flat cs; incoming = more }, true)
unfolding pull_until pull_bytes
pull_until-Reaches [] more zero need s r i w m h = absurd (omega arith)
pull_until-Reaches [] more (suc f) need s r i w m h = ground (arith, append-nil s.recv_buffer)
pull_until-Reaches (c ∷ cs) more zero need s r i w m h = absurd (omega arith)
pull_until-Reaches (c ∷ cs) more (suc f) need s r i w m h = ground (
  arith,
  length-append s.recv_buffer c,
  append_assoc s.recv_buffer c (flat cs),
  pull_until-Reaches cs more f need
      (record s { recv_buffer = s.recv_buffer ++ c; incoming = map some cs ++ more }) r refl
      (rw (length-append s.recv_buffer c) w.2) m (omega arith),
)

pull_until-enough :
    (f need : ℕ) (s : Session)
    → (pull_until f need s).1 ≡ true
    → need ≤ length (pull_until f need s).0.recv_buffer
unfolding pull_until
pull_until-enough zero need s h = ground arith
pull_until-enough (suc f) need s h = ground (arith, pull_until-enough f need (pull_bytes s).0)

-- The new buffer begins with the old one.
abbrev Extends : Bytes → Bytes → Type 0
Extends old new = take (length old) new ≡ old

Extends-trans : (a b c : Bytes) → Extends a b → Extends b c → Extends a c
Extends-trans [] b c h k = refl
Extends-trans (x ∷ a) [] c h k = cc
Extends-trans (x ∷ a) (y ∷ b) [] h k = cc
Extends-trans (x ∷ a) (y ∷ b) (z ∷ c) h k = ground (arith, Extends-trans a b c)

pull_bytes-Extends_at :
    (l : List (Option Bytes)) (s : Session)
    → s.incoming ≡ l
    → Extends s.recv_buffer (pull_bytes s).0.recv_buffer
unfolding pull_bytes
pull_bytes-Extends_at [] s e =
    ground (arith, append-nil s.recv_buffer, take-length_append s.recv_buffer [])
pull_bytes-Extends_at (none ∷ rest) s e =
    ground (arith, append-nil s.recv_buffer, take-length_append s.recv_buffer [])
pull_bytes-Extends_at (some c ∷ rest) s e = ground (
  arith,
  append-nil s.recv_buffer,
  take-length_append s.recv_buffer [],
  take-length_append s.recv_buffer c,
)

pull_bytes-Extends : (s : Session) → Extends s.recv_buffer (pull_bytes s).0.recv_buffer
pull_bytes-Extends s = pull_bytes-Extends_at s.incoming s refl

pull_until-Extends :
    (f need : ℕ) (s : Session) → Extends s.recv_buffer (pull_until f need s).0.recv_buffer
unfolding pull_until
pull_until-Extends zero need s =
    ground (arith, append-nil s.recv_buffer, take-length_append s.recv_buffer [])
pull_until-Extends (suc f) need s = ground (
  arith,
  append-nil s.recv_buffer,
  take-length_append s.recv_buffer [],
  pull_bytes-Extends s,
  pull_until-Extends f need (pull_bytes s).0,
  Extends-trans s.recv_buffer (pull_bytes s).0.recv_buffer
      (pull_until f need (pull_bytes s).0).0.recv_buffer,
)

read_header-append : (old t : Bytes) → 9 ≤ length old → read_header (old ++ t) ≡ read_header old
unfolding read_header
read_header-append (a ∷ b ∷ c ∷ d ∷ e ∷ f ∷ g ∷ i ∷ j ∷ old) t h = refl
read_header-append _ t h = absurd (omega arith)

read_header-Extends :
    (old new : Bytes) → 9 ≤ length old → Extends old new → read_header old ≡ read_header new
read_header-Extends old new h e =
    ground
      (arith, take-append-drop (length old) new, read_header-append old (drop (length old) new) h)

-- What `read_frame` does once its first wait, for nine bytes, is seen as a part of the second.
read_frame_at :
    (s p q : Session) (f : Frame)
    → pull_bytes (clear_oversized s) ≡ (p, true)
    → read_header q.recv_buffer ≡ some f
    → pull_until (suc (length p.incoming)) (9 + f.length) p ≡ (q, true)
    → f.length ≤ max_frame_size
    → read_frame s ≡ take_frame q f
unfolding read_frame read_payload
read_frame_at s p q f pulled head whole small = ground (
  arith,
  pull_until-split (suc (length p.incoming)) 9 (9 + f.length) p,
  pull_until-enough (suc (length p.incoming)) 9 p,
  pull_until-Extends (suc (length (pull_until (suc (length p.incoming)) 9 p).0.incoming))
      (9 + f.length) (pull_until (suc (length p.incoming)) 9 p).0,
  read_header-Extends (pull_until (suc (length p.incoming)) 9 p).0.recv_buffer q.recv_buffer,
)

-- The frame as the reader has it; `payload` is left in the buffer for a DATA frame.
abbrev pub as_read : Frame → Frame
as_read f = record f {
  stream_id = f.stream_id % 2 ^ 31;
  payload = if f.type == type_data then [] else f.payload;
}

-- The session after a frame, with the bytes behind it.
abbrev pub after_frame : Session → Frame → Bytes → List (Option Bytes) → Session
after_frame s f rest more = record s {
  recv_buffer = if f.type == type_data then append_frame [] f ++ rest else rest;
  incoming = more;
}

drop-append_frame :
    (f : Frame) (rest : Bytes)
    → f.length ≡ length f.payload
    → f.length ≤ max_frame_size
    → drop (9 + f.length) (append_frame [] f ++ rest) ≡ rest
drop-append_frame f rest e small = ground (
  arith,
  drop-drop 9 f.length (append_frame [] f ++ rest),
  read_header-append_frame f rest (omega arith),
  drop-length_append f.payload rest,
)

take_frame-append_frame :
    (s : Session) (f : Frame) (rest : Bytes) (more : List (Option Bytes))
    → f.length ≡ length f.payload
    → f.length ≤ max_frame_size
    → take_frame
        (record s { recv_buffer = append_frame [] f ++ rest; incoming = more })
        (record f { stream_id = f.stream_id % 2 ^ 31; payload = [] })
      ≡ (after_frame s f rest more, some (as_read f))
unfolding take_frame
take_frame-append_frame s f rest more e small = ground (
  arith,
  drop-append_frame f rest e small,
  read_header-append_frame f rest (omega arith),
  take-length_append f.payload rest,
)

pull_bytes-first :
    (s : Session) (c : Bytes) (later : List (Option Bytes))
    → s.recv_set ≡ true
    → s.recv_buffer ≡ []
    → s.incoming ≡ some c ∷ later
    → 0 < length c
    → pull_bytes (clear_oversized s) ≡ (record s { recv_buffer = c; incoming = later }, true)
unfolding pull_bytes clear_oversized
pull_bytes-first s c later set empty arrives first = ground arith

-- However the transport cuts a frame into chunks, none of them empty, `read_frame_` returns that
-- frame, takes exactly the chunks that it needs, and keeps what the last one holds behind the
-- frame. A DATA frame stays in front of the buffer. (The buffer is empty before, and the frame
-- has a true length of at most 16384.)
pub read_frame-chunks :
    (s : Session) (f : Frame) (c : Bytes) (cs : List Bytes) (rest : Bytes)
    (more : List (Option Bytes))
    → s.recv_set ≡ true
    → s.recv_buffer ≡ []
    → s.incoming ≡ map some (c ∷ cs) ++ more
    → 0 < length c
    → Reaches (length c) (9 + f.length) cs
    → flat (c ∷ cs) ≡ append_frame [] f ++ rest
    → f.length ≡ length f.payload
    → f.length ≤ max_frame_size
    → read_frame s ≡ (after_frame s f rest more, some (as_read f))
read_frame-chunks s f c cs rest more set empty arrives first cut whole true_length small =
    read_frame_at s p q (record f { stream_id = f.stream_id % 2 ^ 31; payload = [] })
      (pull_bytes-first s c (map some cs ++ more) set empty arrives first)
      (read_header-append_frame f rest (omega arith)).0
      (rw (← whole) (
        pull_until-Reaches cs more (suc (length (map some cs ++ more))) (9 + f.length) p set refl
          cut (omega arith) (omega (arith, length-append (map some cs) more, length-map cs some))))
      small
    ∙ take_frame-append_frame s f rest more true_length small
  where
    p : Session
    p = record s { recv_buffer = c; incoming = map some cs ++ more }

    q : Session
    q = record s { recv_buffer = append_frame [] f ++ rest; incoming = more }
