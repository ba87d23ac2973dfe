-- ===== src/Http2/Session/Reading/Buffer.antt =====
-- The receive buffer: how far it can grow, and what happens to a frame that is already in it.
use tailscale_iot.Base.{
  ℕ, zero, suc, ◌+◌, ◌≤◌, ◌≡◌, ◌≢◌, refl, List, [], ◌∷◌, ◌++◌, length, length-append, length-drop,
  Bytes, Option, none, some, true, arith, All, append-nil, Option-cases, inl, inr,
}
use tailscale_iot.Http2.Frame.{Frame, type_data, max_frame_size, append_frame, read_header}
use tailscale_iot.Http2.Frame.Layout.{length-append_frame}
use tailscale_iot.Http2.Session.{
  Session, pull_bytes, pull_until, take_frame, read_payload, clear_oversized, read_frame,
  max_recv_buffer,
}
use tailscale_iot.Http2.Session.Reading.{read_frame-chunks, as_read, after_frame}

abbrev pub ChunkIsShort : ℕ → Option Bytes → Type 0
ChunkIsShort k none = Unit {0}
ChunkIsShort k (some c) = length c ≤ k

-- No chunk is longer than `k`, and the buffer has at most one chunk more than the limit.
pub record IsBounded (k : ℕ) (s : Session) : Type 0 where
  pub chunks : All (ChunkIsShort k) s.incoming
  pub buffer : length s.recv_buffer ≤ max_recv_buffer + k

pull_bytes-IsBounded_at :
    (k : ℕ) (l : List (Option Bytes)) (s : Session)
    → s.incoming ≡ l
    → All (ChunkIsShort k) l
    → length s.recv_buffer ≤ max_recv_buffer + k
    → IsBounded k (pull_bytes s).0
unfolding pull_bytes
pull_bytes-IsBounded_at k [] s e w h = ground (arith)
pull_bytes-IsBounded_at k (none ∷ l) s e w h = ground arith
pull_bytes-IsBounded_at k (some c ∷ l) s e w h = ground (arith, length-append s.recv_buffer c)

pull_bytes-IsBounded : (k : ℕ) (s : Session) → IsBounded k s → IsBounded k (pull_bytes s).0
pull_bytes-IsBounded k s v = pull_bytes-IsBounded_at k s.incoming s refl v.chunks v.buffer

pull_until-IsBounded :
    (k f need : ℕ) (s : Session) → IsBounded k s → IsBounded k (pull_until f need s).0
unfolding pull_until
pull_until-IsBounded k zero need s v = v
pull_until-IsBounded k (suc f) need s v =
    ground (arith, pull_bytes-IsBounded k s v, pull_until-IsBounded k f need (pull_bytes s).0)

take_frame-IsBounded :
    (k : ℕ) (s : Session) (f : Frame) → IsBounded k s → IsBounded k (take_frame s f).0
unfolding take_frame
take_frame-IsBounded k s f v = ground (arith, length-drop (9 + f.length) s.recv_buffer)

read_payload-IsBounded : (k : ℕ) (s : Session) → IsBounded k s → IsBounded k (read_payload s).0
unfolding read_payload
read_payload-IsBounded k s v = elim (Option-cases (read_header s.recv_buffer)) [
  | inl e ↦ ground (arith, e)
  | inr (f, e) ↦ ground (
    arith,
    e,
    pull_until-IsBounded k (suc (length s.incoming)) (9 + f.length) s v,
    take_frame-IsBounded k (pull_until (suc (length s.incoming)) (9 + f.length) s).0 f,
  )
]

clear_oversized-IsBounded : (k : ℕ) (s : Session) → IsBounded k s → IsBounded k (clear_oversized s)
unfolding clear_oversized
clear_oversized-IsBounded k s v = ground arith

-- If the transport delivers at most `k` bytes at a time, the receive buffer never holds more than
-- 40 KB and `k` bytes, whether `read_frame_` succeeds or not.
pub read_frame-IsBounded : (k : ℕ) (s : Session) → IsBounded k s → IsBounded k (read_frame s).0
unfolding read_frame
read_frame-IsBounded k s v =
    let s₁ : Session = (pull_bytes (clear_oversized s)).0 in
    let v₁ = pull_bytes-IsBounded k (clear_oversized s) (clear_oversized-IsBounded k s v) in
    let v₂ = pull_until-IsBounded k (suc (length s₁.incoming)) 9 s₁ v₁ in
    ground
      (arith, v₁, v₂, read_payload-IsBounded k (pull_until (suc (length s₁.incoming)) 9 s₁).0 v₂)

-- No frame is read without new bytes from the transport, whatever the buffer holds.
read_frame_starved : (s : Session) → s.incoming ≡ [] → read_frame s ≡ (clear_oversized s, none)
unfolding read_frame pull_bytes clear_oversized
read_frame_starved s e = ground arith

-- When two frames arrive in one chunk and nothing after them, `read_frame_` returns the first
-- and then fails, though the second lies whole in the buffer. (Both frames have a true length of
-- at most 16384 and are no DATA frames.)
pub read_frame_second_starves :
    (s : Session) (f g : Frame)
    → s.recv_set ≡ true
    → s.recv_buffer ≡ []
    → s.incoming ≡ some (append_frame [] f ++ append_frame [] g) ∷ []
    → f.length ≡ length f.payload
    → g.length ≡ length g.payload
    → f.length ≤ max_frame_size
    → g.length ≤ max_frame_size
    → f.type ≢ type_data
    → g.type ≢ type_data
    → let r = read_frame s in
      (r.1 ≡ some (as_read f)) × (r.0.recv_buffer ≡ append_frame [] g) × ((read_frame r.0).1 ≡ none)
read_frame_second_starves s f g set empty arrives ef eg hf hg df dg = ground (
  arith,
  read_frame-chunks s f (append_frame [] f ++ append_frame [] g) [] (append_frame [] g) [] set empty
      arrives (omega (arith, size)) (omega (arith, size)) (append-nil _) ef hf,
  read_frame_starved (after_frame s f (append_frame [] g) []) refl,
)
  where
    size : 9 + f.length ≤ length (append_frame [] f ++ append_frame [] g)
    size =
        omega (arith, length-append (append_frame [] f) (append_frame [] g), length-append_frame f)
