-- ===== src/Derp/Reading.antt =====
-- The socket as a stream of bytes.
use tailscale_iot.Base.{
  ℕ, zero, suc, ◌+◌, ◌-◌, ◌^◌, ◌<◌, ◌≤◌, ◌≡◌, refl, ap, sym, ◌∙◌, List, [], ◌∷◌, ◌++◌, Bytes, Bool,
  true, false, not, subst, All, length, take, drop, get_or, arith, ltb, leb, Bool-cases, inl, inr,
  length-append, drop-append, take-append_more, some,
}
use tailscale_iot.Derp.{
  SockRead, got, ended, again, broken, DerpClient, rest_of, read_header, read_loop, frame_header,
  frame_length,
}

-- The bytes that the reads give.
abbrev pub bytes_of : List SockRead → Bytes
bytes_of [] = []
bytes_of (got c ∷ reads) = c ++ bytes_of reads
bytes_of (ended ∷ reads) = bytes_of reads
bytes_of (again late ∷ reads) = bytes_of reads
bytes_of (broken ∷ reads) = bytes_of reads

-- A read that neither ends the stream nor is too late.
abbrev pub flows : SockRead → Bool
flows (got c) = true
flows ended = false
flows (again late) = not late
flows broken = false

abbrev pub IsFlowing : List SockRead → Type 0
IsFlowing reads = All (λ r. flows r ≡ true) reads

drop_all : (n : ℕ) (c : Bytes) → length c ≤ n → drop n c ≡ []
drop_all zero [] h = refl
drop_all (suc n) [] h = refl
drop_all zero (b ∷ c) h = absurd (omega arith)
drop_all (suc n) (b ∷ c) h = drop_all n c (omega arith)

drop-append_more : (c more : Bytes) (n : ℕ) → drop (length c + n) (c ++ more) ≡ drop n more
drop-append_more [] more n = ap (λ m. drop m more) (omega arith)
drop-append_more (b ∷ c) more n =
    let step : length (b ∷ c) + n ≡ suc (length c + n) = omega arith in
    ap (λ m. drop m (b ∷ (c ++ more))) step ∙ drop-append_more c more n

take-append_first : (n : ℕ) (c more : Bytes) → n ≤ length c → take n (c ++ more) ≡ take n c
take-append_first zero c more h = refl
take-append_first (suc n) [] more h = absurd (omega arith)
take-append_first (suc n) (b ∷ c) more h =
    ap (λ (t : Bytes). b ∷ t) (take-append_first n c more (omega arith))

-- The rest of a chunk is the rest of the stream.
pub bytes_of-rest_of :
    (n : ℕ) (c : Bytes) (reads : List SockRead)
    → n ≤ length c
    → bytes_of (rest_of n c reads) ≡ drop n (c ++ bytes_of reads)
bytes_of-rest_of n c reads h = elim (Bool-cases (ltb n (length c))) [
  | inl e ↦ ground (arith, e, drop-append n c (bytes_of reads))
  | inr e ↦ ground (arith, e, drop-append n c (bytes_of reads), drop_all n c)
]

pub rest_of-IsFlowing :
    (n : ℕ) (c : Bytes) (reads : List SockRead) → IsFlowing reads → IsFlowing (rest_of n c reads)
rest_of-IsFlowing n c reads h = ground (arith, h)

-- While the stream flows, the loop takes just the bytes that it wants.
pub read_loop-stream :
    (n : ℕ) (reads : List SockRead)
    → IsFlowing reads
    → 0 < n
    → n ≤ length (bytes_of reads)
    → ((read_loop n reads).0 ≡ take n (bytes_of reads))
      × ((read_loop n reads).1 ≡ true)
      × (bytes_of (read_loop n reads).2 ≡ drop n (bytes_of reads))
      × IsFlowing (read_loop n reads).2
unfolding read_loop
read_loop-stream n [] f p h = absurd (omega arith)
read_loop-stream n (got c ∷ reads) f p h = elim (Bool-cases (leb n (length c))) [
  | inl e ↦ (
    ground (arith, e, take-append_first n c (bytes_of reads)),
    ground (arith, e),
    ground (arith, e, bytes_of-rest_of n c reads),
    subst IsFlowing {x = rest_of n c reads} (ground (arith, e)) (rest_of-IsFlowing n c reads f.1),
  )
  | inr e ↦
      let rest =
        read_loop-stream (n - length c) reads f.1 (ground (arith, e))
          (ground (arith, e, h, length-append c (bytes_of reads))) in
      let more : n ≡ length c + (n - length c) = ground (arith, e) in
      (
        ground (arith, e, rest.0, more, take-append_more c (bytes_of reads) (n - length c)),
        ground (arith, e, rest.1),
        ground (arith, e, rest.2, more, drop-append_more c (bytes_of reads) (n - length c)),
        subst IsFlowing {x = (read_loop (n - length c) reads).2} (ground (arith, e)) rest.3,
      )
]
read_loop-stream n (ended ∷ reads) f p h = absurd (ground (arith, f.0))
read_loop-stream n (again late ∷ reads) f p h =
    ground (arith, f.0, read_loop-stream n reads f.1 p h)
read_loop-stream n (broken ∷ reads) f p h = absurd (ground (arith, f.0))

-- The number that the header says.
pub frame_length-frame_header :
    (kind n : ℕ) (rest : Bytes) → n < 2 ^ 32 → frame_length (frame_header kind n ++ rest) ≡ n
unfolding frame_header
frame_length-frame_header kind n rest h = omega (arith, h)

frame_header_kind : (kind n : ℕ) (rest : Bytes) → get_or (frame_header kind n ++ rest) 0 0 ≡ kind
unfolding frame_header
frame_header_kind kind n rest = refl

pub drop-frame_header : (kind n : ℕ) (rest : Bytes) → drop 5 (frame_header kind n ++ rest) ≡ rest
unfolding frame_header
drop-frame_header kind n rest = refl

get_or-append : (c more : Bytes) (i : ℕ) → i < length c → get_or (c ++ more) i 0 ≡ get_or c i 0
get_or-append [] more i h = absurd (omega arith)
get_or-append (b ∷ c) more zero h = refl
get_or-append (b ∷ c) more (suc i) h = get_or-append c more i (omega arith)

frame_length-append : (c more : Bytes) → 5 ≤ length c → frame_length (c ++ more) ≡ frame_length c
frame_length-append c more h = omega (
  arith,
  h,
  get_or-append c more 1 (omega arith),
  get_or-append c more 2 (omega arith),
  get_or-append c more 3 (omega arith),
  get_or-append c more 4 (omega arith),
)

-- A header that comes whole in one read, from a stream that begins with it.
pub read_header-stream :
    (kind n : ℕ) (c after : Bytes) (reads : List SockRead) (d : DerpClient)
    → d.reads ≡ got c ∷ reads
    → 5 ≤ length c
    → n < 2 ^ 32
    → c ++ bytes_of reads ≡ frame_header kind n ++ after
    → read_header d ≡ (record d { reads = rest_of 5 c reads }, some (kind, n))
unfolding read_header
read_header-stream kind n c after reads d e h b s =
    let first : get_or c 0 0 ≡ kind =
      (sym (get_or-append c (bytes_of reads) 0 (omega arith))
        ∙ ap (λ (t : Bytes). get_or t 0 0) s
        ∙ frame_header_kind kind n after) in
    let size : frame_length c ≡ n =
      (sym (frame_length-append c (bytes_of reads) h)
        ∙ ap frame_length s
        ∙ frame_length-frame_header kind n after b) in
    ground (arith, e, h, first, size)
