-- ===== src/Transport/Streams.antt =====
-- The numbers of the HTTP/2 streams.
use tailscale_iot.Base.{
  ◌∷◌, Bytes, subst, ℕ, ◌+◌, ◌*◌, ◌%◌, ◌^◌, ◌<◌, ◌≡◌, ◌≢◌, refl, List, [], ◌∷◌, arith,
  if◌then◌else◌, length, Option, none, some, Option-cases, inl, inr,
}
use tailscale_iot.Upgrade.{Upgrade}
use tailscale_iot.Http2.Session.{Session, process_control_frames}
use tailscale_iot.Http2.Session.Post.{Request, Reply, request_bytes, post_json}
use tailscale_iot.Http2.Session.Post.Log.{
  Grows, same, Grows-trans, post_json-Grows, process_control_frames-Grows,
}
use tailscale_iot.Http2.Session.Post.Loop.{post_json-total}
use tailscale_iot.Transport.{Transport}
use tailscale_iot.Transport.Requests.{http2_post_json}

module _ {H C : Type 0} where
  -- One request after the other, whatever their results.
  unfoldable pub post_each : List (ℕ × Request) → Transport H C → Option (Transport H C)
  post_each [] t = some t
  post_each ((status, r) ∷ more) t = elim (http2_post_json status r t) [
    | none ↦ none
    | some (t₁, _) ↦ post_each more t₁
  ]

-- The log of what was sent, newest first, in which the requests stand with the numbers `n`,
-- `n + 2` ..., each of them somewhere behind the one before.
pub data Logged : ℕ → List (ℕ × Request) → List Bytes → List Bytes → Type 0 where
  end : {n : ℕ} {old new : List Bytes} → Grows old new → Logged n [] old new
  asked :
      {n status : ℕ} {r : Request} {more : List (ℕ × Request)} {old before new : List Bytes}
      → Grows old before
      → Logged (n + 2) more (request_bytes (record r { stream_id = n }) ∷ before) new
      → Logged n ((status, r) ∷ more) old new

Logged-behind :
    (n : ℕ) (requests : List (ℕ × Request)) (a b c : List Bytes)
    → Grows a b
    → Logged n requests b c
    → Logged n requests a c
Logged-behind n _ a b c g (Logged.end h) = Logged.end (Grows-trans a b c g h)
Logged-behind n _ a b c g (Logged.asked {before} h rest) =
    Logged.asked (Grows-trans a b before g h) rest

-- The number of the last request that leaves its stream open, where the first has the number `n`.
abbrev pub last_open : ℕ → List (ℕ × Request) → ℕ → ℕ
last_open n [] before = before
last_open n ((status, r) ∷ more) before =
    last_open (n + 2) more (if r.close_stream then before else n)

module _ {H C : Type 0} where
  -- What a request does to the transport.
  record IsPosted (r : Request) (t : Transport H C) (s : Session) (after : Transport H C)
      : Type 0 where
    session_after : Session
    upgrade_after : Upgrade
    open_session : after.http2_session ≡ some session_after
    open_upgrade : after.upgrade ≡ some upgrade_after
    number : after.next_stream_id ≡ (t.next_stream_id + 2) % 2 ^ 32
    persistent :
        after.persistent_stream_id
        ≡ (if r.close_stream then t.persistent_stream_id else t.next_stream_id)
    log :
        Grows
          (request_bytes (record r { stream_id = t.next_stream_id })
            ∷ (process_control_frames s).0.sent)
          session_after.sent

  http2_post_json-IsPosted :
      (status : ℕ) (r : Request) (t after : Transport H C) (reply : Reply) (s : Session)
      (u : Upgrade)
      → t.http2_session ≡ some s
      → t.upgrade ≡ some u
      → http2_post_json status r t ≡ some (after, reply)
      → IsPosted r t s after
  unfolding http2_post_json
  http2_post_json-IsPosted status r t after reply s u e f h =
      let asked = record r { stream_id = t.next_stream_id } in
      let calm = (process_control_frames s).0 in
      elim (Option-cases (post_json calm status asked)) [
        | inl g ↦ absurd (ground (arith, e, f, g, h))
        | inr ((s₁, p), g) ↦ record {
          session_after = s₁;
          upgrade_after = u;
          open_session = ground (arith, e, f, g, h);
          open_upgrade = ground (arith, e, f, g, h);
          number = ground (arith, e, f, g, h);
          persistent = ground (arith, e, f, g, h);
          log = post_json-Grows calm status asked s₁ p g;
        }
      ]

  http2_post_json-total :
      (status : ℕ) (r : Request) (t : Transport H C) → http2_post_json status r t ≢ none
  unfolding http2_post_json
  http2_post_json-total status r t h = elim (Option-cases t.http2_session) [
    | inl e ↦ ground (arith, e, h)
    | inr (s, e) ↦ elim (Option-cases t.upgrade) [
      | inl f ↦ ground (arith, e, f, h)
      | inr (u, f) ↦
          let asked = record r { stream_id = t.next_stream_id } in
          let calm = (process_control_frames s).0 in
          elim (Option-cases (post_json calm status asked)) [
            | inl g ↦ post_json-total calm status asked g
            | inr (p, g) ↦ ground (arith, e, f, g, h)
          ]
    ]
  ]

  -- Any sequence of requests on an open session comes to its end, whatever the server answers and
  -- whatever the send callback says. The bytes of the requests are handed to that callback in their
  -- order, the first with the next number `n` of the transport for its stream, then `n + 2`, `n + 4`
  -- ..., whether the requests succeed or not, as far as the numbers fit 32 bits. Behind them
  -- the next number is `n + 2 k`, and the persistent stream is that of the last request that
  -- leaves its stream open, or the one from before if none does.
  pub post_each-numbers :
      (requests : List (ℕ × Request)) (t : Transport H C) (s : Session) (u : Upgrade)
      → t.http2_session ≡ some s
      → t.upgrade ≡ some u
      → t.next_stream_id + 2 * length requests < 2 ^ 32
      → (after : Transport H C) × (last : Session) × (post_each requests t ≡ some after)
        × (after.http2_session ≡ some last)
        × Logged t.next_stream_id requests s.sent last.sent
        × (after.next_stream_id ≡ t.next_stream_id + 2 * length requests)
        × (after.persistent_stream_id ≡ last_open t.next_stream_id requests t.persistent_stream_id)
  unfolding post_each
  post_each-numbers [] t s u e f b = (t, s, refl, e, Logged.end same, omega arith, refl)
  post_each-numbers ((status, r) ∷ more) t s u e f b =
      elim (Option-cases (http2_post_json status r t)) [
        | inl g ↦ absurd (http2_post_json-total status r t g)
        | inr ((t₁, reply), g) ↦
            let p = http2_post_json-IsPosted status r t t₁ reply s u e f g in
            let following : t₁.next_stream_id ≡ t.next_stream_id + 2 = omega (arith, b, p.number) in
            let (after, last, done, open_last, logged, total, kept) =
              post_each-numbers more t₁ p.session_after p.upgrade_after p.open_session
                p.open_upgrade (omega (arith, b, following)) in
            let next = subst (λ n. Logged n more p.session_after.sent last.sent) following logged in
            (
              after,
              last,
              ground (arith, g, done),
              open_last,
              Logged.asked (process_control_frames-Grows s) (
                  Logged-behind (t.next_stream_id + 2) more _ p.session_after.sent last.sent p.log
                    next),
              omega (arith, total, following, b),
              cc (kept, following, p.persistent),
            )
      ]
