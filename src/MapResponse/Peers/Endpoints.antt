-- ===== src/MapResponse/Peers/Endpoints.antt =====
-- Which endpoint of a peer is chosen.
use tailscale_iot.Base.{
  ℕ, zero, suc, ◌<◌, ◌≡◌, sym, ◌∙◌, ◌≢◌, List, [], ◌∷◌, ◌++◌, Bytes, Bool, true, false, not, ◌&&◌,
  ◌||◌, length, All, arith, Option, none, some, Option-cases, Bool-cases, inl, inr, if◌then◌else◌,
}
use tailscale_iot.MapResponse.Extract.{safe_strncpy, extract_quoted}
use tailscale_iot.MapResponse.Extract.Quoted.{Value, extract_quoted-Value}
use tailscale_iot.MapResponse.Address.{is_private_ipv4}
use tailscale_iot.MapResponse.Peers.{endpoints_loop, is_ipv6, ip_part}

-- The elements of a JSON array of strings from its first quote on, and what follows the array.
abbrev pub string_array : Bytes → List Bytes → Bytes → Bytes
string_array e [] rest = b'"' ∷ (e ++ b'"' ∷ b']' ∷ rest)
string_array e (f ∷ es) rest = b'"' ∷ (e ++ b'"' ∷ b',' ∷ string_array f es rest)

abbrev pub is_local : Bytes → Bool
is_local e = not (is_ipv6 e) && is_private_ipv4 (ip_part e)

abbrev pub is_public : Bytes → Bool
is_public e = not (is_ipv6 e) && not (is_private_ipv4 (ip_part e))

abbrev pub first_of : {A : Type 0} → (A → Bool) → List A → Option A
first_of p [] = none
first_of p (e ∷ es) = if p e then some e else first_of p es

-- The first public endpoint, or else the first private one, or else what there was.
abbrev pub choose : Bool → List Bytes → Bytes → Bytes
choose found es chosen = elim (first_of is_public es) [
  | some e ↦ safe_strncpy 64 e
  | none ↦ elim (first_of is_local es) [
    | some e ↦ if found then chosen else safe_strncpy 64 e
    | none ↦ chosen
  ]
]

choose_next :
    (found : Bool) (e f : Bytes) (es : List Bytes) (chosen : Bytes)
    → is_public e ≡ false
    → choose found (e ∷ f ∷ es) chosen
      ≡ choose
          (found || is_local e)
          (f ∷ es)
          (if is_local e && not found then safe_strncpy 64 e else chosen)
choose_next found e f es chosen h = elim (Option-cases (first_of is_public (f ∷ es))) [
  | inr (p, i) ↦ ground (arith, h, i)
  | inl i ↦ elim (Option-cases (first_of is_local (f ∷ es))) [
    | inl j ↦ ground (arith, h, i, j)
    | inr (p, j) ↦ ground (arith, h, i, j)
  ]
]

endpoints_loop_next :
    (fuel : ℕ) (found : Bool) (text value behind chosen : Bytes)
    → extract_quoted text ≡ some (value, b',' ∷ behind)
    → is_public value ≡ false
    → endpoints_loop (suc fuel) found text chosen
      ≡ endpoints_loop fuel
          (found || is_local value)
          (b',' ∷ behind)
          (if is_local value && not found then safe_strncpy 64 value else chosen)
unfolding endpoints_loop
endpoints_loop_next fuel found text value behind chosen e h = ground (arith, e, h)

endpoints_loop-choose :
    (fuel : ℕ) (found : Bool) (space e : Bytes) (es : List Bytes) (rest chosen : Bytes)
    → length es < fuel
    → All (λ c. c ≢ b'"') space
    → Value e
    → All Value es
    → endpoints_loop fuel found (space ++ string_array e es rest) chosen
      ≡ choose found (e ∷ es) chosen
unfolding endpoints_loop
endpoints_loop-choose zero found space e es rest chosen l s v vs = absurd (omega arith)
endpoints_loop-choose (suc fuel) found space e [] rest chosen l s v vs =
    ground (arith, extract_quoted-Value space e (b']' ∷ rest) s v)
endpoints_loop-choose (suc fuel) found space e (f ∷ es) rest chosen l s v vs =
    let read = extract_quoted-Value space e (b',' ∷ string_array f es rest) s v in
    let best : Bytes = if is_local e && not found then safe_strncpy 64 e else chosen in
    elim (Bool-cases (is_public e)) [
      | inl p ↦ ground (arith, read, p)
      | inr p ↦
          endpoints_loop_next fuel found _ e (string_array f es rest) chosen read p
          ∙ endpoints_loop-choose fuel (found || is_local e) (b',' ∷ []) f es rest best
              (omega arith) (ground arith) vs.0 vs.1
          ∙ sym (choose_next found e f es chosen p)
    ]

-- Of an array of strings without escaped backslashes in them, the loop of the parser chooses the
-- first that its own tests take for a public endpoint, or else the first that they take for a
-- private one, or else what there was; fuel for each element is enough.
pub endpoints_loop-array :
    (fuel : ℕ) (e : Bytes) (es : List Bytes) (rest chosen : Bytes)
    → length es < fuel
    → Value e
    → All Value es
    → endpoints_loop fuel false (string_array e es rest) chosen ≡ choose false (e ∷ es) chosen
endpoints_loop-array fuel e es rest chosen l v vs =
    endpoints_loop-choose fuel false [] e es rest chosen l _ v vs

-- An empty array is not noticed: the key of the field behind it, which passes for a public
-- address, becomes the endpoint.
endpoints_loop_empty :
    (fuel : ℕ) (key rest chosen : Bytes)
    → 0 < fuel
    → Value key
    → is_public key ≡ true
    → endpoints_loop fuel false (b']' ∷ b',' ∷ b'"' ∷ (key ++ b'"' ∷ rest)) chosen
      ≡ safe_strncpy 64 key
unfolding endpoints_loop
endpoints_loop_empty zero key rest chosen l v p = absurd (omega arith)
endpoints_loop_empty (suc fuel) key rest chosen l v p =
    ground (arith, extract_quoted-Value (b']' ∷ b',' ∷ []) key rest (ground arith) v)
