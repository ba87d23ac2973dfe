-- ===== src/Http2/Complete/Whole.antt =====
-- Texts of 100 bytes and more: a whole object is recognised, and a part of one is not.
use tailscale_iot.Base.{
  ℕ, suc, ◌+◌, ◌*◌, ◌/◌, ◌%◌, ◌^◌, ◌<◌, ◌≤◌, ◌≡◌, ◌≢◌, refl, [], ◌∷◌, ◌++◌, length, length-append,
  append_assoc, drop-length_append, get_or, Bytes, Option, none, some, Bool, true, false, ℤ, pos,
  arith, ◌⊎◌,
}
use tailscale_iot.Json.{Balanced, other, object, end}
use tailscale_iot.Http2.Complete.{
  scan, all_whitespace, ends_with_brace, verdict, complete_at, has_complete_json, has_prefix,
}
use tailscale_iot.Http2.Complete.Scan.{scan-Balanced, Partial, stop, IsOpen, scan-IsOpen}

pub get_or-length : (s rest : Bytes) (c d : ℕ) → get_or (s ++ c ∷ rest) (length s) d ≡ c
get_or-length [] rest c d = refl
get_or-length (x ∷ s) rest c d = get_or-length s rest c d

ends_with_brace-brace :
    (s : Bytes) (start : ℕ)
    → start ≤ length s
    → 99 ≤ length s
    → length s + 1 < 2 ^ 32
    → ends_with_brace (s ++ b'}' ∷ []) start (suc (length s)) ≡ true
unfolding ends_with_brace
ends_with_brace-brace s start h k l =
    ground (arith, get_or-length s [] b'}' 0, length-append s (b'}' ∷ []))

abbrev pub object_text : Bytes → Bytes
object_text b = b'{' ∷ b ++ b'}' ∷ []

scan-object_text :
    (i : ℕ) {b : Bytes}
    → Balanced b
    → (scan i (pos 0) false false (object_text b) ≡ none)
      ⊎ (scan i (pos 0) false false (object_text b) ≡ some (pos 0, false))
unfolding scan all_whitespace
scan-object_text i {b} w = ground (arith, scan-Balanced (i + 1) 0 (b'}' ∷ []) w)

complete_at-object_text :
    (pre b : Bytes)
    → Balanced b
    → 100 ≤ length pre + length (object_text b)
    → length pre + length (object_text b) < 2 ^ 32
    → complete_at (pre ++ object_text b) (length pre) ≡ true
unfolding complete_at verdict
complete_at-object_text pre b w h l = ground (
  arith,
  get_or-length pre (b ++ b'}' ∷ []) b'{' 0,
  drop-length_append pre (object_text b),
  scan-object_text (length pre) w,
  append_assoc pre (b'{' ∷ b) (b'}' ∷ []),
  length-append pre (b'{' ∷ b),
  length-append b (b'}' ∷ []),
  length-append (pre ++ b'{' ∷ b) (b'}' ∷ []),
  ends_with_brace-brace (pre ++ b'{' ∷ b) (length pre),
)

has_prefix_brace : (t : Bytes) → has_prefix (b'{' ∷ t) ≡ false
has_prefix_brace (a ∷ b ∷ c ∷ d ∷ t) = refl
has_prefix_brace (a ∷ b ∷ c ∷ []) = refl
has_prefix_brace (a ∷ b ∷ []) = refl
has_prefix_brace (a ∷ []) = refl
has_prefix_brace [] = refl

-- A whole object of 100 bytes or more (and less than 2 ^ 32) is recognised as complete, whatever
-- strings and nested objects it holds.
pub has_complete_json-object :
    {b : Bytes}
    → Balanced b
    → 100 ≤ length (object_text b)
    → length (object_text b) < 2 ^ 32
    → has_complete_json (object_text b) ≡ true
unfolding has_complete_json
has_complete_json-object {b} w h l = ground (
  arith,
  has_prefix_brace (b ++ b'}' ∷ []),
  complete_at-object_text [] b w (omega arith) (omega arith),
)

-- `uint32_t`, least significant byte first.
abbrev le32_bytes : ℕ → Bytes
le32_bytes n = (n % 256) ∷ (n / 2 ^ 8 % 256) ∷ (n / 2 ^ 16 % 256) ∷ (n / 2 ^ 24 % 256) ∷ []

-- With the length in front, the object is complete once all of it is there, unless the lowest
-- byte of the length is that of an opening brace.
pub has_complete_json-prefixed :
    {b : Bytes}
    → Balanced b
    → 96 ≤ length (object_text b)
    → length (object_text b) + 4 < 2 ^ 32
    → length (object_text b) % 256 ≢ b'{'
    → has_complete_json (le32_bytes (length (object_text b)) ++ object_text b) ≡ true
unfolding has_complete_json
has_complete_json-prefixed {b} w h l ne =
    ground (arith, complete_at-object_text (le32_bytes (length (object_text b))) b w)

verdict-IsOpen :
    (buffer : Bytes) (start : ℕ) (r : Option (ℤ × Bool)) → IsOpen r → verdict buffer start r ≡ false
unfolding verdict
verdict-IsOpen buffer start none h = absurd h
verdict-IsOpen buffer start (some (d, s)) h = ground arith

scan_brace : (s : Bytes) → scan 0 (pos 0) false false (b'{' ∷ s) ≡ scan 1 (pos 1) false false s
unfolding scan
scan_brace s = refl

-- A response of JSON that begins with its opening brace, with no length in front, and is cut short
-- is not taken for complete: not between two of its parts, nor inside a string (unless just behind
-- a backslash, which is not stated), nor inside a nested object.
pub has_complete_json-Partial : {s : Bytes} → Partial s → has_complete_json (b'{' ∷ s) ≡ false
unfolding has_complete_json complete_at
has_complete_json-Partial {s} w = ground (
  arith,
  has_prefix_brace s,
  scan_brace s,
  verdict-IsOpen (b'{' ∷ s) 0 (scan 1 (pos 1) false false s) (scan-IsOpen 1 0 w),
)

-- The length prefix is not seen if its lowest byte is that of `{`: then a whole message is never
-- complete. (Lengths below 34 * 256, so that no other byte of the prefix is a quote, a brace or a
-- backslash.)
has_complete_json_unseen_prefix :
    {b : Bytes}
    → Balanced b
    → length (object_text b) % 256 ≡ b'{'
    → length (object_text b) < 34 * 256
    → has_complete_json (le32_bytes (length (object_text b)) ++ object_text b) ≡ false
has_complete_json_unseen_prefix {b} w e h =
    let n = length (object_text b) in
    let whole : Balanced (object_text b) = object w end refl in
    rw e (
      has_complete_json-Partial (
        stop (
          other (omega arith) (omega arith) (omega arith) (omega arith) (
            other (omega arith) (omega arith) (omega arith) (omega arith)
              (other (omega arith) (omega arith) (omega arith) (omega arith) whole)))))
