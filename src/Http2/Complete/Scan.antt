-- ===== src/Http2/Complete/Scan.antt =====
-- The brace count over closed strings and matching braces, and over a text that is cut short.
use tailscale_iot.Base.{
  ℕ, suc, ◌+◌, ◌≡◌, ap, [], ◌∷◌, ◌++◌, length, length-append, append_assoc, append-nil, Bytes,
  Option, none, some, Bool, true, false, not, ◌||◌, ℤ, pos, ◌==ℤ◌, arith,
}
use tailscale_iot.Json.{Quoted, Balanced, end, plain, escape, other, string, object}
use tailscale_iot.Http2.Complete.{scan}

scan-Quoted :
    {q : Bytes} (i : ℕ) (d : ℤ) (rest : Bytes)
    → Quoted q
    → scan i d true false (q ++ b'"' ∷ rest) ≡ scan (i + length q + 1) d false false rest
unfolding scan
scan-Quoted i d rest end = ground arith
scan-Quoted i d rest (plain a b w) = ground (arith, scan-Quoted (i + 1) d rest w)
scan-Quoted i d rest (escape w) = ground (arith, scan-Quoted (i + 1 + 1) d rest w)

-- Inside the outer braces a balanced text only moves the index.
pub scan-Balanced :
    {s : Bytes} (i d : ℕ) (rest : Bytes)
    → Balanced s
    → scan i (pos (suc d)) false false (s ++ rest)
      ≡ scan (i + length s) (pos (suc d)) false false rest
unfolding scan
scan-Balanced i d rest end = ground arith
scan-Balanced i d rest (other a b c e w) = ground (arith, scan-Balanced (i + 1) d rest w)
scan-Balanced i d rest (string {q} {s} {t} wq w e) = ground (
  arith,
  ap (λ (u : Bytes). u ++ rest) e,
  ap (λ (u : Bytes). length u) e,
  append_assoc q (b'"' ∷ s) rest,
  length-append q (b'"' ∷ s),
  scan-Quoted (i + 1) (pos (suc d)) (s ++ rest) wq,
  scan-Balanced (i + 1 + length q + 1) d rest w,
)
scan-Balanced i d rest (object {b} {s} {t} wb w e) = ground (
  arith,
  ap (λ (u : Bytes). u ++ rest) e,
  ap (λ (u : Bytes). length u) e,
  append_assoc b (b'}' ∷ s) rest,
  length-append b (b'}' ∷ s),
  scan-Balanced (i + 1) (suc d) (b'}' ∷ (s ++ rest)) wb,
  scan-Balanced (i + 1 + length b + 1) d rest w,
)

-- What has come so far of a text inside braces: the cut may be between two parts of it, in a
-- string or behind an opening brace.
pub data Partial : Bytes → Type 0 where
  stop : {s : Bytes} → Balanced s → Partial s
  in_quotes : {s q t : Bytes} → Balanced s → Quoted q → t ≡ s ++ b'"' ∷ q → Partial t
  in_braces : {s u t : Bytes} → Balanced s → Partial u → t ≡ s ++ b'{' ∷ u → Partial t

-- The count is not back at zero, or a string is open.
abbrev pub IsOpen : Option (ℤ × Bool) → Type 0
IsOpen none = ⊥
IsOpen (some (d, in_string)) = (not (d ==ℤ pos 0) || in_string) ≡ true

scan-IsOpen_string : {q : Bytes} (i : ℕ) (d : ℤ) → Quoted q → IsOpen (scan i d true false q)
unfolding scan
scan-IsOpen_string i d end = ground arith
scan-IsOpen_string i d (plain a b w) = ground (arith, scan-IsOpen_string (i + 1) d w)
scan-IsOpen_string i d (escape w) = ground (arith, scan-IsOpen_string (i + 1 + 1) d w)

pub scan-IsOpen : {s : Bytes} (i d : ℕ) → Partial s → IsOpen (scan i (pos (suc d)) false false s)
unfolding scan
scan-IsOpen {s} i d (stop w) = ground (arith, append-nil s, scan-Balanced i d [] w)
scan-IsOpen i d (in_quotes {s} {q} {t} w wq e) = ground (
  arith,
  e,
  scan-Balanced i d (b'"' ∷ q) w,
  scan-IsOpen_string (i + length s + 1) (pos (suc d)) wq,
)
scan-IsOpen i d (in_braces {s} {u} {t} w wu e) =
    ground (arith, e, scan-Balanced i d (b'{' ∷ u) w, scan-IsOpen (i + length s + 1) (suc d) wu)
