-- ===== src/Http2/Complete/Short.antt =====
-- Texts of fewer than 100 bytes.
use tailscale_iot.Base.{
  ℕ, zero, suc, ◌+◌, ◌<◌, ◌≤◌, ◌≡◌, refl, [], ◌∷◌, length, Bytes, Option, none, some, Bool, true,
  false, ℤ, pos, arith, length-drop, drop, not, inc, dec,
}
use tailscale_iot.Http2.Complete.{scan, ends_with_brace, verdict, complete_at, has_complete_json}

-- The loop does not return before the index 1001.
abbrev IsLoopEnd : Option (ℤ × Bool) → Type 0
IsLoopEnd none = ⊥
IsLoopEnd (some r) = Unit {0}

scan-IsLoopEnd :
    (cs : Bytes) (i : ℕ) (d : ℤ) (in_string escaped : Bool)
    → i + length cs ≤ 1000
    → IsLoopEnd (scan i d in_string escaped cs)
unfolding scan
scan-IsLoopEnd [] i d in_string escaped h = tt
scan-IsLoopEnd (c ∷ cs) i d in_string escaped h = ground (
  arith,
  scan-IsLoopEnd cs (i + 1) d in_string false,
  scan-IsLoopEnd cs (i + 1) d in_string true,
  scan-IsLoopEnd cs (i + 1) d (not in_string) false,
  scan-IsLoopEnd cs (i + 1) (inc d) in_string false,
  scan-IsLoopEnd cs (i + 1) (dec d) in_string false,
)

ends_with_brace_short :
    (buffer : Bytes) (start i : ℕ)
    → length buffer < 100
    → i ≤ length buffer
    → ends_with_brace buffer start i ≡ false
unfolding ends_with_brace
ends_with_brace_short buffer start zero h k = refl
ends_with_brace_short buffer start (suc i) h k = ground arith

verdict_short :
    (buffer : Bytes) (start : ℕ) (r : Option (ℤ × Bool))
    → length buffer < 100
    → IsLoopEnd r
    → verdict buffer start r ≡ false
unfolding verdict
verdict_short buffer start none h w = absurd w
verdict_short buffer start (some (d, s)) h w =
    ground (arith, ends_with_brace_short buffer start (length buffer) h)

complete_at_short :
    (buffer : Bytes) (start : ℕ)
    → length buffer < 100
    → start ≤ 4
    → complete_at buffer start ≡ false
unfolding complete_at
complete_at_short buffer start h k = ground (
  arith,
  length-drop start buffer,
  scan-IsLoopEnd (drop start buffer) start (pos 0) false false,
  verdict_short buffer start (scan start (pos 0) false false (drop start buffer)) h,
)

-- No text of fewer than 100 bytes is ever complete, not even a whole object: the last loop
-- compares its index with `buffer_size - 100`, which wraps around.
pub has_complete_json_short :
    (buffer : Bytes) → length buffer < 100 → has_complete_json buffer ≡ false
unfolding has_complete_json
has_complete_json_short buffer h =
    ground (arith, complete_at_short buffer 0 h, complete_at_short buffer 4 h)
