-- ===== src/JsonStream/Bounds.antt =====
-- `feed` stays within `output` and `field_name_buf_`, the terminating NULs included.
use tailscale_iot.Base.{
  ℕ, zero, suc, ◌<◌, ◌≡◌, true, false, [], ◌∷◌, length, length-append, Bytes, pos, arith,
}
use tailscale_iot.JsonStream.{
  Parser, in_field_name, initial, name_size, put, put_all, keep, string_byte, open_quote,
  start_capture, colon, close_brace, comma, step, feed, node_field,
}

pub put-lt : (cap : ℕ) (out : Bytes) (c : ℕ) → length out < cap → length (put cap out c) < cap
unfolding put
put-lt zero out c h = elim h [ ]
put-lt (suc cap) out c h = ground (arith, length-append out (c ∷ []))

pub put_all-lt : (cap : ℕ) (out cs : Bytes) → length out < cap → length (put_all cap out cs) < cap
unfolding put_all
put_all-lt cap out [] h = h
put_all-lt cap out (c ∷ cs) h = put_all-lt cap (put cap out c) cs (put-lt cap out c h)

-- Both positions leave room for a NUL, and a name is only read inside a string at depth 1.
pub record Fits (cap : ℕ) (p : Parser) : Type 0 where
  pub output_fits : length p.output < cap
  pub name_fits : length p.field_name < name_size
  pub name_quoted : p.state ≡ in_field_name → p.in_string ≡ true
  pub name_top : p.state ≡ in_field_name → p.brace_depth ≡ pos 1

pub initial-Fits : (cap : ℕ) → 0 < cap → Fits cap initial
initial-Fits cap h = record {
  output_fits = h;
  name_fits = omega arith;
  name_quoted = λ e. cc;
  name_top = λ e. cc;
}

module _ (cap : ℕ) (p : Parser) (v : Fits cap p) where
  string_byte-Fits : (c : ℕ) → p.in_string ≡ true → Fits cap (string_byte cap p c)
  unfolding string_byte keep
  string_byte-Fits c s = ground (arith, put-lt cap p.output c, length-append p.field_name (c ∷ []))

  open_quote-Fits : p.in_string ≡ false → Fits cap (open_quote cap p)
  unfolding open_quote keep
  open_quote-Fits s = ground (arith, put-lt cap p.output b'"')

  colon-Fits : p.in_string ≡ false → Fits cap (colon cap p)
  unfolding colon keep start_capture
  colon-Fits s = ground (
    arith,
    put-lt cap p.output b':',
    put-lt cap p.output b'{',
    put_all-lt cap (put cap p.output b'{') node_field,
    put_all-lt cap p.output node_field,
  )

  close_brace-Fits : p.in_string ≡ false → Fits cap (close_brace cap p).0
  unfolding close_brace keep
  close_brace-Fits s =
      ground (arith, put-lt cap p.output b'}', put-lt cap (put cap p.output b'}') b'}')

  comma-Fits : p.in_string ≡ false → Fits cap (comma cap p)
  unfolding comma keep
  comma-Fits s = ground (arith, put-lt cap p.output b',')

  -- One byte keeps the parser within its buffers.
  pub step-Fits : (c : ℕ) → Fits cap (step cap p c).0
  unfolding step keep
  step-Fits c = ground (
    arith,
    string_byte-Fits c,
    open_quote-Fits,
    colon-Fits,
    close_brace-Fits,
    comma-Fits,
    put-lt cap p.output c,
  )

-- From a parser within its buffers, any chunk leaves it so: the writes of `feed` are in range for
-- every input, and so is the NUL behind each of the two texts.
pub feed-Fits : (cap : ℕ) (p : Parser) (cs : Bytes) → Fits cap p → Fits cap (feed cap p cs).0
unfolding feed
feed-Fits cap p [] v = v
feed-Fits cap p (c ∷ cs) v = ground (arith, step-Fits cap p v c, feed-Fits cap (step cap p c).0 cs)
