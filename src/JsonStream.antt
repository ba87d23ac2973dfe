-- ===== src/JsonStream.antt =====
-- components/tailscale/json_stream_parser.h: `JsonStreamParser`, which copies the "Node" member
-- of a JSON object out of a stream of chunks. `output[0 .. output_pos_)` and
-- `field_name_buf_[0 .. field_name_pos_)` are lists, so the two positions are their lengths.
pub mod Bounds
pub mod Chunks
pub mod Capture
pub mod Document
mod Tests
use tailscale_iot.Base.{
  ℕ, zero, suc, ◌+◌, ◌-◌, ◌^◌, Bool, true, false, ◌&&◌, ◌||◌, List, [], ◌∷◌, ◌++◌, ◌==◌, ltb,
  if◌then◌else◌, length, Bytes, codes, equal, c_str, ℤ, pos, negsuc, inc, dec, ◌==ℤ◌, ltbℤ,
}

pub data State : Type 0 where
  seeking_field in_field_name expect_colon in_value : State

pub record Parser : Type 0 where
  pub state : State
  pub brace_depth : ℤ
  pub output : Bytes
  pub in_string : Bool
  pub escape_next : Bool
  pub capturing : Bool
  pub capture_depth : ℤ
  pub found_node : Bool
  pub field_name : Bytes

abbrev pub is_state : State → State → Bool
is_state seeking_field seeking_field = true
is_state in_field_name in_field_name = true
is_state expect_colon expect_colon = true
is_state in_value in_value = true
is_state _ _ = false

-- `reset()`.
abbrev pub initial : Parser
initial = record {
  state = seeking_field;
  brace_depth = pos 0;
  output = [];
  in_string = false;
  escape_next = false;
  capturing = false;
  capture_depth = negsuc 0;
  found_node = false;
  field_name = [];
}

-- `output_capacity - 1` on a `size_t` of 32 bits.
abbrev pub limit : ℕ → ℕ
limit zero = 2 ^ 32 - 1
limit (suc n) = n

-- `if (output_pos_ < output_capacity - 1) output[output_pos_++] = c;`
unfoldable pub put : ℕ → Bytes → ℕ → Bytes
put cap out c = if ltb (length out) (limit cap) then out ++ c ∷ [] else out

-- The loop that writes `node_field`.
unfoldable pub put_all : ℕ → Bytes → Bytes → Bytes
put_all cap out [] = out
put_all cap out (c ∷ cs) = put_all cap (put cap out c) cs

-- `if (capturing_ && …) output[output_pos_++] = c;`
unfoldable pub keep : ℕ → Parser → ℕ → Parser
keep cap p c = record p { output = if p.capturing then put cap p.output c else p.output }

-- The size of `field_name_buf_`.
abbrev pub name_size : ℕ
name_size = 32

-- The branch `if (in_string_)`.
unfoldable pub string_byte : ℕ → Parser → ℕ → Parser
string_byte cap p c =
    if p.escape_next
    then keep cap (record p { escape_next = false }) c
    else if c == b'\\'
    then keep cap (record p { escape_next = true }) c
    else if c == b'"'
    then keep cap
        (record p {
          in_string = false;
          state =
              if is_state p.state in_field_name && p.brace_depth ==ℤ pos 1
              then expect_colon
              else p.state;
        })
        c
    else keep cap
        (record p {
          field_name =
              if is_state p.state in_field_name && ltb (length p.field_name) (name_size - 1)
              then p.field_name ++ c ∷ []
              else p.field_name;
        })
        c

-- `case '"'`.
unfoldable pub open_quote : ℕ → Parser → Parser
open_quote cap p =
    if is_state p.state seeking_field && p.brace_depth ==ℤ pos 1
    then keep cap (record p { in_string = true; state = in_field_name; field_name = [] }) b'"'
    else keep cap (record p { in_string = true }) b'"'

abbrev pub node_field : Bytes
node_field = codes "\"Node\":"

-- `case ':'` in the state `EXPECT_COLON`, for the member "Node".
unfoldable pub start_capture : ℕ → Parser → Parser
start_capture cap p = record p {
  capturing = true;
  capture_depth = inc p.brace_depth;
  found_node = true;
  output =
      put_all cap (if length p.output == 0 then put cap p.output b'{' else p.output) node_field;
  state = in_value;
}

-- `case ':'`.
unfoldable pub colon : ℕ → Parser → Parser
colon cap p =
    if is_state p.state expect_colon
    then if equal (c_str p.field_name) (codes "Node")
      then start_capture cap p
      else if equal (c_str p.field_name) (codes "DERPMap")
      then keep cap
          (record p { capturing = false; capture_depth = inc p.brace_depth; state = in_value }) b':'
      else keep cap (record p { state = in_value }) b':'
    else keep cap p b':'

-- `case '}'`; the flag is `return true`.
unfoldable pub close_brace : ℕ → Parser → Parser × Bool
close_brace cap p =
    let q : Parser = record p {
      output = if p.capturing then put cap p.output b'}' else p.output;
      brace_depth = dec p.brace_depth;
    } in
    if is_state q.state in_value && ltbℤ q.brace_depth q.capture_depth
    then if q.capturing
      then (record q { output = put cap q.output b'}' }, true)
      else (record q { capturing = false; state = seeking_field; capture_depth = negsuc 0 }, false)
    else (q, false)

-- `case ','`.
unfoldable pub comma : ℕ → Parser → Parser
comma cap p =
    if p.brace_depth ==ℤ pos 1
    then record (keep cap p b',') { state = seeking_field; field_name = [] }
    else keep cap p b','

-- The loop body of `feed`. White space falls under the last case, which treats it alike.
unfoldable pub step : ℕ → Parser → ℕ → Parser × Bool
step cap p c =
    if p.in_string
    then (string_byte cap p c, false)
    else if c == b'"'
    then (open_quote cap p, false)
    else if c == b':'
    then (colon cap p, false)
    else if c == b'{'
    then (keep cap (record p { brace_depth = inc p.brace_depth }) c, false)
    else if c == b'}'
    then close_brace cap p
    else if c == b','
    then (comma cap p, false)
    else (keep cap p c, false)

-- `feed`: the parser after the chunk, and whether the Node member is complete, in which case
-- the rest of the chunk is not read.
unfoldable pub feed : ℕ → Parser → Bytes → Parser × Bool
feed cap p [] = (p, false)
feed cap p (c ∷ cs) =
    let rest = feed cap (step cap p c).0 cs in
    elim (step cap p c).1 [ true ↦ step cap p c | false ↦ rest ]
