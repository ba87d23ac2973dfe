-- ===== src/JsonStream/Tests.antt =====
-- Runs of the parser, and the theorems at concrete inputs.
use tailscale_iot.Base.{[], ◌∷◌, false, ◌≡◌, refl, true, [], Bytes, codes, equal, c_str, arith}
use tailscale_iot.JsonStream.{
  initial, put, put_all, keep, string_byte, open_quote, start_capture, colon, close_brace, comma,
  step, feed,
}
use tailscale_iot.JsonStream.Bounds.{Fits, initial-Fits, feed-Fits}
use tailscale_iot.JsonStream.Chunks.{feed_each, feed_each-Node}
use tailscale_iot.Json.{Quoted, Balanced}
use tailscale_iot.JsonStream.Document.{Members, Value, feed-Node}

abbrev small : Bytes
small = codes "{\"A\":[1,\"x\"],\"DERPMap\":{\"R\":{}},\"Node\":{\"ID\":5,\"N\":\"}\\\"\"},\"Z\":1}"

feed-small : (feed 64 initial small).0.output ≡ codes "{\"Node\":{\"ID\":5,\"N\":\"}\\\"\"}}"
unfolding feed step string_byte open_quote colon start_capture close_brace comma keep put put_all
    equal c_str
feed-small = refl

feed-Fits_example : Fits 8 (feed 8 initial small).0
feed-Fits_example = feed-Fits 8 initial small (initial-Fits 8 (omega arith))

abbrev before : Bytes
before = codes "\"DERPMap\":{\"R\":1},"

before-Members : Members before
before-Members =
    Members.member {n = codes "DERPMap"} {v = codes "{\"R\":1}"} {ms = []}
      (record { bytes = omega arith; short = omega arith }) (λ e. cc)
      (Value.nested {b = codes "\"R\":1"}
        (Balanced.string {q = codes "R"} {s = codes ":1"}
          (Quoted.plain (omega arith) (omega arith) Quoted.end)
          (Balanced.other (omega arith) (omega arith) (omega arith) (omega arith)
            (Balanced.other (omega arith) (omega arith) (omega arith) (omega arith) Balanced.end))
          refl)
        refl)
      Members.no_members refl

inside-Balanced : Balanced (codes "\"I\":5")
inside-Balanced =
    Balanced.string {q = codes "I"} {s = codes ":5"}
      (Quoted.plain (omega arith) (omega arith) Quoted.end)
      (Balanced.other (omega arith) (omega arith) (omega arith) (omega arith)
        (Balanced.other (omega arith) (omega arith) (omega arith) (omega arith) Balanced.end))
      refl

feed-Node_example :
    let r = feed 64 initial (codes "{\"DERPMap\":{\"R\":1},\"Node\":{\"I\":5},\"Z\":1}") in
    (r.1 ≡ true) × (r.0.output ≡ codes "{\"Node\":{\"I\":5}}") × (r.0.found_node ≡ true)
feed-Node_example =
    feed-Node {ms = before} 64 (codes ",\"Z\":1}") before-Members inside-Balanced (omega arith)

feed_each-Node_example :
    let r =
      feed_each 64
        (initial, false)
        (codes "{\"DERPMap\":{\"R\":1},\"No" ∷ codes "de\":{\"I\":5},\"Z\":1}" ∷ codes "}" ∷ []) in
    (r.1 ≡ true) × (r.0.output ≡ codes "{\"Node\":{\"I\":5}}") × (r.0.found_node ≡ true)
feed_each-Node_example =
    feed_each-Node {ms = before} 64
      (codes "{\"DERPMap\":{\"R\":1},\"No" ∷ codes "de\":{\"I\":5},\"Z\":1}" ∷ codes "}" ∷ [])
      (codes ",\"Z\":1}}") before-Members inside-Balanced (omega arith) refl
