-- ===== src/Stun/Tests.antt =====
-- Runs of the definitions, and the theorems at concrete packets.
use tailscale_iot.Base.{◌≡◌, refl, [], ◌∷◌, ◌++◌, Bytes, true, false, arith}
use tailscale_iot.Stun.{Endpoint, ignores, answers, discovers, handle_stun_packet, xor_mapped}
use tailscale_iot.Stun.Reading.{
  Attribute, IsOther, IsSized, encode_attribute, encode_attributes, xor_mapped_address,
  handle_stun_packet-encode_attributes,
}
use tailscale_iot.Stun.Answer.{
  request, response, misread, handle_stun_packet-answers, handle_stun_packet_overrun,
}

abbrev peer : Endpoint
peer = record { a = 192; b = 168; c = 1; d = 20; port_high = 0xA0; port_low = 0x41 }

abbrev server : Endpoint
server = record { a = 3; b = 4; c = 5; d = 6; port_high = 0x0D; port_low = 0x96 }

abbrev transaction : Bytes
transaction = 1 ∷ 2 ∷ 3 ∷ 4 ∷ 5 ∷ 6 ∷ 7 ∷ 8 ∷ 9 ∷ 10 ∷ 11 ∷ 12 ∷ []

abbrev header : Bytes
header = 0x01 ∷ 0x01 ∷ 0 ∷ 24 ∷ 0x21 ∷ 0x12 ∷ 0xA4 ∷ 0x42 ∷ transaction

-- The attribute SOFTWARE, of five bytes.
abbrev software : Attribute
software = record { attr_type = 0x8022; value = 0x74 ∷ 0x61 ∷ 0x69 ∷ 0x6C ∷ 0x73 ∷ [] }

short_packet : handle_stun_packet true peer (0x00 ∷ 0x01 ∷ []) [] ≡ ignores
unfolding handle_stun_packet
short_packet = refl

other_type :
    handle_stun_packet true peer (0x01 ∷ 0x11 ∷ 0 ∷ 0 ∷ 0x21 ∷ 0x12 ∷ 0xA4 ∷ 0x42 ∷ transaction) []
    ≡ ignores
unfolding handle_stun_packet
other_type = refl

no_socket : handle_stun_packet false peer (request 0 0 transaction []) [] ≡ ignores
unfolding handle_stun_packet
no_socket = refl

abbrev misread_peer : Endpoint
misread_peer = record { a = 119; b = 183; c = 30; d = 163; port_high = 0xA0; port_low = 0x41 }

misread_address : misread peer ≡ misread_peer
misread_address = refl

software-IsOther : IsOther software
software-IsOther = record {
  small = omega arith;
  short = omega arith;
  not_mapped = λ e. omega (arith, e);
  not_xor_mapped = λ e. omega (arith, e);
}

peer-IsSized : IsSized peer
peer-IsSized = record {
  a = omega arith;
  b = omega arith;
  c = omega arith;
  d = omega arith;
  port_high = omega arith;
  port_low = omega arith;
}

handle_stun_packet-encode_attributes_example :
    handle_stun_packet true server
      (header
        ++ (encode_attributes (software ∷ [])
            ++ (encode_attribute (xor_mapped_address peer) ++ [])))
      (7 ∷ [])
    ≡ discovers peer
handle_stun_packet-encode_attributes_example =
    handle_stun_packet-encode_attributes true server peer header [] (7 ∷ []) (software ∷ []) refl
      refl (software-IsOther, tt) peer-IsSized

handle_stun_packet-answers_example :
    (handle_stun_packet true peer (request 0 0 transaction []) []
      ≡ answers (response peer transaction))
    × (handle_stun_packet true server (response peer transaction) (7 ∷ [])
        ≡ discovers (misread peer))
handle_stun_packet-answers_example =
    handle_stun_packet-answers true peer server 0 0 transaction [] [] (7 ∷ []) refl (omega arith)
      (omega arith)

-- What an earlier, longer packet left in the buffer.
abbrev left_over : Bytes
left_over = 0 ∷ 1 ∷ 0x81 ∷ 0x53 ∷ 0xE1 ∷ 0xBA ∷ 0xA5 ∷ 0x56 ∷ []

handle_stun_packet_overrun_example :
    handle_stun_packet true server (header ++ 0x00 ∷ 0x20 ∷ 0 ∷ 8 ∷ []) left_over
    ≡ discovers (xor_mapped (0x00 ∷ 0x20 ∷ 0 ∷ 8 ∷ left_over))
handle_stun_packet_overrun_example =
    handle_stun_packet_overrun true server header left_over 0 8 refl refl (omega arith) refl
