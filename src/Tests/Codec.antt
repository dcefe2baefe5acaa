-- ===== src/Tests/Codec.antt =====
-- The codec of contrib/workflow-streams on concrete inputs.
use sdk_typescript.Prelude.{◌≡◌, refl, [], ◌∷◌, ◌++◌, arith}
use sdk_typescript.Activator.{ok}
use sdk_typescript.StreamCodec.Base64.{encode_base64, decode_base64}
use sdk_typescript.StreamCodec.Base64.RoundTrip.{base64_round_trip}
use sdk_typescript.StreamCodec.Varint.{write_varint, read_varint}
use sdk_typescript.StreamCodec.Varint.RoundTrip.{varint_round_trip}
use sdk_typescript.StreamCodec.Payload.{
  Utf8, Payload, encode_payload_proto, decode_payload_proto, encode_payload_wire,
  decode_payload_wire, encode_entry, write_tag_len_bytes,
}
use sdk_typescript.StreamCodec.Payload.RoundTrip.{payload_round_trip}
use sdk_typescript.StreamCodec.Payload.Wire.{wire_round_trip}
use sdk_typescript.JsMap.{get}

base64_round_trip_example :
    decode_base64 (encode_base64 (104 ∷ 105 ∷ 33 ∷ 255 ∷ [])) ≡ ok (104 ∷ 105 ∷ 33 ∷ 255 ∷ [])
base64_round_trip_example =
    base64_round_trip (104 ∷ 105 ∷ 33 ∷ 255 ∷ [])
      (omega arith, (omega arith, (omega arith, (omega arith, tt))))

-- "hi" is "aGk=".
hi_encoded : encode_base64 (104 ∷ 105 ∷ []) ≡ 97 ∷ 71 ∷ 107 ∷ 61 ∷ []
unfolding encode_base64
hi_encoded = refl

varint_round_trip_example : read_varint (write_varint 300 ++ 7 ∷ []) ≡ ok (300, 7 ∷ [])
varint_round_trip_example = varint_round_trip 300 (7 ∷ []) (omega arith)

-- A UTF-8 that knows one text.
abbrev utf8 : Utf8
utf8 = record { encode = λ s. 101 ∷ []; decode = λ bs. "e" }

abbrev payload : Payload
payload = record { metadata = ("e", 1 ∷ 2 ∷ []) ∷ []; content = 9 ∷ 8 ∷ [] }

payload_round_trip_example :
    decode_payload_proto utf8 (encode_payload_proto utf8 payload) ≡ ok payload
unfolding encode_entry write_tag_len_bytes write_varint get
payload_round_trip_example =
    payload_round_trip utf8 payload
      (((refl, omega arith, omega arith, omega arith), tt), (refl, tt), omega arith)

wire_round_trip_example : decode_payload_wire utf8 (encode_payload_wire utf8 payload) ≡ ok payload
unfolding encode_entry write_tag_len_bytes write_varint get
wire_round_trip_example =
    wire_round_trip utf8 (λ s. (omega arith, tt)) payload
      (((refl, omega arith, omega arith, omega arith), tt), (refl, tt), omega arith)
      ((omega arith, (omega arith, tt)), tt) (omega arith, (omega arith, tt))
