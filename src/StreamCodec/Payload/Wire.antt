-- ===== src/StreamCodec/Payload/Wire.antt =====
-- The text that carries a payload.
use sdk_typescript.Prelude.{
  ℕ, zero, suc, ◌<◌, ◌≡◌, String, ◌/◌, List, [], ◌∷◌, ◌++◌, length, arith, All, inl, inr,
  Bool-cases, leb,
}
use sdk_typescript.JsMap.{JsMap}
use sdk_typescript.Activator.{ok}
use sdk_typescript.StreamCodec.Base64.RoundTrip.{IsByte, base64_round_trip}
use sdk_typescript.StreamCodec.Varint.{write_varint, varint_loop}
use sdk_typescript.StreamCodec.Payload.{
  Utf8, Payload, write_tag_len_bytes, encode_entry, encode_metadata, encode_content,
  encode_payload_proto, encode_payload_wire, decode_payload_wire,
}
use sdk_typescript.StreamCodec.Payload.RoundTrip.{IsEncodable, payload_round_trip}

abbrev pub Bytes : List ℕ → Type 0
Bytes bs = All IsByte bs

joined : (bs cs : List ℕ) → Bytes bs → Bytes cs → Bytes (bs ++ cs)
joined [] cs p q = q
joined (b ∷ bs) cs p q = (p.0, joined bs cs p.1 q)

varint_loop-Bytes : (fuel n : ℕ) → Bytes (varint_loop fuel n)
unfolding varint_loop
varint_loop-Bytes zero n = (omega arith, tt)
varint_loop-Bytes (suc fuel) n = elim (Bool-cases (leb 128 n)) [
  | inl h ↦ rw h (omega arith, varint_loop-Bytes fuel (n / 128))
  | inr h ↦ rw h (omega arith, tt)
]

field-Bytes : (tag : ℕ) (bs : List ℕ) → tag < 256 → Bytes bs → Bytes (write_tag_len_bytes tag bs)
unfolding write_tag_len_bytes write_varint
field-Bytes tag bs h p =
    (h, joined (write_varint (length bs)) bs (varint_loop-Bytes (length bs) (length bs)) p)

module _ (utf8 : Utf8) (encodes : (s : String) → Bytes (utf8.encode s)) where
  metadata-Bytes :
      (m : JsMap String (List ℕ)) → All (λ e. Bytes e.1) m → Bytes (encode_metadata utf8 m)
  unfolding encode_metadata encode_entry
  metadata-Bytes [] h = tt
  metadata-Bytes ((k, v) ∷ m) h =
      joined (write_tag_len_bytes 10 (encode_entry utf8 (k, v))) (encode_metadata utf8 m)
        (field-Bytes 10 (encode_entry utf8 (k, v)) (omega arith) (
          joined (write_tag_len_bytes 10 (utf8.encode k)) (write_tag_len_bytes 18 v)
            (field-Bytes 10 (utf8.encode k) (omega arith) (encodes k))
            (field-Bytes 18 v (omega arith) h.0)))
        (metadata-Bytes m h.1)

  content-Bytes : (c : List ℕ) → Bytes c → Bytes (encode_content utf8 c)
  unfolding encode_content
  content-Bytes [] h = tt
  content-Bytes (b ∷ bs) h = field-Bytes 18 (b ∷ bs) (omega arith) h

  -- If UTF-8 and the payload are made of bytes, decoding the wire text of a payload gives the
  -- payload, under the conditions of its round trip through bytes.
  pub wire_round_trip :
      (p : Payload)
      → IsEncodable utf8 p
      → All (λ e. Bytes e.1) p.metadata
      → Bytes p.content
      → decode_payload_wire utf8 (encode_payload_wire utf8 p) ≡ ok p
  unfolding decode_payload_wire encode_payload_wire encode_payload_proto
  wire_round_trip p h m c =
      rw
        (base64_round_trip (encode_payload_proto utf8 p) (
          joined (encode_metadata utf8 p.metadata) (encode_content utf8 p.content)
            (metadata-Bytes p.metadata m) (content-Bytes p.content c)))
        (payload_round_trip utf8 p h)
