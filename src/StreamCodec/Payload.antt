-- ===== src/StreamCodec/Payload.antt =====
-- contrib/workflow-streams/src/codec.ts: encodePayloadProto and decodePayloadProto, and the wire
-- form of a payload. UTF-8 is the platform's, so it is a parameter.
pub mod Fields
pub mod RoundTrip
pub mod Wire
use sdk_typescript.Prelude.{
  ℕ, zero, suc, ◌+◌, ◌/◌, ◌%◌, String, Bool, true, false, Option, none, some, List, [], ◌∷◌, ◌++◌,
  if◌then◌else◌, nat_beq, string_same, length, drop, take,
}
use sdk_typescript.JsMap.{JsMap, set}
use sdk_typescript.Errors.{JsError, user_error, error_class}
use sdk_typescript.Activator.{Result, ok, throw}
use sdk_typescript.StreamCodec.Base64.{encode_base64, decode_base64}
use sdk_typescript.StreamCodec.Varint.{write_varint, read_varint}

-- TextEncoder and TextDecoder
pub record Utf8 : Type 0 where
  pub encode : String → List ℕ
  pub decode : List ℕ → String

pub record Payload : Type 0 where
  pub metadata : JsMap String (List ℕ)
  pub content : List ℕ

-- writeTagLenBytes: the bytes that it appends.
unfoldable pub write_tag_len_bytes : ℕ → List ℕ → List ℕ
write_tag_len_bytes tag bytes = tag ∷ write_varint (length bytes) ++ bytes

-- The bytes of a length-delimited field after its tag, and what follows them. A length beyond the
-- end takes what is there.
taken_bytes : Result (ℕ × List ℕ) → Result (List ℕ × List ℕ)
taken_bytes (throw e) = throw e
taken_bytes (ok (n, bs)) = ok (take n bs, drop n bs)

unfoldable pub read_bytes : List ℕ → Result (List ℕ × List ℕ)
unfolding taken_bytes
read_bytes bs = taken_bytes (read_varint bs)

-- A varint field is passed over.
skipped : Result (ℕ × List ℕ) → Result (List ℕ)
skipped (throw e) = throw e
skipped (ok (n, bs)) = ok bs

abbrev pub and_then {ℓ κ} : {A : Type ℓ} {B : Type κ} → Result A → (A → Result B) → Result B
and_then (throw e) f = throw e
and_then (ok x) f = f x

module _ (utf8 : Utf8) where
  unfoldable pub encode_entry : String × List ℕ → List ℕ
  unfolding write_tag_len_bytes
  encode_entry (key, value) =
      write_tag_len_bytes 10 (utf8.encode key) ++ write_tag_len_bytes 18 value

  unfoldable pub encode_metadata : JsMap String (List ℕ) → List ℕ
  unfolding encode_entry write_tag_len_bytes
  encode_metadata [] = []
  encode_metadata (e ∷ es) = write_tag_len_bytes 10 (encode_entry e) ++ encode_metadata es

  unfoldable pub encode_content : List ℕ → List ℕ
  unfolding write_tag_len_bytes
  encode_content [] = []
  encode_content (b ∷ bs) = write_tag_len_bytes 18 (b ∷ bs)

  -- encodePayloadProto
  unfoldable pub encode_payload_proto : Payload → List ℕ
  unfolding encode_metadata encode_content
  encode_payload_proto p = encode_metadata p.metadata ++ encode_content p.content

  entry_field : ℕ → List ℕ → String × List ℕ → String × List ℕ
  entry_field field value (k, v) =
      if nat_beq field 1
      then (utf8.decode value, v)
      else if nat_beq field 2
      then (k, value)
      else (k, v)

  -- The inner loop, over a map entry. Each round reads a tag, so the length of the bytes is fuel
  -- enough.
  unfoldable pub decode_entry : ℕ → String × List ℕ → List ℕ → Result (String × List ℕ)
  unfolding entry_field read_bytes
  decode_entry fuel kv [] = ok kv
  decode_entry zero kv (tag ∷ bs) = ok kv
  decode_entry (suc fuel) kv (tag ∷ bs) =
      let next = decode_entry fuel in
      if nat_beq (tag % 8) 2
      then and_then (read_bytes bs) (λ r. next (entry_field (tag / 8) r.0 kv) r.1)
      else throw (user_error (error_class ∷ []) "unsupported wire type in Payload metadata entry")

  payload_field : ℕ → List ℕ → Payload → Result Payload
  unfolding decode_entry
  payload_field field chunk p =
      if nat_beq field 1
      then and_then (decode_entry (length chunk) ("", []) chunk)
          (λ e. ok (record p { metadata = set e.0 e.1 p.metadata }))
      else if nat_beq field 2
      then ok (record p { content = chunk })
      else ok p

  -- The outer loop.
  unfoldable pub decode_fields : ℕ → Payload → List ℕ → Result Payload
  unfolding payload_field read_bytes skipped
  decode_fields fuel p [] = ok p
  decode_fields zero p (tag ∷ bs) = ok p
  decode_fields (suc fuel) p (tag ∷ bs) =
      let next = decode_fields fuel in
      if nat_beq (tag % 8) 2
      then and_then (read_bytes bs)
          (λ r. and_then (payload_field (tag / 8) r.0 p) (λ q. next q r.1))
      else if nat_beq (tag % 8) 0
      then and_then (skipped (read_varint bs)) (next p)
      else if nat_beq (tag % 8) 1
      then next p (drop 8 bs)
      else if nat_beq (tag % 8) 5
      then next p (drop 4 bs)
      else throw (user_error (error_class ∷ []) "unsupported wire type")

  -- decodePayloadProto
  unfoldable pub decode_payload_proto : List ℕ → Result Payload
  unfolding decode_fields
  decode_payload_proto bs = decode_fields (length bs) (record { metadata = []; content = [] }) bs

  -- encodePayloadWire and decodePayloadWire
  unfoldable pub encode_payload_wire : Payload → List ℕ
  unfolding encode_payload_proto
  encode_payload_wire p = encode_base64 (encode_payload_proto p)

  unfoldable pub decode_payload_wire : List ℕ → Result Payload
  unfolding decode_payload_proto
  decode_payload_wire cs = and_then (decode_base64 cs) decode_payload_proto
