-- ===== src/StreamCodec/Payload/RoundTrip.antt =====
-- A payload is read back from its bytes and from its text.
use sdk_typescript.Prelude.{
  ℕ, zero, suc, ◌≤◌, ◌≡◌, refl, ap, String, none, List, [], ◌∷◌, ◌++◌, length, arith, append_assoc,
  append-nil, length-append, string_same, eq_iff, All,
}
use sdk_typescript.JsMap.{JsMap, get, set}
use sdk_typescript.Activator.{ok}
use sdk_typescript.StreamCodec.Varint.{write_varint}
use sdk_typescript.StreamCodec.Payload.{
  Utf8, Payload, write_tag_len_bytes, encode_entry, encode_metadata, encode_content,
  encode_payload_proto, entry_field, decode_entry, payload_field, decode_fields,
  decode_payload_proto,
}
use sdk_typescript.StreamCodec.Payload.Fields.{IsShort, read_bytes-write, read_bytes-write_last}

set-fresh :
    (k : String) (v : List ℕ) (m : JsMap String (List ℕ))
    → get k m ≡ none
    → set k v m ≡ m ++ (k, v) ∷ []
unfolding get set
set-fresh k v [] h = refl
set-fresh k v ((j, w) ∷ m) h = ground (arith, eq_iff j k, set-fresh k v m)

module _ (utf8 : Utf8) where
  -- An entry whose key survives UTF-8 and whose lengths a varint carries.
  abbrev pub IsPlain : String × List ℕ → Type 0
  IsPlain (k, v) =
      (utf8.decode (utf8.encode k) ≡ k)
      × IsShort (utf8.encode k)
      × IsShort v
      × IsShort (encode_entry utf8 (k, v))

  -- The keys of the second map are new to the first, and differ.
  abbrev pub NewKeys : JsMap String (List ℕ) → JsMap String (List ℕ) → Type 0
  NewKeys seen [] = Unit
  NewKeys seen (e ∷ es) = (get e.0 seen ≡ none) × NewKeys (seen ++ e ∷ []) es

  entry_read :
      (fuel : ℕ) (k : String) (v : List ℕ)
      → 2 ≤ fuel
      → IsPlain (k, v)
      → decode_entry utf8 fuel ("", []) (encode_entry utf8 (k, v)) ≡ ok (k, v)
  unfolding decode_entry encode_entry write_tag_len_bytes entry_field
  entry_read zero k v h p = absurd (omega arith)
  entry_read (suc zero) k v h p = absurd (omega arith)
  entry_read (suc (suc fuel)) k v h p =
      rw
        (
          read_bytes-write (utf8.encode k) (18 ∷ write_varint (length v) ++ v) p.1,
          read_bytes-write_last v p.2,
          p.0,
        )
        refl

  two_tags : (k : String) (v : List ℕ) → 2 ≤ length (encode_entry utf8 (k, v))
  unfolding encode_entry write_tag_len_bytes
  two_tags k v = omega (
    arith,
    length-append (write_varint (length (utf8.encode k)) ++ utf8.encode k)
        (18 ∷ write_varint (length v) ++ v),
  )

  content_read :
      (fuel : ℕ) (m : JsMap String (List ℕ)) (c : List ℕ)
      → length (encode_content utf8 c) ≤ fuel
      → IsShort c
      → decode_fields utf8 fuel (record { metadata = m; content = [] }) (encode_content utf8 c)
        ≡ ok (record { metadata = m; content = c })
  unfolding decode_fields encode_content write_tag_len_bytes payload_field
  content_read fuel m [] h s = refl
  content_read zero m (b ∷ bs) h s = absurd (omega arith)
  content_read (suc fuel) m (b ∷ bs) h s = rw (read_bytes-write_last (b ∷ bs) s) refl

  fields_read :
      (fuel : ℕ) (seen m : JsMap String (List ℕ)) (c : List ℕ)
      → length (encode_metadata utf8 m ++ encode_content utf8 c) ≤ fuel
      → All IsPlain m
      → NewKeys seen m
      → IsShort c
      → decode_fields utf8 fuel
          (record { metadata = seen; content = [] })
          (encode_metadata utf8 m ++ encode_content utf8 c)
        ≡ ok (record { metadata = seen ++ m; content = c })
  unfolding decode_fields encode_metadata write_tag_len_bytes payload_field
  fields_read fuel seen [] c h p n s = rw (append-nil seen) (content_read fuel seen c h s)
  fields_read zero seen ((k, v) ∷ m) c h p n s = absurd (omega arith)
  fields_read (suc fuel) seen ((k, v) ∷ m) c h p n s =
      rw
        (
          append_assoc
              (write_varint (length (encode_entry utf8 (k, v))) ++ encode_entry utf8 (k, v))
              (encode_metadata utf8 m) (encode_content utf8 c),
          read_bytes-write (encode_entry utf8 (k, v))
              (encode_metadata utf8 m ++ encode_content utf8 c) p.0.3,
          entry_read (length (encode_entry utf8 (k, v))) k v (two_tags k v) p.0,
          set-fresh k v seen n.0,
          ← append_assoc seen ((k, v) ∷ []) m,
        )
        (fields_read fuel (seen ++ (k, v) ∷ []) m c
          (omega (
            arith,
            h,
            ap length (append_assoc head (encode_metadata utf8 m) (encode_content utf8 c)),
            length-append head (encode_metadata utf8 m ++ encode_content utf8 c),
          ))
          p.1 n.1 s)
    where
      head : List ℕ
      head = write_varint (length (encode_entry utf8 (k, v))) ++ encode_entry utf8 (k, v)

  -- The keys of the metadata differ and survive UTF-8, and the lengths fit a varint.
  abbrev pub IsEncodable : Payload → Type 0
  IsEncodable p = All IsPlain p.metadata × NewKeys [] p.metadata × IsShort p.content

  -- Decoding the bytes of a payload gives the payload, its metadata in order, if its keys differ
  -- and survive UTF-8 and its lengths are below 2 ** 42.
  pub payload_round_trip :
      (p : Payload) → IsEncodable p → decode_payload_proto utf8 (encode_payload_proto utf8 p) ≡ ok p
  unfolding decode_payload_proto encode_payload_proto
  payload_round_trip p h =
      fields_read (length (encode_payload_proto utf8 p)) [] p.metadata p.content (omega arith) h.0
        h.1 h.2
