-- ===== src/StreamCodec/Payload/Fields.antt =====
-- A length-delimited field is read back, whatever follows it.
use sdk_typescript.Prelude.{
  ℕ, ◌<◌, ◌≡◌, refl, ap, ◌∙◌, List, [], ◌++◌, length, take-append, drop-append, append_assoc,
  append-nil, sym,
}
use sdk_typescript.Activator.{ok}
use sdk_typescript.StreamCodec.Varint.{write_varint}
use sdk_typescript.StreamCodec.Varint.RoundTrip.{varint_round_trip}
use sdk_typescript.StreamCodec.Payload.{read_bytes, taken_bytes}

-- The lengths that a varint can carry.
abbrev pub IsShort : List ℕ → Type 0
IsShort bs = length bs < 4398046511104

pub read_bytes-write :
    (bs rest : List ℕ)
    → IsShort bs
    → read_bytes ((write_varint (length bs) ++ bs) ++ rest) ≡ ok (bs, rest)
unfolding read_bytes taken_bytes
read_bytes-write bs rest h =
    rw
      (
        append_assoc (write_varint (length bs)) bs rest,
        varint_round_trip (length bs) (bs ++ rest) h,
        take-append bs rest,
        drop-append bs rest,
      )
      refl

-- The same at the end of the bytes.
pub read_bytes-write_last :
    (bs : List ℕ) → IsShort bs → read_bytes (write_varint (length bs) ++ bs) ≡ ok (bs, [])
read_bytes-write_last bs h =
    ap read_bytes (sym (append-nil (write_varint (length bs) ++ bs))) ∙ read_bytes-write bs [] h
