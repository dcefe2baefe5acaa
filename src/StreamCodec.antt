-- ===== src/StreamCodec.antt =====
-- contrib/workflow-streams/src/codec.ts: the bytes and texts that carry the payloads of a stream.
-- A byte is a number below 256 and a character is its UTF-16 code. The `|` of the code joins
-- numbers whose bits are disjoint, so it is a sum here; `&`, `<<` and `>>` are `%`, `*` and `/`.
pub mod Base64
pub mod Varint
pub mod Payload
