-- ===== src/StreamCodec/Varint.antt =====
-- contrib/workflow-streams/src/codec.ts: writeVarint and readVarint.
pub mod RoundTrip
use sdk_typescript.Prelude.{
  ℕ, zero, suc, ◌+◌, ◌*◌, ◌/◌, ◌%◌, Bool, true, false, List, [], ◌∷◌, if◌then◌else◌, ltb, leb,
  nat_beq,
}
use sdk_typescript.Errors.{JsError, type_error, user_error, error_class}
use sdk_typescript.Activator.{Result, ok, throw}

unfoldable pub varint_loop : ℕ → ℕ → List ℕ
varint_loop zero n = n % 128 ∷ []
varint_loop (suc fuel) n =
    let rest = varint_loop fuel (n / 128) in
    if leb 128 n then (n % 128 + 128) ∷ rest else n % 128 ∷ []

-- writeVarint: the bytes that it appends. A round divides the number by 128, so the number itself
-- is fuel enough.
unfoldable pub write_varint : ℕ → List ℕ
unfolding varint_loop
write_varint n = varint_loop n n

-- `weight` is `2 ** shift`; a shift above 35 is refused.
unfoldable pub read_varint_from : ℕ → ℕ → List ℕ → Result (ℕ × List ℕ)
read_varint_from weight result [] = throw (user_error (error_class ∷ []) "unexpected end of varint")
read_varint_from weight result (b ∷ bs) =
    let next = read_varint_from (weight * 128) (result + b % 128 * weight) bs in
    if nat_beq (b / 128 % 2) 0
    then ok (result + b % 128 * weight, bs)
    else if ltb 34359738368 (weight * 128)
    then throw (user_error (error_class ∷ []) "varint too large")
    else next

-- readVarint: the number, and the bytes after it.
unfoldable pub read_varint : List ℕ → Result (ℕ × List ℕ)
unfolding read_varint_from
read_varint = read_varint_from 1 0
