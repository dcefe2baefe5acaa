-- ===== src/StreamCodec/Base64.antt =====
-- contrib/workflow-streams/src/codec.ts: encodeBase64 and decodeBase64.
pub mod RoundTrip
use sdk_typescript.Prelude.{
  ℕ, zero, suc, ◌+◌, ◌-◌, ◌*◌, ◌/◌, ◌%◌, Bool, true, false, ◌&&◌, Option, none, some, List, [], ◌∷◌,
  if◌then◌else◌, ltb, leb, nat_beq, length,
}
use sdk_typescript.Errors.{JsError, type_error}
use sdk_typescript.Activator.{Result, ok, throw}

-- `B64[n]`: the letters, the digits, `+` and `/`.
unfoldable pub b64 : ℕ → ℕ
b64 n =
    if ltb n 26
    then 65 + n
    else if ltb n 52
    then 71 + n
    else if ltb n 62
    then n - 4
    else if nat_beq n 62
    then 43
    else 47

-- `B64.indexOf(c)`
unfoldable pub index_of : ℕ → Option ℕ
index_of c =
    if leb 65 c && leb c 90
    then some (c - 65)
    else if leb 97 c && leb c 122
    then some (c - 71)
    else if leb 48 c && leb c 57
    then some (c + 4)
    else if nat_beq c 43
    then some 62
    else if nat_beq c 47
    then some 63
    else none

-- `=`
abbrev pub padding : ℕ
padding = 61

-- encodeBase64
unfoldable pub encode_base64 : List ℕ → List ℕ
unfolding b64
encode_base64 [] = []
encode_base64 (b0 ∷ []) = b64 (b0 / 4 % 64) ∷ b64 (b0 * 16 % 64) ∷ padding ∷ padding ∷ []
encode_base64 (b0 ∷ b1 ∷ []) =
    b64 (b0 / 4 % 64) ∷ b64 ((b0 * 16 + b1 / 16) % 64) ∷ b64 (b1 * 4 % 64) ∷ padding ∷ []
encode_base64 (b0 ∷ b1 ∷ b2 ∷ bs) =
    b64 (b0 / 4 % 64)
    ∷ b64 ((b0 * 16 + b1 / 16) % 64)
    ∷ b64 ((b1 * 4 + b2 / 64) % 64)
    ∷ b64 (b2 % 64)
    ∷ encode_base64 bs

keep_unless_padding : ℕ → List ℕ → List ℕ
keep_unless_padding c [] = if nat_beq c padding then [] else c ∷ []
keep_unless_padding c (d ∷ ds) = c ∷ d ∷ ds

-- `data.replace(/=+$/, '')`
unfoldable pub clean : List ℕ → List ℕ
unfolding keep_unless_padding
clean [] = []
clean (c ∷ cs) = keep_unless_padding c (clean cs)

abbrev bad_character : Result (List ℕ)
bad_character = throw (type_error "Invalid base64 input: non-alphabet character")

-- The bytes of a group of four characters; fewer stand at the end of the text. `len` leaves the
-- last group as many bytes as it has characters, less one.
three_bytes : Option ℕ → Option ℕ → Option ℕ → Option ℕ → Result (List ℕ) → Result (List ℕ)
three_bytes (some a) (some b) (some c) (some d) (ok rest) =
    ok ((a * 4 + b / 16) ∷ ((b * 16 + c / 4) % 256) ∷ ((c * 64 + d) % 256) ∷ rest)
three_bytes (some a) (some b) (some c) (some d) (throw e) = throw e
three_bytes _ _ _ _ rest = bad_character

two_bytes : Option ℕ → Option ℕ → Option ℕ → Result (List ℕ)
two_bytes (some a) (some b) (some c) = ok ((a * 4 + b / 16) ∷ ((b * 16 + c / 4) % 256) ∷ [])
two_bytes _ _ _ = bad_character

one_byte : Option ℕ → Option ℕ → Result (List ℕ)
one_byte (some a) (some b) = ok ((a * 4 + b / 16) ∷ [])
one_byte _ _ = bad_character

-- The loop of decodeBase64; a last group of one character was refused before it.
unfoldable pub decode_groups : List ℕ → Result (List ℕ)
unfolding three_bytes two_bytes one_byte index_of
decode_groups [] = ok []
decode_groups (x ∷ []) = elim (index_of x) [ none ↦ bad_character | some a ↦ ok [] ]
decode_groups (x ∷ y ∷ []) = one_byte (index_of x) (index_of y)
decode_groups (x ∷ y ∷ z ∷ []) = two_bytes (index_of x) (index_of y) (index_of z)
decode_groups (x ∷ y ∷ z ∷ w ∷ cs) =
    three_bytes (index_of x) (index_of y) (index_of z) (index_of w) (decode_groups cs)

-- decodeBase64
unfoldable pub decode_base64 : List ℕ → Result (List ℕ)
unfolding decode_groups clean
decode_base64 cs =
    if ltb 2 (length cs - length (clean cs))
    then throw (type_error "Invalid base64 input: too many '=' padding characters")
    else if nat_beq (length (clean cs) % 4) 1
    then throw (type_error "Invalid base64 input: length is not valid")
    else decode_groups (clean cs)
