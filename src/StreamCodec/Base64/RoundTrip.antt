-- ===== src/StreamCodec/Base64/RoundTrip.antt =====
-- Base64 text decodes to the bytes that it was made from.
use sdk_typescript.Prelude.{
  ℕ, ◌+◌, ◌-◌, ◌*◌, ◌/◌, ◌%◌, ◌<◌, ◌≤◌, ◌≡◌, refl, false, some, List, [], ◌∷◌, ltb, nat_beq, length,
  All, arith,
}
use sdk_typescript.Activator.{ok}
use sdk_typescript.StreamCodec.Base64.{
  b64, index_of, padding, encode_base64, clean, keep_unless_padding, decode_groups, decode_base64,
}

index_of-b64 : (n : ℕ) → n < 64 → index_of (b64 n) ≡ some n
unfolding index_of b64
index_of-b64 n h = ground arith

b64-not_padding : (n : ℕ) → nat_beq (b64 n) padding ≡ false
unfolding b64
b64-not_padding n = ground arith

-- The text without its padding.
body : List ℕ → List ℕ
body [] = []
body (b0 ∷ []) = b64 (b0 / 4 % 64) ∷ b64 (b0 * 16 % 64) ∷ []
body (b0 ∷ b1 ∷ []) = b64 (b0 / 4 % 64) ∷ b64 ((b0 * 16 + b1 / 16) % 64) ∷ b64 (b1 * 4 % 64) ∷ []
body (b0 ∷ b1 ∷ b2 ∷ bs) =
    b64 (b0 / 4 % 64)
    ∷ b64 ((b0 * 16 + b1 / 16) % 64)
    ∷ b64 ((b1 * 4 + b2 / 64) % 64)
    ∷ b64 (b2 % 64)
    ∷ body bs

keep-b64 : (n : ℕ) (cs : List ℕ) → keep_unless_padding (b64 n) cs ≡ b64 n ∷ cs
unfolding keep_unless_padding
keep-b64 n [] = rw (b64-not_padding n) refl
keep-b64 n (c ∷ cs) = refl

clean-encode : (bs : List ℕ) → clean (encode_base64 bs) ≡ body bs
unfolding clean encode_base64 body
clean-encode [] = refl
clean-encode (b0 ∷ []) = simp keep-b64
clean-encode (b0 ∷ b1 ∷ []) = simp keep-b64
clean-encode (b0 ∷ b1 ∷ b2 ∷ bs) = simp (keep-b64, clean-encode bs)

-- At most two characters of padding.
length-encode : (bs : List ℕ) → length (encode_base64 bs) ≤ length (body bs) + 2
unfolding encode_base64 body
length-encode [] = omega arith
length-encode (b0 ∷ []) = omega arith
length-encode (b0 ∷ b1 ∷ []) = omega arith
length-encode (b0 ∷ b1 ∷ b2 ∷ bs) = omega (arith, length-encode bs)

length-body : (bs : List ℕ) → nat_beq (length (body bs) % 4) 1 ≡ false
unfolding body
length-body [] = refl
length-body (b0 ∷ []) = refl
length-body (b0 ∷ b1 ∷ []) = refl
length-body (b0 ∷ b1 ∷ b2 ∷ bs) = ground (arith, length-body bs)

-- The arithmetic of a group.
first_byte : (b0 x : ℕ) → b0 < 256 → x < 16 → b0 / 4 % 64 * 4 + (b0 * 16 + x) % 64 / 16 ≡ b0
first_byte b0 x h g = omega arith

second_byte :
    (b0 b1 x : ℕ)
    → b1 < 256
    → x < 4
    → ((b0 * 16 + b1 / 16) % 64 * 16 + (b1 * 4 + x) % 64 / 4) % 256 ≡ b1
second_byte b0 b1 x h g = omega arith

third_byte : (b1 b2 : ℕ) → b2 < 256 → ((b1 * 4 + b2 / 64) % 64 * 64 + b2 % 64) % 256 ≡ b2
third_byte b1 b2 h = omega arith

abbrev pub IsByte : ℕ → Type 0
IsByte b = b < 256

below_64 : (n : ℕ) → n % 64 < 64
below_64 n = omega arith

index_of-digit : (n : ℕ) → index_of (b64 (n % 64)) ≡ some (n % 64)
index_of-digit n = index_of-b64 (n % 64) (below_64 n)

groups-one : (b0 : ℕ) → b0 < 256 → decode_groups (body (b0 ∷ [])) ≡ ok (b0 ∷ [])
unfolding decode_groups body
groups-one b0 h =
    let e0 : b0 / 4 % 64 * 4 + b0 * 16 % 64 / 16 ≡ b0 = omega (arith, h) in
    rw (index_of-digit (b0 / 4), index_of-digit (b0 * 16), e0) refl

groups-two :
    (b0 b1 : ℕ) → b0 < 256 → b1 < 256 → decode_groups (body (b0 ∷ b1 ∷ [])) ≡ ok (b0 ∷ b1 ∷ [])
unfolding decode_groups body
groups-two b0 b1 h0 h1 =
    let e0 : b0 / 4 % 64 * 4 + (b0 * 16 + b1 / 16) % 64 / 16 ≡ b0 =
      first_byte b0 (b1 / 16) h0 (omega (arith, h1)) in
    let e1 : ((b0 * 16 + b1 / 16) % 64 * 16 + b1 * 4 % 64 / 4) % 256 ≡ b1 = omega (arith, h1) in
    rw
      (index_of-digit (b0 / 4), index_of-digit (b0 * 16 + b1 / 16), index_of-digit (b1 * 4), e0, e1)
      refl

groups-body : (bs : List ℕ) → All IsByte bs → decode_groups (body bs) ≡ ok bs
unfolding decode_groups body
groups-body [] h = refl
groups-body (b0 ∷ []) h = groups-one b0 h.0
groups-body (b0 ∷ b1 ∷ []) h = groups-two b0 b1 h.0 h.1.0
groups-body (b0 ∷ b1 ∷ b2 ∷ bs) h =
    let e0 : b0 / 4 % 64 * 4 + (b0 * 16 + b1 / 16) % 64 / 16 ≡ b0 =
      first_byte b0 (b1 / 16) h.0 (omega (arith, h.1.0)) in
    let e1 : ((b0 * 16 + b1 / 16) % 64 * 16 + (b1 * 4 + b2 / 64) % 64 / 4) % 256 ≡ b1 =
      second_byte b0 b1 (b2 / 64) h.1.0 (omega (arith, h.1.1.0)) in
    rw
      (
        index_of-digit (b0 / 4),
        index_of-digit (b0 * 16 + b1 / 16),
        index_of-digit (b1 * 4 + b2 / 64),
        index_of-digit b2,
        groups-body bs h.1.1.1,
        e0,
        e1,
        third_byte b1 b2 h.1.1.0,
      )
      refl

-- Decoding the base64 text of any list of numbers below 256 gives these bytes.
pub base64_round_trip : (bs : List ℕ) → All IsByte bs → decode_base64 (encode_base64 bs) ≡ ok bs
unfolding decode_base64
base64_round_trip bs h = rw (clean-encode bs, short bs, length-body bs) (groups-body bs h)
  where
    short : (bs : List ℕ) → ltb 2 (length (encode_base64 bs) - length (body bs)) ≡ false
    short bs = ground (arith, length-encode bs)
