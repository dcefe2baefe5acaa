-- ===== src/StreamCodec/Varint/RoundTrip.antt =====
-- A number below 2 ** 42 is read back from its varint, whatever follows it.
use sdk_typescript.Prelude.{
  ℕ, zero, suc, ◌+◌, ◌*◌, ◌/◌, ◌%◌, ◌<◌, ◌≤◌, ◌≡◌, refl, ap, ◌∙◌, inl, inr, true, false, List, ◌∷◌,
  ◌++◌, ltb, leb, nat_beq, arith, Bool-cases,
}
use sdk_typescript.Activator.{ok}
use sdk_typescript.StreamCodec.Varint.{varint_loop, write_varint, read_varint_from, read_varint}

-- 128 ** j
power : ℕ → ℕ
power zero = 1
power (suc j) = 128 * power j

power-positive : (j : ℕ) → 1 ≤ power j
unfolding power
power-positive zero = omega arith
power-positive (suc j) = omega (arith, power-positive j)

le_mul : (w p : ℕ) → 1 ≤ p → w ≤ w * p
le_mul w zero h = absurd (omega arith)
le_mul w (suc p) h = omega arith

-- While bytes are left to write the weight stays readable.
weight_bound :
    (w j n : ℕ) → w * power j ≡ 4398046511104 → n < power j → 128 ≤ n → w * 128 ≤ 34359738368
unfolding power
weight_bound w zero n e h g = absurd (omega arith)
weight_bound w (suc zero) n e h g = absurd (omega arith)
weight_bound w (suc (suc j)) n e h g = omega (arith, e, le_mul w (power j) (power-positive j))

sum_of_digits : (r n w : ℕ) → r + n % 128 * w + n / 128 * (w * 128) ≡ r + n * w
sum_of_digits r n w =
    let e : n ≡ n % 128 + n / 128 * 128 = omega arith in
    let f : n * w ≡ (n % 128 + n / 128 * 128) * w = ap (λ m. m * w) e in omega (arith, f)

last_byte :
    (w r n : ℕ) (rest : List ℕ)
    → n < 128
    → read_varint_from w r (n % 128 ∷ rest) ≡ ok (r + n * w, rest)
unfolding read_varint_from
last_byte w r n rest h =
    let e : n % 128 % 128 ≡ n = omega (arith, h) in
    let top : nat_beq (n % 128 / 128 % 2) 0 ≡ true = ground arith in rw (top, e) refl

further_byte :
    (w r n : ℕ) (bs : List ℕ)
    → w * 128 ≤ 34359738368
    → read_varint_from w r ((n % 128 + 128) ∷ bs) ≡ read_varint_from (w * 128) (r + n % 128 * w) bs
unfolding read_varint_from
further_byte w r n bs h =
    let e : (n % 128 + 128) % 128 ≡ n % 128 = omega arith in
    let top : nat_beq ((n % 128 + 128) / 128 % 2) 0 ≡ false = ground arith in
    let small : ltb 34359738368 (w * 128) ≡ false = ground arith in rw (top, small, e) refl

read-varint_loop :
    (fuel j w r n : ℕ) (rest : List ℕ)
    → n ≤ fuel
    → n < power j
    → w * power j ≡ 4398046511104
    → read_varint_from w r (varint_loop fuel n ++ rest) ≡ ok (r + n * w, rest)
unfolding read_varint_from varint_loop power
read-varint_loop zero j w r n rest a b c = last_byte w r n rest (omega arith)
read-varint_loop (suc fuel) zero w r n rest a b c =
    let h : leb 128 n ≡ false = ground arith in rw h (last_byte w r n rest (omega arith))
read-varint_loop (suc fuel) (suc j) w r n rest a b c = elim (Bool-cases (leb 128 n)) [
  | inl h ↦
      let g : 128 ≤ n = ground arith in
      let small = weight_bound w (suc j) n c b g in
      rw (h, further_byte w r n (varint_loop fuel (n / 128) ++ rest) small)
        (read-varint_loop fuel j (w * 128) (r + n % 128 * w) (n / 128) rest (omega arith)
            (omega (arith, b)) (omega (arith, c))
          ∙ ap (λ m. ok (m, rest)) (sum_of_digits r n w))
  | inr h ↦ rw h (last_byte w r n rest (ground arith))
]

-- A number below 2 ** 42 is read back from the bytes written for it, and the bytes after them are
-- left.
pub varint_round_trip :
    (n : ℕ) (rest : List ℕ)
    → n < 4398046511104
    → read_varint (write_varint n ++ rest) ≡ ok (n, rest)
unfolding read_varint write_varint power
varint_round_trip n rest h =
    read-varint_loop n 6 1 0 n rest (omega arith) (omega (arith, h)) refl
    ∙ ap (λ m. ok (m, rest)) (omega arith)
