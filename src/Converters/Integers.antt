-- ===== src/Converters/Integers.antt =====
-- src/rsb/converter/IntegerConverter.h: the bytes of a number, the lowest first.
use rsb_cpp.Prelude.{
  ℕ, zero, suc, ◌+◌, ◌*◌, ◌/◌, ◌%◌, ◌^◌, ◌<◌, ◌≡◌, refl, ap, sym, ◌∙◌, arith, Text, length, All, ok,
  ==_iff, text_eq_refl,
}
use native.Mathlib.Nat.{div-div-eq-div-mul, pow-suc}
use rsb_cpp.Converters.Basic.{
  write_bytes, read_bytes, integer_converter, integer_to_wire, integer_from_wire, number,
}

length-write_bytes : (k i n : ℕ) → length (write_bytes k i n) ≡ k
unfolding write_bytes
length-write_bytes zero i n = refl
length-write_bytes (suc k) i n = ap suc (length-write_bytes k (suc i) n)

write_bytes-All : (k i n : ℕ) → All (λ b. b < 2 ^ 8) (write_bytes k i n)
unfolding write_bytes
write_bytes-All zero i n = tt
write_bytes-All (suc k) i n = (omega arith, write_bytes-All k (suc i) n)

suc_mul : (i : ℕ) → suc i * 8 ≡ 8 + i * 8
suc_mul i = omega arith

suc_plus : (k m : ℕ) → suc k + m ≡ suc (k + m)
suc_plus k m = omega arith

zero_plus : (m : ℕ) → 0 + m ≡ m
zero_plus m = omega arith

twice : (k m : ℕ) → 2 ^ (suc k + m) ≡ 2 ^ (k + m) * 2
twice k m = ap (λ e. 2 ^ e) (suc_plus k m) ∙ pow-suc 2 (k + m)

pow_eight : (m : ℕ) → 2 ^ (8 + m) ≡ 2 ^ m * 2 ^ 8
pow_eight m = omega (
  arith,
  ap (λ e. 2 ^ e) (zero_plus m),
  twice 0 m,
  twice 1 m,
  twice 2 m,
  twice 3 m,
  twice 4 m,
  twice 5 m,
  twice 6 m,
  twice 7 m,
)

-- The place of the next byte.
place_suc : (i : ℕ) → 2 ^ (suc i * 8) ≡ 2 ^ (i * 8) * 2 ^ 8
place_suc i = let step = suc_mul i in ap (λ e. 2 ^ e) step ∙ pow_eight (i * 8)

shift_suc : (n i : ℕ) → n / 2 ^ (suc i * 8) ≡ n / 2 ^ (i * 8) / 2 ^ 8
shift_suc n i = ap (λ p. n / p) (place_suc i) ∙ sym (div-div-eq-div-mul n (2 ^ (i * 8)) (2 ^ 8))

gather : (a b p : ℕ) → a * p + b * (p * 2 ^ 8) ≡ (a + b * 2 ^ 8) * p
gather a b p = grind arith

gather_bytes : (q p rest : ℕ) → rest + q % 2 ^ 8 * p + q / 2 ^ 8 * (p * 2 ^ 8) ≡ rest + q * p
gather_bytes q p rest =
    let whole : q % 2 ^ 8 + q / 2 ^ 8 * 2 ^ 8 ≡ q = omega arith in
    let scaled = ap (λ x. x * p) whole in omega (arith, gather (q % 2 ^ 8) (q / 2 ^ 8) p, scaled)

read-write :
    (k i n rest : ℕ)
    → n / 2 ^ (i * 8) < 2 ^ (k * 8)
    → read_bytes i (write_bytes k i n) rest ≡ rest + n / 2 ^ (i * 8) * 2 ^ (i * 8)
unfolding read_bytes write_bytes
read-write zero i n rest h =
    let none_left : n / 2 ^ (i * 8) ≡ 0 = omega arith in rw none_left (omega arith)
read-write (suc k) i n rest h =
    let q = n / 2 ^ (i * 8) in
    let small : n / 2 ^ (suc i * 8) < 2 ^ (k * 8) = omega (arith, shift_suc n i, place_suc k) in
    read-write k (suc i) n (rest + q % 2 ^ 8 * 2 ^ (i * 8)) small
    ∙ ap (λ r. rest + q % 2 ^ 8 * 2 ^ (i * 8) + r) (rw (shift_suc n i, place_suc i) refl)
    ∙ gather_bytes q (2 ^ (i * 8)) rest

-- A number of that many bytes comes back from the wire that an integer converter writes for it, and
-- the wire has that many bytes, each below 256. The number stands for the object's bits, so that a
-- signed number in two's complement is one of them.
pub integer_converter-eq :
    (size : ℕ) (schema type_name : Text) (n : ℕ)
    → n < 2 ^ (size * 8)
    → let c = integer_converter size schema type_name in
      (c.serialize (type_name, number n) ≡ ok (schema, write_bytes size 0 n))
      × (c.deserialize schema (write_bytes size 0 n) ≡ ok (type_name, number n))
      × (length (write_bytes size 0 n) ≡ size)
      × All (λ b. b < 2 ^ 8) (write_bytes size 0 n)
unfolding integer_to_wire integer_from_wire
integer_converter-eq size schema type_name n h =
    let back : read_bytes 0 (write_bytes size 0 n) 0 ≡ n =
      omega (arith, read-write size 0 n 0 (omega arith)) in
    let sized = length-write_bytes size 0 n in
    (
      rw (text_eq_refl type_name) refl,
      rw (text_eq_refl schema, sized, back, (==_iff size size).1 refl) refl,
      sized,
      write_bytes-All size 0 n,
    )
