-- ===== src/Maps/Pairs.antt =====
-- The orders of numbers and of pairs, std::pair's operator<: by the first, then by the second.
use rsb_cpp.Prelude.{ℕ, ◌≡◌, arith, Bool, true, false, ◌&&◌, ◌||◌, ltb, ◌==◌}
use rsb_cpp.Maps.{Ord}

pub num_beq_cong : (a b c : ℕ) → (a == b) ≡ true → (a == c) ≡ (b == c)
num_beq_cong a b c h = ground arith

pub num_lt_trans : (a b c : ℕ) → ltb a b ≡ true → ltb b c ≡ true → ltb a c ≡ true
num_lt_trans a b c h k = ground arith

pub num_refl : (a : ℕ) → (a == a) ≡ true
num_refl a = ground arith

pub num_sym : (a b : ℕ) → (a == b) ≡ (b == a)
num_sym a b = ground arith

pub num_irrefl : (a b : ℕ) → (a == b) ≡ true → ltb a b ≡ false
num_irrefl a b h = ground arith

pub num_total : (a b : ℕ) → (a == b) ≡ false → ltb a b ≡ false → ltb b a ≡ true
num_total a b h k = ground arith

instance abbrev pub num_ord : Ord ℕ
num_ord = record {
  beq = ◌==◌;
  lt = ltb;
  beq_refl = num_refl;
  beq_sym = num_sym;
  beq_cong = num_beq_cong;
  lt_irrefl = num_irrefl;
  lt_trans = num_lt_trans;
  lt_total = num_total;
}

-- Equal keys stand at the same place in the order.
module _ {ℓ} {K : Type ℓ} ⦃o : Ord K⦄ where
  lt_of_beq_left : (a b c : K) → o.beq a b ≡ true → o.lt b c ≡ true → o.lt a c ≡ true
  lt_of_beq_left a b c h k = ground (
    arith,
    o.lt_total a c,
    o.lt_trans b c a k,
    o.lt_irrefl b a,
    o.lt_irrefl b c,
    o.beq_cong a b c h,
    o.beq_sym a b,
  )

  lt_of_beq_right : (a b c : K) → o.lt a b ≡ true → o.beq b c ≡ true → o.lt a c ≡ true
  lt_of_beq_right a b c h k = ground (
    arith,
    o.lt_total a c,
    o.lt_trans c a b,
    o.lt_irrefl c b,
    o.lt_irrefl a b,
    o.beq_cong b c a k,
    o.beq_sym a b,
    o.beq_sym a c,
    o.beq_sym b c,
  )

module _ {ℓ κ} {A : Type ℓ} {B : Type κ} ⦃o : Ord A⦄ ⦃p : Ord B⦄ where
  abbrev pub pair_beq : A × B → A × B → Bool
  pair_beq x y = o.beq x.0 y.0 && p.beq x.1 y.1

  abbrev pub pair_lt : A × B → A × B → Bool
  pair_lt x y = o.lt x.0 y.0 || (o.beq x.0 y.0 && p.lt x.1 y.1)

  pub pair_beq_cong : (x y z : A × B) → pair_beq x y ≡ true → pair_beq x z ≡ pair_beq y z
  pair_beq_cong x y z h = ground (arith, o.beq_cong x.0 y.0 z.0, p.beq_cong x.1 y.1 z.1)

  pub pair_irrefl : (x y : A × B) → pair_beq x y ≡ true → pair_lt x y ≡ false
  pair_irrefl x y h = ground (arith, o.lt_irrefl x.0 y.0, p.lt_irrefl x.1 y.1)

  pub pair_trans : (x y z : A × B) → pair_lt x y ≡ true → pair_lt y z ≡ true → pair_lt x z ≡ true
  pair_trans x y z h k = ground (
    arith,
    o.lt_trans x.0 y.0 z.0,
    lt_of_beq_left x.0 y.0 z.0,
    lt_of_beq_right x.0 y.0 z.0,
    o.beq_cong x.0 y.0 z.0,
    p.lt_trans x.1 y.1 z.1,
  )

  pub pair_total : (x y : A × B) → pair_beq x y ≡ false → pair_lt x y ≡ false → pair_lt y x ≡ true
  pair_total x y h k = ground (arith, o.lt_total x.0 y.0, p.lt_total x.1 y.1, o.beq_sym x.0 y.0)

  pub pair_refl : (x : A × B) → pair_beq x x ≡ true
  pair_refl x = ground (arith, o.beq_refl x.0, p.beq_refl x.1)

  pub pair_sym : (x y : A × B) → pair_beq x y ≡ pair_beq y x
  pair_sym x y = ground (arith, o.beq_sym x.0 y.0, p.beq_sym x.1 y.1)

abbrev pub pair_ord {ℓ κ} : {A : Type ℓ} {B : Type κ} → Ord A → Ord B → Ord (A × B)
pair_ord o p = record {
  beq = pair_beq ⦃o = o⦄ ⦃p = p⦄;
  lt = pair_lt ⦃o = o⦄ ⦃p = p⦄;
  beq_refl = pair_refl ⦃o = o⦄ ⦃p = p⦄;
  beq_sym = pair_sym ⦃o = o⦄ ⦃p = p⦄;
  beq_cong = pair_beq_cong ⦃o = o⦄ ⦃p = p⦄;
  lt_irrefl = pair_irrefl ⦃o = o⦄ ⦃p = p⦄;
  lt_trans = pair_trans ⦃o = o⦄ ⦃p = p⦄;
  lt_total = pair_total ⦃o = o⦄ ⦃p = p⦄;
}
