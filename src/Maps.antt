-- ===== src/Maps.antt =====
-- std::map and std::set as the program uses them: entries in the order of their keys.
pub mod Sorted
pub mod Pairs
pub mod Values
use rsb_cpp.Prelude.{
  ◌≡◌, refl, ap, sym, ◌∙◌, arith, Bool, true, false, List, [], ◌∷◌, Option, none, some,
  if◌then◌else◌, Text, text_eq, text_lt, text_eq_refl, text_eq_sym, eq_of_text_eq, text_lt_irrefl,
  text_lt_trans, text_lt_total, Bool-cases, inl, inr, All, map,
}

-- The comparison of the keys. Two keys that compare equal need not be the same object.
pub record Ord {ℓ} (K : Type ℓ) : Type ℓ where
  pub beq : K → K → Bool
  pub lt : K → K → Bool
  pub beq_refl : (a : K) → beq a a ≡ true
  pub beq_sym : (a b : K) → beq a b ≡ beq b a
  pub beq_cong : (a b c : K) → beq a b ≡ true → beq a c ≡ beq b c
  pub lt_irrefl : (a b : K) → beq a b ≡ true → lt a b ≡ false
  pub lt_trans : (a b c : K) → lt a b ≡ true → lt b c ≡ true → lt a c ≡ true
  pub lt_total : (a b : K) → beq a b ≡ false → lt a b ≡ false → lt b a ≡ true

pub text_beq_cong : (a b c : Text) → text_eq a b ≡ true → text_eq a c ≡ text_eq b c
text_beq_cong a b c h = ap (λ t. text_eq t c) (eq_of_text_eq a b h)

pub text_irrefl : (a b : Text) → text_eq a b ≡ true → text_lt a b ≡ false
text_irrefl a b h = ap (text_lt a) (sym (eq_of_text_eq a b h)) ∙ text_lt_irrefl a

-- Keys that are compared by a text.
abbrev pub by_text {ℓ} : {K : Type ℓ} → (K → Text) → Ord K
by_text name = record {
  beq = λ a b. text_eq (name a) (name b);
  lt = λ a b. text_lt (name a) (name b);
  beq_refl = λ a. text_eq_refl (name a);
  beq_sym = λ a b. text_eq_sym (name a) (name b);
  beq_cong = λ a b c. text_beq_cong (name a) (name b) (name c);
  lt_irrefl = λ a b. text_irrefl (name a) (name b);
  lt_trans = λ a b c. text_lt_trans (name a) (name b) (name c);
  lt_total = λ a b. text_lt_total (name a) (name b);
}

instance abbrev pub text_ord : Ord Text
text_ord = by_text (λ t. t)

abbrev pub Map {ℓ κ} : Type ℓ → Type κ → Type (ℓ ⊔ κ)
Map K V = List (K × V)

-- std::set
abbrev pub KeySet : Type 0 → Type 0
KeySet K = Map {0, 0} K Unit

module _ {ℓ κ} {K : Type ℓ} {V : Type κ} ⦃o : Ord K⦄ where
  unfoldable pub find : K → Map K V → Option V
  find k [] = none
  find k ((j, w) ∷ m) = if o.beq j k then some w else find k m

  -- `m[k] = v`
  unfoldable pub insert : K → V → Map K V → Map K V
  insert k v [] = (k, v) ∷ []
  insert k v ((j, w) ∷ m) =
      let rest = insert k v m in
      if o.beq j k then (j, v) ∷ m else if o.lt k j then (k, v) ∷ (j, w) ∷ m else (j, w) ∷ rest

  unfoldable pub erase : K → Map K V → Map K V
  erase k [] = []
  erase k ((j, w) ∷ m) = let rest = erase k m in if o.beq j k then rest else (j, w) ∷ rest

  pub find-insert :
      (k j : K) (v : V) (m : Map K V)
      → find j (insert k v m) ≡ (if o.beq k j then some v else find j m)
  unfolding find insert
  find-insert k j v [] = refl
  find-insert k j v ((i, w) ∷ m) =
      ground (
        arith,
        find-insert k j v m,
        o.beq_cong i k j,
        o.beq_cong k j i,
        o.beq_sym k i,
        o.beq_sym j i,
      )

  pub find-erase :
      (k j : K) (m : Map K V) → find j (erase k m) ≡ (if o.beq k j then none else find j m)
  unfolding find erase
  find-erase k j [] = ground arith
  find-erase k j ((i, w) ∷ m) =
      ground
        (arith, find-erase k j m, o.beq_cong i k j, o.beq_cong k j i, o.beq_sym k i, o.beq_sym j i)

  pub erase-none : (k : K) (m : Map K V) → find k m ≡ none → erase k m ≡ m
  unfolding find erase
  erase-none k [] h = refl
  erase-none k ((j, w) ∷ m) h = ground (arith, erase-none k m)

  -- A new key that is taken out again leaves nothing behind.
  pub erase-insert : (k : K) (v : V) (m : Map K V) → find k m ≡ none → erase k (insert k v m) ≡ m
  unfolding find erase insert
  erase-insert k v [] h = ground (arith, o.beq_refl k)
  erase-insert k v ((j, w) ∷ m) h = ground (arith, erase-insert k v m, erase-none k m, o.beq_refl k)

  -- The last of two values for a new key stays.
  pub insert-insert :
      (k : K) (v w : V) (m : Map K V) → find k m ≡ none → insert k v (insert k w m) ≡ insert k v m
  unfolding find insert
  insert-insert k v w [] h = ground (arith, o.beq_refl k)
  insert-insert k v w ((j, u) ∷ m) h =
      ground (arith, insert-insert k v w m, o.beq_refl k, o.beq_sym k j)

  pub find-cong : (k j : K) (m : Map K V) → o.beq k j ≡ true → find k m ≡ find j m
  unfolding find
  find-cong k j [] h = refl
  find-cong k j ((i, w) ∷ m) h =
      ground (arith, find-cong k j m h, o.beq_cong k j i h, o.beq_sym k i, o.beq_sym j i)

  -- What holds of every entry holds of the entry that is found, and of the map with one more.
  pub find-All {ι} :
      (P : K × V → Type ι) (k : K) (m : Map K V) {v : V}
      → All P m
      → find k m ≡ some v
      → (j : K) × (o.beq j k ≡ true) × P (j, v)
  unfolding find
  find-All P k [] h e = cc
  find-All P k ((j, w) ∷ m) {v} h e = elim (Bool-cases (o.beq j k)) [
    | inl hit ↦ let same : w ≡ v = ground arith in (j, hit, rw (← same) h.0)
    | inr miss ↦ find-All P k m h.1 (let e' = rw miss at e in e')
  ]

  pub insert-All {ι} :
      (P : K × V → Type ι) (k : K) (v : V) (m : Map K V)
      → P (k, v)
      → ((j : K) (w : V) → o.beq j k ≡ true → P (j, w) → P (j, v))
      → All P m
      → All P (insert k v m)
  unfolding insert
  insert-All P k v [] new same h = (new, tt)
  insert-All P k v ((j, w) ∷ m) new same h = elim (Bool-cases (o.beq j k)) [
    | inl hit ↦ rw hit (same j w hit h.0, h.1)
    | inr miss ↦ elim (Bool-cases (o.lt k j)) [
      | inl before ↦ rw (miss, before) (new, h)
      | inr behind ↦ rw (miss, behind) (h.0, insert-All P k v m new same h.1)
    ]
  ]

  pub erase-All {ι} : (P : K × V → Type ι) (k : K) (m : Map K V) → All P m → All P (erase k m)
  unfolding erase
  erase-All P k [] h = tt
  erase-All P k ((j, w) ∷ m) h = elim (Bool-cases (o.beq j k)) [
    | inl hit ↦ rw hit (erase-All P k m h.1)
    | inr miss ↦ rw miss (h.0, erase-All P k m h.1)
  ]
