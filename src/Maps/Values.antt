-- ===== src/Maps/Values.antt =====
-- Maps to numbers in which no number stands twice.
use rsb_cpp.Prelude.{
  ℕ, suc, ◌≡◌, refl, ap, arith, false, [], ◌∷◌, none, some, length, All, ◌==◌, Bool-cases, inl, inr,
}
use rsb_cpp.Maps.{Ord, Map, find, insert, erase, find-All, insert-All, erase-All, erase-none}
use rsb_cpp.Maps.Sorted.{IsSorted, find_rest}

flip_test : (a b : ℕ) → (a == b) ≡ false → (b == a) ≡ false
flip_test a b h = ground arith

module _ {ℓ} {K : Type ℓ} where
  -- No two keys have the same value.
  abbrev pub Distinct : Map K ℕ → Type ℓ
  Distinct [] = Unit
  Distinct ((k, f) ∷ m) = All (λ e. (e.1 == f) ≡ false) m × Distinct m

module _ {K : Type 0} ⦃o : Ord K⦄ where
  pub length-erase :
      (k : K) (f : ℕ) (m : Map K ℕ)
      → IsSorted m
      → find k m ≡ some f
      → suc (length (erase k m)) ≡ length m
  unfolding find erase
  length-erase k f [] s h = cc
  length-erase k f ((j, g) ∷ m) s h = elim (Bool-cases (o.beq j k)) [
    | inl hit ↦ rw hit (ap (λ n. suc (length n)) (erase-none k m (find_rest j k g m s hit)))
    | inr miss ↦ let h' = rw miss at h in rw miss (ap suc (length-erase k f m s.1 h'))
  ]

  pub erase-Distinct : (k : K) (m : Map K ℕ) → Distinct m → Distinct (erase k m)
  unfolding erase
  erase-Distinct k [] d = tt
  erase-Distinct k ((j, g) ∷ m) d = elim (Bool-cases (o.beq j k)) [
    | inl hit ↦ rw hit (erase-Distinct k m d.1)
    | inr miss ↦ rw miss (erase-All (λ e. (e.1 == g) ≡ false) k m d.0, erase-Distinct k m d.1)
  ]

  -- The value of a key that is taken out is no longer there.
  pub erase-other :
      (k : K) (f : ℕ) (m : Map K ℕ)
      → Distinct m
      → find k m ≡ some f
      → All (λ e. (e.1 == f) ≡ false) (erase k m)
  unfolding find erase
  erase-other k f [] d h = tt
  erase-other k f ((j, g) ∷ m) d h = elim (Bool-cases (o.beq j k)) [
    | inl hit ↦
        let same : g ≡ f = let h' = rw hit at h in ground arith in
        rw hit (erase-All (λ e. (e.1 == f) ≡ false) k m (rw (← same) d.0))
    | inr miss ↦
        let h' = rw miss at h in
        let (i, at_key, other) = find-All (λ e. (e.1 == g) ≡ false) k m d.0 h' in
        rw miss (flip_test f g other, erase-other k f m d.1 h')
  ]

  pub insert-Distinct :
      (k : K) (f : ℕ) (m : Map K ℕ)
      → find k m ≡ none
      → All (λ e. (e.1 == f) ≡ false) m
      → Distinct m
      → Distinct (insert k f m)
  unfolding find insert
  insert-Distinct k f [] h new d = (tt, tt)
  insert-Distinct k f ((j, g) ∷ m) h new d = elim (Bool-cases (o.beq j k)) [
    | inl hit ↦ let h' = rw hit at h in cc
    | inr miss ↦ elim (Bool-cases (o.lt k j)) [
      | inl before ↦ rw (miss, before) (new, d)
      | inr behind ↦
          let h' = rw miss at h in
          rw (miss, behind)
            (
              insert-All (λ e. (e.1 == g) ≡ false) k f m (flip_test g f new.0)
                  (λ j w same p. flip_test g f new.0) d.0,
              insert-Distinct k f m h' new.1 d.1,
            )
    ]
  ]

  pub length-insert :
      (k : K) (f : ℕ) (m : Map K ℕ) → find k m ≡ none → length (insert k f m) ≡ suc (length m)
  unfolding find insert
  length-insert k f [] h = refl
  length-insert k f ((j, g) ∷ m) h = ground (arith, length-insert k f m)
