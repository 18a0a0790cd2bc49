-- ===== src/Maps/Sorted.antt =====
-- The entries stay in the order of their keys, and a map that is copied entry by entry is the same.
use rsb_cpp.Prelude.{
  none, some, ◌≡◌, refl, ap, sym, ◌∙◌, true, false, [], ◌∷◌, ◌++◌, Bool-cases, inl, inr,
  append_assoc, append-nil,
}
use rsb_cpp.Maps.{Ord, Map, find, insert, erase, find-cong}

module _ {ℓ} {K : Type ℓ} ⦃o : Ord K⦄ where
  lt-asym : (a b : K) → o.lt a b ≡ true → (o.beq a b ≡ false) × (o.lt b a ≡ false)
  lt-asym a b h = (
    elim (Bool-cases (o.beq a b)) [ inl e ↦ cc (o.lt_irrefl a b e) | inr e ↦ e ],
    elim (Bool-cases (o.lt b a)) [
      | inl e ↦ cc (o.lt_trans a b a h e, o.lt_irrefl a a (o.beq_refl a))
      | inr e ↦ e
    ],
  )

module _ {ℓ κ} {K : Type ℓ} {V : Type κ} ⦃o : Ord K⦄ where
  -- Every key behind stands above k.
  abbrev Above : K → Map K V → Type 0
  Above k [] = Unit
  Above k ((j, w) ∷ m) = (o.lt k j ≡ true) × Above k m

  abbrev pub IsSorted : Map K V → Type 0
  IsSorted [] = Unit
  IsSorted ((k, v) ∷ m) = Above k m × IsSorted m

  Above-insert :
      (j k : K) (v : V) (m : Map K V) → o.lt j k ≡ true → Above j m → Above j (insert k v m)
  unfolding insert
  Above-insert j k v [] h a = (h, tt)
  Above-insert j k v ((i, w) ∷ m) h a = elim (Bool-cases (o.beq i k)) [
    | inl hit ↦ rw hit a
    | inr miss ↦ elim (Bool-cases (o.lt k i)) [
      | inl before ↦ rw (miss, before) (h, a)
      | inr behind ↦ rw (miss, behind) (a.0, Above-insert j k v m h a.1)
    ]
  ]

  Above-trans : (j k : K) (m : Map K V) → o.lt j k ≡ true → Above k m → Above j m
  Above-trans j k [] h a = tt
  Above-trans j k ((i, w) ∷ m) h a = (o.lt_trans j k i h a.0, Above-trans j k m h a.1)

  pub insert-IsSorted : (k : K) (v : V) (m : Map K V) → IsSorted m → IsSorted (insert k v m)
  unfolding insert
  insert-IsSorted k v [] s = (tt, tt)
  insert-IsSorted k v ((j, w) ∷ m) s = elim (Bool-cases (o.beq j k)) [
    | inl hit ↦ rw hit s
    | inr miss ↦ elim (Bool-cases (o.lt k j)) [
      | inl before ↦ rw (miss, before) ((before, Above-trans k j m before s.0), s)
      | inr behind ↦
          rw (miss, behind)
            (
              Above-insert j k v m (o.lt_total k j (o.beq_sym k j ∙ miss) behind) s.0,
              insert-IsSorted k v m s.1,
            )
    ]
  ]

  find-Above : (k : K) (m : Map K V) → Above k m → find k m ≡ none
  unfolding find
  find-Above k [] a = refl
  find-Above k ((j, w) ∷ m) a =
      let (ne, le) = lt-asym k j a.0 in rw (o.beq_sym j k ∙ ne, find-Above k m a.1)

  -- A key stands once.
  pub find_rest :
      (k j : K) (v : V) (m : Map K V) → IsSorted ((k, v) ∷ m) → o.beq k j ≡ true → find j m ≡ none
  find_rest k j v m s h = sym (find-cong k j m h) ∙ find-Above k m s.0

  -- Every key of the map stands below k.
  abbrev Below : Map K V → K → Type 0
  Below [] k = Unit
  Below ((j, w) ∷ m) k = (o.lt j k ≡ true) × Below m k

  insert_last : (k : K) (v : V) (m : Map K V) → Below m k → insert k v m ≡ m ++ (k, v) ∷ []
  unfolding insert
  insert_last k v [] b = refl
  insert_last k v ((j, w) ∷ m) b =
      let (ne, le) = lt-asym j k b.0 in rw (ne, le, insert_last k v m b.1)

  -- `for (it = m.begin(); …) copy[it->first] = it->second`
  unfoldable pub insert_all : Map K V → Map K V → Map K V
  insert_all copy [] = copy
  insert_all copy ((k, v) ∷ m) = insert_all (insert k v copy) m

  Below-push :
      (m : Map K V) (j k : K) (w : V) → Below m k → o.lt j k ≡ true → Below (m ++ (j, w) ∷ []) k
  Below-push [] j k w b h = (h, tt)
  Below-push (e ∷ m) j k w b h = (b.0, Below-push m j k w b.1 h)

  Below-trans : (m : Map K V) (j k : K) → Below m j → o.lt j k ≡ true → Below m k
  Below-trans [] j k b h = tt
  Below-trans ((i, w) ∷ m) j k b h = (o.lt_trans i j k b.0 h, Below-trans m j k b.1 h)

  abbrev pub BelowHead : Map K V → Map K V → Type 0
  BelowHead m [] = Unit
  BelowHead m ((k, v) ∷ n) = Below m k

  head-Above :
      (m : Map K V) (k : K) (v : V) (n : Map K V)
      → Below m k
      → Above k n
      → BelowHead (m ++ (k, v) ∷ []) n
  head-Above m k v [] b a = tt
  head-Above m k v ((j, w) ∷ n) b a = Below-push m k j v (Below-trans m k j b a.0) a.0

  Above-erase : (j k : K) (m : Map K V) → Above j m → Above j (erase k m)
  unfolding erase
  Above-erase j k [] a = tt
  Above-erase j k ((i, w) ∷ m) a = elim (Bool-cases (o.beq i k)) [
    | inl hit ↦ rw hit (Above-erase j k m a.1)
    | inr miss ↦ rw miss (a.0, Above-erase j k m a.1)
  ]

  insert_all-append : (m n : Map K V) → BelowHead m n → IsSorted n → insert_all m n ≡ m ++ n
  unfolding insert_all
  insert_all-append m [] b s = sym (append-nil m)
  insert_all-append m ((k, v) ∷ n) b s =
      ap (λ c. insert_all c n) (insert_last k v m b)
      ∙ insert_all-append (m ++ (k, v) ∷ []) n (head-Above m k v n b s.0) s.1
      ∙ append_assoc m ((k, v) ∷ []) n

  -- The copy of a map in order, entry by entry, is the map.
  pub insert_all-empty : (m : Map K V) → IsSorted m → insert_all [] m ≡ m
  insert_all-empty [] s = insert_all-append [] [] tt tt
  insert_all-empty ((k, v) ∷ m) s = insert_all-append [] ((k, v) ∷ m) tt s

  pub erase-IsSorted : (k : K) (m : Map K V) → IsSorted m → IsSorted (erase k m)
  unfolding erase
  erase-IsSorted k [] s = tt
  erase-IsSorted k ((j, w) ∷ m) s = elim (Bool-cases (o.beq j k)) [
    | inl hit ↦ rw hit (erase-IsSorted k m s.1)
    | inr miss ↦ rw miss (Above-erase j k m s.0, erase-IsSorted k m s.1)
  ]

  erase_fresh : (k : K) (m : Map K V) → Below m k → erase k m ≡ m
  unfolding erase
  erase_fresh k [] b = refl
  erase_fresh k ((j, w) ∷ m) b = let (ne, le) = lt-asym j k b.0 in rw (ne, erase_fresh k m b.1)

  -- `for (…) { copy.erase(key); copy[key] = value; }`
  unfoldable pub put_all : Map K V → Map K V → Map K V
  put_all copy [] = copy
  put_all copy ((k, v) ∷ m) = put_all (insert k v (erase k copy)) m

  put_all-append : (m n : Map K V) → BelowHead m n → IsSorted n → put_all m n ≡ m ++ n
  unfolding put_all
  put_all-append m [] b s = sym (append-nil m)
  put_all-append m ((k, v) ∷ n) b s =
      ap (λ c. put_all (insert k v c) n) (erase_fresh k m b)
      ∙ ap (λ c. put_all c n) (insert_last k v m b)
      ∙ put_all-append (m ++ (k, v) ∷ []) n (head-Above m k v n b s.0) s.1
      ∙ append_assoc m ((k, v) ∷ []) n

  pub put_all-empty : (m : Map K V) → IsSorted m → put_all [] m ≡ m
  put_all-empty [] s = put_all-append [] [] tt tt
  put_all-empty ((k, v) ∷ m) s = put_all-append [] ((k, v) ∷ m) tt s

  find_fresh : (k : K) (m : Map K V) → Below m k → find k m ≡ none
  unfolding find
  find_fresh k [] b = refl
  find_fresh k ((j, w) ∷ m) b = let (ne, le) = lt-asym j k b.0 in rw (ne, find_fresh k m b.1)

  -- `for (…) copy.insert(entry)`, which keeps an entry that is there.
  abbrev pub insert_new : K → V → Map K V → Map K V
  insert_new k v m = elim (find k m) [ none ↦ insert k v m | some w ↦ m ]

  unfoldable pub insert_all_new : Map K V → Map K V → Map K V
  insert_all_new copy [] = copy
  insert_all_new copy ((k, v) ∷ m) = insert_all_new (insert_new k v copy) m

  insert_all_new-append : (m n : Map K V) → BelowHead m n → IsSorted n → insert_all_new m n ≡ m ++ n
  unfolding insert_all_new
  insert_all_new-append m [] b s = sym (append-nil m)
  insert_all_new-append m ((k, v) ∷ n) b s =
      ap (λ f. insert_all_new (elim f [ none ↦ insert k v m | some w ↦ m ]) n) (find_fresh k m b)
      ∙ ap (λ c. insert_all_new c n) (insert_last k v m b)
      ∙ insert_all_new-append (m ++ (k, v) ∷ []) n (head-Above m k v n b s.0) s.1
      ∙ append_assoc m ((k, v) ∷ []) n

  pub insert_all_new-empty : (m : Map K V) → IsSorted m → insert_all_new [] m ≡ m
  insert_all_new-empty [] s = insert_all_new-append [] [] tt tt
  insert_all_new-empty ((k, v) ∷ m) s = insert_all_new-append [] ((k, v) ∷ m) tt s

  -- A map is copied key by key, and each key is new to what stands before it.
  pub next_key :
      (m : Map K V) (k : K) (v : V) (n : Map K V)
      → BelowHead m ((k, v) ∷ n)
      → IsSorted ((k, v) ∷ n)
      → (find k m ≡ none) × BelowHead (insert k v m) n
  next_key m k v n b s = (find_fresh k m b, rw (insert_last k v m b) (head-Above m k v n b s.0))

  pub BelowHead-empty : (m : Map K V) → BelowHead [] m
  BelowHead-empty [] = tt
  BelowHead-empty (e ∷ m) = tt
