-- ===== src/Converters/Selection.antt =====
-- src/rsb/converter/Repository.h: which converters the strategies for the two directions hold.
use rsb_cpp.Prelude.{
  ◌≡◌, refl, arith, Bool, true, false, List, [], ◌∷◌, ◌++◌, Option, none, some, if◌then◌else◌, Text,
  text_eq, text_eq_refl, Result, ok, err, ◌&&◌, length, ◌≤◌, ◌<◌, Bool-cases, Option-cases, inl,
  inr,
}
use rsb_cpp.Maps.{Map, find, insert, text_ord, find-insert, find-cong}
use rsb_cpp.Maps.Sorted.{IsSorted, find_rest}
use rsb_cpp.Converters.{
  Converter, ConverterError, invalid_argument, runtime_error, Repository, UnambiguousConverterMap,
  signature_ord, collect, consider, add_converter,
}

abbrev pub first {ℓ} : {A : Type ℓ} → List A → Option A
first [] = none
first (x ∷ xs) = some x

abbrev pub to_list {ℓ} : {A : Type ℓ} → Option A → List A
to_list none = []
to_list (some x) = x ∷ []

-- Whether a selection lets a converter with this key and this other part through.
abbrev pub admits : Map Text Text → Text × Text → Bool
admits selection (key, other) = elim (find key selection) [
  | none ↦ true
  | some chosen ↦ text_eq other chosen
]

-- Whether the converters with this signature are among those of a key.
abbrev pub is_candidate : (Text × Text → Text × Text) → Map Text Text → Text → Text × Text → Bool
is_candidate roles selection key s = text_eq (roles s).0 key && admits selection (roles s)

module _ {Data : Type 0} where
  -- The converters of the repository that a key may stand for.
  abbrev pub candidates :
      (Text × Text → Text × Text) → Map Text Text → Text → Repository Data → List (Converter Data)
  candidates roles selection key [] = []
  candidates roles selection key ((signature, c) ∷ rest) =
      if is_candidate roles selection key signature
      then c ∷ candidates roles selection key rest
      else candidates roles selection key rest

  -- Each key has one candidate at most, and the map finds it.
  abbrev pub IsChoice : (Text → List (Converter Data)) → UnambiguousConverterMap Data → Type 0
  IsChoice pool m = (key : Text) → (length (pool key) ≤ 1) × (find key m ≡ first (pool key))

  -- What a strategy should be: for each key its only candidate, and a runtime_error where some key
  -- has several.
  abbrev pub Implements :
      (Text → List (Converter Data)) → Result ConverterError (UnambiguousConverterMap Data) → Type 0
  Implements pool (ok m) = IsChoice pool m
  Implements pool (err e) = (e ≡ runtime_error) × ((key : Text) × (1 < length (pool key)))

  -- The same with the error that a selected converter could meet.
  abbrev pub Builds :
      Map Text Text
      → (Text → List (Converter Data))
      → Result ConverterError (UnambiguousConverterMap Data)
      → Type 0
  Builds selection pool (ok m) = IsChoice pool m
  Builds selection pool (err e) =
      (key : Text) × (1 < length (pool key)) × (find key selection ≡ none → e ≡ runtime_error)

  Builds-cong :
      (selection : Map Text Text) (f g : Text → List (Converter Data))
      (r : Result ConverterError (UnambiguousConverterMap Data))
      → ((key : Text) → f key ≡ g key)
      → Builds selection f r
      → Builds selection g r
  Builds-cong selection f g (ok m) e h = λ key. rw (← e key) (h key)
  Builds-cong selection f g (err x) e h = (h.0, rw (← e h.0) h.1, h.2)

  -- The candidates that are still to come, behind the one that is kept.
  abbrev pub pool :
      (Text × Text → Text × Text)
      → Map Text Text
      → Repository Data
      → UnambiguousConverterMap Data
      → Text
      → List (Converter Data)
  pool roles selection r m key = to_list (find key m) ++ candidates roles selection key r

  pool-skip :
      (roles : Text × Text → Text × Text) (selection : Map Text Text) (s : Text × Text)
      (c : Converter Data) (r : Repository Data) (m : UnambiguousConverterMap Data)
      → admits selection (roles s) ≡ false
      → (key : Text) → pool roles selection r m key ≡ pool roles selection ((s, c) ∷ r) m key
  pool-skip roles selection s c r m h key = ground arith

  pool-insert :
      (roles : Text × Text → Text × Text) (selection : Map Text Text) (s : Text × Text)
      (c : Converter Data) (r : Repository Data) (m : UnambiguousConverterMap Data)
      → admits selection (roles s) ≡ true
      → find (roles s).0 m ≡ none
      → (key : Text)
      → pool roles selection r (insert (roles s).0 c m) key
        ≡ pool roles selection ((s, c) ∷ r) m key
  pool-insert roles selection s c r m h fresh key =
      ground (arith, find-insert (roles s).0 key c m, find-cong (roles s).0 key m)

  -- What the body of the loop does.
  consider-skip :
      (selection : Map Text Text) (s : Text × Text) (c : Converter Data)
      (m : UnambiguousConverterMap Data)
      → admits selection s ≡ false
      → consider selection s c m ≡ ok m
  unfolding consider
  consider-skip selection s c m h = ground arith

  consider-new :
      (selection : Map Text Text) (s : Text × Text) (c : Converter Data)
      (m : UnambiguousConverterMap Data)
      → admits selection s ≡ true
      → find s.0 m ≡ none
      → consider selection s c m ≡ ok (insert s.0 c m)
  unfolding consider add_converter
  consider-new selection s c m h fresh = ground arith

  consider-again :
      (selection : Map Text Text) (s : Text × Text) (c d : Converter Data)
      (m : UnambiguousConverterMap Data)
      → admits selection s ≡ true
      → find s.0 m ≡ some d
      → (e : ConverterError) × (consider selection s c m ≡ err e)
        × (find s.0 selection ≡ none → e ≡ runtime_error)
  unfolding consider add_converter
  consider-again selection s c d m h there = elim (Option-cases (find s.0 selection)) [
    | inl e ↦ (runtime_error, ground arith, λ h. refl)
    | inr (chosen, e) ↦ (invalid_argument, ground arith, λ i. cc)
  ]

  pub collect-Builds :
      (roles : Text × Text → Text × Text) (selection : Map Text Text) (r : Repository Data)
      (m : UnambiguousConverterMap Data)
      → Builds selection (pool roles selection r m) (collect roles selection r m)
  unfolding collect
  collect-Builds roles selection [] m = λ key. ground arith
  collect-Builds roles selection ((s, c) ∷ r) m = elim (Bool-cases (admits selection (roles s))) [
    | inr kept_out ↦ rw (consider-skip selection (roles s) c m kept_out) (
        Builds-cong selection (pool roles selection r m) (pool roles selection ((s, c) ∷ r) m)
          (collect roles selection r m) (pool-skip roles selection s c r m kept_out)
          (collect-Builds roles selection r m))
    | inl let_in ↦ elim (Option-cases (find (roles s).0 m)) [
      | inl fresh ↦ rw (consider-new selection (roles s) c m let_in fresh) (
          Builds-cong selection (pool roles selection r (insert (roles s).0 c m))
            (pool roles selection ((s, c) ∷ r) m)
            (collect roles selection r (insert (roles s).0 c m))
            (pool-insert roles selection s c r m let_in fresh)
            (collect-Builds roles selection r (insert (roles s).0 c m)))
      | inr (d, there) ↦
          let (e, thrown, kind) = consider-again selection (roles s) c d m let_in there in
          rw thrown ((roles s).0, ground (arith, text_eq_refl (roles s).0), kind)
    ]
  ]

  -- Where a key has a selection, its candidate is the converter with that signature.
  pub candidates-selected :
      (roles : Text × Text → Text × Text) (selection : Map Text Text) (r : Repository Data)
      (key : Text) (target : Text × Text) {chosen : Text}
      → find key selection ≡ some chosen
      → ((s : Text × Text)
          → (text_eq (roles s).0 key && text_eq (roles s).1 chosen) ≡ signature_ord.beq s target)
      → IsSorted r
      → candidates roles selection key r ≡ to_list (find target r)
  unfolding find
  candidates-selected roles selection [] key target h e sorted = refl
  candidates-selected roles selection ((s, c) ∷ r) key target {chosen} h e sorted = ground (
    arith,
    candidates-selected roles selection r key target h e sorted.1,
    find_rest s target c r sorted,
    e s,
    find-cong (roles s).0 key selection,
  )
