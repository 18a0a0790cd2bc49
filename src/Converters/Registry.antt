-- ===== src/Converters/Registry.antt =====
-- src/rsb/converter/Repository.h: what the repository holds, and that a receiver reads what a sender
-- wrote.
use rsb_cpp.Prelude.{
  ◌≡◌, refl, ap, sym, ◌∙◌, arith, Bool, true, [], ◌∷◌, some, Text, ok, err, All, inl, inr, is_some,
  not, ◌||◌, length, ◌≤◌, if◌then◌else◌, eq_of_text_eq, text_eq_refl, Bool-cases, ◌>>=◌,
}
use rsb_cpp.Maps.{Map, find, insert, text_ord, find-insert, insert-All}
use rsb_cpp.Maps.Sorted.{IsSorted, insert-IsSorted}
use rsb_cpp.Converters.{
  Converter, invalid_argument, Repository, UnambiguousConverterMap, signature_ord, look_up,
  get_converter, register_converter, get_converters_for_serialization,
  get_converters_for_deserialization,
}
use rsb_cpp.Converters.Selection.{admits, is_candidate, candidates, first}
use rsb_cpp.Converters.Choice.{
  by_data_type, by_wire_schema, get_converters_for_serialization-Implements,
  get_converters_for_deserialization-Implements,
}

signature_eq : (s t : Text × Text) → signature_ord.beq s t ≡ true → s ≡ t
signature_eq s t h = ground (arith, eq_of_text_eq s.0 t.0, eq_of_text_eq s.1 t.1)

module _ {Data : Type 0} where
  abbrev pub HasSignature : (Text × Text) × Converter Data → Type 0
  HasSignature (s, c) = s ≡ (c.wire_schema, c.data_type)

  -- In the order of the signatures, each converter under its own.
  abbrev pub IsRepository : Repository Data → Type 0
  IsRepository r = IsSorted r × All HasSignature r

  insert-IsRepository :
      (c : Converter Data) (r : Repository Data)
      → IsRepository r
      → IsRepository (insert (c.wire_schema, c.data_type) c r)
  insert-IsRepository c r (sorted, own) = (
    insert-IsSorted (c.wire_schema, c.data_type) c r sorted,
    insert-All HasSignature (c.wire_schema, c.data_type) c r refl
        (λ j w same h. signature_eq j (c.wire_schema, c.data_type) same) own,
  )

  -- A converter that is registered, over another one or not, leaves the repository in the order of its
  -- signatures with each converter under its own.
  pub register_converter-IsRepository :
      (c : Converter Data) (replace : Bool) (r : Repository Data) {next : Repository Data}
      → IsRepository r
      → register_converter c replace r ≡ ok next
      → IsRepository next
  unfolding register_converter
  register_converter-IsRepository c replace r {next} h done =
      let same : insert (c.wire_schema, c.data_type) c r ≡ next = ground arith in
      rw (← same) (insert-IsRepository c r h)

  -- A registration fails with an invalid_argument only, where the signature is taken and replacing it
  -- was not asked for; what then is found under each signature is the new converter under its own and
  -- what was there under the others.
  pub get_converter-register_converter :
      (c : Converter Data) (replace : Bool) (r : Repository Data) (s : Text × Text)
      → (register_converter c replace r >>= get_converter s) ≡ (
          if not (is_some (find (c.wire_schema, c.data_type) r)) || replace
          then if signature_ord.beq (c.wire_schema, c.data_type) s then ok c else get_converter s r
          else err invalid_argument)
  unfolding register_converter get_converter
  get_converter-register_converter c replace r s =
      ground (arith, find-insert (c.wire_schema, c.data_type) s c r)

  -- The first candidate of one key is the only candidate of another one that it is a candidate of.
  first-first :
      (one two : Text × Text → Text × Text) (sel sel' : Map Text Text) (key key' : Text)
      (c : Converter Data) (r : Repository Data)
      → first (candidates one sel key r) ≡ some c
      → All HasSignature r
      → is_candidate two sel' key' (c.wire_schema, c.data_type) ≡ true
      → length (candidates two sel' key' r) ≤ 1
      → first (candidates two sel' key' r) ≡ some c
  first-first one two sel sel' key key' c [] h own fits few = cc
  first-first one two sel sel' key key' c ((s, d) ∷ r) h own fits few =
      elim (Bool-cases (is_candidate one sel key s)) [
        | inl hit ↦
            let same : d ≡ c = let h' = rw hit at h in ground arith in
            let e : s ≡ (c.wire_schema, c.data_type) = rw (← same) own.0 in
            let fits' : is_candidate two sel' key' s ≡ true = rw e fits in rw fits' (ap some same)
        | inr miss ↦
            let h' = rw miss at h in
            elim (Bool-cases (is_candidate two sel' key' s)) [
              | inl hit ↦
                  let few' = rw hit at few in
                  ground
                    (arith, first-first one two sel sel' key key' c r h' own.1 fits (omega arith))
              | inr miss' ↦
                  let few' = rw miss' at few in
                  rw miss' (first-first one two sel sel' key key' c r h' own.1 fits few')
            ]
      ]

  look_up-eq :
      (key : Text) (m : UnambiguousConverterMap Data) {c : Converter Data}
      → look_up key m ≡ ok c
      → find key m ≡ some c
  unfolding look_up
  look_up-eq key m h = ground arith

  -- In a repository with each converter under its own signature, let the strategies for both
  -- directions be built. The converter that the sender finds for a data-type is then the one that the
  -- receiver finds for the wire-schema it writes, if the receiver's selection does not choose
  -- another data-type for that wire-schema.
  pub look_up-look_up :
      (sel sel' : Map Text Text) (r : Repository Data) (t : Text) (c : Converter Data)
      {m n : UnambiguousConverterMap Data}
      → IsRepository r
      → get_converters_for_serialization sel r ≡ ok m
      → get_converters_for_deserialization sel' r ≡ ok n
      → look_up t m ≡ ok c
      → admits sel' (c.wire_schema, c.data_type) ≡ true
      → look_up c.wire_schema n ≡ ok c
  unfolding look_up
  look_up-look_up sel sel' r t c {m} {n} (sorted, own) sending receiving found admitted =
      let whole = get_converters_for_serialization-Implements sel r sorted in
      let out = rw sending at whole in
      let whole' = get_converters_for_deserialization-Implements sel' r sorted in
      let back = rw receiving at whole' in
      let here : first (candidates by_data_type sel t r) ≡ some c =
        sym ((out t).1) ∙ look_up-eq t m found in
      let fits : is_candidate by_wire_schema sel' c.wire_schema (c.wire_schema, c.data_type)
          ≡ true =
        ground (arith, text_eq_refl c.wire_schema) in
      let there =
        (back c.wire_schema).1
        ∙ first-first by_data_type by_wire_schema sel sel' t c.wire_schema c r here own fits
            (back c.wire_schema).0 in
      rw (look_up, there) refl
