-- ===== src/Converters/Choice.antt =====
-- src/rsb/converter/Repository.h: the strategy for each direction against its description by candidates.
use rsb_cpp.Prelude.{
  ◌≡◌, refl, ap, ◌∙◌, arith, List, [], Option, none, some, Text, Result, ok, err, length, ◌≤◌,
  Option-cases, inl, inr,
}
use rsb_cpp.Maps.{Map, find, text_ord}
use rsb_cpp.Maps.Sorted.{IsSorted}
use rsb_cpp.Converters.{
  Converter, ConverterError, Repository, UnambiguousConverterMap, signature_ord, collect, look_up,
  get_converter, get_converters_for_serialization, get_converters_for_deserialization,
}
use rsb_cpp.Converters.Selection.{
  Implements, Builds, candidates, collect-Builds, candidates-selected, to_list, first,
}

-- The roles of the two parts of a signature: the key and the choice.
abbrev pub by_data_type : Text × Text → Text × Text
by_data_type s = (s.1, s.0)

abbrev pub by_wire_schema : Text × Text → Text × Text
by_wire_schema s = s

to_list_one {ℓ} : {A : Type ℓ} (o : Option A) → length (to_list o) ≤ 1
to_list_one none = omega arith
to_list_one (some c) = omega arith

first-to_list {ℓ} : {A : Type ℓ} (o : Option A) → first (to_list o) ≡ o
first-to_list none = refl
first-to_list (some c) = refl

module _ {Data : Type 0} where
  -- Where a selection means ambiguity cannot be, only an unselected key is ambiguous.
  Implements-Builds :
      (selection : Map Text Text) (f : Text → List (Converter Data))
      (r : Result ConverterError (UnambiguousConverterMap Data))
      → ((key chosen : Text) → find key selection ≡ some chosen → length (f key) ≤ 1)
      → Builds selection f r
      → Implements f r
  Implements-Builds selection f (ok m) one h = h
  Implements-Builds selection f (err e) one (key, many, kind) =
      elim (Option-cases (find key selection)) [
        | inl open_key ↦ (kind open_key, (key, many))
        | inr (chosen, there) ↦ let few = one key chosen there in ground arith
      ]

  selected-schema :
      (selection : Map Text Text) (r : Repository Data) (t : Text) {schema : Text}
      → find t selection ≡ some schema
      → IsSorted r
      → candidates by_data_type selection t r ≡ to_list (find (schema, t) r)
  selected-schema selection r t {schema} h sorted =
      candidates-selected by_data_type selection r t (schema, t) h (λ s. ground arith) sorted

  selected-type :
      (selection : Map Text Text) (r : Repository Data) (schema : Text) {t : Text}
      → find schema selection ≡ some t
      → IsSorted r
      → candidates by_wire_schema selection schema r ≡ to_list (find (schema, t) r)
  selected-type selection r schema {t} h sorted =
      candidates-selected by_wire_schema selection r schema (schema, t) h (λ s. ground arith) sorted

  -- For a repository in the order of its signatures, the strategy for serialization finds for each
  -- data-type the only converter that the selection leaves for it, if there is one; it is not built,
  -- and the error is a runtime_error, only where some data-type has several.
  pub get_converters_for_serialization-Implements :
      (selection : Map Text Text) (r : Repository Data)
      → IsSorted r
      → Implements
          (λ t. candidates by_data_type selection t r)
          (get_converters_for_serialization selection r)
  unfolding get_converters_for_serialization find
  get_converters_for_serialization-Implements selection r sorted =
      Implements-Builds selection (λ t. candidates by_data_type selection t r)
        (collect by_data_type selection r [])
        (λ t schema h.
          rw (selected-schema selection r t h sorted) (to_list_one (find (schema, t) r)))
        (collect-Builds by_data_type selection r [])

  -- For a repository in the order of its signatures, the strategy for deserialization finds for each
  -- wire-schema the only converter that the selection leaves for it, if there is one; it is not built,
  -- and the error is a runtime_error, only where some wire-schema has several.
  pub get_converters_for_deserialization-Implements :
      (selection : Map Text Text) (r : Repository Data)
      → IsSorted r
      → Implements
          (λ s. candidates by_wire_schema selection s r)
          (get_converters_for_deserialization selection r)
  unfolding get_converters_for_deserialization find
  get_converters_for_deserialization-Implements selection r sorted =
      Implements-Builds selection (λ s. candidates by_wire_schema selection s r)
        (collect by_wire_schema selection r [])
        (λ s t h. rw (selected-type selection r s h sorted) (to_list_one (find (s, t) r)))
        (collect-Builds by_wire_schema selection r [])

  -- Where a strategy for serialization is built and a wire-schema is selected for a data-type, the
  -- strategy's lookup of the data-type does what the repository's lookup of the two together does,
  -- errors included.
  pub look_up-get_converter :
      (selection : Map Text Text) (r : Repository Data) (t : Text) {schema : Text}
      (m : UnambiguousConverterMap Data)
      → IsSorted r
      → find t selection ≡ some schema
      → get_converters_for_serialization selection r ≡ ok m
      → look_up t m ≡ get_converter (schema, t) r
  unfolding look_up get_converter
  look_up-get_converter selection r t {schema} m sorted h built =
      let whole = get_converters_for_serialization-Implements selection r sorted in
      let choice = rw built at whole in
      let same : find t m ≡ find (schema, t) r =
        (choice t).1
        ∙ ap first (selected-schema selection r t h sorted)
        ∙ first-to_list (find (schema, t) r) in
      rw (look_up, same) refl

  -- Where a strategy for deserialization is built and a data-type is selected for a wire-schema, the
  -- strategy's lookup of the wire-schema does what the repository's lookup of the two together does.
  pub look_up_schema-get_converter :
      (selection : Map Text Text) (r : Repository Data) (schema : Text) {t : Text}
      (m : UnambiguousConverterMap Data)
      → IsSorted r
      → find schema selection ≡ some t
      → get_converters_for_deserialization selection r ≡ ok m
      → look_up schema m ≡ get_converter (schema, t) r
  unfolding look_up get_converter
  look_up_schema-get_converter selection r schema {t} m sorted h built =
      let whole = get_converters_for_deserialization-Implements selection r sorted in
      let choice = rw built at whole in
      let same : find schema m ≡ find (schema, t) r =
        (choice schema).1
        ∙ ap first (selected-type selection r schema h sorted)
        ∙ first-to_list (find (schema, t) r) in
      rw (look_up, same) refl
