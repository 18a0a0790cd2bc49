-- ===== src/Converters.antt =====
-- src/rsb/converter: converters, the repository that keeps them by wire-schema and data-type, and the
-- two strategies that select one of them.
pub mod Selection
pub mod Choice
pub mod Registry
pub mod Basic
pub mod Integers
pub mod Wires
pub mod Examples
use rsb_cpp.Prelude.{
  ◌≡◌, refl, Bool, true, false, List, [], ◌∷◌, Option, none, some, if◌then◌else◌, Text, text_eq,
  Result, ok, err, ◌>>=◌, ◌&&◌, length, ◌≤◌, ◌<◌,
}
use rsb_cpp.Maps.{Ord, Map, find, insert, text_ord}
use rsb_cpp.Maps.Pairs.{pair_ord}

instance abbrev pub signature_ord : Ord (Text × Text)
signature_ord = pair_ord text_ord text_ord

-- std::invalid_argument, std::runtime_error and rsc::runtime::NoSuchObject
pub data ConverterError : Type 0 where
  invalid_argument runtime_error no_such_object bad_assertion undefined : ConverterError

-- Converter<std::string>: a value with the name of its type is written to a wire under a wire-schema.
pub record Converter (Data : Type 0) : Type 0 where
  pub wire_schema : Text
  pub data_type : Text
  pub serialize : Text × Data → Result ConverterError (Text × Text)
  pub deserialize : Text → Text → Result ConverterError (Text × Data)

-- The entries by their wire-schema and data-type.
abbrev pub Repository : Type 0 → Type 0
Repository Data = Map (Text × Text) (Converter Data)

-- UnambiguousConverterMap: its entries by the one key or by the other.
abbrev pub UnambiguousConverterMap : Type 0 → Type 0
UnambiguousConverterMap Data = Map Text (Converter Data)

module _ {Data : Type 0} where
  unfoldable pub look_up :
      Text → UnambiguousConverterMap Data → Result ConverterError (Converter Data)
  look_up key m = elim (find key m) [ none ↦ err no_such_object | some c ↦ ok c ]

  unfoldable pub add_converter :
      Text
      → Converter Data
      → UnambiguousConverterMap Data
      → Result ConverterError (UnambiguousConverterMap Data)
  add_converter key c m = elim (find key m) [
    | none ↦ ok (insert key c m)
    | some d ↦ err invalid_argument
  ]

  -- PredicateConverterList::getConverter; `none` is a null pointer.
  unfoldable pub first_match :
      Text → List ((Text → Bool) × Converter Data) → Option (Converter Data)
  first_match key [] = none
  first_match key ((match, c) ∷ rest) =
      let later = first_match key rest in if match key then some c else later

  unfoldable pub register_converter :
      Converter Data → Bool → Repository Data → Result ConverterError (Repository Data)
  register_converter c replace r = elim (find (c.wire_schema, c.data_type) r) [
    | none ↦ ok (insert (c.wire_schema, c.data_type) c r)
    | some d ↦
        if replace then ok (insert (c.wire_schema, c.data_type) c r) else err invalid_argument
  ]

  unfoldable pub get_converter :
      Text × Text → Repository Data → Result ConverterError (Converter Data)
  get_converter signature r = elim (find signature r) [ none ↦ err no_such_object | some c ↦ ok c ]

  -- The catch clause around addConverter.
  abbrev pub as_ambiguity :
      Result ConverterError (UnambiguousConverterMap Data)
      → Result ConverterError (UnambiguousConverterMap Data)
  as_ambiguity (ok m) = ok m
  as_ambiguity (err e) = err runtime_error

  -- The body of the loop: `key` is the part of the signature that the result is asked by.
  unfoldable pub consider :
      Map Text Text
      → Text × Text
      → Converter Data
      → UnambiguousConverterMap Data
      → Result ConverterError (UnambiguousConverterMap Data)
  unfolding add_converter
  consider selection (key, other) c result = elim (find key selection) [
    | none ↦ as_ambiguity (add_converter key c result)
    | some chosen ↦ if text_eq other chosen then add_converter key c result else ok result
  ]

  -- The loop over the repository; `roles` says which part of a signature is the key.
  unfoldable pub collect :
      (Text × Text → Text × Text)
      → Map Text Text
      → Repository Data
      → UnambiguousConverterMap Data
      → Result ConverterError (UnambiguousConverterMap Data)
  unfolding consider
  collect roles selection [] result = ok result
  collect roles selection ((signature, c) ∷ rest) result =
      consider selection (roles signature) c result >>= λ m. collect roles selection rest m

  -- The data-type is the key, the wire-schema the choice.
  unfoldable pub get_converters_for_serialization :
      Map Text Text → Repository Data → Result ConverterError (UnambiguousConverterMap Data)
  unfolding collect
  get_converters_for_serialization selection r = collect (λ s. (s.1, s.0)) selection r []

  -- The wire-schema is the key, the data-type the choice.
  unfoldable pub get_converters_for_deserialization :
      Map Text Text → Repository Data → Result ConverterError (UnambiguousConverterMap Data)
  unfolding collect
  get_converters_for_deserialization selection r = collect (λ s. s) selection r []
