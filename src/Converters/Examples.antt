-- ===== src/Converters/Examples.antt =====
-- The theorems on converters at a small repository: the converters of truth values, of 32-bit numbers and
-- of texts, under short names of types.
use rsb_cpp.Prelude.{
  ℕ, ◌<◌, ◌^◌, ◌≡◌, refl, arith, [], ◌∷◌, bytes, ok, err, All, length, text_eq, text_lt,
}
use rsb_cpp.Maps.{find, insert, text_ord}
use rsb_cpp.Converters.{
  Converter, Repository, UnambiguousConverterMap, signature_ord, look_up,
  get_converters_for_serialization, get_converters_for_deserialization, collect, consider,
  add_converter, runtime_error,
}
use rsb_cpp.Converters.Basic.{
  Payload, number, bool_converter, integer_converter, string_converter, write_bytes,
}
use rsb_cpp.Converters.Selection.{Implements, candidates}
use rsb_cpp.Converters.Choice.{
  by_data_type, by_wire_schema, get_converters_for_serialization-Implements,
  get_converters_for_deserialization-Implements,
}
use rsb_cpp.Converters.Registry.{IsRepository, look_up-look_up}
use rsb_cpp.Converters.Integers.{integer_converter-eq}

abbrev bools : Converter Payload
bools = bool_converter (bytes "bool")

abbrev words : Converter Payload
words = integer_converter 4 (bytes "uint32") (bytes "unsigned int")

abbrev texts : Converter Payload
texts = string_converter (bytes "std::string")

abbrev repository : Repository Payload
repository =
    ((bytes "bool", bytes "bool"), bools) ∷ ((bytes "uint32", bytes "unsigned int"), words) ∷ []

-- With a second reader of the same wire-schema.
abbrev doubled : Repository Payload
doubled =
    ((bytes "uint32", bytes "id"), integer_converter 4 (bytes "uint32") (bytes "id"))
    ∷ ((bytes "uint32", bytes "unsigned int"), words)
    ∷ []

repository-IsRepository : IsRepository repository
unfolding text_lt text_eq
repository-IsRepository = (((refl, tt), (tt, tt)), (refl, (refl, tt)))

doubled-IsRepository : IsRepository doubled
unfolding text_lt text_eq
doubled-IsRepository = (((refl, tt), (tt, tt)), (refl, (refl, tt)))

-- Two data-types for one wire-schema are ambiguous for the receiver alone.
doubled_ambiguous : get_converters_for_deserialization [] doubled ≡ err runtime_error
unfolding get_converters_for_deserialization collect consider add_converter find insert text_eq
    text_lt
doubled_ambiguous = refl

get_converters_for_serialization-Implements_example :
    Implements
      (λ t. candidates by_data_type [] t repository)
      (get_converters_for_serialization [] repository)
get_converters_for_serialization-Implements_example =
    get_converters_for_serialization-Implements [] repository repository-IsRepository.0

get_converters_for_deserialization-Implements_example :
    Implements
      (λ s. candidates by_wire_schema [] s doubled)
      (get_converters_for_deserialization [] doubled)
get_converters_for_deserialization-Implements_example =
    get_converters_for_deserialization-Implements [] doubled doubled-IsRepository.0

abbrev serializers : UnambiguousConverterMap Payload
serializers = (bytes "bool", bools) ∷ (bytes "unsigned int", words) ∷ []

abbrev deserializers : UnambiguousConverterMap Payload
deserializers = (bytes "bool", bools) ∷ (bytes "uint32", words) ∷ []

look_up-look_up_example : look_up (bytes "uint32") deserializers ≡ ok words
unfolding look_up get_converters_for_serialization get_converters_for_deserialization collect
    consider add_converter find insert text_eq text_lt
look_up-look_up_example =
    look_up-look_up [] [] repository (bytes "unsigned int") words repository-IsRepository refl refl
      refl refl

integer_converter-eq_example :
    (words.serialize (bytes "unsigned int", number 258) ≡ ok (bytes "uint32", 2 ∷ 1 ∷ 0 ∷ 0 ∷ []))
    × (words.deserialize (bytes "uint32") (2 ∷ 1 ∷ 0 ∷ 0 ∷ [])
        ≡ ok (bytes "unsigned int", number 258))
    × (length {A = ℕ} (2 ∷ 1 ∷ 0 ∷ 0 ∷ []) ≡ 4)
    × All {A = ℕ} (λ b. b < 2 ^ 8) (2 ∷ 1 ∷ 0 ∷ 0 ∷ [])
unfolding write_bytes
integer_converter-eq_example =
    integer_converter-eq 4 (bytes "uint32") (bytes "unsigned int") 258 (omega arith)
