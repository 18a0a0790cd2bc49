-- ===== src/Converters/Basic.antt =====
-- src/rsb/converter/*Converter.cpp: the converters of simple types. The value behind AnnotatedData's
-- shared_ptr<void> is a Payload; a static cast to another type is `undefined`, a failed assertion is
-- `bad_assertion`. The name that typeName gives a type is an argument.
use rsb_cpp.Prelude.{
  ℕ, zero, suc, ◌+◌, ◌*◌, ◌/◌, ◌%◌, ◌^◌, Bool, true, false, ◌&&◌, [], ◌∷◌, Text, bytes, text_eq,
  Result, ok, err, ◌>>=◌, if◌then◌else◌, ◌==◌, length,
}
use rsb_cpp.Scope.{Scope, parse, SyntaxError}
use rsb_cpp.Converters.{
  Converter, ConverterError, runtime_error, invalid_argument, bad_assertion, undefined,
}

-- A number stands for the object's bits, so that a signed one is in two's complement.
pub data Payload : Type 0 where
  nothing : Payload
  boolean : Bool → Payload
  number : ℕ → Payload
  string : Text → Payload
  scope : Scope → Payload
  schema_and_bytes : Text → Text → Payload

abbrev pub asserting {ℓ} : {A : Type ℓ} → Bool → Result ConverterError A → Result ConverterError A
asserting holds r = if holds then r else err bad_assertion

-- BoolConverter
unfoldable pub bool_to_wire : Payload → Result ConverterError Text
bool_to_wire (boolean b) = ok ((if b then 1 else 0) ∷ [])
bool_to_wire _ = err undefined

unfoldable pub bool_from_wire : Text → Result ConverterError Payload
bool_from_wire wire =
    if length wire == 1 && text_eq wire (0 ∷ [])
    then ok (boolean false)
    else if length wire == 1 && text_eq wire (1 ∷ [])
    then ok (boolean true)
    else err runtime_error

abbrev pub bool_converter : Text → Converter Payload
bool_converter type_name = record {
  wire_schema = bytes "bool";
  data_type = type_name;
  serialize =
      λ d. asserting (text_eq d.0 type_name) (bool_to_wire d.1 >>= λ wire. ok (bytes "bool", wire));
  deserialize = λ schema wire.
      asserting (text_eq schema (bytes "bool")) (bool_from_wire wire >>= λ v. ok (type_name, v));
}

-- `wire[i] = (unsigned char) (*number >> (i * 8))` for the bytes from the i-th on
unfoldable pub write_bytes : ℕ → ℕ → ℕ → Text
write_bytes zero i n = []
write_bytes (suc k) i n = n / 2 ^ (i * 8) % 2 ^ 8 ∷ write_bytes k (suc i) n

-- `*number |= (T) wire[i] << (i * 8)`; the shifted bytes share no bit, so that `|` adds them.
unfoldable pub read_bytes : ℕ → Text → ℕ → ℕ
read_bytes i [] n = n
read_bytes i (b ∷ wire) n = read_bytes (suc i) wire (n + b * 2 ^ (i * 8))

-- IntegerConverter<T> for a T of that many bytes
unfoldable pub integer_to_wire : ℕ → Payload → Result ConverterError Text
unfolding write_bytes
integer_to_wire size (number n) = ok (write_bytes size 0 n)
integer_to_wire size _ = err undefined

unfoldable pub integer_from_wire : ℕ → Text → Result ConverterError Payload
unfolding read_bytes
integer_from_wire size wire = asserting (length wire == size) (ok (number (read_bytes 0 wire 0)))

abbrev pub integer_converter : ℕ → Text → Text → Converter Payload
integer_converter size schema type_name = record {
  wire_schema = schema;
  data_type = type_name;
  serialize = λ d.
      asserting (text_eq d.0 type_name) (integer_to_wire size d.1 >>= λ wire. ok (schema, wire));
  deserialize = λ s wire.
      asserting (text_eq s schema) (integer_from_wire size wire >>= λ v. ok (type_name, v));
}

-- StringConverter
unfoldable pub string_to_wire : Payload → Result ConverterError Text
string_to_wire (string s) = ok s
string_to_wire _ = err undefined

abbrev pub string_converter : Text → Converter Payload
string_converter type_name = record {
  wire_schema = bytes "utf-8-string";
  data_type = type_name;
  serialize = λ d.
      asserting (text_eq d.0 type_name)
        (string_to_wire d.1 >>= λ wire. ok (bytes "utf-8-string", wire));
  deserialize = λ schema wire.
      asserting (text_eq schema (bytes "utf-8-string")) (ok (type_name, string wire));
}

-- ScopeConverter
unfoldable pub scope_to_wire : Payload → Result ConverterError Text
scope_to_wire (scope s) = ok s.scopestring
scope_to_wire _ = err undefined

abbrev pub parsed : Result SyntaxError Scope → Result ConverterError Payload
parsed (ok s) = ok (scope s)
parsed (err e) = err invalid_argument

abbrev pub scope_converter : Text → Converter Payload
scope_converter type_name = record {
  wire_schema = bytes "scope";
  data_type = type_name;
  serialize = λ d.
      asserting (text_eq d.0 type_name) (scope_to_wire d.1 >>= λ wire. ok (bytes "scope", wire));
  deserialize = λ schema wire.
      asserting (text_eq schema (bytes "scope")) (parsed (parse wire) >>= λ v. ok (type_name, v));
}

-- SchemaAndByteArrayConverter, which passes the wire through
unfoldable pub raw_to_wire : Payload → Result ConverterError (Text × Text)
raw_to_wire (schema_and_bytes schema wire) = ok (schema, wire)
raw_to_wire _ = err undefined

abbrev pub schema_and_byte_array_converter : Converter Payload
schema_and_byte_array_converter = record {
  wire_schema = bytes "any";
  data_type = bytes "schemaandbytearray";
  serialize = λ d. raw_to_wire d.1;
  deserialize = λ schema wire. ok (bytes "schemaandbytearray", schema_and_bytes schema wire);
}

-- ByteArrayConverter, which only deserializes
abbrev pub byte_array_converter : Converter Payload
byte_array_converter = record {
  wire_schema = bytes ".*";
  data_type = bytes "bytearray";
  serialize = λ d. err runtime_error;
  deserialize = λ schema wire. ok (bytes "bytearray", string wire);
}

-- VoidConverter
abbrev pub void_converter : Text → Converter Payload
void_converter type_name = record {
  wire_schema = bytes "void";
  data_type = type_name;
  serialize = λ d. ok (bytes "void", []);
  deserialize = λ schema wire. ok (type_name, nothing);
}
