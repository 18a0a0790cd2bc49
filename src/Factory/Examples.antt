-- ===== src/Factory/Examples.antt =====
-- The theorems on the factory: properties as maps of texts, and converters of texts.
use rsb_cpp.Prelude.{
  ◌≡◌, refl, true, false, Bool, List, [], ◌∷◌, some, none, Option, bytes, Text, text_eq, text_lt,
  if◌then◌else◌,
}
use rsb_cpp.Maps.{Map, find, insert, erase, text_ord, find-insert}
use rsb_cpp.Converters.{
  Converter, Repository, signature_ord, look_up, get_converter, get_converters_for_serialization,
  get_converters_for_deserialization, collect, consider, add_converter,
}
use rsb_cpp.Converters.Basic.{Payload, string_converter}
use rsb_cpp.ParticipantConfig.{
  Runtime, Transport, is_enabled, new_transport, set_enabled, add_transport, default_config,
  get_transports, enabled_loop, insert_transport,
}
use rsb_cpp.Factory.{
  add_available, enable_only, initial_config, selection_loop, converter_selection_to_map,
  converters_for,
}
use rsb_cpp.Factory.Selection.{look_up-converters_for}
use rsb_cpp.Factory.Defaults.{ReadsEnabled, initial_config-socket}

abbrev digit : Bool → Text
digit true = bytes "1"
digit false = bytes "0"

abbrev of_digit : Text → Option Bool
of_digit t =
    if text_eq t (bytes "1") then some true else if text_eq t (bytes "0") then some false else none

abbrev get_digit : Text → Bool → Map Text Text → Option Bool
get_digit key default m = elim (find key m) [ none ↦ some default | some t ↦ of_digit t ]

abbrev lib : Runtime
lib = record {
  Properties = Map Text Text;
  no_properties = [];
  assign = insert;
  get_bool = get_digit;
  print_bool = digit;
  read_bool = of_digit;
}

read_back : (value : Bool) → of_digit (digit value) ≡ some value
unfolding text_eq
read_back true = refl
read_back false = refl

written_digit :
    (value : Bool) (p : Map Text Text)
    → get_digit (bytes "enabled") true (insert (bytes "enabled") (digit value) p) ≡ some value
unfolding text_eq
written_digit value p =
    let there : find (bytes "enabled") (insert (bytes "enabled") (digit value) p)
        ≡ some (digit value) =
      find-insert (bytes "enabled") (bytes "enabled") (digit value) p in
    rw (get_digit, there) (read_back value)

reads : ReadsEnabled lib
unfolding find
reads = record { fresh = refl; written = written_digit }

abbrev inprocess : Transport lib
inprocess = record {
  name = bytes "inprocess";
  converters = [];
  options = (bytes "enabled", bytes "0") ∷ [];
}

-- The only transport there is, and it is not enabled.
initial_config-socket_example : is_enabled lib inprocess ≡ some false
unfolding initial_config default_config get_transports add_available enable_only new_transport
    set_enabled add_transport is_enabled enabled_loop insert_transport find insert erase text_eq
    text_lt
initial_config-socket_example =
    initial_config-socket lib (bytes "inprocess" ∷ [])
      (record (default_config lib) { transports = (bytes "inprocess", inprocess) ∷ [] })
      (bytes "inprocess") reads refl refl

abbrev texts : Converter Payload
texts = string_converter (bytes "std::string")

abbrev repository : Repository Payload
repository = ((bytes "utf-8-string", bytes "std::string"), texts) ∷ []

abbrev pairs : List (Text × Text)
pairs = (bytes "utf-8-string", bytes "std::string") ∷ []

look_up-converters_for_example :
    (look_up (bytes "std::string") ((bytes "std::string", texts) ∷ [])
      ≡ get_converter (bytes "utf-8-string", bytes "std::string") repository)
    × (look_up (bytes "utf-8-string") ((bytes "utf-8-string", texts) ∷ [])
        ≡ get_converter (bytes "utf-8-string", bytes "std::string") repository)
unfolding converters_for converter_selection_to_map selection_loop get_converters_for_serialization
    get_converters_for_deserialization collect consider add_converter find insert text_eq text_lt
look_up-converters_for_example =
    look_up-converters_for pairs repository (bytes "utf-8-string") (bytes "std::string") (tt, tt)
      (tt, tt) refl refl refl
