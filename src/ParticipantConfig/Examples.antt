-- ===== src/ParticipantConfig/Examples.antt =====
-- The theorems of the configuration at concrete options.
use rsb_cpp.Prelude.{
  ◌≡◌, refl, Bool, true, false, List, [], ◌∷◌, Option, none, some, Text, bytes, text_eq,
  if◌then◌else◌,
}
use rsb_cpp.Maps.{Map, text_ord, find, insert, erase}
use rsb_cpp.ParticipantConfig.Library.{Runtime}
use rsb_cpp.ParticipantConfig.Transports.{invalid_argument, new_transport}
use rsb_cpp.ParticipantConfig.Defs.{
  ParticipantConfig, default_config, handle_option, transport_option, add_transport,
}
use rsb_cpp.ParticipantConfig.Errors.{Rest, handle_option-throws}
use rsb_cpp.ParticipantConfig.Frame.{IsConsistent}

abbrev digit : Bool → Text
digit true = bytes "1"
digit false = bytes "0"

abbrev of_digit : Text → Option Bool
of_digit t =
    if text_eq t (bytes "1") then some true else if text_eq t (bytes "0") then some false else none

abbrev get_digit : Text → Bool → Map Text Text → Option Bool
get_digit key default m = elim (find key m) [ none ↦ some default | some t ↦ of_digit t ]

abbrev lib : Runtime
lib = record {
  Properties = Map Text Text;
  no_properties = [];
  assign = insert;
  get_bool = get_digit;
  print_bool = digit;
  read_bool = of_digit;
}

abbrev start : ParticipantConfig lib
start = default_config lib

abbrev bad_key : List Text
bad_key = bytes "transport" ∷ bytes "spread" ∷ bytes "converter" ∷ bytes "cpp" ∷ []

bad_key-throws : (handle_option lib bad_key (bytes "x") start).1 ≡ some invalid_argument
unfolding handle_option default_config text_eq find insert erase add_transport transport_option
    new_transport
bad_key-throws = refl

handle_option-throws_example : Rest lib start (handle_option lib bad_key (bytes "x") start).0
handle_option-throws_example =
    handle_option-throws lib bad_key (bytes "x") start invalid_argument bad_key-throws

start-IsConsistent : IsConsistent lib start
unfolding default_config
start-IsConsistent = tt
