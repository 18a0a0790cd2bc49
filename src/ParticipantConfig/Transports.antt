-- ===== src/ParticipantConfig/Transports.antt =====
-- The classes Transport and EventProcessingStrategy of src/rsb/ParticipantConfig.h, with their options.
use rsb_cpp.Prelude.{
  Bool, true, false, List, [], ◌∷◌, Option, if◌then◌else◌, is_empty, Text, bytes, text_eq, Result,
  ok, err,
}
use rsb_cpp.Maps.Pairs.{pair_beq, pair_lt}
use rsb_cpp.Maps.{text_ord}
use rsb_cpp.ParticipantConfig.Library.{Runtime}

-- What handleOption and the accessors throw. `undefined` is no exception: it is a read behind the
-- end of the key, which C++ leaves undefined.
pub data ConfigError : Type 0 where
  invalid_argument bad_lexical_cast no_such_object undefined : ConfigError

module _ (lib : Runtime) where
  open lib use {Properties, no_properties, assign, get_bool, print_bool, read_bool}

  -- `converters` is a set of pairs of a wire-schema and a data-type.
  pub record Transport : Type 0 where
    pub name : Text
    pub converters : List (Text × Text)
    pub options : Properties

  pub record EventProcessingStrategy : Type 0 where
    pub name : Text
    pub options : Properties

  unfoldable pub is_enabled : Transport → Option Bool
  is_enabled t = get_bool (bytes "enabled") true t.options

  unfoldable pub set_enabled : Bool → Transport → Transport
  set_enabled value t = record t { options = assign (bytes "enabled") (print_bool value) t.options }

  -- Transport::Transport
  unfoldable pub new_transport : Text → Bool → Result ConfigError Transport
  unfolding set_enabled
  new_transport name enabled =
      let t : Transport = record { name = name; converters = []; options = no_properties } in
      if is_empty name
      then err invalid_argument
      else ok (if enabled then t else set_enabled false t)

  -- set::insert of a pair
  unfoldable pub insert_converter : Text × Text → List (Text × Text) → List (Text × Text)
  insert_converter p [] = p ∷ []
  insert_converter p (q ∷ qs) =
      let rest = insert_converter p qs in
      if pair_beq q p then q ∷ qs else if pair_lt p q then p ∷ q ∷ qs else q ∷ rest

  unfoldable pub plain_option : List Text → Text → Transport → Result ConfigError Transport
  plain_option (k ∷ []) value t = ok (record t { options = assign k value t.options })
  plain_option [] value t = err invalid_argument
  plain_option (k ∷ l ∷ key) value t = err invalid_argument

  -- The rest of the key behind "converter".
  unfoldable pub converter_option : List Text → Text → Transport → Result ConfigError Transport
  unfolding insert_converter
  converter_option [] value t = plain_option (bytes "converter" ∷ []) value t
  converter_option (language ∷ []) value t =
      if text_eq language (bytes "cpp") then err invalid_argument else ok t
  converter_option (language ∷ schema ∷ []) value t =
      if text_eq language (bytes "cpp")
      then ok (record t { converters = insert_converter (schema, value) t.converters })
      else ok t
  converter_option (language ∷ schema ∷ more ∷ key) value t =
      if text_eq language (bytes "cpp") then err invalid_argument else ok t

  -- Transport::handleOption
  unfoldable pub handle_transport_option :
      List Text → Text → Transport → Result ConfigError Transport
  unfolding plain_option converter_option
  handle_transport_option [] value t = plain_option [] value t
  handle_transport_option (k ∷ key) value t =
      if text_eq k (bytes "converter")
      then converter_option key value t
      else plain_option (k ∷ key) value t

  -- EventProcessingStrategy::handleOption
  unfoldable pub handle_strategy_option :
      List Text → Text → EventProcessingStrategy → Result ConfigError EventProcessingStrategy
  handle_strategy_option (k ∷ []) value s = ok (record s { options = assign k value s.options })
  handle_strategy_option [] value s = err invalid_argument
  handle_strategy_option (k ∷ l ∷ key) value s = err invalid_argument
