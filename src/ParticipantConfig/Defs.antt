-- ===== src/ParticipantConfig/Defs.antt =====
-- The configuration objects and handleOption. A call that throws leaves what it has changed before.
use rsb_cpp.Prelude.{
  Bool, true, List, [], ◌∷◌, Option, none, some, if◌then◌else◌, Text, bytes, text_eq, Result, ok,
  err, ◌||◌,
}
use rsb_cpp.Maps.{Map, find, insert, erase, text_ord}
use rsb_cpp.ParticipantConfig.Library.{Runtime}
use rsb_cpp.ParticipantConfig.Transports.{
  ConfigError, invalid_argument, bad_lexical_cast, no_such_object, undefined, Transport,
  EventProcessingStrategy, is_enabled, new_transport, handle_transport_option,
  handle_strategy_option,
}

-- QualityOfServiceSpec.h
pub data Ordering : Type 0 where
  unordered ordered : Ordering

pub data Reliability : Type 0 where
  unreliable reliable : Reliability

pub record QualityOfServiceSpec : Type 0 where
  pub ordering : Ordering
  pub reliability : Reliability

-- QualityOfServiceSpec::QualityOfServiceSpec()
abbrev pub default_quality : QualityOfServiceSpec
default_quality = record { ordering = unordered; reliability = reliable }

pub data ErrorStrategy : Type 0 where
  log print exit : ErrorStrategy

module _ (lib : Runtime) where
  open lib use {Properties, no_properties, assign, get_bool, print_bool, read_bool}

  pub record ParticipantConfig : Type 0 where
    pub quality : QualityOfServiceSpec
    pub error_strategy : ErrorStrategy
    pub transports : Map Text (Transport lib)
    pub receiving : (EventProcessingStrategy lib)
    pub sending : (EventProcessingStrategy lib)
    pub introspection : Bool
    pub options : Properties

  -- ParticipantConfig::ParticipantConfig()
  unfoldable pub default_config : ParticipantConfig
  default_config = record {
    quality = default_quality;
    error_strategy = log;
    transports = [];
    receiving = record { name = bytes "parallel"; options = no_properties };
    sending = record { name = bytes "direct"; options = no_properties };
    introspection = true;
    options = no_properties;
  }

  unfoldable pub get_transport : Text → ParticipantConfig → Result ConfigError (Transport lib)
  get_transport name c = elim (find name c.transports) [ none ↦ err no_such_object | some t ↦ ok t ]

  unfoldable pub add_transport : (Transport lib) → ParticipantConfig → ParticipantConfig
  add_transport t c = record c { transports = insert t.name t (erase t.name c.transports) }

  unfoldable pub remove_transport : (Transport lib) → ParticipantConfig → ParticipantConfig
  remove_transport t c = record c { transports = erase t.name c.transports }

  -- set<Transport>::insert: the order of the names, and no replacement
  unfoldable pub insert_transport :
      (Transport lib) → Map Text (Transport lib) → Map Text (Transport lib)
  insert_transport t result = elim (find t.name result) [
    | none ↦ insert t.name t result
    | some u ↦ result
  ]

  -- The loop of getTransports; the set is a map from the names here.
  unfoldable pub enabled_loop :
      Bool
      → Map Text (Transport lib)
      → Map Text (Transport lib)
      → Result ConfigError (Map Text (Transport lib))
  unfolding insert_transport
  enabled_loop include_disabled [] result = ok result
  enabled_loop include_disabled ((key, t) ∷ m) result =
      let with_it = enabled_loop include_disabled m (insert_transport t result) in
      let without = enabled_loop include_disabled m result in
      elim (is_enabled lib t) [
        | none ↦ err bad_lexical_cast
        | some enabled ↦ if enabled || include_disabled then with_it else without
      ]

  unfoldable pub get_transports :
      Bool → ParticipantConfig → Result ConfigError (Map Text (Transport lib))
  unfolding enabled_loop
  get_transports include_disabled c = enabled_loop include_disabled c.transports []

  unfoldable pub refill : List (Transport lib) → Map Text (Transport lib) → Map Text (Transport lib)
  unfolding insert_transport
  refill [] m = m
  refill (t ∷ ts) m = refill ts (insert_transport t m)

  unfoldable pub set_transports : List (Transport lib) → ParticipantConfig → ParticipantConfig
  unfolding refill
  set_transports ts c = record c { transports = refill ts [] }

  -- The configuration after the call, and what it threw.
  abbrev pub Outcome : Type 0
  Outcome = ParticipantConfig × Option ConfigError

  abbrev pub done : ParticipantConfig → Outcome
  done c = (c, none)

  abbrev pub throw : ParticipantConfig → ConfigError → Outcome
  throw c e = (c, some e)

  -- The branches of handleOption, each with the key behind its first component.
  unfoldable pub quality_option : List Text → Text → ParticipantConfig → Outcome
  quality_option [] value c = throw c invalid_argument
  quality_option (k ∷ l ∷ key) value c = throw c invalid_argument
  quality_option (k ∷ []) value c =
      if text_eq k (bytes "reliability")
      then (if text_eq value (bytes "UNRELIABLE")
          then done (record c { quality = record c.quality { reliability = unreliable } })
          else if text_eq value (bytes "RELIABLE")
          then done (record c { quality = record c.quality { reliability = reliable } })
          else throw c invalid_argument)
      else if text_eq k (bytes "ordering")
      then (if text_eq value (bytes "UNORDERED")
          then done (record c { quality = record c.quality { ordering = unordered } })
          else if text_eq value (bytes "ORDERED")
          then done (record c { quality = record c.quality { ordering = ordered } })
          else throw c invalid_argument)
      else done c

  unfoldable pub error_option : List Text → Text → ParticipantConfig → Outcome
  error_option [] value c = throw c undefined
  error_option (k ∷ key) value c =
      if text_eq k (bytes "onhandlererror")
      then (if text_eq value (bytes "LOG")
          then done (record c { error_strategy = log })
          else if text_eq value (bytes "PRINT")
          then done (record c { error_strategy = print })
          else if text_eq value (bytes "EXIT")
          then done (record c { error_strategy = exit })
          else throw c invalid_argument)
      else done c

  -- setName for the key without more, handleOption of the strategy for the others
  unfoldable pub strategy_option :
      List Text
      → Text
      → (EventProcessingStrategy lib)
      → Result ConfigError (EventProcessingStrategy lib)
  unfolding handle_strategy_option
  strategy_option [] value s = ok (record s { name = value })
  strategy_option (k ∷ key) value s = handle_strategy_option lib (k ∷ key) value s

  unfoldable pub set_receiving :
      ParticipantConfig → Result ConfigError (EventProcessingStrategy lib) → Outcome
  set_receiving c (ok s) = done (record c { receiving = s })
  set_receiving c (err e) = throw c e

  unfoldable pub set_sending :
      ParticipantConfig → Result ConfigError (EventProcessingStrategy lib) → Outcome
  set_sending c (ok s) = done (record c { sending = s })
  set_sending c (err e) = throw c e

  unfoldable pub processing_option : List Text → Text → ParticipantConfig → Outcome
  unfolding strategy_option set_receiving set_sending
  processing_option [] value c = throw c undefined
  processing_option (k ∷ key) value c =
      if text_eq k (bytes "receivingstrategy")
      then set_receiving c (strategy_option key value c.receiving)
      else if text_eq k (bytes "sendingstrategy")
      then set_sending c (strategy_option key value c.sending)
      else throw c invalid_argument

  unfoldable pub set_introspection : ParticipantConfig → Option Bool → Outcome
  set_introspection c none = throw c bad_lexical_cast
  set_introspection c (some b) = done (record c { introspection = b })

  unfoldable pub introspection_option : List Text → Text → ParticipantConfig → Outcome
  unfolding set_introspection
  introspection_option [] value c = done c
  introspection_option (k ∷ l ∷ key) value c = done c
  introspection_option (k ∷ []) value c =
      if text_eq k (bytes "enabled") then set_introspection c (read_bool value) else done c

  -- `transport.handleOption(subKey, value)` on the entry of the map
  unfoldable pub update_transport :
      Text → ParticipantConfig → Result ConfigError (Transport lib) → Outcome
  update_transport name c (ok t) = done (record c { transports = insert name t c.transports })
  update_transport name c (err e) = throw c e

  -- With the transport that `find` gives, or a new one, which stays in the map whatever follows.
  unfoldable pub configure_transport :
      Text → List Text → Text → ParticipantConfig → Option (Transport lib) → Outcome
  unfolding update_transport handle_transport_option
  configure_transport name key value c (some t) =
      update_transport name c (handle_transport_option lib key value t)
  configure_transport name key value c none = elim (new_transport lib name true) [
    | err e ↦ throw c e
    | ok t ↦ update_transport name (add_transport t c) (handle_transport_option lib key value t)
  ]

  unfoldable pub transport_option : List Text → Text → ParticipantConfig → Outcome
  unfolding configure_transport
  transport_option [] value c = throw c invalid_argument
  transport_option (name ∷ []) value c = throw c invalid_argument
  transport_option (name ∷ k ∷ key) value c =
      configure_transport name (k ∷ key) value c (find name c.transports)

  unfoldable pub global_option : Text → List Text → Text → ParticipantConfig → Outcome
  global_option k [] value c = done (record c { options = assign k value c.options })
  global_option k (l ∷ key) value c = done c

  -- ParticipantConfig::handleOption
  unfoldable pub handle_option : List Text → Text → ParticipantConfig → Outcome
  unfolding global_option
  handle_option [] value c = throw c undefined
  handle_option (k ∷ key) value c =
      if text_eq k (bytes "qualityofservice")
      then quality_option key value c
      else if text_eq k (bytes "errorhandling")
      then error_option key value c
      else if text_eq k (bytes "eventprocessing")
      then processing_option key value c
      else if text_eq k (bytes "introspection")
      then introspection_option key value c
      else if text_eq k (bytes "transport")
      then transport_option key value c
      else global_option k key value c
