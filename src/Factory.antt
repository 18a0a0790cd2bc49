-- ===== src/Factory.antt =====
-- src/rsb/Factory.cpp: the converters and the connectors of a participant, and the default configuration.
-- The registry of transports, their constructors and the properties' own operations are arguments.
pub mod Selection
pub mod Defaults
pub mod Examples
use rsb_cpp.Prelude.{
  Bool, true, false, not, ◌&&◌, ◌==◌, length, List, [], ◌∷◌, Option, none, some, if◌then◌else◌,
  Text, bytes, text_eq, Result, ok, err, ◌>>=◌,
}
use rsb_cpp.Maps.{Map, find, insert, text_ord}
use rsb_cpp.Converters.{
  ConverterError, invalid_argument, Repository, UnambiguousConverterMap,
  get_converters_for_serialization, get_converters_for_deserialization,
}
use rsb_cpp.ParticipantConfig.{
  Runtime, Transport, ConfigError, no_such_object, new_transport, set_enabled, ParticipantConfig,
  add_transport, default_config, get_transports,
}

pub data ConverterDirection : Type 0 where
  serialization deserialization : ConverterDirection

-- The loop of converterSelectionToMap over the pairs of a wire-schema and a data-type.
unfoldable pub selection_loop :
    ConverterDirection → List (Text × Text) → Map Text Text → Result ConverterError (Map Text Text)
selection_loop direction [] result = ok result
selection_loop deserialization ((schema, type) ∷ rest) result =
    selection_loop deserialization rest (insert schema type result)
selection_loop serialization ((schema, type) ∷ rest) result =
    let added = selection_loop serialization rest (insert type schema result) in
    elim (find type result) [ none ↦ added | some chosen ↦ err invalid_argument ]

unfoldable pub converter_selection_to_map :
    List (Text × Text) → ConverterDirection → Result ConverterError (Map Text Text)
unfolding selection_loop
converter_selection_to_map pairs direction = selection_loop direction pairs []

-- The strategy for a direction and the pairs of a configuration.
unfoldable pub converters_for :
    {Data : Type 0}
    → ConverterDirection
    → List (Text × Text)
    → Repository Data
    → Result ConverterError (UnambiguousConverterMap Data)
unfolding converter_selection_to_map
converters_for serialization pairs r =
    converter_selection_to_map pairs serialization >>= λ selection.
    get_converters_for_serialization selection r
converters_for deserialization pairs r =
    converter_selection_to_map pairs deserialization >>= λ selection.
    get_converters_for_deserialization selection r

module _ {Data : Type 0} (lib : Runtime) (is_remote : Text → Bool)
    (has : Text → lib.Properties → Bool)
    (set_converters : UnambiguousConverterMap Data → lib.Properties → lib.Properties) where
  unfoldable pub prepare_connector_options :
      Repository Data → Transport lib → ConverterDirection → Result ConverterError lib.Properties
  unfolding converters_for
  prepare_connector_options r t direction =
      if is_remote t.name && not (has (bytes "converters") t.options)
      then (converters_for direction t.converters r >>= λ converters.
          ok (set_converters converters t.options))
      else ok t.options

  -- The loop of createInPullConnectors, createInPushConnectors and createOutConnectors over the enabled
  -- transports; the error is that of a connector with its transport's name.
  unfoldable pub create_connectors {ℓ} :
      {Connector : Type ℓ}
      → Repository Data
      → ConverterDirection
      → (Text → lib.Properties → Result ConverterError Connector)
      → Map Text (Transport lib)
      → Result (Text × ConverterError) (List Connector)
  unfolding prepare_connector_options
  create_connectors r direction create_inst [] = ok []
  create_connectors r direction create_inst ((name, t) ∷ rest) =
      let others = create_connectors r direction create_inst rest in
      elim (prepare_connector_options r t direction >>= λ options. create_inst t.name options) [
        | err e ↦ err (t.name, e)
        | ok c ↦ others >>= λ cs. ok (c ∷ cs)
      ]

module _ (lib : Runtime) where
  -- The loop of the constructor over the names of the available transports.
  unfoldable pub add_available :
      List Text → ParticipantConfig lib → Result ConfigError (ParticipantConfig lib)
  add_available [] c = ok c
  add_available (name ∷ names) c = new_transport lib name (text_eq name (bytes "socket")) >>= λ t.
      add_available names (add_transport lib t c)

  -- "If there is only one transport, we can blindly enable it".
  unfoldable pub enable_only :
      ParticipantConfig lib → Map Text (Transport lib) → Result ConfigError (ParticipantConfig lib)
  enable_only c [] = ok c
  enable_only c ((key, t) ∷ []) = elim (find t.name c.transports) [
    | none ↦ err no_such_object
    | some u ↦ ok (record c { transports = insert t.name (set_enabled lib true u) c.transports })
  ]
  enable_only c (s ∷ t ∷ rest) = ok c

  -- The default configuration, in front of the user's.
  unfoldable pub initial_config : List Text → Result ConfigError (ParticipantConfig lib)
  unfolding add_available enable_only
  initial_config names = add_available names (default_config lib) >>= λ c.
      get_transports lib false c >>= λ enabled. enable_only c enabled
