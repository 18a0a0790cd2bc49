-- ===== src/SocketConnectors.antt =====
-- src/rsb/transport/socket/ConnectorBase.cpp, InConnector.cpp, OutConnector.cpp, InPushConnector.cpp and
-- InPullConnector.cpp: what stands between an event and the bus. The strategy of converters, the
-- bus of the factory and the clock are arguments.
pub mod Delivery
pub mod Examples
use rsb_cpp.Prelude.{
  ℕ, ◌≡◌, refl, Bool, true, false, not, List, [], ◌∷◌, ◌++◌, Option, none, some, if◌then◌else◌,
  Text, bytes, Result, ok, err, ◌>>=◌,
}
use rsb_cpp.Scope.{Scope, root}
use rsb_cpp.MetaData.{MetaData, set_send_time, set_receive_time, set_user_info, get_user_info}
use rsb_cpp.Event.{Event, set_data, set_type, set_meta_data}
use rsb_cpp.Converters.{Converter, ConverterError, invalid_argument, runtime_error, undefined}

-- ConverterSelectionStrategy<std::string>::getConverter
abbrev pub Strategy : Type 0 → Type 0
Strategy Payload = Text → Result ConverterError (Converter (Option Payload))

-- ConnectorBase, of a bus that is known by a handle; `queue` is that of an InPullConnector.
pub record Connector (Bus Uuid Payload : Type 0) : Type 0 where
  pub active : Bool
  pub scope : Scope
  pub bus : Option Bus
  pub queue : List (Event Uuid Payload)

module _ {Bus Uuid Payload : Type 0} where
  abbrev pub new_connector : Connector Bus Uuid Payload
  new_connector = record { active = false; scope = root; bus = none; queue = [] }

  unfoldable pub set_connector_scope :
      Scope → Connector Bus Uuid Payload → Result ConverterError (Connector Bus Uuid Payload)
  set_connector_scope s c = if c.active then err runtime_error else ok (record c { scope = s })

  -- ConnectorBase::activate, with what the factory answers for the options of the connector.
  unfoldable pub activate :
      Result ConverterError Bus
      → Connector Bus Uuid Payload
      → Result ConverterError (Connector Bus Uuid Payload)
  activate (ok b) c = ok (record c { bus = some b; active = true })
  activate (err e) c = err e

  -- ConnectorBase::deactivate
  unfoldable pub deactivate : Connector Bus Uuid Payload → Connector Bus Uuid Payload
  deactivate c = record c { active = false; bus = none }

module _ {Uuid : Type 0} where
  -- The payload of the intermediate event.
  abbrev pub wire_data : Event Uuid Text → Result ConverterError Text
  wire_data e = elim e.content [ none ↦ err undefined | some wire ↦ ok wire ]

  abbrev pub wire_schema_of : Event Uuid Text → Result ConverterError Text
  wire_schema_of e = elim (get_user_info (bytes "rsb.wire-schema") e.meta_data) [
    | none ↦ err invalid_argument
    | some schema ↦ ok schema
  ]

  -- The copy of an event with a payload of another type.
  abbrev pub copy_with : {Old New : Type 0} → Option New → Event Uuid Old → Event Uuid New
  copy_with value e = record {
    id = e.id;
    scope = e.scope;
    content = value;
    type = e.type;
    method = e.method;
    causes = e.causes;
    meta_data = e.meta_data;
  }

module _ {Uuid Payload : Type 0} where
  -- The value with the name of its type.
  abbrev pub annotated : Event Uuid Payload → Text × Option Payload
  annotated e = (e.type, e.content)

  -- OutConnector::handle: the event, which is shared with the caller, with its new time, and the event
  -- that is handed to the bus.
  unfoldable pub out_handle :
      Strategy Payload
      → ℕ
      → Event Uuid Payload
      → Result ConverterError (Event Uuid Payload × Event Uuid Text)
  out_handle get_converter now e =
      let sent = set_meta_data (set_send_time now 0 e.meta_data) e in
      get_converter sent.type >>= λ c. c.serialize (annotated sent) >>= λ (schema, wire). ok (
        sent,
        set_meta_data (set_user_info (bytes "rsb.wire-schema") schema sent.meta_data)
            (copy_with (some wire) sent),
      )

  -- The part of InPushConnector::handle and InPullConnector::handle in front of the handlers and of the
  -- queue: the event with its payload deserialized.
  unfoldable pub in_handle :
      Strategy Payload → ℕ → Bool → Event Uuid Text → Result ConverterError (Event Uuid Payload)
  in_handle get_converter now active bus_event =
      if active
      then (wire_schema_of bus_event >>= λ schema. get_converter schema >>= λ c.
          wire_data bus_event >>= λ wire. c.deserialize schema wire >>= λ (type, value). ok (
            set_type type (
              set_meta_data (set_receive_time now 0 bus_event.meta_data)
                (copy_with value bus_event))))
      else err runtime_error

-- The loop over the handlers, each of which returns the next state.
unfoldable pub notify_all {ℓ} :
    {Item : Type 0} {State : Type ℓ} → List (Item → State → State) → Item → State → State
notify_all [] e state = state
notify_all (handler ∷ rest) e state = notify_all rest e (handler e state)

module _ {Bus Uuid Payload : Type 0} where
  -- InPullConnector::handle
  unfoldable pub pull_handle :
      Strategy Payload
      → ℕ
      → Event Uuid Text
      → Connector Bus Uuid Payload
      → Result ConverterError (Connector Bus Uuid Payload)
  unfolding in_handle
  pull_handle get_converter now bus_event c =
      in_handle get_converter now c.active bus_event >>= λ e.
      ok (record c { queue = c.queue ++ e ∷ [] })

  -- InPullConnector::raiseEvent that does not block: `none` is a null pointer.
  unfoldable pub raise_event :
      Connector Bus Uuid Payload → Option (Event Uuid Payload) × Connector Bus Uuid Payload
  raise_event c = elim c.queue [ [] ↦ (none, c) | e ∷ rest ↦ (some e, record c { queue = rest }) ]

  -- InPushConnector::handle: the event goes to each handler in turn.
  unfoldable pub push_handle {ℓ} :
      {State : Type ℓ}
      → Strategy Payload
      → ℕ
      → List (Event Uuid Payload → State → State)
      → Event Uuid Text
      → Connector Bus Uuid Payload
      → State
      → Result ConverterError State
  unfolding in_handle notify_all
  push_handle get_converter now handlers bus_event c state =
      in_handle get_converter now c.active bus_event >>= λ e. ok (notify_all handlers e state)
