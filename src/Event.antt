-- ===== src/Event.antt =====
-- src/rsb/EventId.cpp and src/rsb/Event.cpp: identified events and their causes. A scope pointer is
-- never null here, and the cached UUID of an id is left out.
pub mod Ids
pub mod Causes
use rsb_cpp.Prelude.{
  ℕ, Bool, true, false, ◌&&◌, [], Option, none, some, ltb, ◌==◌, if◌then◌else◌, Text,
}
use rsb_cpp.Maps.{Ord, KeySet, find, insert, erase}
use rsb_cpp.Scope.{Scope, root}
use rsb_cpp.MetaData.{MetaData, new_meta_data, set_sender_id, has_key}
pub use Ids.{EventId, event_id_eq, event_id_lt, event_id_ord}

pub record Event (Uuid Payload : Type 0) : Type 0 where
  pub id : Option (EventId Uuid)
  pub scope : Scope
  pub content : Option Payload
  pub type : Text
  pub method : Text
  pub causes : KeySet (EventId Uuid)
  pub meta_data : MetaData Uuid

module _ {Uuid Payload : Type 0} where
  -- Event::Event()
  abbrev pub new_event : Uuid → ℕ → Event Uuid Payload
  new_event nil now = record {
    id = none;
    scope = root;
    content = none;
    type = [];
    method = [];
    causes = [];
    meta_data = new_meta_data nil now;
  }

  -- Event::Event(scope, payload, type, method)
  abbrev pub event_with : Uuid → ℕ → Scope → Option Payload → Text → Text → Event Uuid Payload
  event_with nil now scope payload type method = record (new_event nil now) {
    scope = scope;
    content = payload;
    type = type;
    method = method;
  }

  -- `none` is an IllegalStateException.
  abbrev pub get_id : Event Uuid Payload → Option (EventId Uuid)
  get_id e = e.id

  abbrev pub set_id : Uuid → ℕ → Event Uuid Payload → Event Uuid Payload
  set_id sender number e = record e {
    id = some (record { participant_id = sender; sequence_number = number });
    meta_data = set_sender_id sender e.meta_data;
  }

  abbrev pub set_scope : Scope → Event Uuid Payload → Event Uuid Payload
  set_scope s e = record e { scope = s }

  abbrev pub set_data : Option Payload → Event Uuid Payload → Event Uuid Payload
  set_data payload e = record e { content = payload }

  abbrev pub set_type : Text → Event Uuid Payload → Event Uuid Payload
  set_type t e = record e { type = t }

  abbrev pub set_method : Text → Event Uuid Payload → Event Uuid Payload
  set_method m e = record e { method = m }

  abbrev pub set_meta_data : MetaData Uuid → Event Uuid Payload → Event Uuid Payload
  set_meta_data m e = record e { meta_data = m }

module _ {Uuid Payload : Type 0} ⦃o : Ord Uuid⦄ where
  unfoldable pub is_cause : EventId Uuid → Event Uuid Payload → Bool
  is_cause id e = elim (find id e.causes) [ none ↦ false | some u ↦ true ]

  -- Each with what it returns. set::insert does not replace.
  unfoldable pub add_cause : EventId Uuid → Event Uuid Payload → Event Uuid Payload × Bool
  add_cause id e = elim (find id e.causes) [
    | none ↦ (record e { causes = insert id tt e.causes }, true)
    | some u ↦ (e, false)
  ]

  unfoldable pub remove_cause : EventId Uuid → Event Uuid Payload → Event Uuid Payload × Bool
  remove_cause id e = elim (find id e.causes) [
    | none ↦ (e, false)
    | some u ↦ (record e { causes = erase id e.causes }, true)
  ]
