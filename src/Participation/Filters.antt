-- ===== src/Participation/Filters.antt =====
-- src/rsb/filter: which events a filter lets through.
use rsb_cpp.Prelude.{
  ◌≡◌, refl, Bool, true, false, not, ◌||◌, [], ◌∷◌, Option, none, some, if◌then◌else◌, Text,
  text_eq, text_eq_sym,
}
use rsb_cpp.Maps.{Ord, KeySet}
use rsb_cpp.Scope.{Scope, scope_eq, is_sub_scope_of}
use rsb_cpp.Scope.Covers.{covers}
use rsb_cpp.Scope.Hierarchy.{is_sub_scope_of-eq}
use rsb_cpp.Event.{Event, EventId, is_cause}

-- The filter classes with their members; `invert` is the last. A CauseFilter has an id or a UUID.
pub data Filter (Uuid : Type 0) : Type 0 where
  scope_filter : Scope → Filter Uuid
  method_filter : Text → Bool → Filter Uuid
  type_filter : Text → Bool → Filter Uuid
  origin_filter : Uuid → Bool → Filter Uuid
  cause_filter : EventId Uuid → Bool → Filter Uuid
  cause_uuid_filter : Uuid → Bool → Filter Uuid

abbrev pub inverted : Bool → Bool → Bool
inverted invert result = if invert then not result else result

-- `as_uuid` is EventId::getAsUUID, which hashes with the RSC library.
module _ {Uuid : Type 0} ⦃o : Ord Uuid⦄ (as_uuid : EventId Uuid → Uuid) where
  unfoldable pub has_cause : Uuid → KeySet (EventId Uuid) → Bool
  has_cause cause [] = false
  has_cause cause ((id, u) ∷ ids) =
      let rest = has_cause cause ids in if o.beq (as_uuid id) cause then true else rest

module _ {Uuid Payload : Type 0} ⦃o : Ord Uuid⦄ (as_uuid : EventId Uuid → Uuid) where
  -- The `match` of each class; `none` is the exception of getId.
  abbrev pub match_scope : Scope → Event Uuid Payload → Option Bool
  match_scope scope e = some (scope_eq e.scope scope || is_sub_scope_of e.scope scope)

  abbrev pub match_method : Text → Bool → Event Uuid Payload → Option Bool
  match_method method invert e = some (inverted invert (text_eq method e.method))

  abbrev pub match_type : Text → Bool → Event Uuid Payload → Option Bool
  match_type type invert e = some (inverted invert (text_eq type e.type))

  abbrev pub match_origin : Uuid → Bool → Event Uuid Payload → Option Bool
  match_origin origin invert e = elim e.id [
    | none ↦ none
    | some id ↦ some (inverted invert (o.beq origin id.participant_id))
  ]

  abbrev pub match_cause : EventId Uuid → Bool → Event Uuid Payload → Option Bool
  match_cause cause invert e = some (inverted invert (is_cause cause e))

  unfoldable pub match_cause_uuid : Uuid → Bool → Event Uuid Payload → Option Bool
  unfolding has_cause
  match_cause_uuid cause invert e = some (inverted invert (has_cause as_uuid cause e.causes))

  -- The call of the virtual function.
  unfoldable pub matches : Filter Uuid → Event Uuid Payload → Option Bool
  unfolding match_cause_uuid
  matches (scope_filter scope) e = match_scope scope e
  matches (method_filter method invert) e = match_method method invert e
  matches (type_filter type invert) e = match_type type invert e
  matches (origin_filter origin invert) e = match_origin origin invert e
  matches (cause_filter cause invert) e = match_cause cause invert e
  matches (cause_uuid_filter cause invert) e = match_cause_uuid cause invert e

  -- A scope filter lets through exactly the events whose scope its own covers.
  pub matches-scope_filter :
      (scope : Scope) (e : Event Uuid Payload)
      → matches (scope_filter scope) e ≡ some (covers scope e.scope)
  unfolding matches
  matches-scope_filter scope e =
      rw (is_sub_scope_of-eq e.scope scope, text_eq_sym e.scope.scopestring scope.scopestring) refl
