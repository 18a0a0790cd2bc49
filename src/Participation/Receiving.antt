-- ===== src/Participation/Receiving.antt =====
-- src/rsb/eventprocessing/DirectEventReceivingStrategy.cpp. A handler is a number; `throws h` says that
-- its `handle` throws for the event.
use rsb_cpp.Prelude.{
  ℕ, suc, ◌≡◌, refl, arith, Bool, true, false, not, ◌&&◌, List, [], ◌∷◌, ◌++◌, Option, none, some,
  if◌then◌else◌,
}
use rsb_cpp.Maps.{Ord, Map, insert, erase}
use rsb_cpp.Maps.Pairs.{num_ord}
use rsb_cpp.MetaData.{set_deliver_time}
use rsb_cpp.Event.{Event, EventId, set_meta_data}
use rsb_cpp.ParticipantConfig.{ErrorStrategy, log, print, exit}
use rsb_cpp.Socket.Bus.{remove_all}
use rsb_cpp.Participation.Filters.{Filter, matches}

-- The set of filter pointers is a map from their addresses.
pub record ReceivingStrategy (Uuid : Type 0) : Type 0 where
  pub handlers : List ℕ
  pub filters : Map ℕ (Filter Uuid)
  pub error_strategy : ErrorStrategy

-- What a call did: the handlers called, in order, the number of reports, and whether exit was called,
-- behind which nothing happens any more.
pub record Handled : Type 0 where
  pub called : List ℕ
  pub reports : ℕ
  pub exited : Bool

-- handleDispatchError: whether it exits.
abbrev pub exits : ErrorStrategy → Bool
exits log = false
exits print = false
exits exit = true

module _ {Uuid : Type 0} where
  unfoldable pub add_handler : ℕ → ReceivingStrategy Uuid → ReceivingStrategy Uuid
  add_handler h s = record s { handlers = s.handlers ++ h ∷ [] }

  unfoldable pub remove_handler : ℕ → ReceivingStrategy Uuid → ReceivingStrategy Uuid
  remove_handler h s = record s { handlers = remove_all h s.handlers }

  unfoldable pub add_filter : ℕ → Filter Uuid → ReceivingStrategy Uuid → ReceivingStrategy Uuid
  add_filter address f s = record s { filters = insert address f s.filters }

  unfoldable pub remove_filter : ℕ → ReceivingStrategy Uuid → ReceivingStrategy Uuid
  remove_filter address s = record s { filters = erase address s.filters }

  unfoldable pub set_handler_error_strategy :
      ErrorStrategy → ReceivingStrategy Uuid → ReceivingStrategy Uuid
  set_handler_error_strategy e s = record s { error_strategy = e }

-- deliver, for each handler of the list
unfoldable pub deliver_loop : (ℕ → Bool) → ErrorStrategy → List ℕ → Handled
deliver_loop throws strategy [] = record { called = []; reports = 0; exited = false }
deliver_loop throws strategy (h ∷ hs) =
    let rest = deliver_loop throws strategy hs in
    if throws h
    then (if exits strategy
        then record { called = h ∷ []; reports = 1; exited = true }
        else record { called = h ∷ rest.called; reports = suc rest.reports; exited = rest.exited })
    else record rest { called = h ∷ rest.called }

module _ {Uuid Payload : Type 0} ⦃o : Ord Uuid⦄ (as_uuid : EventId Uuid → Uuid) where
  -- filterNoLock: the first filter that does not match ends the loop, as does one that throws.
  unfoldable pub filter_loop : Map ℕ (Filter Uuid) → Event Uuid Payload → Option Bool
  filter_loop [] e = some true
  filter_loop ((address, f) ∷ fs) e =
      let rest = filter_loop fs e in
      elim (matches as_uuid f e) [
        | none ↦ none
        | some result ↦ if not result then some false else rest
      ]

  -- handle, with the event that it changes
  unfoldable pub handle :
      (ℕ → Bool) → ℕ → Event Uuid Payload → ReceivingStrategy Uuid → Event Uuid Payload × Handled
  unfolding deliver_loop filter_loop
  handle throws now e s =
      let marked = set_meta_data (set_deliver_time now now e.meta_data) e in
      (
        marked,
        elim (filter_loop s.filters marked) [
          | none ↦ record { called = []; reports = 1; exited = exits s.error_strategy }
          | some result ↦
              if result
              then deliver_loop throws s.error_strategy s.handlers
              else record { called = []; reports = 0; exited = false }
        ],
      )

  -- Every filter lets the event through.
  abbrev pub passes : Event Uuid Payload → Map ℕ (Filter Uuid) → Bool
  passes e [] = true
  passes e ((address, f) ∷ fs) = elim (matches as_uuid f e) [
    | none ↦ false
    | some result ↦ result && passes e fs
  ]

  filter_loop-passes :
      (fs : Map ℕ (Filter Uuid)) (e : Event Uuid Payload)
      → (elim (filter_loop fs e) [ none ↦ false | some result ↦ result ]) ≡ passes e fs
  unfolding filter_loop
  filter_loop-passes [] e = refl
  filter_loop-passes ((address, f) ∷ fs) e = ground (arith, filter_loop-passes fs e)

deliver_loop-all :
    (throws : ℕ → Bool) (strategy : ErrorStrategy) (hs : List ℕ)
    → exits strategy ≡ false
    → ((deliver_loop throws strategy hs).called ≡ hs)
      × ((deliver_loop throws strategy hs).exited ≡ false)
unfolding deliver_loop
deliver_loop-all throws strategy [] h = (refl, refl)
deliver_loop-all throws strategy (x ∷ hs) h =
    let (c, e) = deliver_loop-all throws strategy hs h in (ground arith, ground arith)

module _ {Uuid Payload : Type 0} ⦃o : Ord Uuid⦄ (as_uuid : EventId Uuid → Uuid) where
  -- Unless errors are to end the process, an event that all filters let through is given to the
  -- handlers of the list, in its order, whichever of them throw, and any other event to none; and the
  -- process goes on.
  pub handle-called :
      (throws : ℕ → Bool) (now : ℕ) (e : Event Uuid Payload) (s : ReceivingStrategy Uuid)
      → exits s.error_strategy ≡ false
      → ((handle as_uuid throws now e s).1.called
          ≡ (if passes as_uuid (handle as_uuid throws now e s).0 s.filters then s.handlers else []))
        × ((handle as_uuid throws now e s).1.exited ≡ false)
  unfolding handle
  handle-called throws now e s h =
      let marked = set_meta_data (set_deliver_time now now e.meta_data) e in
      let (c, x) = deliver_loop-all throws s.error_strategy s.handlers h in
      let p = filter_loop-passes as_uuid s.filters marked in (ground arith, ground arith)
