-- ===== src/ParticipantConfig/Errors.antt =====
-- What handleOption leaves behind when it throws, and when it reads behind the end of its key.
use rsb_cpp.Prelude.{
  ◌≡◌, refl, Bool, true, false, List, [], ◌∷◌, Option, none, some, Text, Result, ok, err,
  if◌then◌else◌,
}
use rsb_cpp.Maps.{find, text_ord}
use rsb_cpp.ParticipantConfig.Library.{Runtime}
use rsb_cpp.ParticipantConfig.Transports.{
  ConfigError, Transport, EventProcessingStrategy, new_transport, handle_transport_option,
  invalid_argument,
}
use rsb_cpp.ParticipantConfig.Defs.{
  ParticipantConfig, Outcome, add_transport, quality_option, error_option, processing_option,
  introspection_option, transport_option, handle_option, configure_transport, update_transport,
  set_receiving, set_sending, set_introspection, global_option,
}

module _ (lib : Runtime) where
  -- The configuration is the old one, or the old one with a new transport that had none of that name.
  pub data Rest (c d : ParticipantConfig lib) : Type 0 where
    unchanged : d ≡ c → Rest c d
    new_entry :
        (t : Transport lib)
        → find t.name c.transports ≡ none
        → new_transport lib t.name true ≡ ok t
        → d ≡ add_transport lib t c
        → Rest c d

  -- A call that threw left that much.
  record Keeps (c : ParticipantConfig lib) (o : Outcome lib) : Type 0 where
    at : (e : ConfigError) → o.1 ≡ some e → Rest c o.0

  Keeps-done : (c d : ParticipantConfig lib) → Keeps c (d, none)
  Keeps-done c d = record { at = λ e h. cc }

  Keeps-throw : (c : ParticipantConfig lib) (e : ConfigError) → Keeps c (c, some e)
  Keeps-throw c e = record { at = λ f h. unchanged refl }

  Keeps-if :
      (b : Bool) (c : ParticipantConfig lib) (o p : Outcome lib)
      → Keeps c o
      → Keeps c p
      → Keeps c (if b then o else p)
  Keeps-if true c o p h k = h
  Keeps-if false c o p h k = k

  ruleset keeps_rules = (Keeps-done, Keeps-throw, Keeps-if)

  quality-Keeps :
      (key : List Text) (value : Text) (c : ParticipantConfig lib)
      → Keeps c (quality_option lib key value c)
  unfolding quality_option
  quality-Keeps [] value c = search keeps_rules
  quality-Keeps (k ∷ l ∷ key) value c = search keeps_rules
  quality-Keeps (k ∷ []) value c = search keeps_rules depth 9

  error-Keeps :
      (key : List Text) (value : Text) (c : ParticipantConfig lib)
      → Keeps c (error_option lib key value c)
  unfolding error_option
  error-Keeps [] value c = search keeps_rules
  error-Keeps (k ∷ key) value c = search keeps_rules depth 9

  receiving-Keeps :
      (c : ParticipantConfig lib) (r : Result ConfigError (EventProcessingStrategy lib))
      → Keeps c (set_receiving lib c r)
  unfolding set_receiving
  receiving-Keeps c (ok s) = search keeps_rules
  receiving-Keeps c (err e) = search keeps_rules

  sending-Keeps :
      (c : ParticipantConfig lib) (r : Result ConfigError (EventProcessingStrategy lib))
      → Keeps c (set_sending lib c r)
  unfolding set_sending
  sending-Keeps c (ok s) = search keeps_rules
  sending-Keeps c (err e) = search keeps_rules

  processing-Keeps :
      (key : List Text) (value : Text) (c : ParticipantConfig lib)
      → Keeps c (processing_option lib key value c)
  unfolding processing_option
  processing-Keeps [] value c = search keeps_rules
  processing-Keeps (k ∷ key) value c = search (keeps_rules, receiving-Keeps, sending-Keeps) depth 7

  set_introspection-Keeps :
      (c : ParticipantConfig lib) (o : Option Bool) → Keeps c (set_introspection lib c o)
  unfolding set_introspection
  set_introspection-Keeps c none = search keeps_rules
  set_introspection-Keeps c (some b) = search keeps_rules

  introspection-Keeps :
      (key : List Text) (value : Text) (c : ParticipantConfig lib)
      → Keeps c (introspection_option lib key value c)
  unfolding introspection_option
  introspection-Keeps [] value c = search keeps_rules
  introspection-Keeps (k ∷ []) value c = search (keeps_rules, set_introspection-Keeps)
  introspection-Keeps (k ∷ l ∷ key) value c = search keeps_rules

  update-Keeps :
      (name : Text) (c : ParticipantConfig lib) (r : Result ConfigError (Transport lib))
      → Keeps c (update_transport lib name c r)
  unfolding update_transport
  update-Keeps name c (ok t) = search keeps_rules
  update-Keeps name c (err e) = search keeps_rules

  update_new-Keeps :
      (name : Text) (t : Transport lib) (c : ParticipantConfig lib)
      (r : Result ConfigError (Transport lib))
      → find t.name c.transports ≡ none
      → new_transport lib t.name true ≡ ok t
      → Keeps c (update_transport lib name (add_transport lib t c) r)
  unfolding update_transport
  update_new-Keeps name t c (ok u) h k = search keeps_rules
  update_new-Keeps name t c (err e) h k = record { at = λ f g. new_entry t h k refl }

  configure-Keeps :
      (name : Text) (key : List Text) (value : Text) (c : ParticipantConfig lib)
      (o : Option (Transport lib))
      → find name c.transports ≡ o
      → Keeps c (configure_transport lib name key value c o)
  unfolding configure_transport
  configure-Keeps name key value c (some t) h =
      update-Keeps name c (handle_transport_option lib key value t)
  configure-Keeps [] key value c none h = unfold new_transport in Keeps-throw c invalid_argument
  configure-Keeps (x ∷ name) key value c none h =
      let t : Transport lib = record {
        name = x ∷ name;
        converters = [];
        options = lib.no_properties;
      } in
      unfold new_transport in
      update_new-Keeps (x ∷ name) t c (handle_transport_option lib key value t) h refl

  transport-Keeps :
      (key : List Text) (value : Text) (c : ParticipantConfig lib)
      → Keeps c (transport_option lib key value c)
  unfolding transport_option
  transport-Keeps [] value c = search keeps_rules
  transport-Keeps (name ∷ []) value c = search keeps_rules
  transport-Keeps (name ∷ k ∷ key) value c =
      configure-Keeps name (k ∷ key) value c (find name c.transports) refl

  global-Keeps :
      (k : Text) (key : List Text) (value : Text) (c : ParticipantConfig lib)
      → Keeps c (global_option lib k key value c)
  unfolding global_option
  global-Keeps k [] value c = search keeps_rules
  global-Keeps k (l ∷ key) value c = search keeps_rules

  option-Keeps :
      (key : List Text) (value : Text) (c : ParticipantConfig lib)
      → Keeps c (handle_option lib key value c)
  unfolding handle_option
  option-Keeps [] value c = search keeps_rules
  option-Keeps (k ∷ key) value c = Keeps-if _ c _ _ (quality-Keeps key value c) (
      Keeps-if _ c _ _ (error-Keeps key value c) (
        Keeps-if _ c _ _ (processing-Keeps key value c) (
          Keeps-if _ c _ _ (introspection-Keeps key value c)
            (Keeps-if _ c _ _ (transport-Keeps key value c) (global-Keeps k key value c)))))

  -- A call of handleOption that throws leaves the configuration as it was, or with one transport
  -- more: a new one, without options, under a name that had none.
  pub handle_option-throws :
      (key : List Text) (value : Text) (c : ParticipantConfig lib) (e : ConfigError)
      → (handle_option lib key value c).1 ≡ some e
      → Rest c (handle_option lib key value c).0
  handle_option-throws key value c e h = (option-Keeps key value c).at e h
