-- ===== src/ParticipantConfig/Undefined.antt =====
-- handleOption reads key[0] and, in two branches, key[1] without a look at the length of the key.
use rsb_cpp.Prelude.{
  ◌≡◌, refl, ◌∙◌, arith, Bool, true, false, ◌||◌, List, [], ◌∷◌, Option, none, some, Text, bytes,
  text_eq, text_eq_refl, Result, ok, err, if◌then◌else◌, Bool-cases, inl, inr,
}
use rsb_cpp.Maps.{find, text_ord, text_beq_cong}
use rsb_cpp.ParticipantConfig.Library.{Runtime}
use rsb_cpp.ParticipantConfig.Transports.{
  ConfigError, undefined, Transport, EventProcessingStrategy, handle_transport_option,
  new_transport, plain_option, converter_option,
}
use rsb_cpp.ParticipantConfig.Defs.{
  ParticipantConfig, Outcome, add_transport, quality_option, error_option, processing_option,
  introspection_option, transport_option, handle_option, configure_transport, update_transport,
  set_receiving, set_sending, strategy_option, global_option,
}

-- The key is shorter than what handleOption reads of it.
abbrev pub is_short : List Text → Bool
is_short [] = true
is_short (k ∷ []) = text_eq k (bytes "errorhandling") || text_eq k (bytes "eventprocessing")
is_short (k ∷ l ∷ key) = false

abbrev pub is_undefined : Option ConfigError → Bool
is_undefined (some undefined) = true
is_undefined _ = false

abbrev failed_undefined : {A : Type 0} → Result ConfigError A → Bool
failed_undefined (ok a) = false
failed_undefined (err e) = is_undefined (some e)

differs : (k a b : Text) → text_eq a b ≡ false → text_eq k a ≡ true → text_eq k b ≡ false
differs k a b h e = text_beq_cong k a b e ∙ h

names_differ :
    (text_eq (bytes "qualityofservice") (bytes "errorhandling") ≡ false)
    × (text_eq (bytes "qualityofservice") (bytes "eventprocessing") ≡ false)
    × (text_eq (bytes "introspection") (bytes "errorhandling") ≡ false)
    × (text_eq (bytes "introspection") (bytes "eventprocessing") ≡ false)
unfolding text_eq
names_differ = (refl, refl, refl, refl)

module _ (lib : Runtime) where
  strategy-defined :
      (key : List Text) (value : Text) (s : EventProcessingStrategy lib)
      → failed_undefined (strategy_option lib key value s) ≡ false
  unfolding strategy_option
  strategy-defined [] value s = refl
  strategy-defined (k ∷ []) value s = refl
  strategy-defined (k ∷ l ∷ key) value s = refl

  plain-defined :
      (key : List Text) (value : Text) (t : Transport lib)
      → failed_undefined (plain_option lib key value t) ≡ false
  unfolding plain_option
  plain-defined [] value t = refl
  plain-defined (k ∷ []) value t = refl
  plain-defined (k ∷ l ∷ key) value t = refl

  converter-defined :
      (key : List Text) (value : Text) (t : Transport lib)
      → failed_undefined (converter_option lib key value t) ≡ false
  unfolding converter_option plain_option
  converter-defined [] value t = refl
  converter-defined (k ∷ []) value t = ground arith
  converter-defined (k ∷ l ∷ []) value t = ground arith
  converter-defined (k ∷ l ∷ m ∷ key) value t = ground arith

  transport_option-defined :
      (key : List Text) (value : Text) (t : Transport lib)
      → failed_undefined (handle_transport_option lib key value t) ≡ false
  unfolding handle_transport_option
  transport_option-defined [] value t = refl
  transport_option-defined (k ∷ key) value t = elim (Bool-cases (text_eq k (bytes "converter"))) [
    | inl e ↦ rw e (converter-defined key value t)
    | inr e ↦ rw e (plain-defined (k ∷ key) value t)
  ]

  update-defined :
      (name : Text) (c : ParticipantConfig lib) (r : Result ConfigError (Transport lib))
      → failed_undefined r ≡ false
      → is_undefined (update_transport lib name c r).1 ≡ false
  unfolding update_transport
  update-defined name c (ok t) h = refl
  update-defined name c (err e) h = h

  receiving-defined :
      (c : ParticipantConfig lib) (r : Result ConfigError (EventProcessingStrategy lib))
      → failed_undefined r ≡ false
      → (is_undefined (set_receiving lib c r).1 ≡ false)
        × (is_undefined (set_sending lib c r).1 ≡ false)
  unfolding set_receiving set_sending
  receiving-defined c (ok t) h = (refl, refl)
  receiving-defined c (err e) h = (h, h)

  introspection-defined :
      (key : List Text) (value : Text) (c : ParticipantConfig lib)
      → is_undefined (introspection_option lib key value c).1 ≡ false
  unfolding introspection_option
  introspection-defined [] value c = refl
  introspection-defined (k ∷ []) value c = ground arith
  introspection-defined (k ∷ l ∷ key) value c = refl

  configure-defined :
      (name : Text) (key : List Text) (value : Text) (c : ParticipantConfig lib)
      (o : Option (Transport lib))
      → is_undefined (configure_transport lib name key value c o).1 ≡ false
  unfolding configure_transport
  configure-defined name key value c (some t) =
      update-defined name c (handle_transport_option lib key value t)
        (transport_option-defined key value t)
  configure-defined [] key value c none = unfold new_transport in refl
  configure-defined (x ∷ name) key value c none =
      let t : Transport lib = record {
        name = x ∷ name;
        converters = [];
        options = lib.no_properties;
      } in
      unfold new_transport in
      update-defined (x ∷ name) (add_transport lib t c) (handle_transport_option lib key value t)
        (transport_option-defined key value t)

  transport-defined :
      (key : List Text) (value : Text) (c : ParticipantConfig lib)
      → is_undefined (transport_option lib key value c).1 ≡ false
  unfolding transport_option
  transport-defined [] value c = refl
  transport-defined (name ∷ []) value c = refl
  transport-defined (name ∷ k ∷ key) value c =
      configure-defined name (k ∷ key) value c (find name c.transports)

  quality-defined :
      (key : List Text) (value : Text) (c : ParticipantConfig lib)
      → is_undefined (quality_option lib key value c).1 ≡ false
  unfolding quality_option
  quality-defined [] value c = refl
  quality-defined (k ∷ l ∷ key) value c = refl
  quality-defined (k ∷ []) value c = ground arith

  global-defined :
      (k : Text) (key : List Text) (value : Text) (c : ParticipantConfig lib)
      → is_undefined (global_option lib k key value c).1 ≡ false
  unfolding global_option
  global-defined k [] value c = refl
  global-defined k (l ∷ key) value c = refl

  error-undefined :
      (key : List Text) (value : Text) (c : ParticipantConfig lib)
      → is_undefined (error_option lib key value c).1 ≡ is_short (bytes "errorhandling" ∷ key)
  unfolding error_option text_eq
  error-undefined [] value c = refl
  error-undefined (k ∷ key) value c = ground arith

  processing-undefined :
      (key : List Text) (value : Text) (c : ParticipantConfig lib)
      → is_undefined (processing_option lib key value c).1
        ≡ is_short (bytes "eventprocessing" ∷ key)
  unfolding processing_option text_eq
  processing-undefined [] value c = refl
  processing-undefined (k ∷ key) value c =
      unfold processing_option in
      ground (
        arith,
        receiving-defined c (strategy_option lib key value c.receiving)
            (strategy-defined key value c.receiving),
        receiving-defined c (strategy_option lib key value c.sending)
            (strategy-defined key value c.sending),
      )

  record IsDefined (o : Outcome lib) : Type 0 where
    at : is_undefined o.1 ≡ false

  defined : (o : Outcome lib) → is_undefined o.1 ≡ false → IsDefined o
  defined o h = record { at = h }

  branch :
      (b : Bool) (o p : Outcome lib) → IsDefined o → IsDefined p → IsDefined (if b then o else p)
  branch true o p h k = h
  branch false o p h k = k

  long-IsDefined :
      (k l : Text) (key : List Text) (value : Text) (c : ParticipantConfig lib)
      → IsDefined (handle_option lib (k ∷ l ∷ key) value c)
  unfolding handle_option
  long-IsDefined k l key value c =
      branch _ _ _
        (defined (quality_option lib (l ∷ key) value c) (quality-defined (l ∷ key) value c))
        (branch _ _ _
          (defined (error_option lib (l ∷ key) value c) (error-undefined (l ∷ key) value c))
          (branch _ _ _
            (defined (processing_option lib (l ∷ key) value c)
              (processing-undefined (l ∷ key) value c))
            (branch _ _ _
              (defined (introspection_option lib (l ∷ key) value c)
                (introspection-defined (l ∷ key) value c))
              (branch _ _ _
                (defined (transport_option lib (l ∷ key) value c)
                  (transport-defined (l ∷ key) value c))
                (defined (global_option lib k (l ∷ key) value c)
                  (global-defined k (l ∷ key) value c))))))

  -- The behaviour is undefined exactly for the keys that are too short: the empty one, and
  -- "errorhandling" and "eventprocessing" without a second component.
  pub handle_option-undefined :
      (key : List Text) (value : Text) (c : ParticipantConfig lib)
      → is_undefined (handle_option lib key value c).1 ≡ is_short key
  unfolding handle_option
  handle_option-undefined [] value c = refl
  handle_option-undefined (k ∷ []) value c = ground (
    arith,
    differs k (bytes "qualityofservice") (bytes "errorhandling") names_differ.0,
    differs k (bytes "qualityofservice") (bytes "eventprocessing") names_differ.1,
    text_eq_refl (bytes "errorhandling"),
    text_eq_refl (bytes "eventprocessing"),
    quality-defined [] value c,
    error-undefined [] value c,
    processing-undefined [] value c,
    introspection-defined [] value c,
    transport-defined [] value c,
    global-defined k [] value c,
  )
  handle_option-undefined (k ∷ l ∷ key) value c = (long-IsDefined k l key value c).at
