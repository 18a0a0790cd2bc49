-- ===== src/ParticipantConfig/Frame.antt =====
-- Which transports an option changes, and that each is stored under its own name.
use rsb_cpp.Prelude.{
  ◌≡◌, refl, sym, ◌∙◌, arith, List, [], ◌∷◌, Option, none, some, Text, bytes, text_eq,
  eq_of_text_eq, Result, ok, err, All,
}
use rsb_cpp.Maps.{
  Map, find, insert, erase, text_ord, find-insert, find-erase, insert-All, erase-All, find-All,
}
use rsb_cpp.ParticipantConfig.Library.{Runtime}
use rsb_cpp.ParticipantConfig.Transports.{
  ConfigError, Transport, new_transport, handle_transport_option, plain_option, converter_option,
}
use rsb_cpp.ParticipantConfig.Defs.{
  ParticipantConfig, add_transport, transport_option, handle_option, configure_transport,
  update_transport,
}

module _ (lib : Runtime) where
  -- Only the transport of that name differs, and no other setting.
  pub record SameBut (name : Text) (c d : ParticipantConfig lib) : Type 0 where
    pub quality : d.quality ≡ c.quality
    pub error_strategy : d.error_strategy ≡ c.error_strategy
    pub receiving : d.receiving ≡ c.receiving
    pub sending : d.sending ≡ c.sending
    pub introspection : d.introspection ≡ c.introspection
    pub options : d.options ≡ c.options
    pub others : (m : Text) → find m (erase name d.transports) ≡ find m (erase name c.transports)

  SameBut-refl : (name : Text) (c : ParticipantConfig lib) → SameBut name c c
  SameBut-refl name c = record {
    quality = refl;
    error_strategy = refl;
    receiving = refl;
    sending = refl;
    introspection = refl;
    options = refl;
    others = λ m. refl;
  }

  update-SameBut :
      (name : Text) (c d : ParticipantConfig lib) (r : Result ConfigError (Transport lib))
      → SameBut name c d
      → SameBut name c (update_transport lib name d r).0
  unfolding update_transport
  update-SameBut name c d (err e) s = s
  update-SameBut name c d (ok t) s = record {
    quality = s.quality;
    error_strategy = s.error_strategy;
    receiving = s.receiving;
    sending = s.sending;
    introspection = s.introspection;
    options = s.options;
    others = λ m. ground (
      arith,
      find-erase name m (insert name t d.transports),
      find-erase name m d.transports,
      find-insert name m t d.transports,
      s.others m,
    );
  }

  add-SameBut :
      (t : Transport lib) (c : ParticipantConfig lib) → SameBut t.name c (add_transport lib t c)
  unfolding add_transport
  add-SameBut t c = record {
    quality = refl;
    error_strategy = refl;
    receiving = refl;
    sending = refl;
    introspection = refl;
    options = refl;
    others = λ m. ground (
      arith,
      find-erase t.name m (insert t.name t (erase t.name c.transports)),
      find-insert t.name m t (erase t.name c.transports),
      find-erase t.name m c.transports,
    );
  }

  configure-SameBut :
      (name : Text) (key : List Text) (value : Text) (c : ParticipantConfig lib)
      (o : Option (Transport lib))
      → SameBut name c (configure_transport lib name key value c o).0
  unfolding configure_transport
  configure-SameBut name key value c (some t) =
      update-SameBut name c c (handle_transport_option lib key value t) (SameBut-refl name c)
  configure-SameBut [] key value c none = unfold new_transport in SameBut-refl [] c
  configure-SameBut (x ∷ name) key value c none =
      let t : Transport lib = record {
        name = x ∷ name;
        converters = [];
        options = lib.no_properties;
      } in
      unfold new_transport in
      update-SameBut (x ∷ name) c (add_transport lib t c) (handle_transport_option lib key value t)
        (add-SameBut t c)

  -- An option of a transport changes that transport at most: no other transport, and no other
  -- setting, whether the call throws or not.
  pub handle_option-SameBut :
      (name : Text) (key : List Text) (value : Text) (c : ParticipantConfig lib)
      → SameBut name c (handle_option lib (bytes "transport" ∷ name ∷ key) value c).0
  unfolding handle_option transport_option text_eq
  handle_option-SameBut name [] value c = SameBut-refl name c
  handle_option-SameBut name (k ∷ key) value c =
      configure-SameBut name (k ∷ key) value c (find name c.transports)

  abbrev IsNamed : Text × Transport lib → Type 0
  IsNamed e = e.1.name ≡ e.0

  -- Every transport of the map stands under its own name.
  abbrev pub IsConsistent : ParticipantConfig lib → Type 0
  IsConsistent c = All IsNamed c.transports

  insert-IsNamed :
      (name : Text) (t : Transport lib) (m : Map Text (Transport lib))
      → t.name ≡ name
      → All IsNamed m
      → All IsNamed (insert name t m)
  insert-IsNamed name t m e h =
      insert-All IsNamed name t m e (λ j u same old. e ∙ sym (eq_of_text_eq j name same)) h

  pub add_transport-IsConsistent :
      (t : Transport lib) (c : ParticipantConfig lib)
      → IsConsistent c
      → IsConsistent (add_transport lib t c)
  unfolding add_transport
  add_transport-IsConsistent t c h =
      insert-IsNamed t.name t (erase t.name c.transports) refl
        (erase-All IsNamed t.name c.transports h)

  plain-name :
      (key : List Text) (value : Text) (t u : Transport lib)
      → plain_option lib key value t ≡ ok u
      → u.name ≡ t.name
  unfolding plain_option
  plain-name [] value t u h = cc
  plain-name (k ∷ []) value t u h = ground arith
  plain-name (k ∷ l ∷ key) value t u h = cc

  converter-name :
      (key : List Text) (value : Text) (t u : Transport lib)
      → converter_option lib key value t ≡ ok u
      → u.name ≡ t.name
  unfolding converter_option plain_option
  converter-name [] value t u h = ground arith
  converter-name (k ∷ []) value t u h = ground arith
  converter-name (k ∷ l ∷ []) value t u h = ground arith
  converter-name (k ∷ l ∷ m ∷ key) value t u h = ground arith

  option-name :
      (key : List Text) (value : Text) (t u : Transport lib)
      → handle_transport_option lib key value t ≡ ok u
      → u.name ≡ t.name
  unfolding handle_transport_option
  option-name [] value t u h = plain-name [] value t u h
  option-name (k ∷ key) value t u h =
      ground (arith, plain-name (k ∷ key) value t u, converter-name key value t u)

  update-IsConsistent :
      (name : Text) (c : ParticipantConfig lib) (r : Result ConfigError (Transport lib))
      → ((u : Transport lib) → r ≡ ok u → u.name ≡ name)
      → IsConsistent c
      → IsConsistent (update_transport lib name c r).0
  unfolding update_transport
  update-IsConsistent name c (ok t) n h = insert-IsNamed name t c.transports (n t refl) h
  update-IsConsistent name c (err e) n h = h

  configure-IsConsistent :
      (name : Text) (key : List Text) (value : Text) (c : ParticipantConfig lib)
      (o : Option (Transport lib))
      → find name c.transports ≡ o
      → IsConsistent c
      → IsConsistent (configure_transport lib name key value c o).0
  unfolding configure_transport
  configure-IsConsistent name key value c (some t) found h =
      let (j, same, named) = find-All IsNamed name c.transports h found in
      update-IsConsistent name c (handle_transport_option lib key value t)
        (λ u e. option-name key value t u e ∙ named ∙ eq_of_text_eq j name same) h
  configure-IsConsistent [] key value c none found h = unfold new_transport in h
  configure-IsConsistent (x ∷ name) key value c none found h =
      let t : Transport lib = record {
        name = x ∷ name;
        converters = [];
        options = lib.no_properties;
      } in
      unfold new_transport in
      update-IsConsistent (x ∷ name) (add_transport lib t c)
        (handle_transport_option lib key value t) (option-name key value t)
        (add_transport-IsConsistent t c h)

  -- If every transport of the map stands under its own name, that is so after an option of a transport.
  pub transport_option-IsConsistent :
      (key : List Text) (value : Text) (c : ParticipantConfig lib)
      → IsConsistent c
      → IsConsistent (transport_option lib key value c).0
  unfolding transport_option
  transport_option-IsConsistent [] value c h = h
  transport_option-IsConsistent (name ∷ []) value c h = h
  transport_option-IsConsistent (name ∷ k ∷ key) value c h =
      configure-IsConsistent name (k ∷ key) value c (find name c.transports) refl h
