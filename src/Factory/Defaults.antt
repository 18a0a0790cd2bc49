-- ===== src/Factory/Defaults.antt =====
-- src/rsb/Factory.cpp: which transports the constructor of Factory enables.
use rsb_cpp.Prelude.{
  ◌≡◌, refl, ap, sym, ◌∙◌, arith, Bool, true, false, List, [], ◌∷◌, some, Text, bytes, text_eq,
  eq_of_text_eq, ok, ◌>>=◌, >>=-eq-ok, All, Option-cases, Bool-cases, inl, inr, is_empty,
}
use mathlib.Core.Path.{subst}
use rsb_cpp.Maps.{Map, find, insert, erase, text_ord, insert-All, erase-All, find-All}
use rsb_cpp.ParticipantConfig.{
  Runtime, Transport, is_enabled, new_transport, set_enabled, ParticipantConfig, add_transport,
  default_config, get_transports, enabled_loop, insert_transport,
}
use rsb_cpp.Factory.{add_available, enable_only, initial_config}

-- What rsc::runtime::Properties does with the setting that a transport starts with.
pub record ReadsEnabled (lib : Runtime) : Type 0 where
  pub fresh : lib.get_bool (bytes "enabled") true lib.no_properties ≡ some true
  pub written :
      (value : Bool) (p : lib.Properties)
      → lib.get_bool (bytes "enabled") true (lib.assign (bytes "enabled") (lib.print_bool value) p)
        ≡ some value

module _ (lib : Runtime) where
  -- An entry under its own name that is enabled if it is the socket transport.
  abbrev pub IsDefault : Text × Transport lib → Type 0
  IsDefault (name, t) = (name ≡ t.name) × (is_enabled lib t ≡ some (text_eq name (bytes "socket")))

  abbrev bare : Text → Transport lib
  bare name = record { name = name; converters = []; options = lib.no_properties }

  new_transport-IsDefault :
      (name : Text) {t : Transport lib}
      → ReadsEnabled lib
      → new_transport lib name (text_eq name (bytes "socket")) ≡ ok t
      → IsDefault (t.name, t)
  unfolding new_transport is_enabled set_enabled
  new_transport-IsDefault name {t} reads made = elim (Bool-cases (is_empty name)) [
    | inl none_there ↦ let made' = rw (new_transport, none_there) at made in cc
    | inr there ↦ elim (Bool-cases (text_eq name (bytes "socket"))) [
      | inl socket ↦
          let made' = rw (new_transport, there, socket) at made in
          let same : bare name ≡ t = ground arith in
          subst (λ u. IsDefault (u.name, u)) same (refl, rw socket reads.fresh)
      | inr other ↦
          let made' = rw (new_transport, there, other) at made in
          let same : set_enabled lib false (bare name) ≡ t = ground arith in
          subst (λ u. IsDefault (u.name, u)) same
            (refl, rw other (reads.written false lib.no_properties))
    ]
  ]

  add_available-All :
      (names : List Text) (c : ParticipantConfig lib) {d : ParticipantConfig lib}
      → ReadsEnabled lib
      → All IsDefault c.transports
      → add_available lib names c ≡ ok d
      → All IsDefault d.transports
  unfolding add_available add_transport
  add_available-All [] c {d} reads h done =
      let same : c ≡ d = ground arith in subst (λ x. All IsDefault x.transports) same h
  add_available-All (name ∷ names) c reads h done =
      let (t, made, rest) =
        >>=-eq-ok (new_transport lib name (text_eq name (bytes "socket")))
          (λ t. add_available lib names (add_transport lib t c)) done in
      let base = new_transport-IsDefault name reads made in
      add_available-All names (add_transport lib t c) reads
        (insert-All IsDefault t.name t (erase t.name c.transports) base
          (λ j w same p. subst (λ n. IsDefault (n, t)) (sym (eq_of_text_eq j t.name same)) base)
          (erase-All IsDefault t.name c.transports h))
        rest

  -- The transport is the socket transport.
  abbrev IsSocket : Text × Transport lib → Type 0
  IsSocket (name, t) = text_eq t.name (bytes "socket") ≡ true

  insert_transport-All :
      (t : Transport lib) (result : Map Text (Transport lib))
      → text_eq t.name (bytes "socket") ≡ true
      → All IsSocket result
      → All IsSocket (insert_transport lib t result)
  unfolding insert_transport
  insert_transport-All t result here g = elim (Option-cases (find t.name result)) [
    | inl absent ↦
        rw (insert_transport, absent)
          (insert-All IsSocket t.name t result here (λ j w same p. here) g)
    | inr (u, there) ↦ rw (insert_transport, there) g
  ]

  enabled_loop-All :
      (m result : Map Text (Transport lib)) {enabled : Map Text (Transport lib)}
      → All IsDefault m
      → All IsSocket result
      → enabled_loop lib false m result ≡ ok enabled
      → All IsSocket enabled
  unfolding enabled_loop
  enabled_loop-All [] result {enabled} h g done =
      let same : result ≡ enabled = ground arith in subst (All IsSocket) same g
  enabled_loop-All ((name, t) ∷ m) result h g done =
      elim (Bool-cases (text_eq name (bytes "socket"))) [
        | inl socket ↦
            let on : is_enabled lib t ≡ some true = h.0.1 ∙ ap some socket in
            let done' = rw (enabled_loop, on) at done in
            let here : text_eq t.name (bytes "socket") ≡ true =
              ap (λ n. text_eq n (bytes "socket")) (sym h.0.0) ∙ socket in
            enabled_loop-All m (insert_transport lib t result) h.1
              (insert_transport-All t result here g) done'
        | inr other ↦
            let off : is_enabled lib t ≡ some false = h.0.1 ∙ ap some other in
            let done' = rw (enabled_loop, off) at done in enabled_loop-All m result h.1 g done'
      ]

  enable_only-All :
      (c d : ParticipantConfig lib) (enabled : Map Text (Transport lib))
      → ReadsEnabled lib
      → All IsDefault c.transports
      → All IsSocket enabled
      → enable_only lib c enabled ≡ ok d
      → All IsDefault d.transports
  unfolding enable_only set_enabled is_enabled
  enable_only-All c d [] reads all sockets done =
      let same : c ≡ d = ground arith in subst (λ x. All IsDefault x.transports) same all
  enable_only-All c d (s ∷ t ∷ rest) reads all sockets done =
      let same : c ≡ d = ground arith in subst (λ x. All IsDefault x.transports) same all
  enable_only-All c d ((key, t) ∷ []) reads all sockets done =
      elim (Option-cases (find t.name c.transports)) [
        | inl absent ↦ let done' = rw (enable_only, absent) at done in cc
        | inr (u, there) ↦
            let done' = rw (enable_only, there) at done in
            let same : record c { transports = insert t.name (set_enabled lib true u) c.transports }
                ≡ d =
              ground arith in
            let (k, same_key, (named, on)) = find-All IsDefault t.name c.transports all there in
            let base : IsDefault (t.name, set_enabled lib true u) = (
              sym (eq_of_text_eq k t.name same_key) ∙ named,
              reads.written true u.options ∙ ap some (sym sockets.0),
            ) in
            subst (λ x. All IsDefault x.transports) same
              (insert-All IsDefault t.name (set_enabled lib true u) c.transports base
                (λ j w same p.
                  subst (λ n. IsDefault (n, set_enabled lib true u))
                    (sym (eq_of_text_eq j t.name same)) base)
                all)
      ]

  -- With a library that reads the setting `enabled` as it was written: the default configuration, where
  -- it can be made of the names of the available transports, enables the transport named socket and
  -- no other, even if there is only one.
  pub initial_config-socket :
      (names : List Text) (c : ParticipantConfig lib) (name : Text) {t : Transport lib}
      → ReadsEnabled lib
      → initial_config lib names ≡ ok c
      → find name c.transports ≡ some t
      → is_enabled lib t ≡ some (text_eq name (bytes "socket"))
  unfolding initial_config default_config get_transports
  initial_config-socket names c name {t} reads done there =
      let (d, added, rest) =
        >>=-eq-ok (add_available lib names (default_config lib))
          (λ c. get_transports lib false c >>= λ enabled. enable_only lib c enabled) done in
      let (enabled, listed, last) =
        >>=-eq-ok (get_transports lib false d) (λ enabled. enable_only lib d enabled) rest in
      let all = add_available-All names (default_config lib) reads tt added in
      let sockets = enabled_loop-All d.transports [] all tt listed in
      let (key, same, (named, on)) =
        find-All IsDefault name c.transports (enable_only-All d c enabled reads all sockets last)
          there in
      on ∙ ap (λ n. some (text_eq n (bytes "socket"))) (eq_of_text_eq key name same)
