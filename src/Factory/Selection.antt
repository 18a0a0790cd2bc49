-- ===== src/Factory/Selection.antt =====
-- src/rsb/Factory.cpp: what a configured pair of a wire-schema and a data-type selects on both sides.
use rsb_cpp.Prelude.{
  ◌≡◌, ap, ◌∙◌, arith, Bool, true, false, ◌&&◌, ◌||◌, List, [], ◌∷◌, some, if◌then◌else◌, Text,
  text_eq, eq_of_text_eq, ok, >>=-eq-ok, All, Option-cases, Bool-cases, inl, inr,
}
use rsb_cpp.Maps.{Map, find, insert, text_ord, find-insert, find-cong}
use rsb_cpp.Maps.Sorted.{IsSorted}
use rsb_cpp.Converters.{
  Repository, UnambiguousConverterMap, signature_ord, look_up, get_converter,
  get_converters_for_serialization, get_converters_for_deserialization,
}
use rsb_cpp.Converters.Choice.{look_up-get_converter, look_up_schema-get_converter}
use rsb_cpp.Factory.{
  serialization, deserialization, selection_loop, converter_selection_to_map, converters_for,
}

abbrev pub has_pair : Text → Text → List (Text × Text) → Bool
has_pair schema type [] = false
has_pair schema type ((s, t) ∷ rest) =
    (text_eq s schema && text_eq t type) || has_pair schema type rest

-- No wire-schema is chosen twice.
abbrev pub ChosenOnce : List (Text × Text) → Type 0
ChosenOnce [] = Unit
ChosenOnce ((s, t) ∷ rest) = All (λ q. text_eq q.0 s ≡ false) rest × ChosenOnce rest

serialization-kept :
    (pairs : List (Text × Text)) (result : Map Text Text) (type : Text) {m : Map Text Text}
    {schema : Text}
    → selection_loop serialization pairs result ≡ ok m
    → find type result ≡ some schema
    → find type m ≡ some schema
unfolding selection_loop
serialization-kept [] result type done h = ground arith
serialization-kept ((s, t) ∷ rest) result type {m} {schema} done h =
    elim (Option-cases (find t result)) [
      | inr (chosen, there) ↦ let done' = rw (selection_loop, there) at done in cc
      | inl absent ↦
          let done' = rw (selection_loop, absent) at done in
          serialization-kept rest (insert t s result) type done'
            (ground (arith, find-insert t type s result, find-cong t type result))
    ]

serialization-find :
    (pairs : List (Text × Text)) (result : Map Text Text) (schema type : Text) {m : Map Text Text}
    → selection_loop serialization pairs result ≡ ok m
    → has_pair schema type pairs ≡ true
    → find type m ≡ some schema
unfolding selection_loop
serialization-find [] result schema type done h = cc
serialization-find ((s, t) ∷ rest) result schema type {m} done h =
    elim (Option-cases (find t result)) [
      | inr (chosen, there) ↦ let done' = rw (selection_loop, there) at done in cc
      | inl absent ↦
          let done' = rw (selection_loop, absent) at done in
          elim (Bool-cases (text_eq s schema && text_eq t type)) [
            | inl hit ↦
                let same_s : s ≡ schema = ground (arith, eq_of_text_eq s schema) in
                let same_t : text_eq t type ≡ true = ground arith in
                serialization-kept rest (insert t s result) type done' (
                  find-insert t type s result
                  ∙ ap (λ b. if b then some s else find type result) same_t
                  ∙ ap some same_s)
            | inr miss ↦
                serialization-find rest (insert t s result) schema type done' (ground arith)
          ]
    ]

deserialization-kept :
    (pairs : List (Text × Text)) (result : Map Text Text) (schema : Text) {m : Map Text Text}
    → selection_loop deserialization pairs result ≡ ok m
    → All (λ q. text_eq q.0 schema ≡ false) pairs
    → find schema m ≡ find schema result
unfolding selection_loop
deserialization-kept [] result schema done h = ground arith
deserialization-kept ((s, t) ∷ rest) result schema done h =
    deserialization-kept rest (insert s t result) schema done h.1
    ∙ find-insert s schema t result
    ∙ ap (λ b. if b then some t else find schema result) h.0

deserialization-find :
    (pairs : List (Text × Text)) (result : Map Text Text) (schema type : Text) {m : Map Text Text}
    → selection_loop deserialization pairs result ≡ ok m
    → ChosenOnce pairs
    → has_pair schema type pairs ≡ true
    → find schema m ≡ some type
unfolding selection_loop
deserialization-find [] result schema type done once h = cc
deserialization-find ((s, t) ∷ rest) result schema type done once h =
    elim (Bool-cases (text_eq s schema && text_eq t type)) [
      | inl hit ↦
          let same_s : s ≡ schema = ground (arith, eq_of_text_eq s schema) in
          let same_t : t ≡ type = ground (arith, eq_of_text_eq t type) in
          let here : text_eq s schema ≡ true = ground arith in
          deserialization-kept rest (insert s t result) schema done (rw (← same_s) once.0)
          ∙ find-insert s schema t result
          ∙ ap (λ b. if b then some t else find schema result) here
          ∙ ap some same_t
      | inr miss ↦
          deserialization-find rest (insert s t result) schema type done once.1 (ground arith)
    ]

module _ {Data : Type 0} where
  -- Where a configuration chooses no wire-schema twice and the strategies of both directions can be made
  -- of it and of a repository in order, a pair that it chooses makes both sides look up the same:
  -- the sender by the data-type and the receiver by the wire-schema find what the repository has
  -- under the pair, and where it has nothing both fail alike.
  pub look_up-converters_for :
      (pairs : List (Text × Text)) (r : Repository Data) (schema type : Text)
      {m n : UnambiguousConverterMap Data}
      → IsSorted r
      → ChosenOnce pairs
      → converters_for serialization pairs r ≡ ok m
      → converters_for deserialization pairs r ≡ ok n
      → has_pair schema type pairs ≡ true
      → (look_up type m ≡ get_converter (schema, type) r)
        × (look_up schema n ≡ get_converter (schema, type) r)
  unfolding converters_for converter_selection_to_map
  look_up-converters_for pairs r schema type {m} {n} sorted once sending receiving chosen =
      let (sel, selected, built) =
        >>=-eq-ok (selection_loop serialization pairs [])
          (λ selection. get_converters_for_serialization selection r) sending in
      let (sel', selected', built') =
        >>=-eq-ok (selection_loop deserialization pairs [])
          (λ selection. get_converters_for_deserialization selection r) receiving in
      (
        look_up-get_converter sel r type m sorted
            (serialization-find pairs [] schema type selected chosen) built,
        look_up_schema-get_converter sel' r schema n sorted
            (deserialization-find pairs [] schema type selected' once chosen) built',
      )
