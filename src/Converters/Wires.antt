-- ===== src/Converters/Wires.antt =====
-- src/rsb/converter/BoolConverter.cpp and ScopeConverter.cpp: which wires are read, and as what.
use rsb_cpp.Prelude.{
  ◌≡◌, ◌↔◌, refl, arith, true, false, [], ◌∷◌, Text, bytes, ok, text_eq, text_eq_refl,
  eq_of_text_eq, Bool-cases, inl, inr,
}
use rsb_cpp.Scope.{Scope}
use rsb_cpp.Scope.Syntax.{IsNormal}
use rsb_cpp.Notification.RoundTrip.{parse-IsNormal_scope}
use rsb_cpp.Converters.Basic.{
  Payload, nothing, boolean, number, string, scope, schema_and_bytes, bool_to_wire, bool_from_wire,
  scope_to_wire, scope_converter,
}

written : (wire : Text) (v : Payload) → bool_to_wire v ≡ ok wire → bool_from_wire wire ≡ ok v
unfolding bool_from_wire bool_to_wire text_eq
written wire (boolean true) e = let same : 1 ∷ [] ≡ wire = ground arith in rw (← same) refl
written wire (boolean false) e = let same : 0 ∷ [] ≡ wire = ground arith in rw (← same) refl
written wire nothing e = cc
written wire (number n) e = cc
written wire (string s) e = cc
written wire (scope s) e = cc
written wire (schema_and_bytes s w) e = cc

read : (wire : Text) (v : Payload) → bool_from_wire wire ≡ ok v → bool_to_wire v ≡ ok wire
unfolding bool_from_wire bool_to_wire
read wire v e = elim (Bool-cases (text_eq wire (0 ∷ []))) [
  | inl zero_byte ↦
      let same = eq_of_text_eq wire (0 ∷ []) zero_byte in
      let e' = rw same at e in
      let value : boolean false ≡ v = ground arith in rw (← value) (rw same refl)
  | inr other ↦ elim (Bool-cases (text_eq wire (1 ∷ []))) [
    | inl one_byte ↦
        let same = eq_of_text_eq wire (1 ∷ []) one_byte in
        let value : boolean true ≡ v = ground arith in rw (← value) (rw same refl)
    | inr neither ↦ ground arith
  ]
]

-- A wire is read as a value exactly if that value is a truth value and the wire is the one that is
-- written for it: every other wire is refused.
pub bool_from_wire_iff :
    (wire : Text) (v : Payload) → (bool_from_wire wire ≡ ok v) ↔ (bool_to_wire v ≡ ok wire)
bool_from_wire_iff wire v = (read wire v, written wire v)

-- A scope that a constructor of Scope could have built comes back from the wire that its converter
-- writes.
pub scope_converter-IsNormal :
    (type_name : Text) (s : Scope)
    → IsNormal s
    → let c = scope_converter type_name in
      (c.serialize (type_name, scope s) ≡ ok (bytes "scope", s.scopestring))
      × (c.deserialize (bytes "scope") s.scopestring ≡ ok (type_name, scope s))
unfolding scope_to_wire
scope_converter-IsNormal type_name s h = (
  rw (text_eq_refl type_name) refl,
  rw (text_eq_refl (bytes "scope"), parse-IsNormal_scope s h) refl,
)
