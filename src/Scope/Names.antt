-- ===== src/Scope/Names.antt =====
-- A scope in normal form is determined by its string, which is all that operator== compares.
use rsb_cpp.Prelude.{◌≡◌, sym, ap, ◌∙◌, ◌↔◌, arith, List, Text, true, All, text_eq_iff}
use rsb_cpp.Scope.{Scope, scope_eq, parse}
use rsb_cpp.Scope.Printing.{parse-render}
use rsb_cpp.Scope.Syntax.{IsComponent, IsNormal, render}

-- Reading the string back tells the lists apart.
pub render-injective :
    (ts us : List Text) → All IsComponent ts → All IsComponent us → render ts ≡ render us → ts ≡ us
render-injective ts us h k e =
    let p = sym (parse-render ts h) ∙ ap parse e ∙ parse-render us k in ground arith

pub eq_of_components : {s t : Scope} → IsNormal s → IsNormal t → s.components ≡ t.components → s ≡ t
eq_of_components {s} {t} hs ht e =
    let p : s.scopestring ≡ t.scopestring = hs.text ∙ ap render e ∙ sym ht.text in
    λ i. record { scopestring = p i; components = e i }

-- operator== on scopes in normal form is equality of their components.
pub scope_eq_iff :
    (s t : Scope) → IsNormal s → IsNormal t → (scope_eq s t ≡ true) ↔ (s.components ≡ t.components)
scope_eq_iff s t hs ht = (
  λ h.
      render-injective s.components t.components hs.components ht.components
        (sym hs.text ∙ (text_eq_iff s.scopestring t.scopestring).0 h ∙ ht.text),
  λ e. (text_eq_iff s.scopestring t.scopestring).1 (hs.text ∙ ap render e ∙ sym ht.text),
)
