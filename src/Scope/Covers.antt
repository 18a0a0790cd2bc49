-- ===== src/Scope/Covers.antt =====
-- The test "equal to or super-scope of" by which events are routed, as a prefix of the components.
use rsb_cpp.Prelude.{
  ◌≡◌, refl, sym, ap, ◌∙◌, arith, List, [], ◌∷◌, Text, Bool, true, false, ◌&&◌, ◌||◌, length, ltb,
  text_eq_refl, eq_of_text_eq, Bool-cases, inl, inr, ◌⊎◌,
}
use rsb_cpp.Maps.{Ord, by_text}
use rsb_cpp.Scope.{Scope, scope_eq, is_super_scope_of}
use rsb_cpp.Scope.Syntax.{IsNormal}
use rsb_cpp.Scope.Names.{scope_eq_iff}
use rsb_cpp.Scope.Hierarchy.{is_prefix, is_super_scope_of-eq}

-- std::map and std::set compare scopes by operator<, that is by their strings.
instance abbrev pub scope_ord : Ord Scope
scope_ord = by_text (λ s. s.scopestring)

pub is_prefix_refl : (xs : List Text) → is_prefix xs xs ≡ true
unfolding is_prefix
is_prefix_refl [] = refl
is_prefix_refl (x ∷ xs) = ground (arith, text_eq_refl x, is_prefix_refl xs)

pub is_prefix_trans :
    (xs ys zs : List Text)
    → is_prefix xs ys ≡ true
    → is_prefix ys zs ≡ true
    → is_prefix xs zs ≡ true
unfolding is_prefix
is_prefix_trans [] ys zs h k = refl
is_prefix_trans (x ∷ xs) [] zs h k = cc
is_prefix_trans (x ∷ xs) (y ∷ ys) [] h k = cc
is_prefix_trans (x ∷ xs) (y ∷ ys) (z ∷ zs) h k =
    ground (arith, eq_of_text_eq x y, eq_of_text_eq y z, text_eq_refl z, is_prefix_trans xs ys zs)

same_length :
    (xs ys : List Text) → is_prefix xs ys ≡ true → ltb (length xs) (length ys) ≡ false → xs ≡ ys
unfolding is_prefix
same_length [] [] h k = refl
same_length [] (y ∷ ys) h k = absurd (ground arith)
same_length (x ∷ xs) [] h k = cc
same_length (x ∷ xs) (y ∷ ys) h k = ground (arith, eq_of_text_eq x y, same_length xs ys)

-- `s == other || s.isSuperScopeOf(other)`
abbrev pub covers : Scope → Scope → Bool
covers s other = scope_eq s other || is_super_scope_of s other

pub covers-eq :
    (s other : Scope)
    → IsNormal s
    → IsNormal other
    → covers s other ≡ is_prefix s.components other.components
covers-eq s other hs ho = elim (Bool-cases (scope_eq s other)) [
  | inl same ↦
      rw (same, (scope_eq_iff s other hs ho).0 same) (sym (is_prefix_refl other.components))
  | inr differ ↦
      rw (differ, is_super_scope_of-eq s other) (proper (Bool-cases _) (Bool-cases _) differ)
]
  where
    proper :
        (is_prefix s.components other.components ≡ true)
          ⊎ (is_prefix s.components other.components ≡ false)
        → (ltb (length s.components) (length other.components) ≡ true)
          ⊎ (ltb (length s.components) (length other.components) ≡ false)
        → scope_eq s other ≡ false
        → (ltb (length s.components) (length other.components)
            && is_prefix s.components other.components)
          ≡ is_prefix s.components other.components
    proper (inr e) l d = ground arith
    proper (inl e) (inl l) d = ground arith
    proper (inl e) (inr l) d =
        cc ((scope_eq_iff s other hs ho).1 (same_length s.components other.components e l))

pub covers_refl : (s : Scope) → covers s s ≡ true
covers_refl s = ground (arith, text_eq_refl s.scopestring)

-- Being the same scope or a super-scope is transitive on scopes in normal form.
pub covers_trans :
    (r s t : Scope)
    → IsNormal r
    → IsNormal s
    → IsNormal t
    → covers r s ≡ true
    → covers s t ≡ true
    → covers r t ≡ true
covers_trans r s t hr hs ht h k =
    covers-eq r t hr ht
    ∙ is_prefix_trans r.components s.components t.components (sym (covers-eq r s hr hs) ∙ h)
        (sym (covers-eq s t hs ht) ∙ k)

-- A scope does not stand above itself, under whatever equal name.
pub super_irrefl :
    (s other : Scope)
    → IsNormal s
    → IsNormal other
    → scope_eq s other ≡ true
    → is_super_scope_of other s ≡ false
super_irrefl s other hs ho e =
    let same = ap length ((scope_eq_iff s other hs ho).0 e) in
    is_super_scope_of-eq other s ∙ ground (arith, same)
