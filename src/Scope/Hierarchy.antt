-- ===== src/Scope/Hierarchy.antt =====
-- Sub-scopes, super-scopes and concatenation are prefixes and appending of the components.
use mathlib.Core.Path.{ap₂}
use mathlib.Core.List.{map-append}
use native.Mathlib.Nat.{zero-add}
use rsb_cpp.Prelude.{
  ℕ, zero, suc, ◌+◌, ◌<◌, ◌≤◌, ◌≡◌, refl, sym, ap, ◌∙◌, ◌↔◌, arith, List, [], ◌∷◌, ◌++◌, map, Text,
  Bool, true, false, ◌&&◌, All, length, get_or, take, take_all, ltb, text_eq, text_eq_sym,
  text_eq_refl, eq_of_text_eq, append-nil, append_assoc,
}
use rsb_cpp.Scope.{
  Scope, root, string_size, unsigned_mod, push_all, concat, same_components, is_sub_scope_of,
  is_super_scope_of, push_range, super_loop, super_scopes,
}
use rsb_cpp.Scope.Syntax.{IsComponent, IsNormal, render}
use rsb_cpp.Scope.Names.{eq_of_components}
use rsb_cpp.Scope.Cache.{update_string_cache-eq}

-- The strings of the scope and of what is built from it fit an `unsigned int`.
abbrev pub Fits : List Text → Type 0
Fits ts = 1 + string_size ts < unsigned_mod

abbrev pub made : List Text → Scope
made ts = record { scopestring = render ts; components = ts }

unfoldable pub is_prefix : List Text → List Text → Bool
is_prefix [] ys = true
is_prefix (x ∷ xs) [] = false
is_prefix (x ∷ xs) (y ∷ ys) = text_eq x y && is_prefix xs ys

pub is_prefix_iff :
    (xs ys : List Text) → (is_prefix xs ys ≡ true) ↔ ((rest : List Text) × (ys ≡ xs ++ rest))
unfolding is_prefix
is_prefix_iff xs ys = (split xs ys, λ (rest, e). rw e (joined xs rest))
  where
    split : (xs ys : List Text) → is_prefix xs ys ≡ true → (rest : List Text) × (ys ≡ xs ++ rest)
    split [] ys h = (ys, refl)
    split (x ∷ xs) [] h = cc
    split (x ∷ xs) (y ∷ ys) h =
        let (rest, e) = split xs ys (ground arith) in (rest, ground (arith, eq_of_text_eq x y))

    joined : (xs rest : List Text) → is_prefix xs (xs ++ rest) ≡ true
    joined [] rest = refl
    joined (x ∷ xs) rest = ground (arith, text_eq_refl x, joined xs rest)

same_components-suc :
    (n i : ℕ) (x y : Text) (xs ys : List Text)
    → same_components n (suc i) (x ∷ xs) (y ∷ ys) ≡ same_components n i xs ys
unfolding same_components
same_components-suc zero i x y xs ys = refl
same_components-suc (suc n) i x y xs ys = rw (same_components-suc n (suc i) x y xs ys)

same_components_sym :
    (n i : ℕ) (xs ys : List Text) → same_components n i xs ys ≡ same_components n i ys xs
unfolding same_components
same_components_sym zero i xs ys = refl
same_components_sym (suc n) i xs ys =
    rw (same_components_sym n (suc i) xs ys, text_eq_sym (get_or xs i []) (get_or ys i []))

-- The loop over the indices of the shorter list.
same_components-is_prefix :
    (xs ys : List Text)
    → length xs ≤ length ys
    → same_components (length xs) 0 xs ys ≡ is_prefix xs ys
unfolding same_components is_prefix
same_components-is_prefix [] ys h = refl
same_components-is_prefix (x ∷ xs) [] h = absurd (omega arith)
same_components-is_prefix (x ∷ xs) (y ∷ ys) h =
    rw (same_components-suc (length xs) 0 x y xs ys, same_components-is_prefix xs ys (omega arith))
      (ground arith)

-- A super-scope is a proper prefix.
pub is_super_scope_of-eq :
    (s other : Scope)
    → is_super_scope_of s other ≡ (
        ltb (length s.components) (length other.components)
        && is_prefix s.components other.components)
unfolding is_super_scope_of
is_super_scope_of-eq s other =
    ground (arith, same_components-is_prefix s.components other.components)

-- isSubScopeOf is the inverse relation of isSuperScopeOf.
pub is_sub_scope_of-eq : (s other : Scope) → is_sub_scope_of s other ≡ is_super_scope_of other s
unfolding is_sub_scope_of is_super_scope_of
is_sub_scope_of-eq s other =
    rw (same_components_sym (length other.components) 0 s.components other.components)

push_all-eq : (xs ys : List Text) → push_all xs ys ≡ xs ++ ys
unfolding push_all
push_all-eq xs [] = sym (append-nil xs)
push_all-eq xs (y ∷ ys) = push_all-eq (xs ++ y ∷ []) ys ∙ append_assoc xs (y ∷ []) ys

-- concat gives the normal form of the appended components, if its string fits an `unsigned int`.
pub concat-eq :
    (s child : Scope)
    → Fits (s.components ++ child.components)
    → concat s child ≡ made (s.components ++ child.components)
unfolding concat
concat-eq s child h =
    rw (push_all-eq s.components child.components)
      (update_string_cache-eq (record root { components = s.components ++ child.components }) h)

-- inits xs: the prefixes of xs, the shortest first.
unfoldable pub inits : List Text → List (List Text)
inits [] = [] ∷ []
inits (x ∷ xs) = [] ∷ map (◌∷◌ x) (inits xs)

push_range-suc :
    (n i : ℕ) (x : Text) (xs result : List Text)
    → push_range n (suc i) (x ∷ xs) result ≡ push_range n i xs result
unfolding push_range
push_range-suc zero i x xs result = refl
push_range-suc (suc n) i x xs result = push_range-suc n (suc i) x xs (result ++ get_or xs i [] ∷ [])

push_range-take :
    (n : ℕ) (xs result : List Text) → n ≤ length xs → push_range n 0 xs result ≡ result ++ take n xs
unfolding push_range
push_range-take zero xs result h = sym (append-nil result)
push_range-take (suc n) [] result h = absurd (omega arith)
push_range-take (suc n) (x ∷ xs) result h =
    push_range-suc n 0 x xs (result ++ x ∷ [])
    ∙ push_range-take n xs (result ++ x ∷ []) (omega arith)
    ∙ append_assoc result (x ∷ []) (take n xs)

string_size-take : (n : ℕ) (xs : List Text) → string_size (take n xs) ≤ string_size xs
string_size-take zero xs = omega arith
string_size-take (suc n) [] = omega arith
string_size-take (suc n) (x ∷ xs) = omega (arith, string_size-take n xs)

-- The prefixes of at least k components and fewer than k + n.
prefixes : ℕ → ℕ → List Text → List (List Text)
prefixes zero k xs = []
prefixes (suc n) k xs = take k xs ∷ prefixes n (suc k) xs

super_loop-eq :
    (n k : ℕ) (xs : List Text)
    → k + n ≤ length xs
    → Fits xs
    → super_loop n k xs ≡ map made (prefixes n k xs)
unfolding super_loop prefixes
super_loop-eq zero k xs h f = refl
super_loop-eq (suc n) k xs h f = rw (
  push_range-take k xs [] (omega arith),
  update_string_cache-eq (record root { components = take k xs })
      (omega (arith, string_size-take k xs)),
  super_loop-eq n (suc k) xs (omega arith) f,
)

prefixes-suc :
    (n k : ℕ) (x : Text) (xs : List Text)
    → prefixes n (suc k) (x ∷ xs) ≡ map (◌∷◌ x) (prefixes n k xs)
unfolding prefixes
prefixes-suc zero k x xs = refl
prefixes-suc (suc n) k x xs = rw (prefixes-suc n (suc k) x xs)

prefixes-inits : (xs : List Text) → prefixes (suc (length xs)) 0 xs ≡ inits xs
unfolding prefixes inits
prefixes-inits [] = refl
prefixes-inits (x ∷ xs) =
    ap (◌∷◌ []) (prefixes-suc (suc (length xs)) 0 x xs ∙ ap (map (◌∷◌ x)) (prefixes-inits xs))

prefixes-snoc :
    (n k : ℕ) (xs : List Text) → prefixes (suc n) k xs ≡ prefixes n k xs ++ take (n + k) xs ∷ []
unfolding prefixes
prefixes-snoc zero k xs = rw (zero-add k)
prefixes-snoc (suc n) k xs = ap (◌∷◌ (take k xs)) (
    prefixes-snoc n (suc k) xs
    ∙ ap (λ m. prefixes n (suc k) xs ++ take m xs ∷ [])
        (let e : n + suc k ≡ suc n + k = omega arith in e))

-- superScopes of a scope in normal form, with the scope itself, is the list of all prefixes of the
-- components, the root first, each in normal form, if the string fits an `unsigned int`.
pub super_scopes-eq :
    (s : Scope)
    → IsNormal s
    → Fits s.components
    → super_scopes true s ≡ map made (inits s.components)
unfolding super_scopes
super_scopes-eq s h f =
    let n = length s.components in
    let self : s ≡ made s.components =
      eq_of_components h (record { text = refl; components = h.components }) refl in
    let all : n + 0 ≡ n = omega arith in
    ap₂ ◌++◌ (super_loop-eq n 0 s.components (omega arith) f) (ap (λ t. t ∷ []) self)
    ∙ sym (map-append made (prefixes n 0 s.components) (s.components ∷ []))
    ∙ ap (map made) (
        ap (λ t. prefixes n 0 s.components ++ t ∷ [])
          (sym (ap (λ m. take m s.components) all ∙ take_all s.components))
        ∙ sym (prefixes-snoc n 0 s.components)
        ∙ prefixes-inits s.components)

-- What concat and superScopes build is in normal form.
pub made-IsNormal : (ts : List Text) → All IsComponent ts → IsNormal (made ts)
made-IsNormal ts h = record { text = refl; components = h }
