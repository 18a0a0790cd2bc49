-- ===== src/ScopeDispatcher/Routing.antt =====
-- Which sinks an event of a scope is dispatched to, and how adding and removing sinks changes that.
use native.Mathlib.Nat.{add-zero}
use rsb_cpp.Prelude.{
  ℕ, ◌+◌, ◌≡◌, refl, ap, ◌∙◌, ◌⊎◌, ◌↔◌, arith, Bool, true, false, ◌&&◌, List, [], ◌∷◌, ◌++◌, map,
  ◌==◌, if◌then◌else◌, count, count-append, Bool-cases, Option-cases, inl, inr, All, ok, Text,
  text_eq, text_eq_refl, eq_of_text_eq,
}
use rsb_cpp.Maps.{find, find-insert, find-erase, find-cong}
use rsb_cpp.Scope.{Scope, scope_eq}
use rsb_cpp.Scope.Syntax.{IsComponent, IsNormal}
use rsb_cpp.Scope.Names.{scope_eq_iff}
use rsb_cpp.Scope.Hierarchy.{Fits, made, inits, is_prefix, super_scopes-eq, made-IsNormal}
use rsb_cpp.Scope.Covers.{scope_ord}
use rsb_cpp.ScopeDispatcher.{
  ScopeDispatcher, or_empty, under, add_sink, put_back, sinks_of, map_sinks, remove, remove_sink,
}

-- Equal lists of components.
abbrev same_names : List Text → List Text → Bool
same_names [] [] = true
same_names [] (u ∷ us) = false
same_names (t ∷ ts) [] = false
same_names (t ∷ ts) (u ∷ us) = text_eq t u && same_names ts us

flat : (List Text → List ℕ) → List (List Text) → List ℕ
flat f [] = []
flat f (u ∷ us) = f u ++ flat f us

sinks_of-flat :
    (d : ScopeDispatcher ℕ) (us : List (List Text))
    → sinks_of d (map made us) ≡ flat (λ u. under d (made u)) us
unfolding sinks_of flat
sinks_of-flat d [] = refl
sinks_of-flat d (u ∷ us) = rw (sinks_of-flat d us)

flat-map :
    (f : List Text → List ℕ) (x : Text) (us : List (List Text))
    → flat f (map (◌∷◌ x) us) ≡ flat (λ u. f (x ∷ u)) us
unfolding flat
flat-map f x [] = refl
flat-map f x (u ∷ us) = rw (flat-map f x us)

-- One more sink y under the scope `ts`, or none of the prefixes touched.
module _ (y : ℕ) where
  unchanged :
      (f g : List Text → List ℕ) (xs : List Text)
      → ((u : List Text) → All IsComponent u → count y (g u) ≡ count y (f u))
      → All IsComponent xs
      → count y (flat g (inits xs)) ≡ count y (flat f (inits xs))
  unfolding inits flat
  unchanged f g [] h a = ground (arith, h [] tt, count-append y (f []) [], count-append y (g []) [])
  unchanged f g (x ∷ xs) h a = ground (
    arith,
    h [] tt,
    count-append y (f []) (flat f (map (◌∷◌ x) (inits xs))),
    count-append y (g []) (flat g (map (◌∷◌ x) (inits xs))),
    flat-map f x (inits xs),
    flat-map g x (inits xs),
    unchanged (λ u. f (x ∷ u)) (λ u. g (x ∷ u)) xs (λ u k. h (x ∷ u) (a.0, k)) a.1,
  )

  one_more :
      (n : ℕ) (f g : List Text → List ℕ) (ts xs : List Text)
      → ((u : List Text)
          → All IsComponent u
          → count y (g u) ≡ count y (f u) + (if same_names ts u then n else 0))
      → All IsComponent xs
      → count y (flat g (inits xs))
        ≡ count y (flat f (inits xs)) + (if is_prefix ts xs then n else 0)
  unfolding inits flat is_prefix
  one_more n f g [] [] h a =
      ground (arith, h [] tt, count-append y (f []) [], count-append y (g []) [])
  one_more n f g (t ∷ ts) [] h a =
      ground (arith, h [] tt, count-append y (f []) [], count-append y (g []) [])
  one_more n f g [] (x ∷ xs) h a = ground (
    arith,
    h [] tt,
    count-append y (f []) (flat f (map (◌∷◌ x) (inits xs))),
    count-append y (g []) (flat g (map (◌∷◌ x) (inits xs))),
    flat-map f x (inits xs),
    flat-map g x (inits xs),
    unchanged (λ u. f (x ∷ u)) (λ u. g (x ∷ u)) xs (λ u k. h (x ∷ u) (a.0, k) ∙ add-zero _) a.1,
  )
  one_more n f g (t ∷ ts) (x ∷ xs) h a = elim (Bool-cases (text_eq t x)) [
    | inl same ↦ ground (
      arith,
      h [] tt,
      count-append y (f []) (flat f (map (◌∷◌ x) (inits xs))),
      count-append y (g []) (flat g (map (◌∷◌ x) (inits xs))),
      flat-map f x (inits xs),
      flat-map g x (inits xs),
      one_more n (λ u. f (x ∷ u)) (λ u. g (x ∷ u)) ts xs
          (λ u k. ground (arith, h (x ∷ u) (a.0, k), same)) a.1,
    )
    | inr other ↦ ground (
      arith,
      h [] tt,
      count-append y (f []) (flat f (map (◌∷◌ x) (inits xs))),
      count-append y (g []) (flat g (map (◌∷◌ x) (inits xs))),
      flat-map f x (inits xs),
      flat-map g x (inits xs),
      unchanged (λ u. f (x ∷ u)) (λ u. g (x ∷ u)) xs
          (λ u k. ground (arith, h (x ∷ u) (a.0, k), other)) a.1,
    )
  ]

same_names_iff : (ts us : List Text) → (same_names ts us ≡ true) ↔ (ts ≡ us)
same_names_iff ts us = (to ts us, λ e. rw e (self us))
  where
    to : (ts us : List Text) → same_names ts us ≡ true → ts ≡ us
    to [] [] h = refl
    to [] (u ∷ us) h = cc
    to (t ∷ ts) [] h = cc
    to (t ∷ ts) (u ∷ us) h = ground (arith, eq_of_text_eq t u, to ts us)

    self : (us : List Text) → same_names us us ≡ true
    self [] = refl
    self (u ∷ us) = ground (arith, text_eq_refl u, self us)

scope_eq-same_names :
    (t : Scope) (us : List Text)
    → IsNormal t
    → All IsComponent us
    → scope_eq t (made us) ≡ same_names t.components us
scope_eq-same_names t us n h =
    let i = scope_eq_iff t (made us) n (made-IsNormal us h) in
    let j = same_names_iff t.components us in
    both (Bool-cases (scope_eq t (made us))) (Bool-cases (same_names t.components us)) i j
  where
    both :
        (scope_eq t (made us) ≡ true) ⊎ (scope_eq t (made us) ≡ false)
        → (same_names t.components us ≡ true) ⊎ (same_names t.components us ≡ false)
        → (scope_eq t (made us) ≡ true) ↔ (t.components ≡ us)
        → (same_names t.components us ≡ true) ↔ (t.components ≡ us)
        → scope_eq t (made us) ≡ same_names t.components us
    both (inl a) (inl b) i j = cc
    both (inl a) (inr b) i j = cc (j.1 (i.0 a))
    both (inr a) (inl b) i j = cc (i.1 (j.0 b))
    both (inr a) (inr b) i j = cc

under-add_sink :
    (t u : Scope) (x : ℕ) (d : ScopeDispatcher ℕ)
    → under (add_sink t x d) u ≡ (if scope_eq t u then under d t ++ x ∷ [] else under d u)
unfolding add_sink
under-add_sink t u x d = ap or_empty (find-insert t u (under d t ++ x ∷ []) d.sinks) ∙ ground arith

under-put_back :
    (t u : Scope) (l : List ℕ) (d : ScopeDispatcher ℕ)
    → under (put_back t l d) u ≡ (if scope_eq t u then l else under d u)
unfolding put_back
under-put_back t u [] d = ap or_empty (find-erase t u d.sinks) ∙ ground arith
under-put_back t u (x ∷ l) d = ap or_empty (find-insert t u (x ∷ l) d.sinks) ∙ ground arith

under_same : (t u : Scope) (d : ScopeDispatcher ℕ) → scope_eq t u ≡ true → under d t ≡ under d u
under_same t u d h = ap or_empty (find-cong t u d.sinks h)

map_sinks-flat :
    (d : ScopeDispatcher ℕ) (s : Scope)
    → IsNormal s
    → Fits s.components
    → map_sinks s d ≡ flat (λ u. under d (made u)) (inits s.components)
unfolding map_sinks
map_sinks-flat d s n fits = rw (super_scopes-eq s n fits) (sinks_of-flat d (inits s.components))

-- A dispatcher whose lists differ under one scope by n calls of y.
differ :
    (d e : ScopeDispatcher ℕ) (t s : Scope) (y n : ℕ)
    → IsNormal t
    → IsNormal s
    → Fits s.components
    → ((u : Scope) → count y (under e u) ≡ count y (under d u) + (if scope_eq t u then n else 0))
    → count y (map_sinks s e)
      ≡ count y (map_sinks s d) + (if is_prefix t.components s.components then n else 0)
differ d e t s y n nt ns fits h =
    rw (map_sinks-flat d s ns fits, map_sinks-flat e s ns fits)
      (one_more y n (λ u. under d (made u)) (λ u. under e (made u)) t.components s.components
        (λ u k.
          h (made u)
          ∙ ap (λ b. count y (under d (made u)) + (if b then n else 0))
              (scope_eq-same_names t u nt k))
        ns.components)

-- Adding a sink under a scope: an event of that scope or of one below it goes to the sink once
-- more, and nothing else changes, for any sink and any event; the scopes are in normal form, and the
-- string of the event's fits an `unsigned int`.
pub count-map_sinks-add_sink :
    (d : ScopeDispatcher ℕ) (t s : Scope) (x y : ℕ)
    → IsNormal t
    → IsNormal s
    → Fits s.components
    → count y (map_sinks s (add_sink t x d))
      ≡ count y (map_sinks s d)
        + (if is_prefix t.components s.components then (if y == x then 1 else 0) else 0)
count-map_sinks-add_sink d t s x y nt ns fits =
    differ d (add_sink t x d) t s y (if y == x then 1 else 0) nt ns fits λ u.
      ground (arith, under-add_sink t u x d, under_same t u d, count-append y (under d t) (x ∷ []))

count-remove :
    (x y : ℕ) (l : List ℕ)
    → count y l ≡ count y (remove ◌==◌ x l) + (if y == x then count x l else 0)
unfolding remove
count-remove x y [] = ground arith
count-remove x y (z ∷ l) = ground (arith, count-remove x y l)

-- Removing a sink from a scope: the events of that scope and of those below it go to it no more on
-- account of this scope, and nothing else changes; the scopes are in normal form, and the string of
-- the event's fits an `unsigned int`.
pub count-map_sinks-remove_sink :
    (d e : ScopeDispatcher ℕ) (t s : Scope) (x y : ℕ)
    → IsNormal t
    → IsNormal s
    → Fits s.components
    → remove_sink ◌==◌ t x d ≡ ok e
    → count y (map_sinks s d)
      ≡ count y (map_sinks s e)
        + (if is_prefix t.components s.components
            then (if y == x then count x (under d t) else 0)
            else 0)
unfolding remove_sink
count-map_sinks-remove_sink d e t s x y nt ns fits h = elim (Option-cases (find t d.sinks)) [
  | inl missing ↦ let h' = rw (missing, remove_sink) at h in cc
  | inr (l, found) ↦
      let h' : ok (put_back t (remove ◌==◌ x l) d) ≡ ok e = rw (found, remove_sink) at h in
      let made_e : put_back t (remove ◌==◌ x l) d ≡ e = ground arith in
      let here : under d t ≡ l = ap or_empty found in
      differ e d t s y (if y == x then count x (under d t) else 0) nt ns fits λ u. ground (
        arith,
        ap (λ c. under c u) made_e,
        under-put_back t u (remove ◌==◌ x l) d,
        under_same t u d,
        here,
        count-remove x y l,
      )
]
