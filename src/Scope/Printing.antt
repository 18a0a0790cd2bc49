-- ===== src/Scope/Printing.antt =====
-- The string of a scope as the constructor reads it, with and without the separator at the end.
use mathlib.Core.Path.{ap₂}
use native.Mathlib.Nat.{zero-add}
use rsb_cpp.Prelude.{
  ℕ, suc, ◌+◌, ◌≡◌, refl, sym, ap, ◌∙◌, arith, List, [], ◌∷◌, ◌++◌, false, Text, append-nil,
  append_assoc, All, ok, Bool-cases, inl, inr, ◌==◌, ==_iff, length,
}
use rsb_cpp.Scope.{component_separator, split_loop, ends_with_separator, normalized, parse}
use rsb_cpp.Scope.Syntax.{AllChars, IsComponent, join, render, char-ne-separator, normalized-append}

-- Reading the legal characters of one component.
split-chars :
    (t rest : Text) (at : ℕ) (cur : Text) (comps : List Text)
    → AllChars t
    → split_loop (t ++ rest) at cur comps ≡ split_loop rest (length t + at) (cur ++ t) comps
unfolding split_loop
split-chars [] rest at cur comps h = rw (append-nil cur, zero-add at)
split-chars (c ∷ t) rest at cur comps h =
    rw (char-ne-separator c h.0, h.0)
      (split-chars t rest (suc at) (cur ++ c ∷ []) comps h.1
        ∙ ap₂ (λ n u. split_loop rest n u comps) (omega arith) (append_assoc cur (c ∷ []) t))

split-join :
    (ts : List Text) (at : ℕ) (comps : List Text)
    → All IsComponent ts
    → split_loop (join ts) at [] comps ≡ ok (comps ++ ts)
unfolding split_loop
split-join [] at comps h = rw (append-nil comps)
split-join (t ∷ ts) at comps h =
    split-chars t (component_separator ∷ join ts) at [] comps h.0.1
    ∙ rw (h.0.0) (
        split-join ts (suc (length t + at)) (comps ++ t ∷ []) h.1
        ∙ ap ok (append_assoc comps (t ∷ []) ts))

normalized-render : (ts : List Text) → normalized (render ts) ≡ render ts
normalized-render [] = refl
normalized-render (t ∷ ts) =
    normalized-append (component_separator ∷ t) component_separator (join ts)
    ∙ ap (λ u. component_separator ∷ (t ++ u)) (normalized-render ts)

-- Printing a list of legal components and reading it again gives the same components.
pub parse-render :
    (ts : List Text)
    → All IsComponent ts
    → parse (render ts) ≡ ok (record { scopestring = render ts; components = ts })
unfolding parse
parse-render ts h = rw (split-join ts 1 [] h, normalized-render ts)

ends-append :
    (xs : Text) (c : ℕ) (ys : Text)
    → ends_with_separator (xs ++ (c ∷ ys)) ≡ ends_with_separator (c ∷ ys)
ends-append [] c ys = refl
ends-append (x ∷ []) c ys = refl
ends-append (x ∷ y ∷ xs) c ys = ends-append (y ∷ xs) c ys

-- A missing separator at the end makes no difference to the loop.
split_loop-closed :
    (rest : Text) (at : ℕ) (cur : Text) (comps : List Text)
    → ends_with_separator (component_separator ∷ (cur ++ rest)) ≡ false
    → split_loop (rest ++ component_separator ∷ []) at cur comps ≡ split_loop rest at cur comps
unfolding split_loop
split_loop-closed [] at [] comps h = cc
split_loop-closed [] at (x ∷ cur) comps h = refl
split_loop-closed (c ∷ rest) at cur comps h =
    let short : ends_with_separator (c ∷ rest) ≡ false =
      sym (ends-append (component_separator ∷ cur) c rest) ∙ h in
    ground (
      arith,
      split_loop-closed rest (suc at) [] (comps ++ cur ∷ []),
      split_loop-closed rest (suc at) (cur ++ c ∷ []) comps (rw (append_assoc cur (c ∷ []) rest) h),
    )

parse-closed :
    (c : ℕ) (s : Text)
    → ends_with_separator (c ∷ s) ≡ false
    → parse (c ∷ (s ++ component_separator ∷ [])) ≡ parse (c ∷ s)
unfolding parse
parse-closed c s h = elim (Bool-cases (c == component_separator)) [
  | inr other ↦ simp other
  | inl sep ↦
      let starts : c ≡ component_separator = (==_iff c component_separator).0 sep in
      let loop =
        split_loop-closed s 1 [] [] (ap (λ d. ends_with_separator (d ∷ s)) (sym starts) ∙ h) in
      let kept = ends-append (c ∷ s) component_separator [] in simp (sep, loop, kept, h)
]

-- A string that is not empty and its normal form give the same result, errors included.
pub parse-normalized : (c : ℕ) (s : Text) → parse (normalized (c ∷ s)) ≡ parse (c ∷ s)
parse-normalized c s = elim (Bool-cases (ends_with_separator (c ∷ s))) [
  | inl closed ↦ let e : normalized (c ∷ s) ≡ c ∷ s = rw closed in ap parse e
  | inr unclosed ↦
      let e : normalized (c ∷ s) ≡ c ∷ (s ++ component_separator ∷ []) = rw unclosed in
      ap parse e ∙ parse-closed c s unclosed
]
