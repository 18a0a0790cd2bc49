-- ===== src/Scope/Cache.antt =====
-- updateStringCache writes the normal form into its buffer, byte by byte and within its bounds.
use rsb_cpp.Prelude.{
  ℕ, suc, ◌+◌, ◌-◌, ◌<◌, ◌≤◌, ◌≡◌, refl, sym, ap, ◌∙◌, arith, List, [], ◌∷◌, ◌++◌, Text,
  append_assoc, length, length-append, length-take, length-drop, length-replicate, set, take, drop,
  replicate,
}
use mathlib.Core.Path.{ap₂}
use native.Mathlib.Nat.{mod-eq_of_lt}
use rsb_cpp.Scope.{
  Scope, component_separator, string_size, unsigned_mod, scope_size, resize, copy_to, fill,
  update_string_cache,
}
use rsb_cpp.Scope.Syntax.{join, render}

-- The counter holds the length of the text where that fits an `unsigned int`.
scope_size-eq :
    (size : ℕ) (ts : List Text)
    → size + string_size ts < unsigned_mod
    → scope_size size ts ≡ size + string_size ts
unfolding scope_size
scope_size-eq size [] h = omega arith
scope_size-eq size (t ∷ ts) h =
    rw (mod-eq_of_lt {n = size + (length t + 1)} {m = unsigned_mod} (omega arith))
      (scope_size-eq (size + (length t + 1)) ts (omega arith) ∙ omega arith)

length-join : (ts : List Text) → length (join ts) ≡ string_size ts
length-join [] = refl
length-join (t ∷ ts) =
    omega (arith, length-append t (component_separator ∷ join ts), length-join ts)

length-resize : (n : ℕ) (s : Text) → length (resize n s) ≡ n
unfolding resize
length-resize n s = omega (
  arith,
  length-append (take n s) (replicate (n - length s) 0),
  length-take n s,
  length-replicate {A = ℕ} (n - length s) 0,
)

-- A write behind what is done replaces the next byte.
set-append :
    (done : Text) (x v : ℕ) (rest : Text)
    → set (done ++ (x ∷ rest)) (length done) v ≡ done ++ (v ∷ rest)
set-append [] x v rest = refl
set-append (d ∷ done) x v rest = ap (◌∷◌ d) (set-append done x v rest)

length-push : (done : Text) (c : ℕ) → length (done ++ c ∷ []) ≡ suc (length done)
length-push done c = omega (arith, length-append done (c ∷ []))

copy_to-append :
    (t done rest : Text)
    → length t ≤ length rest
    → copy_to t (length done) (done ++ rest) ≡ done ++ (t ++ drop (length t) rest)
unfolding copy_to
copy_to-append [] done rest h = refl
copy_to-append (c ∷ t) done [] h = absurd (omega arith)
copy_to-append (c ∷ t) done (x ∷ rest) h =
    ap₂ (copy_to t) (sym (length-push done c))
      (set-append done x c rest ∙ sym (append_assoc done (c ∷ []) rest))
    ∙ copy_to-append t (done ++ c ∷ []) rest (omega arith)
    ∙ append_assoc done (c ∷ []) (t ++ drop (length t) rest)

set_behind :
    (done t r : Text) (v : ℕ)
    → 0 < length r
    → set (done ++ (t ++ r)) (length done + length t) v ≡ (done ++ (t ++ v ∷ [])) ++ drop 1 r
set_behind done t [] v h = absurd (omega arith)
set_behind done t (x ∷ r) v h =
    ap₂ (λ b n. set b n v) (sym (append_assoc done t (x ∷ r))) (sym (length-append done t))
    ∙ set-append (done ++ t) x v r
    ∙ sym (append_assoc (done ++ t) (v ∷ []) r)
    ∙ ap (λ b. b ++ r) (append_assoc done t (v ∷ []))

fill-append :
    (ts : List Text) (done rest : Text)
    → length rest ≡ string_size ts
    → fill ts (length done) (done ++ rest) ≡ done ++ join ts
unfolding fill
fill-append [] done [] h = refl
fill-append [] done (x ∷ rest) h = absurd (omega arith)
fill-append (t ∷ ts) done rest h =
    let left = length-drop (length t) rest in
    let written = done ++ (t ++ component_separator ∷ []) in
    ap₂ (fill ts)
      (omega (
        arith,
        length-append done (t ++ component_separator ∷ []),
        length-append t (component_separator ∷ []),
      ))
      (ap (λ b. set b (length done + length t) component_separator)
          (copy_to-append t done rest (omega arith))
        ∙ set_behind done t (drop (length t) rest) component_separator (omega arith))
    ∙ fill-append ts written (drop 1 (drop (length t) rest))
        (omega (arith, length-drop 1 (drop (length t) rest)))
    ∙ append_assoc done (t ++ component_separator ∷ []) (join ts)
    ∙ ap (◌++◌ done) (append_assoc t (component_separator ∷ []) (join ts))

write_all :
    (ts : List Text) (buffer : Text)
    → length buffer ≡ suc (string_size ts)
    → fill ts 1 (set buffer 0 component_separator) ≡ render ts
write_all ts [] h = absurd (omega arith)
write_all ts (x ∷ rest) h = fill-append ts (component_separator ∷ []) rest (omega arith)

-- Whatever the old string was, the new one is the normal form of the components, as long as its
-- length fits the `unsigned int` that counts it.
pub update_string_cache-eq :
    (s : Scope)
    → 1 + string_size s.components < unsigned_mod
    → update_string_cache s ≡ record s { scopestring = render s.components }
unfolding update_string_cache
update_string_cache-eq s h = rw (scope_size-eq 1 s.components h) (
    ap (λ t. record s { scopestring = t })
      (write_all s.components (resize (1 + string_size s.components) s.scopestring)
        (omega (arith, length-resize (1 + string_size s.components) s.scopestring))))
