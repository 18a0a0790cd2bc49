-- ===== src/Scope/Syntax.antt =====
-- Which strings the constructor accepts, and what it stores.
use rsb_cpp.Prelude.{
  ℕ, suc, ◌≡◌, refl, sym, ap, ◌∙◌, arith, List, [], ◌∷◌, ◌++◌, true, false, Text, append-nil,
  append_assoc, All, All-append, is_empty, ok, if◌then◌else◌, Bool-cases, inl, inr, ◌==◌, ==_iff,
  >>=-eq-ok,
}
use rsb_cpp.Scope.{
  Scope, component_separator, is_component_char, split_loop, ends_with_separator, normalized, parse,
}

-- One component: not empty, and of the characters [-_a-zA-Z0-9].
abbrev pub AllChars : Text → Type 0
AllChars = All (λ c. is_component_char c ≡ true)

abbrev pub IsComponent : Text → Type 0
IsComponent t = (is_empty t ≡ false) × AllChars t

-- The components, each with a separator behind it.
abbrev pub join : List Text → Text
join [] = []
join (t ∷ ts) = t ++ (component_separator ∷ join ts)

-- The normal form of the string.
abbrev pub render : List Text → Text
render ts = component_separator ∷ join ts

pub record IsNormal (s : Scope) : Type 0 where
  pub text : s.scopestring ≡ render s.components
  pub components : All IsComponent s.components

pub join-append : (ts us : List Text) → join (ts ++ us) ≡ join ts ++ join us
join-append [] us = refl
join-append (t ∷ ts) us =
    rw (join-append ts us) (sym (append_assoc t (component_separator ∷ join ts) (join us)))

join-append_one :
    (ts : List Text) (t : Text) → join (ts ++ t ∷ []) ≡ join ts ++ (t ++ component_separator ∷ [])
join-append_one ts t = join-append ts (t ∷ [])

pub char-ne-separator : (c : ℕ) → is_component_char c ≡ true → (c == component_separator) ≡ false
unfolding is_component_char
char-ne-separator c h = ground arith

-- What the loop adds to the text before it.
finish : Text → Text → Text
finish cur [] = if is_empty cur then [] else cur ++ component_separator ∷ []
finish cur (c ∷ rest) =
    let closed = finish [] rest in
    let longer = finish (cur ++ c ∷ []) rest in
    if c == component_separator then cur ++ (component_separator ∷ closed) else longer

record Split (out : List Text) (comps : List Text) (cur rest : Text) : Type 0 where
  parts : All IsComponent out
  text : join out ≡ join comps ++ finish cur rest

AllChars-push :
    (cur : Text) (c : ℕ) → AllChars cur → is_component_char c ≡ true → AllChars (cur ++ c ∷ [])
AllChars-push cur c h k = All-append _ cur (c ∷ []) h (k, tt)

is_empty-push : (cur : Text) (c : ℕ) → is_empty (cur ++ c ∷ []) ≡ false
is_empty-push [] c = refl
is_empty-push (x ∷ cur) c = refl

close-IsComponent :
    (comps : List Text) (cur : Text)
    → All IsComponent comps
    → is_empty cur ≡ false
    → AllChars cur
    → All IsComponent (comps ++ cur ∷ [])
close-IsComponent comps cur h e k = All-append IsComponent comps (cur ∷ []) h ((e, k), tt)

close_text :
    (comps : List Text) (cur out : Text)
    → join (comps ++ cur ∷ []) ++ out ≡ join comps ++ (cur ++ (component_separator ∷ out))
close_text comps cur out = rw (join-append_one comps cur) (
    append_assoc (join comps) (cur ++ component_separator ∷ []) out
    ∙ ap (◌++◌ (join comps)) (append_assoc cur (component_separator ∷ []) out))

split_loop-Split :
    (rest : Text) (at : ℕ) (cur : Text) (comps out : List Text)
    → AllChars cur
    → All IsComponent comps
    → split_loop rest at cur comps ≡ ok out
    → Split out comps cur rest
unfolding split_loop finish
split_loop-Split [] at [] comps out hc ha e = record {
  parts = let e' : comps ≡ out = ground arith in rw (← e') ha;
  text = let e' : comps ≡ out = ground arith in rw (← e') (sym (append-nil (join comps)));
}
split_loop-Split [] at (x ∷ cur) comps out hc ha e =
    let e' : comps ++ (x ∷ cur) ∷ [] ≡ out = ground arith in
    record {
      parts = rw (← e') (close-IsComponent comps (x ∷ cur) ha refl hc);
      text = rw (← e') (join-append_one comps (x ∷ cur));
    }
split_loop-Split (c ∷ rest) at cur comps out hc ha e =
    elim (Bool-cases (c == component_separator)) [
      | inl sep ↦ elim (Bool-cases (is_empty cur)) [
        | inl none ↦ let e' = rw (sep, none) at e in cc
        | inr more ↦
            let e' : split_loop rest (suc at) [] (comps ++ cur ∷ []) ≡ ok out =
              rw (sep, more) at e in
            let ih =
              split_loop-Split rest (suc at) [] (comps ++ cur ∷ []) out tt
                (close-IsComponent comps cur ha more hc) e' in
            record {
              parts = ih.parts;
              text = rw sep (ih.text ∙ close_text comps cur (finish [] rest));
            }
      ]
      | inr char ↦ elim (Bool-cases (is_component_char c)) [
        | inl legal ↦
            let e' : split_loop rest (suc at) (cur ++ c ∷ []) comps ≡ ok out =
              rw (char, legal) at e in
            let ih =
              split_loop-Split rest (suc at) (cur ++ c ∷ []) comps out
                (AllChars-push cur c hc legal) ha e' in
            record { parts = ih.parts; text = rw char ih.text }
        | inr illegal ↦ let e' = rw (char, illegal) at e in cc
      ]
    ]

-- `normalized` looks at the last character only.
pub normalized-append :
    (xs : Text) (c : ℕ) (ys : Text) → normalized (xs ++ (c ∷ ys)) ≡ xs ++ normalized (c ∷ ys)
normalized-append [] c ys = refl
normalized-append (x ∷ []) c ys = ground arith
normalized-append (x ∷ y ∷ xs) c ys = ground (arith, normalized-append (y ∷ xs) c ys)

abbrev NoSeparator : Text → Type 0
NoSeparator = All (λ c. (c == component_separator) ≡ false)

separator_free_end :
    (cur : Text) → is_empty cur ≡ false → NoSeparator cur → ends_with_separator cur ≡ false
separator_free_end [] e h = cc
separator_free_end (x ∷ []) e h = h.0
separator_free_end (x ∷ y ∷ cur) e h = separator_free_end (y ∷ cur) refl h.1

-- From a separator on, the loop's text is the normal form.
finish-normalized :
    (cur rest : Text)
    → NoSeparator cur
    → component_separator ∷ finish cur rest ≡ normalized (component_separator ∷ (cur ++ rest))
unfolding finish
finish-normalized [] [] hc = refl
finish-normalized (x ∷ cur) [] hc = rw (append-nil cur, separator_free_end (x ∷ cur) refl hc) refl
finish-normalized cur (c ∷ rest) hc = elim (Bool-cases (c == component_separator)) [
  | inl sep ↦
      let e : c ≡ component_separator = (==_iff c component_separator).0 sep in
      rw (sep, e)
        (ap (λ t. component_separator ∷ (cur ++ t)) (finish-normalized [] rest tt)
          ∙ sym (normalized-append (component_separator ∷ cur) component_separator rest))
  | inr char ↦ rw char (
      finish-normalized (cur ++ c ∷ []) rest (All-append _ cur (c ∷ []) hc (char, tt))
      ∙ ap (λ t. normalized (component_separator ∷ t)) (append_assoc cur (c ∷ []) rest))
]

accepted-IsNormal :
    (c : ℕ) (rest : Text) (ts : List Text)
    → c ≡ component_separator
    → split_loop rest 1 [] [] ≡ ok ts
    → IsNormal (record { scopestring = normalized (c ∷ rest); components = ts })
accepted-IsNormal c rest ts starts split =
    let parts = split_loop-Split rest 1 [] [] ts tt tt split in
    record {
      text =
          ap (λ d. normalized (d ∷ rest)) starts
          ∙ sym (finish-normalized [] rest tt)
          ∙ ap (◌∷◌ component_separator) (sym parts.text);
      components = parts.parts;
    }

-- A scope that the constructor accepts is in normal form: legal components, and the string that
-- they spell, which is the given one but for the trailing separator.
pub parse-IsNormal :
    (s : Text) (scope : Scope)
    → parse s ≡ ok scope
    → IsNormal scope × (scope.scopestring ≡ normalized s)
unfolding parse
parse-IsNormal [] scope h = cc
parse-IsNormal (c ∷ rest) scope h = elim (Bool-cases (c == component_separator)) [
  | inr other ↦ let e = rw other at h in cc
  | inl sep ↦
      let (ts, split, made) = >>=-eq-ok (split_loop rest 1 [] []) _ (rw sep at h) in
      let same : record { scopestring = normalized (c ∷ rest); components = ts } ≡ scope =
        ground arith in
      (
        rw (← same) (accepted-IsNormal c rest ts ((==_iff c component_separator).0 sep) split),
        rw (← same),
      )
]
