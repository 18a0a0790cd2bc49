-- ===== src/Scope/Examples.antt =====
-- Tests of src/rsb/Scope.cpp on concrete scopes, and its theorems at concrete inputs.
use rsb_cpp.Prelude.{◌≡◌, refl, List, [], ◌∷◌, true, Text, text_eq, bytes, ok, err}
use rsb_cpp.Scope.{
  empty_string, no_leading_separator, zero_length_component, invalid_character, parse,
  is_component_char, is_super_scope_of, super_scopes,
}
use rsb_cpp.Scope.Syntax.{IsNormal, render, parse-IsNormal}
use rsb_cpp.Scope.Printing.{parse-render}
use rsb_cpp.Scope.Hierarchy.{made, made-IsNormal}
use rsb_cpp.Scope.Covers.{covers}

abbrev pub a_b : List Text
a_b = bytes "a" ∷ bytes "b-2" ∷ []

abbrev pub a : List Text
a = bytes "a" ∷ []

pub made-a_b-IsNormal : IsNormal (made a_b)
unfolding is_component_char
made-a_b-IsNormal = made-IsNormal a_b ((refl, (refl, tt)), ((refl, (refl, (refl, (refl, tt)))), tt))

pub made-a-IsNormal : IsNormal (made a)
unfolding is_component_char
made-a-IsNormal = made-IsNormal a ((refl, (refl, tt)), tt)

pub root-IsNormal : IsNormal (made [])
root-IsNormal = made-IsNormal [] tt

parse_short : parse (bytes "/a/b-2") ≡ ok (made a_b)
unfolding parse
parse_short = refl

parse_errors :
    (parse [] ≡ err empty_string)
    × (parse (bytes "a/") ≡ err no_leading_separator)
    × (parse (bytes "/a//b") ≡ err (zero_length_component 3))
    × (parse (bytes "/a.b") ≡ err (invalid_character 2 b'.'))
unfolding parse
parse_errors = (refl, refl, refl, refl)

parse-IsNormal_example : IsNormal (made a_b) × (render a_b ≡ bytes "/a/b-2/")
parse-IsNormal_example = parse-IsNormal (bytes "/a/b-2") (made a_b) parse_short

parse-render_example : parse (bytes "/a/b-2/") ≡ ok (made a_b)
parse-render_example = parse-render a_b made-a_b-IsNormal.components

super_scopes_run : super_scopes true (made a_b) ≡ made [] ∷ made a ∷ made a_b ∷ []
unfolding super_scopes
super_scopes_run = refl

root_covers : covers (made []) (made a) ≡ true
unfolding is_super_scope_of text_eq
root_covers = refl

a-covers : covers (made a) (made a_b) ≡ true
unfolding is_super_scope_of text_eq
a-covers = refl
