-- ===== src/Scope.antt =====
-- src/rsb/Scope.cpp: hierarchical channel names such as "/a/b/". The proofs are in the children.
pub mod Syntax
pub mod Printing
pub mod Cache
pub mod Names
pub mod Hierarchy
pub mod Covers
pub mod Examples
use rsb_cpp.Prelude.{
  ℕ, zero, suc, ◌+◌, ◌-◌, ◌%◌, ◌^◌, Bool, true, false, not, ◌&&◌, ◌||◌, List, [], ◌∷◌, ◌++◌, map,
  leb, ◌==◌, if◌then◌else◌, length, is_empty, get_or, set, take, replicate, Text, text_eq, text_lt,
  Result, ok, err, ◌>>=◌,
}

pub record Scope : Type 0 where
  pub scopestring : Text
  pub components : List Text

-- `invalid_argument`, with the position that the message reports.
pub data SyntaxError : Type 0 where
  empty_string : SyntaxError
  no_leading_separator : SyntaxError
  zero_length_component : ℕ → SyntaxError
  invalid_character : ℕ → ℕ → SyntaxError

-- Scope::COMPONENT_SEPARATOR
abbrev pub component_separator : ℕ
component_separator = b'/'

unfoldable pub is_component_char : ℕ → Bool
is_component_char c =
    (leb b'a' c && leb c b'z')
    || (leb b'A' c && leb c b'Z')
    || (leb b'0' c && leb c b'9')
    || (c == b'_')
    || (c == b'-')

-- The loop over the characters behind the first: `at` is the position of `next`, `current` the
-- text between `prev` and `next`, `components` the vector so far.
unfoldable pub split_loop : Text → ℕ → Text → List Text → Result SyntaxError (List Text)
unfolding is_component_char
split_loop [] at current components =
    ok (if is_empty current then components else components ++ current ∷ [])
split_loop (c ∷ rest) at current components =
    let closed = split_loop rest (suc at) [] (components ++ current ∷ []) in
    let longer = split_loop rest (suc at) (current ++ c ∷ []) components in
    if c == component_separator
    then (if is_empty current then err (zero_length_component at) else closed)
    else if is_component_char c
    then longer
    else err (invalid_character at c)

abbrev pub ends_with_separator : Text → Bool
ends_with_separator [] = false
ends_with_separator (c ∷ []) = c == component_separator
ends_with_separator (c ∷ d ∷ rest) = ends_with_separator (d ∷ rest)

abbrev pub normalized : Text → Text
normalized s = if ends_with_separator s then s else s ++ component_separator ∷ []

-- verifyAndSplit, and the constructors that take a string
unfoldable pub parse : Text → Result SyntaxError Scope
unfolding split_loop
parse [] = err empty_string
parse (c ∷ rest) =
    if c == component_separator
    then (do
      components ← split_loop rest 1 [] []
      ok (record { scopestring = normalized (c ∷ rest); components = components }))
    else err no_leading_separator

-- Scope::Scope()
abbrev pub root : Scope
root = record { scopestring = component_separator ∷ []; components = [] }

-- The sum of `it->size() + 1`, before it wraps.
abbrev pub string_size : List Text → ℕ
string_size [] = 0
string_size (t ∷ ts) = length t + 1 + string_size ts

abbrev pub unsigned_mod : ℕ
unsigned_mod = 2 ^ 32

-- The first loop of updateStringCache, over an `unsigned int`.
scope_size : ℕ → List Text → ℕ
scope_size size [] = size
scope_size size (t ∷ ts) = scope_size ((size + (length t + 1)) % unsigned_mod) ts

-- string::resize
resize : ℕ → Text → Text
resize n s = take n s ++ replicate (n - length s) 0

-- std::copy to the cursor
copy_to : Text → ℕ → Text → Text
copy_to [] cursor buffer = buffer
copy_to (c ∷ cs) cursor buffer = copy_to cs (suc cursor) (set buffer cursor c)

-- The second loop of updateStringCache.
fill : List Text → ℕ → Text → Text
fill [] cursor buffer = buffer
fill (t ∷ ts) cursor buffer =
    fill ts (suc (cursor + length t))
      (set (copy_to t cursor buffer) (cursor + length t) component_separator)

-- updateStringCache
pub update_string_cache : Scope → Scope
unfolding scope_size resize copy_to fill
update_string_cache s = record s {
  scopestring =
      fill s.components 1
        (set (resize (scope_size 1 s.components) s.scopestring) 0 component_separator);
}

push_all : List Text → List Text → List Text
push_all result [] = result
push_all result (t ∷ ts) = push_all (result ++ t ∷ []) ts

pub concat : Scope → Scope → Scope
unfolding push_all update_string_cache
concat s child =
    update_string_cache (record root { components = push_all s.components child.components })

-- `components[j] == other.components[j]` for the next n indices from i on
same_components : ℕ → ℕ → List Text → List Text → Bool
same_components zero i xs ys = true
same_components (suc n) i xs ys =
    let rest = same_components n (suc i) xs ys in
    if text_eq (get_or xs i []) (get_or ys i []) then rest else false

unfoldable pub is_sub_scope_of : Scope → Scope → Bool
unfolding same_components
is_sub_scope_of s other =
    if leb (length s.components) (length other.components)
    then false
    else same_components (length other.components) 0 s.components other.components

unfoldable pub is_super_scope_of : Scope → Scope → Bool
unfolding same_components
is_super_scope_of s other =
    if leb (length other.components) (length s.components)
    then false
    else same_components (length s.components) 0 s.components other.components

-- The inner loop of superScopes: n components from i on are pushed.
push_range : ℕ → ℕ → List Text → List Text → List Text
push_range zero i components result = result
push_range (suc n) i components result =
    push_range n (suc i) components (result ++ get_or components i [] ∷ [])

-- The outer loop of superScopes: n rounds from `required` on.
super_loop : ℕ → ℕ → List Text → List Scope
super_loop zero required components = []
super_loop (suc n) required components =
    update_string_cache (record root { components = push_range required 0 components [] })
    ∷ super_loop n (suc required) components

unfoldable pub super_scopes : Bool → Scope → List Scope
unfolding push_range super_loop update_string_cache
super_scopes include_self s =
    super_loop (length s.components) 0 s.components ++ (if include_self then s ∷ [] else [])

-- operator==, operator<
abbrev pub scope_eq : Scope → Scope → Bool
scope_eq s other = text_eq s.scopestring other.scopestring

abbrev pub scope_lt : Scope → Scope → Bool
scope_lt s other = text_lt s.scopestring other.scopestring
