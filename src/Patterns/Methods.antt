-- ===== src/Patterns/Methods.antt =====
-- src/rsb/patterns/LocalServer.cpp, RemoteServer.cpp and the two creators of methods in src/rsb/Factory.cpp:
-- the methods of a server. What activation of a method does is an argument.
use rsb_cpp.Prelude.{
  ◌≡◌, refl, ap, sym, ◌∙◌, arith, true, List, [], ◌∷◌, ◌++◌, none, some, if◌then◌else◌, Text, bytes,
  text_eq, Result, ok, err, ◌>>=◌, >>=-eq-ok, Option-cases, inl, inr, is_some, text_eq_refl,
}
use rsb_cpp.Maps.{Map, find, insert, text_ord, find-insert, find-cong}
use rsb_cpp.Scope.{Scope, SyntaxError, parse, concat}

pub data ServerError : Type 0 where
  method_exists undefined : ServerError
  bad_scope : SyntaxError → ServerError

-- A method has its scope and its name.
pub record Method : Type 0 where
  pub scope : Scope
  pub name : Text

pub record Server : Type 0 where
  pub scope : Scope
  pub methods : Map Text Method

abbrev pub from_syntax {ℓ} : {A : Type ℓ} → Result SyntaxError A → Result ServerError A
from_syntax (ok a) = ok a
from_syntax (err e) = err (bad_scope e)

-- `components[components.size() - 1]`, which is undefined where there is none
abbrev pub last_component : List Text → Result ServerError Text
last_component [] = err undefined
last_component (name ∷ []) = ok name
last_component (name ∷ next ∷ rest) = last_component (next ∷ rest)

-- Factory::createLocalMethod and createRemoteMethod, as far as scope and name go.
unfoldable pub create_method : Scope → Result ServerError Method
create_method s = last_component s.components >>= λ name. ok (record { scope = s; name = name })

-- The method below the server's scope, and the server with it.
unfoldable pub add_method : Text → Server → Result ServerError (Method × Server)
unfolding create_method
add_method name s = from_syntax (parse (bytes "/" ++ name)) >>= λ child.
    create_method (concat s.scope child) >>= λ m.
    ok (m, record s { methods = insert name m s.methods })

-- LocalServer::registerMethod
unfoldable pub register_method : Text → Server → Result ServerError Server
unfolding add_method
register_method name s = elim (find name s.methods) [
  | none ↦ add_method name s >>= λ (m, next). ok next
  | some m ↦ err method_exists
]

-- RemoteServer::getMethod
unfoldable pub get_method : Text → Server → Result ServerError (Method × Server)
unfolding add_method
get_method name s = elim (find name s.methods) [ none ↦ add_method name s | some m ↦ ok (m, s) ]

add_method-find :
    (name : Text) (s : Server) {m : Method} {next : Server}
    → add_method name s ≡ ok (m, next)
    → next ≡ record s { methods = insert name m s.methods }
unfolding add_method
add_method-find name s {m} {next} done =
    let (child, parsed, rest) =
      >>=-eq-ok (from_syntax (parse (bytes "/" ++ name)))
        (λ child. create_method (concat s.scope child) >>= λ m.
          ok (m, record s { methods = insert name m s.methods }))
        done in
    let (made, built, last) =
      >>=-eq-ok (create_method (concat s.scope child))
        (λ m. ok (m, record s { methods = insert name m s.methods })) rest in
    ground arith

-- A remote server makes a method once: asked for it again it returns the same one and keeps its state,
-- and what it holds under other names is as it was.
pub get_method-get_method :
    (name other : Text) (s : Server) {m : Method} {next : Server}
    → get_method name s ≡ ok (m, next)
    → (get_method name next ≡ ok (m, next))
      × (find other next.methods ≡ (if text_eq name other then some m else find other s.methods))
unfolding get_method
get_method-get_method name other s {m} {next} done = elim (Option-cases (find name s.methods)) [
  | inl absent ↦
      let made = let d = rw (get_method, absent) at done in add_method-find name s d in
      let there : find name next.methods ≡ some m =
        ap (λ n. find name n.methods) made
        ∙ find-insert name name m s.methods
        ∙ ap (λ b. if b then some m else find name s.methods) (text_eq_refl name) in
      (
        rw (get_method, there) refl,
        ap (λ n. find other n.methods) made ∙ find-insert name other m s.methods,
      )
  | inr (old, there) ↦
      let d = rw (get_method, there) at done in
      let same : old ≡ m = ground arith in
      let kept : s ≡ next = ground arith in
      (
        rw (← kept) (rw (get_method, there, same) refl),
        ap (λ n. find other n.methods) (sym kept)
            ∙ ground (arith, find-cong name other s.methods, there, same),
      )
]

-- A local server does not take a second method of a name: once a name is registered it finds a method,
-- and to register it again is a MethodExistsException.
pub register_method-register_method :
    (name : Text) (s : Server) {next : Server}
    → register_method name s ≡ ok next
    → (register_method name next ≡ err method_exists) × (is_some (find name next.methods) ≡ true)
unfolding register_method
register_method-register_method name s {next} done = elim (Option-cases (find name s.methods)) [
  | inl absent ↦
      let d = rw (register_method, absent) at done in
      let ((m, built), added, last) = >>=-eq-ok (add_method name s) (λ (m, next). ok next) d in
      let same : built ≡ next = ground arith in
      let made = add_method-find name s added in
      let there : find name next.methods ≡ some m =
        ap (λ n. find name n.methods) (sym same ∙ made)
        ∙ find-insert name name m s.methods
        ∙ ap (λ b. if b then some m else find name s.methods) (text_eq_refl name) in
      (rw (register_method, there) refl, rw there refl)
  | inr (m, there) ↦ let d = rw (register_method, there) at done in cc
]
