-- ===== src/InprocessBus.antt =====
-- src/rsb/transport/inprocess/Bus.cpp: the bus that connects the participants of one process.
-- A connector is known by its address, a number; its scope does not change while it is active.
-- `alive x` says that the weak pointer to connector x can still be locked.
pub mod Members
pub mod Invariant
pub mod Keeping
pub mod Removing
pub mod Dangling
pub mod Delivery
mod Examples
use rsb_cpp.Prelude.{
  ℕ, Bool, true, false, not, ◌||◌, List, [], ◌∷◌, ◌++◌, Option, none, some, is_empty, ltb, ◌==◌,
  if◌then◌else◌,
}
use rsb_cpp.Maps.{Map, find, insert, erase}
use rsb_cpp.Scope.{Scope, scope_eq, is_super_scope_of, is_sub_scope_of}
use rsb_cpp.Scope.Covers.{scope_ord}

-- SinkMap: a list of weak pointers under each scope
abbrev pub SinkMap : Type 0
SinkMap = Map Scope (List ℕ)

-- std::set<weak_ptr>::insert; the set is in the order of the addresses
unfoldable pub set_insert : ℕ → List ℕ → List ℕ
set_insert x [] = x ∷ []
set_insert x (y ∷ ys) =
    let rest = set_insert x ys in
    if x == y then y ∷ ys else if ltb x y then x ∷ y ∷ ys else y ∷ rest

-- copy(…, inserter(connectors, …))
unfoldable pub insert_list : List ℕ → List ℕ → List ℕ
unfolding set_insert
insert_list connectors [] = connectors
insert_list connectors (x ∷ xs) = insert_list (set_insert x connectors) xs

-- The loop over the map that gathers the connectors of all scopes that cover `scope`.
unfoldable pub collect : Scope → List ℕ → SinkMap → List ℕ
unfolding insert_list
collect scope connectors [] = connectors
collect scope connectors ((s, l) ∷ m) =
    collect scope
      (if scope_eq s scope || is_super_scope_of s scope
        then insert_list connectors l
        else connectors)
      m

-- What both addSink and handleNoLock do first: create the entry of a scope that has none.
unfoldable pub ensure_entry : Scope → SinkMap → SinkMap
unfolding collect
ensure_entry scope m = elim (find scope m) [
  | none ↦ insert scope (collect scope [] m) m
  | some l ↦ m
]

-- `it->second.push_back(sink)` at the entry of the scope
push_back_at : Scope → ℕ → SinkMap → SinkMap
push_back_at scope x [] = []
push_back_at scope x ((s, l) ∷ m) =
    (s, if scope_eq s scope then l ++ x ∷ [] else l) ∷ push_back_at scope x m

-- The last loop of addSink.
push_to_sub_scopes : Scope → ℕ → SinkMap → SinkMap
push_to_sub_scopes scope x [] = []
push_to_sub_scopes scope x ((s, l) ∷ m) =
    (s, if is_sub_scope_of s scope then l ++ x ∷ [] else l) ∷ push_to_sub_scopes scope x m

module _ (scope_of : ℕ → Scope) where
  unfoldable pub add_sink : ℕ → SinkMap → SinkMap
  unfolding ensure_entry push_back_at push_to_sub_scopes
  add_sink x m =
      push_to_sub_scopes (scope_of x) x (push_back_at (scope_of x) x (ensure_entry (scope_of x) m))

-- The inner loop of removeSink: the first pointer that dangles or is the sink is erased.
unfoldable pub erase_first : (ℕ → Bool) → ℕ → List ℕ → List ℕ
erase_first alive x [] = []
erase_first alive x (y ∷ ys) =
    let rest = erase_first alive x ys in if not (alive y) || y == x then ys else y ∷ rest

unfoldable pub erase_in_all : (ℕ → Bool) → ℕ → SinkMap → SinkMap
unfolding erase_first
erase_in_all alive x [] = []
erase_in_all alive x ((s, l) ∷ m) = (s, erase_first alive x l) ∷ erase_in_all alive x m

-- `emptyScopes`
unfoldable pub empty_scopes : SinkMap → List Scope
empty_scopes [] = []
empty_scopes ((s, l) ∷ m) = if is_empty l then s ∷ empty_scopes m else empty_scopes m

unfoldable pub erase_scopes : List Scope → SinkMap → SinkMap
erase_scopes [] m = m
erase_scopes (s ∷ ss) m = erase_scopes ss (erase s m)

unfoldable pub remove_sink : (ℕ → Bool) → ℕ → SinkMap → SinkMap
unfolding erase_in_all empty_scopes erase_scopes
remove_sink alive x m = let m' = erase_in_all alive x m in erase_scopes (empty_scopes m') m'

-- The connectors of the list whose `handle` is called.
unfoldable pub lock_all : (ℕ → Bool) → List ℕ → List ℕ
lock_all alive [] = []
lock_all alive (x ∷ xs) = if alive x then x ∷ lock_all alive xs else lock_all alive xs

connectors_at : Scope → SinkMap → List ℕ
connectors_at scope m = elim (find scope m) [ none ↦ [] | some l ↦ l ]

-- handle, with or without the lock: the map afterwards, and the connectors that got the event, in order.
unfoldable pub handle : (ℕ → Bool) → Scope → SinkMap → SinkMap × List ℕ
unfolding ensure_entry lock_all connectors_at
handle alive scope m =
    let m' = ensure_entry scope m in (m', lock_all alive (connectors_at scope m'))
