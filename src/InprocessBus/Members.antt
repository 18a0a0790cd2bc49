-- ===== src/InprocessBus/Members.antt =====
-- How often a connector stands in the lists that the bus builds.
use rsb_cpp.Prelude.{
  ℕ, ◌≡◌, refl, ap, ◌∙◌, arith, Bool, true, false, ◌||◌, List, [], ◌∷◌, ltb, ◌==◌, if◌then◌else◌,
  count, Bool-cases, inl, inr, All,
}
use rsb_cpp.Scope.{Scope}
use rsb_cpp.Scope.Covers.{covers}
use rsb_cpp.InprocessBus.{SinkMap, set_insert, insert_list, collect}

-- One for a connector that is there.
abbrev pub bit : Bool → ℕ
bit true = 1
bit false = 0

abbrev pub mem : ℕ → List ℕ → Bool
mem x [] = false
mem x (y ∷ ys) = x == y || mem x ys

-- In the order of the addresses, each once.
abbrev IsIncreasing : List ℕ → Type 0
IsIncreasing [] = Unit
IsIncreasing (x ∷ xs) = All (λ y. ltb x y ≡ true) xs × IsIncreasing xs

above-set_insert :
    (z x : ℕ) (l : List ℕ)
    → ltb z x ≡ true
    → All (λ y. ltb z y ≡ true) l
    → All (λ y. ltb z y ≡ true) (set_insert x l)
unfolding set_insert
above-set_insert z x [] h a = (h, tt)
above-set_insert z x (y ∷ ys) h a = ground (arith, above-set_insert z x ys h a.1)

above_trans :
    (x y : ℕ) (l : List ℕ)
    → ltb x y ≡ true
    → All (λ z. ltb y z ≡ true) l
    → All (λ z. ltb x z ≡ true) l
above_trans x y [] h a = tt
above_trans x y (z ∷ l) h a = (ground arith, above_trans x y l h a.1)

set_insert-IsIncreasing : (x : ℕ) (l : List ℕ) → IsIncreasing l → IsIncreasing (set_insert x l)
unfolding set_insert
set_insert-IsIncreasing x [] h = (tt, tt)
set_insert-IsIncreasing x (y ∷ ys) h = elim (Bool-cases (x == y)) [
  | inl same ↦ rw same h
  | inr other ↦ elim (Bool-cases (ltb x y)) [
    | inl before ↦ rw (other, before) ((before, above_trans x y ys before h.0), h)
    | inr behind ↦
        rw (other, behind)
          (above-set_insert y x ys (ground arith) h.0, set_insert-IsIncreasing x ys h.1)
  ]
]

mem-set_insert : (z x : ℕ) (l : List ℕ) → mem z (set_insert x l) ≡ (z == x || mem z l)
unfolding set_insert
mem-set_insert z x [] = refl
mem-set_insert z x (y ∷ ys) = ground (arith, mem-set_insert z x ys)

insert_list-IsIncreasing : (l xs : List ℕ) → IsIncreasing l → IsIncreasing (insert_list l xs)
unfolding insert_list
insert_list-IsIncreasing l [] h = h
insert_list-IsIncreasing l (x ∷ xs) h =
    insert_list-IsIncreasing (set_insert x l) xs (set_insert-IsIncreasing x l h)

mem-insert_list : (z : ℕ) (l xs : List ℕ) → mem z (insert_list l xs) ≡ (mem z l || mem z xs)
unfolding insert_list
mem-insert_list z l [] = ground arith
mem-insert_list z l (x ∷ xs) =
    mem-insert_list z (set_insert x l) xs ∙ ground (arith, mem-set_insert z x l)

collect-IsIncreasing :
    (s : Scope) (l : List ℕ) (m : SinkMap) → IsIncreasing l → IsIncreasing (collect s l m)
unfolding collect
collect-IsIncreasing s l [] h = h
collect-IsIncreasing s l ((t, xs) ∷ m) h = elim (Bool-cases (covers t s)) [
  | inl inside ↦
      rw inside (collect-IsIncreasing s (insert_list l xs) m (insert_list-IsIncreasing l xs h))
  | inr outside ↦ rw outside (collect-IsIncreasing s l m h)
]

-- The connector stands under a scope that covers s.
abbrev pub reached : ℕ → Scope → SinkMap → Bool
reached z s [] = false
reached z s ((t, xs) ∷ m) = (if covers t s then mem z xs else false) || reached z s m

mem-collect :
    (z : ℕ) (s : Scope) (l : List ℕ) (m : SinkMap)
    → mem z (collect s l m) ≡ (mem z l || reached z s m)
unfolding collect
mem-collect z s l [] = ground arith
mem-collect z s l ((t, xs) ∷ m) = elim (Bool-cases (covers t s)) [
  | inl inside ↦
      rw inside (mem-collect z s (insert_list l xs) m ∙ ground (arith, mem-insert_list z l xs))
  | inr outside ↦ rw outside (mem-collect z s l m)
]

count_absent : (z : ℕ) (l : List ℕ) → All (λ y. ltb z y ≡ true) l → count z l ≡ 0
count_absent z [] a = refl
count_absent z (y ∷ l) a = ground (arith, count_absent z l a.1)

count_increasing : (z : ℕ) (l : List ℕ) → IsIncreasing l → count z l ≡ bit (mem z l)
count_increasing z [] h = refl
count_increasing z (y ∷ l) h = elim (Bool-cases (z == y)) [
  | inl same ↦ ground (arith, count_absent z l (let e : z ≡ y = ground arith in rw e h.0))
  | inr other ↦ ground (arith, count_increasing z l h.1)
]

-- A new entry lists each connector of the covering scopes once.
pub count-collect :
    (z : ℕ) (s : Scope) (m : SinkMap) → count z (collect s [] m) ≡ bit (reached z s m)
count-collect z s m =
    count_increasing z (collect s [] m) (collect-IsIncreasing s [] m tt)
    ∙ ap bit (mem-collect z s [] m)

pub mem-count : (z : ℕ) (l : List ℕ) → mem z l ≡ ltb 0 (count z l)
mem-count z [] = refl
mem-count z (y ∷ l) = ground (arith, mem-count z l)
