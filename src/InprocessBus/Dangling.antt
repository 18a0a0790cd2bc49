-- ===== src/InprocessBus/Dangling.antt =====
-- src/rsb/transport/inprocess/Bus.cpp: removeSink where the pointer of another connector dangles.
use rsb_cpp.Prelude.{
  ℕ, ◌≡◌, refl, ap, sym, ◌∙◌, arith, Bool, true, false, not, ◌&&◌, ◌||◌, List, [], ◌∷◌, ◌++◌, none,
  some, ==_iff, ◌==◌, if◌then◌else◌, is_empty, All, Bool-cases, inl, inr,
}
use rsb_cpp.Maps.{find, erase, find-erase}
use rsb_cpp.Maps.Sorted.{IsSorted, find_rest}
use rsb_cpp.Scope.{Scope, scope_eq}
use rsb_cpp.Scope.Covers.{scope_ord}
use rsb_cpp.InprocessBus.{
  SinkMap, erase_first, erase_in_all, empty_scopes, erase_scopes, remove_sink, handle, ensure_entry,
  connectors_at, lock_all,
}
use rsb_cpp.InprocessBus.Members.{mem}

-- The connectors in front can be locked and are not the sink.
abbrev pub AreOthers : (ℕ → Bool) → ℕ → List ℕ → Type 0
AreOthers alive x = All (λ z. (alive z && not (z == x)) ≡ true)

erase_first-dangling :
    (alive : ℕ → Bool) (x y : ℕ) (before after : List ℕ)
    → AreOthers alive x before
    → alive y ≡ false
    → erase_first alive x (before ++ y ∷ after) ≡ before ++ after
unfolding erase_first
erase_first-dangling alive x y [] after h dead = rw dead refl
erase_first-dangling alive x y (z ∷ before) after h dead =
    let ih = erase_first-dangling alive x y before after h.1 dead in
    let keep : (not (alive z) || z == x) ≡ false = let k = h.0 in ground arith in
    rw (erase_first, keep) (ap (z ∷◌) ih)

find-erase_in_all :
    (alive : ℕ → Bool) (x : ℕ) (t : Scope) (m : SinkMap) {l : List ℕ}
    → find t m ≡ some l
    → find t (erase_in_all alive x m) ≡ some (erase_first alive x l)
unfolding find erase_in_all
find-erase_in_all alive x t [] h = cc
find-erase_in_all alive x t ((s, k) ∷ m) {l} h = elim (Bool-cases (scope_eq s t)) [
  | inl hit ↦
      let h' = rw hit at h in
      let same : k ≡ l = ground arith in rw hit (ap (λ r. some (erase_first alive x r)) same)
  | inr miss ↦ let h' = rw miss at h in rw miss (find-erase_in_all alive x t m h')
]

Differ : Scope → List Scope → Type 0
Differ t = All (λ s. scope_eq s t ≡ false)

none-Differ :
    (alive : ℕ → Bool) (x : ℕ) (t : Scope) (m : SinkMap)
    → find t m ≡ none
    → Differ t (empty_scopes (erase_in_all alive x m))
unfolding find erase_in_all empty_scopes Differ
none-Differ alive x t [] h = tt
none-Differ alive x t ((s, k) ∷ m) h = elim (Bool-cases (scope_eq s t)) [
  | inl hit ↦ let h' = rw hit at h in cc
  | inr miss ↦
      let h' = rw miss at h in
      let rest = none-Differ alive x t m h' in
      elim (Bool-cases (is_empty (erase_first alive x k))) [
        | inl gone ↦ rw (empty_scopes, gone) (miss, rest)
        | inr left ↦ rw (empty_scopes, left) rest
      ]
]

some-Differ :
    (alive : ℕ → Bool) (x : ℕ) (t : Scope) (m : SinkMap) {l : List ℕ}
    → IsSorted m
    → find t m ≡ some l
    → is_empty (erase_first alive x l) ≡ false
    → Differ t (empty_scopes (erase_in_all alive x m))
unfolding find erase_in_all empty_scopes Differ
some-Differ alive x t [] sorted h full = cc
some-Differ alive x t ((s, k) ∷ m) {l} sorted h full = elim (Bool-cases (scope_eq s t)) [
  | inl hit ↦
      let h' = rw hit at h in
      let same : k ≡ l = ground arith in
      let left : is_empty (erase_first alive x k) ≡ false =
        ap (λ r. is_empty (erase_first alive x r)) same ∙ full in
      rw (empty_scopes, left) (none-Differ alive x t m (find_rest s t k m sorted hit))
  | inr miss ↦
      let h' = rw miss at h in
      let rest = some-Differ alive x t m sorted.1 h' full in
      elim (Bool-cases (is_empty (erase_first alive x k))) [
        | inl gone ↦ rw (empty_scopes, gone) (miss, rest)
        | inr left ↦ rw (empty_scopes, left) rest
      ]
]

find-erase_scopes :
    (t : Scope) (ss : List Scope) (m : SinkMap)
    → Differ t ss
    → find t (erase_scopes ss m) ≡ find t m
unfolding erase_scopes Differ
find-erase_scopes t [] m h = refl
find-erase_scopes t (s ∷ ss) m h =
    find-erase_scopes t ss (erase s m) h.1
    ∙ find-erase s t m
    ∙ ap (λ b. if b then none else find t m) h.0

mem-behind : (x : ℕ) (before after : List ℕ) → mem x after ≡ true → mem x (before ++ after) ≡ true
mem-behind x [] after h = h
mem-behind x (z ∷ before) after h = ground (arith, mem-behind x before after h)

full-mem : (x : ℕ) (l : List ℕ) → mem x l ≡ true → is_empty l ≡ false
full-mem x [] h = cc
full-mem x (z ∷ l) h = refl

mem-lock_all :
    (alive : ℕ → Bool) (x : ℕ) (l : List ℕ)
    → alive x ≡ true
    → mem x l ≡ true
    → mem x (lock_all alive l) ≡ true
unfolding lock_all
mem-lock_all alive x [] a h = cc
mem-lock_all alive x (z ∷ l) a h =
    let same : (x == z) ≡ true → alive z ≡ true = λ e. ap alive (sym ((==_iff x z).0 e)) ∙ a in
    ground (arith, mem-lock_all alive x l a, same)

handle-known :
    (later : ℕ → Bool) (t : Scope) (m : SinkMap) {l : List ℕ}
    → find t m ≡ some l
    → (handle later t m).1 ≡ lock_all later l
unfolding handle ensure_entry connectors_at
handle-known later t m h =
    let same : ensure_entry t m ≡ m = rw (ensure_entry, h) refl in
    ap (λ n. lock_all later (connectors_at t n)) same
    ∙ ap (λ f. lock_all later (elim f [ none ↦ [] | some k ↦ k ])) h

-- In a map with its scopes in order, let a dangling pointer to another connector stand in front of the
-- sink in the entry of a scope, and before it only live pointers to others. Then removeSink takes that
-- pointer out of the entry instead of the sink, and an event on the scope still reaches the sink if it
-- can be locked.
pub remove_sink_dangling :
    (alive later : ℕ → Bool) (x y : ℕ) (t : Scope) (before after : List ℕ) (m : SinkMap)
    → IsSorted m
    → find t m ≡ some (before ++ y ∷ after)
    → AreOthers alive x before
    → alive y ≡ false
    → mem x after ≡ true
    → later x ≡ true
    → (find t (remove_sink alive x m) ≡ some (before ++ after))
      × (mem x (handle later t (remove_sink alive x m)).1 ≡ true)
unfolding remove_sink handle
remove_sink_dangling alive later x y t before after m sorted there front dead behind there_later =
    let m' = erase_in_all alive x m in
    let rest = erase_first-dangling alive x y before after front dead in
    let stays = mem-behind x before after behind in
    let full : is_empty (erase_first alive x (before ++ y ∷ after)) ≡ false =
      ap is_empty rest ∙ full-mem x (before ++ after) stays in
    let left : find t (remove_sink alive x m) ≡ some (before ++ after) =
      find-erase_scopes t (empty_scopes m') m' (some-Differ alive x t m sorted there full)
      ∙ find-erase_in_all alive x t m there
      ∙ ap some rest in
    (
      left,
      (ap (mem x) (handle-known later t (remove_sink alive x m) left)
          ∙ mem-lock_all later x (before ++ after) there_later stays),
    )
