-- ===== src/InprocessBus/Removing.antt =====
-- removeSink keeps the invariant of the bus while no other pointer dangles.
use rsb_cpp.Prelude.{
  ℕ, ◌-◌, ◌≡◌, refl, ap, ◌∙◌, arith, Bool, true, false, List, [], ◌∷◌, ◌==◌, if◌then◌else◌, count,
  Bool-cases, inl, inr, ◌⊎◌, All,
}
use rsb_cpp.Maps.{erase, erase-All}
use rsb_cpp.Scope.{Scope, scope_eq}
use rsb_cpp.Scope.Syntax.{IsNormal}
use rsb_cpp.Scope.Covers.{scope_ord, covers, covers_refl}
use rsb_cpp.InprocessBus.{
  SinkMap, erase_first, erase_in_all, empty_scopes, erase_scopes, remove_sink,
}
use rsb_cpp.InprocessBus.Invariant.{has, eq_of_scope_eq, IsEntry, Inv, without_sink}
use rsb_cpp.InprocessBus.Members.{mem}
use rsb_cpp.InprocessBus.Keeping.{mem-wants}

-- With all other pointers of the list live, the sink is what goes.
count-erase_first :
    (alive : ℕ → Bool) (x : ℕ) (l : List ℕ)
    → ((z : ℕ) → mem z l ≡ true → (z == x) ≡ false → alive z ≡ true)
    → (z : ℕ) → count z (erase_first alive x l) ≡ (if z == x then count z l - 1 else count z l)
unfolding erase_first
count-erase_first alive x [] h z = ground arith
count-erase_first alive x (y ∷ ys) h z =
    let live = h y in
    let self : mem y (y ∷ ys) ≡ true = ground arith in
    let ih = count-erase_first alive x ys (λ u m n. h u (ground arith) n) z in
    ground (arith, live, self, ih)

module _ (scope_of : ℕ → Scope) (normal : (z : ℕ) → IsNormal (scope_of z)) where
  module _ (alive active : ℕ → Bool) (x : ℕ)
      (live : (z : ℕ) → active z ≡ true → (z == x) ≡ false → alive z ≡ true) where
    erased-IsEntry :
        (s : Scope) (l : List ℕ)
        → IsEntry scope_of active (s, l)
        → IsEntry scope_of (without_sink active x) (s, erase_first alive x l)
    erased-IsEntry s l e = record {
      key = e.key;
      members = λ z. ground (
        arith,
        count-erase_first alive x l
            (λ u m n. live u (let w = mem-wants scope_of u e in ground arith) n) z,
        e.members z,
      );
    }

    erased-entries :
        (m : SinkMap)
        → All (IsEntry scope_of active) m
        → All (IsEntry scope_of (without_sink active x)) (erase_in_all alive x m)
    unfolding erase_in_all
    erased-entries [] h = tt
    erased-entries ((s, l) ∷ m) h = (erased-IsEntry s l h.0, erased-entries m h.1)

    has-erase_in_all : (t : Scope) (m : SinkMap) → has t (erase_in_all alive x m) ≡ has t m
    unfolding erase_in_all
    has-erase_in_all t [] = refl
    has-erase_in_all t ((s, l) ∷ m) = rw (has-erase_in_all t m)

  -- A scope that an active connector has does not become empty.
  Differ : Scope → List Scope → Type 0
  Differ t = All (λ s. scope_eq s t ≡ false)

  empty_scopes-Differ :
      (active : ℕ → Bool) (z : ℕ) (m : SinkMap)
      → active z ≡ true
      → All (IsEntry scope_of active) m
      → Differ (scope_of z) (empty_scopes m)
  unfolding empty_scopes Differ
  empty_scopes-Differ active z [] a h = tt
  empty_scopes-Differ active z ((s, []) ∷ m) a h =
      (apart (Bool-cases (scope_eq s (scope_of z))), empty_scopes-Differ active z m a h.1)
    where
      apart :
          (scope_eq s (scope_of z) ≡ true) ⊎ (scope_eq s (scope_of z) ≡ false)
          → scope_eq s (scope_of z) ≡ false
      apart (inr e) = e
      apart (inl e) =
          let q = eq_of_scope_eq s (scope_of z) h.0.key (normal z) e in
          absurd
            (ground (arith, h.0.members z, ap (covers (scope_of z)) q, covers_refl (scope_of z)))
  empty_scopes-Differ active z ((s, y ∷ l) ∷ m) a h = empty_scopes-Differ active z m a h.1

  has-erase : (t s : Scope) (m : SinkMap) → scope_eq s t ≡ false → has t (erase s m) ≡ has t m
  unfolding erase
  has-erase t s [] h = refl
  has-erase t s ((u, l) ∷ m) h = ground (arith, has-erase t s m h, scope_ord.beq_cong u s t)

  has-erase_scopes :
      (t : Scope) (ss : List Scope) (m : SinkMap)
      → Differ t ss
      → has t (erase_scopes ss m) ≡ has t m
  unfolding erase_scopes Differ
  has-erase_scopes t [] m h = refl
  has-erase_scopes t (s ∷ ss) m h = has-erase_scopes t ss (erase s m) h.1 ∙ has-erase t s m h.0

  erase_scopes-All :
      (P : Scope × List ℕ → Type 0) (ss : List Scope) (m : SinkMap)
      → All P m
      → All P (erase_scopes ss m)
  unfolding erase_scopes
  erase_scopes-All P [] m h = h
  erase_scopes-All P (s ∷ ss) m h = erase_scopes-All P ss (erase s m) (erase-All P s m h)

  -- Removing a connector keeps the invariant, for the connectors without it, if the pointers to all
  -- other active connectors are live. Whether its own pointer dangles makes no difference.
  pub remove_sink-Inv :
      (alive active : ℕ → Bool) (x : ℕ) (m : SinkMap)
      → ((z : ℕ) → active z ≡ true → (z == x) ≡ false → alive z ≡ true)
      → Inv scope_of active m
      → Inv scope_of (without_sink active x) (remove_sink alive x m)
  unfolding remove_sink
  remove_sink-Inv alive active x m live v =
      let m' = erase_in_all alive x m in
      let kept = erased-entries alive active x live m v.entries in
      record {
        entries =
            erase_scopes-All (IsEntry scope_of (without_sink active x)) (empty_scopes m') m' kept;
        keys = λ z h.
            has-erase_scopes (scope_of z) (empty_scopes m') m'
              (empty_scopes-Differ (without_sink active x) z m' h kept)
            ∙ has-erase_in_all alive active x live (scope_of z) m
            ∙ v.keys z (ground arith);
      }
