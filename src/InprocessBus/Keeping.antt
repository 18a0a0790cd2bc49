-- ===== src/InprocessBus/Keeping.antt =====
-- addSink and the creation of an entry keep the invariant of the bus.
use rsb_cpp.Prelude.{
  ℕ, ◌+◌, ◌≡◌, refl, ap, ◌∙◌, arith, Bool, true, false, ◌&&◌, List, [], ◌∷◌, ◌++◌, ◌==◌, ==_iff,
  if◌then◌else◌, count, count-append, Bool-cases, Option-cases, inl, inr, All, some, ◌⊎◌,
}
use rsb_cpp.Maps.{find, insert, insert-All}
use rsb_cpp.Scope.{Scope, scope_eq, is_sub_scope_of}
use rsb_cpp.Scope.Syntax.{IsNormal}
use rsb_cpp.Scope.Hierarchy.{is_sub_scope_of-eq}
use rsb_cpp.Scope.Covers.{scope_ord, covers, covers_refl, covers_trans, super_irrefl}
use rsb_cpp.Prelude.{text_eq_sym, text_eq_refl}
use rsb_cpp.InprocessBus.{
  SinkMap, collect, ensure_entry, push_back_at, push_to_sub_scopes, add_sink,
}
use rsb_cpp.InprocessBus.Invariant.{has, eq_of_scope_eq, wants, IsEntry, Inv, with_sink}
use rsb_cpp.InprocessBus.Members.{bit, mem, reached, count-collect, mem-count}

module _ (scope_of : ℕ → Scope) where
  pub mem-wants :
      {active : ℕ → Bool} {s : Scope} {l : List ℕ} (z : ℕ)
      → IsEntry scope_of active (s, l)
      → mem z l ≡ wants scope_of active z s
  mem-wants {active} {s} {l} z e = ground (arith, mem-count z l, e.members z)

module _ (scope_of : ℕ → Scope) (normal : (z : ℕ) → IsNormal (scope_of z)) where
  reached_sound :
      (active : ℕ → Bool) (m : SinkMap) (z : ℕ) (s : Scope)
      → All (IsEntry scope_of active) m
      → IsNormal s
      → reached z s m ≡ true
      → wants scope_of active z s ≡ true
  reached_sound active [] z s h n e = cc
  reached_sound active ((t, l) ∷ m) z s h n e = ground (
    arith,
    mem-wants scope_of z h.0,
    covers_trans (scope_of z) t s (normal z) h.0.key n,
    reached_sound active m z s h.1 n,
  )

  reached_complete :
      (active : ℕ → Bool) (m : SinkMap) (z : ℕ) (s : Scope)
      → All (IsEntry scope_of active) m
      → has (scope_of z) m ≡ true
      → wants scope_of active z s ≡ true
      → reached z s m ≡ true
  reached_complete active [] z s h k e = cc
  reached_complete active ((t, l) ∷ m) z s h k e = elim (Bool-cases (scope_eq t (scope_of z))) [
    | inl here ↦
        let same = eq_of_scope_eq t (scope_of z) h.0.key (normal z) here in
        let there = mem-wants scope_of z h.0 in
        ground (
          arith,
          there,
          ap (covers (scope_of z)) same,
          ap (λ u. covers u s) same,
          covers_refl (scope_of z),
        )
    | inr other ↦ ground (arith, reached_complete active m z s h.1 (ground arith) e)
  ]

  reached-eq :
      (active : ℕ → Bool) (m : SinkMap) (z : ℕ) (s : Scope)
      → Inv scope_of active m
      → IsNormal s
      → reached z s m ≡ wants scope_of active z s
  reached-eq active m z s v n = elim (Bool-cases (wants scope_of active z s)) [
    | inl want ↦ rw want (reached_complete active m z s v.entries (v.keys z (ground arith)) want)
    | inr idle ↦ elim (Bool-cases (reached z s m)) [
      | inl there ↦ cc (reached_sound active m z s v.entries n there)
      | inr away ↦ rw idle away
    ]
  ]

  has-insert :
      (t s : Scope) (l : List ℕ) (m : SinkMap) → has t m ≡ true → has t (insert s l m) ≡ true
  unfolding insert
  has-insert t s l [] h = cc
  has-insert t s l ((u, k) ∷ m) h = ground (arith, has-insert t s l m)

  has-insert_self : (s : Scope) (l : List ℕ) (m : SinkMap) → has s (insert s l m) ≡ true
  unfolding insert
  has-insert_self s l [] = ground (arith, text_eq_refl s.scopestring)
  has-insert_self s l ((u, k) ∷ m) =
      ground (arith, text_eq_refl s.scopestring, has-insert_self s l m)

  has-find : (s : Scope) (m : SinkMap) {l : List ℕ} → find s m ≡ some l → has s m ≡ true
  unfolding find
  has-find s [] e = cc
  has-find s ((u, k) ∷ m) {l} e = ground (arith, has-find s m {l = l})

  pub ensure_entry-Inv :
      (active : ℕ → Bool) (s : Scope) (m : SinkMap)
      → IsNormal s
      → Inv scope_of active m
      → Inv scope_of active (ensure_entry s m) × (has s (ensure_entry s m) ≡ true)
  unfolding ensure_entry
  ensure_entry-Inv active s m n v = elim (Option-cases (find s m)) [
    | inr (l, e) ↦ rw (e, ensure_entry) (v, has-find s m e)
    | inl e ↦
        rw (e, ensure_entry)
          (
            record {
              entries =
                  insert-All (IsEntry scope_of active) s (collect s [] m) m entry
                    (λ t l same old. let q = eq_of_scope_eq t s old.key n same in rw q entry)
                    v.entries;
              keys = λ z h. has-insert (scope_of z) s (collect s [] m) m (v.keys z h);
            },
            has-insert_self s (collect s [] m) m,
          )
  ]
    where
      entry : IsEntry scope_of active (s, collect s [] m)
      entry = record {
        key = n;
        members = λ z. count-collect z s m ∙ ap bit (reached-eq active m z s v n);
      }

  -- What one entry gains from the two pushes of addSink.
  pushed : Scope → ℕ → Scope → List ℕ → List ℕ
  pushed scope x s l =
      let own = if scope_eq s scope then l ++ x ∷ [] else l in
      if is_sub_scope_of s scope then own ++ x ∷ [] else own

  count-pushed :
      (scope : Scope) (x z : ℕ) (s : Scope) (l : List ℕ)
      → IsNormal scope
      → IsNormal s
      → count z (pushed scope x s l) ≡ count z l + bit (z == x && covers scope s)
  unfolding pushed
  count-pushed scope x z s l ns n = ground (
    arith,
    count-append z l (x ∷ []),
    count-append z (l ++ x ∷ []) (x ∷ []),
    is_sub_scope_of-eq s scope,
    super_irrefl s scope n ns,
    text_eq_sym s.scopestring scope.scopestring,
  )

  pushed-IsEntry :
      (active : ℕ → Bool) (x : ℕ) (s : Scope) (l : List ℕ)
      → active x ≡ false
      → IsEntry scope_of active (s, l)
      → IsEntry scope_of (with_sink active x) (s, pushed (scope_of x) x s l)
  pushed-IsEntry active x s l off e = record {
    key = e.key;
    members =
        λ z. count-pushed (scope_of x) x z s l (normal x) e.key ∙ split z (Bool-cases (z == x));
  }
    where
      split :
          (z : ℕ)
          → ((z == x) ≡ true) ⊎ ((z == x) ≡ false)
          → count z l + bit (z == x && covers (scope_of x) s)
            ≡ bit (wants scope_of (with_sink active x) z s)
      split z (inl h) =
          let q : z ≡ x = (==_iff z x).0 h in
          let old = e.members z in
          let dead = ap active q ∙ off in
          ground (arith, old, dead, ap scope_of q, ap (λ u. covers (scope_of u) s) q)
      split z (inr h) = ground (arith, e.members z)

  push_both-IsEntry :
      (active : ℕ → Bool) (x : ℕ) (m : SinkMap)
      → active x ≡ false
      → All (IsEntry scope_of active) m
      → All
          (IsEntry scope_of (with_sink active x))
          (push_to_sub_scopes (scope_of x) x (push_back_at (scope_of x) x m))
  unfolding push_to_sub_scopes push_back_at
  push_both-IsEntry active x [] off h = tt
  push_both-IsEntry active x ((s, l) ∷ m) off h =
      ((unfold pushed in pushed-IsEntry active x s l off h.0), push_both-IsEntry active x m off h.1)

  has-push_both :
      (t s : Scope) (x : ℕ) (m : SinkMap)
      → has t (push_to_sub_scopes s x (push_back_at s x m)) ≡ has t m
  unfolding push_to_sub_scopes push_back_at
  has-push_both t s x [] = refl
  has-push_both t s x ((u, l) ∷ m) = rw (has-push_both t s x m)

  -- Adding a connector that is not on the bus keeps the invariant, for the connectors with it.
  pub add_sink-Inv :
      (active : ℕ → Bool) (x : ℕ) (m : SinkMap)
      → active x ≡ false
      → Inv scope_of active m
      → Inv scope_of (with_sink active x) (add_sink scope_of x m)
  unfolding add_sink
  add_sink-Inv active x m off v =
      let (kept, there) = ensure_entry-Inv active (scope_of x) m (normal x) v in
      let m' = ensure_entry (scope_of x) m in
      record {
        entries = push_both-IsEntry active x m' off kept.entries;
        keys = λ z h.
            has-push_both (scope_of z) (scope_of x) x m' ∙ key z h kept there (Bool-cases (z == x));
      }
    where
      key :
          (z : ℕ)
          → with_sink active x z ≡ true
          → Inv scope_of active (ensure_entry (scope_of x) m)
          → has (scope_of x) (ensure_entry (scope_of x) m) ≡ true
          → ((z == x) ≡ true) ⊎ ((z == x) ≡ false)
          → has (scope_of z) (ensure_entry (scope_of x) m) ≡ true
      key z h kept there (inl same) =
          ap (λ u. has (scope_of u) (ensure_entry (scope_of x) m)) ((==_iff z x).0 same) ∙ there
      key z h kept there (inr other) = kept.keys z (ground arith)
