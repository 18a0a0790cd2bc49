-- ===== src/Patterns/Futures.antt =====
-- The futures of a remote method, which wait or are done.
use rsb_cpp.Prelude.{
  ℕ, zero, suc, ◌≡◌, refl, arith, Bool, true, false, List, [], ◌∷◌, ◌++◌, none, if◌then◌else◌,
  length, get_or, set, ◌==◌,
}
use rsb_cpp.Event.{event_id_ord}
use rsb_cpp.Patterns.Calls.{Outcome, pending, replied, failed}

module _ {Uuid Payload : Type 0} where
  abbrev pub is_pending : Outcome Uuid Payload → Bool
  is_pending pending = true
  is_pending (replied e) = false
  is_pending (failed text) = false

  abbrev pub pendings : List (Outcome Uuid Payload) → ℕ
  pendings [] = 0
  pendings (x ∷ xs) = if is_pending x then suc (pendings xs) else pendings xs

  pub pendings-append :
      (xs : List (Outcome Uuid Payload)) → pendings (xs ++ pending ∷ []) ≡ suc (pendings xs)
  pendings-append [] = refl
  pendings-append (x ∷ xs) = ground (arith, pendings-append xs)

  -- The future with that number, where a number that no future has counts as done.
  abbrev pub future : List (Outcome Uuid Payload) → ℕ → Outcome Uuid Payload
  future xs f = get_or xs f (failed none)

  pub future-append_old :
      (xs : List (Outcome Uuid Payload)) (x : Outcome Uuid Payload) (f : ℕ)
      → future xs f ≡ pending
      → future (xs ++ x ∷ []) f ≡ pending
  future-append_old [] x f h = cc
  future-append_old (y ∷ xs) x zero h = h
  future-append_old (y ∷ xs) x (suc f) h = future-append_old xs x f h

  pub future-append_new :
      (xs : List (Outcome Uuid Payload)) (x : Outcome Uuid Payload)
      → future (xs ++ x ∷ []) (length xs) ≡ x
  future-append_new [] x = refl
  future-append_new (y ∷ xs) x = future-append_new xs x

  -- A future that waits was made before.
  pub future-below :
      (xs : List (Outcome Uuid Payload)) (f : ℕ) → future xs f ≡ pending → (f == length xs) ≡ false
  future-below [] f h = cc
  future-below (y ∷ xs) zero h = ground arith
  future-below (y ∷ xs) (suc f) h = ground (arith, future-below xs f h)

  pub future-set_other :
      (xs : List (Outcome Uuid Payload)) (f g : ℕ) (x : Outcome Uuid Payload)
      → (g == f) ≡ false
      → future (set xs f x) g ≡ future xs g
  future-set_other [] f g x h = refl
  future-set_other (y ∷ xs) zero zero x h = ground arith
  future-set_other (y ∷ xs) zero (suc g) x h = refl
  future-set_other (y ∷ xs) (suc f) zero x h = refl
  future-set_other (y ∷ xs) (suc f) (suc g) x h = future-set_other xs f g x (ground arith)

  pub future-set_same :
      (xs : List (Outcome Uuid Payload)) (f : ℕ) (x : Outcome Uuid Payload)
      → future xs f ≡ pending
      → future (set xs f x) f ≡ x
  future-set_same [] f x h = cc
  future-set_same (y ∷ xs) zero x h = refl
  future-set_same (y ∷ xs) (suc f) x h = future-set_same xs f x h

  pub pendings-set :
      (xs : List (Outcome Uuid Payload)) (f : ℕ) (x : Outcome Uuid Payload)
      → is_pending x ≡ false
      → future xs f ≡ pending
      → suc (pendings (set xs f x)) ≡ pendings xs
  pendings-set [] f x done h = cc
  pendings-set (y ∷ xs) zero x done h = rw (done, h) refl
  pendings-set (y ∷ xs) (suc f) x done h = ground (arith, pendings-set xs f x done h)
