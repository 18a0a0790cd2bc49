-- ===== src/Socket/Sending.antt =====
-- Which connections a bus keeps when it sends an event to them.
use rsb_cpp.Prelude.{
  ℕ, ◌≡◌, refl, ap, sym, ◌∙◌, arith, Bool, true, false, not, ◌&&◌, ◌||◌, List, [], ◌∷◌, ◌++◌, some,
  ◌==◌, if◌then◌else◌, Text, bytes, Bool-cases, inl, inr, ==_iff, append-nil, append_assoc,
}
use rsb_cpp.MetaData.{get_user_info}
use rsb_cpp.Event.{Event}
use rsb_cpp.ScopeDispatcher.Weak.{map_sinks}
use rsb_cpp.Socket.Bus.{
  Bus, remove_all, remove_connection, give_loop, send_loop, remove_failing, handle_outgoing,
  handle_incoming, serve_incoming, others,
}

abbrev pub keep : (ℕ → Bool) → List ℕ → List ℕ
keep p [] = []
keep p (z ∷ zs) = if p z then z ∷ keep p zs else keep p zs

abbrev mem : ℕ → List ℕ → Bool
mem y [] = false
mem y (z ∷ zs) = y == z || mem y zs

keep-cong :
    (p q : ℕ → Bool) (zs : List ℕ) → ((y : ℕ) → mem y zs ≡ true → p y ≡ q y) → keep p zs ≡ keep q zs
keep-cong p q [] h = refl
keep-cong p q (z ∷ zs) h =
    let rest : keep p zs ≡ keep q zs = keep-cong p q zs (λ y k. h y (ground arith)) in
    let here : p z ≡ q z = h z (ground arith) in ground arith

keep-keep : (p q : ℕ → Bool) (zs : List ℕ) → keep p (keep q zs) ≡ keep (λ y. q y && p y) zs
keep-keep p q [] = refl
keep-keep p q (z ∷ zs) = ground (arith, keep-keep p q zs)

remove_all-keep : (z : ℕ) (zs : List ℕ) → remove_all z zs ≡ keep (λ y. not (y == z)) zs
unfolding remove_all
remove_all-keep z [] = refl
remove_all-keep z (y ∷ ys) = ground (arith, remove_all-keep z ys)

keep_all : (p : ℕ → Bool) (zs : List ℕ) → ((y : ℕ) → p y ≡ true) → keep p zs ≡ zs
keep_all p [] h = refl
keep_all p (z ∷ zs) h = rw (h z, keep_all p zs h) refl

remove_failing-keep :
    (failing : List ℕ) (b : Bus)
    → (remove_failing failing b).connections ≡ keep (λ y. not (mem y failing)) b.connections
unfolding remove_failing remove_connection
remove_failing-keep [] b = sym (keep_all (λ y. true) b.connections (λ y. refl))
remove_failing-keep (z ∷ zs) b =
    remove_failing-keep zs (remove_connection z b)
    ∙ ap (keep (λ y. not (mem y zs))) (remove_all-keep z b.connections)
    ∙ keep-keep (λ y. not (mem y zs)) (λ y. not (y == z)) b.connections
    ∙ keep-cong (λ y. not (y == z) && not (mem y zs)) (λ y. not (mem y (z ∷ zs))) b.connections
        (λ y h. ground arith)

mem-append : (y : ℕ) (left : List ℕ) (z : ℕ) → mem y (left ++ z ∷ []) ≡ (mem y left || y == z)
mem-append y [] z = ground arith
mem-append y (x ∷ left) z = ground (arith, mem-append y left z)

works-cong : (works : ℕ → Bool) (y z : ℕ) → (y == z) ≡ true → works y ≡ works z
works-cong works y z h = ap works ((==_iff y z).0 h)

mem-send_loop :
    (works : ℕ → Bool) (y : ℕ) (zs given failing : List ℕ)
    → mem y (send_loop works zs given failing).1 ≡ (mem y failing || (mem y zs && not (works y)))
unfolding send_loop
mem-send_loop works y [] given failing = ground arith
mem-send_loop works y (z ∷ zs) given failing =
    let next = given ++ z ∷ [] in
    let rest : Bool → List ℕ = λ b. if b then failing else failing ++ z ∷ [] in
    elim (Bool-cases (works z)) [
      | inl e ↦
          ap (λ b. mem y (send_loop works zs next (rest b)).1) e
          ∙ mem-send_loop works y zs next failing
          ∙ ground (arith, works-cong works y z)
      | inr e ↦
          ap (λ b. mem y (send_loop works zs next (rest b)).1) e
          ∙ mem-send_loop works y zs next (failing ++ z ∷ [])
          ∙ ground (arith, works-cong works y z, mem-append y failing z)
    ]

-- Each connection is given the event, whether or not one before it failed.
given-send_loop :
    (works : ℕ → Bool) (zs given failing : List ℕ)
    → (send_loop works zs given failing).0 ≡ given ++ zs
unfolding send_loop
given-send_loop works [] given failing = sym (append-nil given)
given-send_loop works (z ∷ zs) given failing =
    given-send_loop works zs (given ++ z ∷ []) (if works z then failing else failing ++ z ∷ [])
    ∙ append_assoc given (z ∷ []) zs

abbrev pub all : (ℕ → Bool) → List ℕ → Bool
all p [] = true
all p (x ∷ xs) = p x && all p xs

give_loop-threw : (takes : ℕ → Bool) (xs : List ℕ) → (give_loop takes xs).1 ≡ not (all takes xs)
unfolding give_loop
give_loop-threw takes [] = refl
give_loop-threw takes (x ∷ xs) = ground (arith, give_loop-threw takes xs)

mem-others :
    (y origin : ℕ) (zs : List ℕ) → mem y (others origin zs) ≡ (mem y zs && not (y == origin))
unfolding others
mem-others y origin [] = refl
mem-others y origin (z ∷ zs) = ground (arith, mem-others y origin zs)

others-keep : (origin : ℕ) (zs : List ℕ) → others origin zs ≡ keep (λ z. not (z == origin)) zs
unfolding others
others-keep origin [] = refl
others-keep origin (z ∷ zs) = ground (arith, others-keep origin zs)

module _ {Uuid Payload : Type 0} (alive takes works : ℕ → Bool) where
  -- Whether all the sinks that get the event take it.
  abbrev pub taken : Event Uuid Payload → Bus → Bool
  taken e b = all takes (map_sinks alive e.scope b.sinks)

  -- Of an event with a wire-schema: if each of its sinks takes it, it goes to all connections of the bus,
  -- in their order, whichever of them fail, and the bus keeps exactly those to which the sending
  -- worked; if a sink throws, so does the call, no connection gets the event and the bus keeps all.
  pub handle_outgoing-connections :
      (e : Event Uuid Payload) (b : Bus) (schema : Text)
      → get_user_info (bytes "rsb.wire-schema") e.meta_data ≡ some schema
      → ((handle_outgoing alive takes works e b).to_connections
          ≡ (if taken e b then b.connections else []))
        × ((handle_outgoing alive takes works e b).bus.connections
            ≡ (if taken e b then keep works b.connections else b.connections))
        × ((handle_outgoing alive takes works e b).threw ≡ not (taken e b))
  unfolding handle_outgoing
  handle_outgoing-connections e b schema h =
      let threw = give_loop-threw takes (map_sinks alive e.scope b.sinks) in
      elim (Bool-cases (taken e b)) [
        | inr refused ↦
            let t = threw ∙ ap not refused in rw (handle_outgoing, t, refused) (refl, refl, refl)
        | inl took ↦
            let t = threw ∙ ap not took in
            rw (handle_outgoing, t, h, took)
              (
                given-send_loop works b.connections [] [],
                (remove_failing-keep (send_loop works b.connections [] []).1 b
                    ∙ keep-cong _ works b.connections
                        (λ y k. ground (arith, mem-send_loop works y b.connections [] []))),
                refl,
              )
      ]

  -- A server relays an event with a wire-schema to all connections but the one that it came from, and keeps
  -- that one and those to which the sending worked, if each of the sinks of the event takes it; if a
  -- sink throws, so does the call, nothing is relayed and all connections are kept.
  pub serve_incoming-connections :
      (origin : ℕ) (e : Event Uuid Payload) (b : Bus) (schema : Text)
      → get_user_info (bytes "rsb.wire-schema") e.meta_data ≡ some schema
      → ((serve_incoming alive takes works origin e b).to_connections
          ≡ (if taken e b then keep (λ z. not (z == origin)) b.connections else []))
        × ((serve_incoming alive takes works origin e b).bus.connections ≡ (
            if taken e b then keep (λ z. z == origin || works z) b.connections else b.connections))
        × ((serve_incoming alive takes works origin e b).threw ≡ not (taken e b))
  unfolding serve_incoming handle_incoming
  serve_incoming-connections origin e b schema h =
      let threw = give_loop-threw takes (map_sinks alive e.scope b.sinks) in
      elim (Bool-cases (taken e b)) [
        | inr refused ↦
            let t = threw ∙ ap not refused in rw (serve_incoming, t, refused) (refl, refl, refl)
        | inl took ↦
            let t = threw ∙ ap not took in
            let targets = others origin b.connections in
            rw (serve_incoming, t, h, took)
              (
                (given-send_loop works targets [] [] ∙ others-keep origin b.connections),
                (remove_failing-keep (send_loop works targets [] []).1 b
                    ∙ keep-cong _ (λ z. z == origin || works z) b.connections
                        (λ y k. ground (
                          arith,
                          mem-send_loop works y targets [] [],
                          mem-others y origin b.connections,
                        ))),
                t,
              )
      ]
