-- ===== src/Socket/Sharing.antt =====
-- What a participant can rely on when it asks for a bus.
use rsb_cpp.Prelude.{
  ℕ, ◌≡◌, refl, sym, ◌⊎◌, arith, Bool, true, false, List, [], ◌∷◌, Option, none, some, Text, ok,
}
use rsb_cpp.Maps.{Map, erase, find-insert}
use rsb_cpp.Socket.Factory.{
  Endpoint, endpoint_ord, Factory, Server, server_no, server_yes, server_auto, Network, bool_eq,
  search_in_map, search_resolved, connect, new_client, get_bus_client_for, get_bus_server_for,
  get_bus,
}

bool_eq-ok : (a b : Bool) → bool_eq a b ≡ true → a ≡ b
bool_eq-ok true b h = sym h
bool_eq-ok false true h = h
bool_eq-ok false false h = refl

bool_eq_refl : (a : Bool) → bool_eq a a ≡ true
bool_eq_refl true = refl
bool_eq_refl false = refl

module _ (n : Network) (d : Bool) where
  -- A bus that a search may give: live, and with the option that was asked for.
  abbrev pub Suits : ℕ → Type 0
  Suits bus = (n.alive bus ≡ true) × (n.tcpnodelay bus ≡ d)

  search-Suits :
      (e : Endpoint) (m : Map Endpoint ℕ) (bus : ℕ)
      → (search_in_map n d e m).0 ≡ ok (some bus)
      → Suits bus
  unfolding search_in_map
  search-Suits e m bus h = ground (arith, bool_eq-ok (n.tcpnodelay bus) d)

  resolved-Suits :
      (port : ℕ) (hosts : List (Text × Bool)) (m : Map Endpoint ℕ) (bus : ℕ)
      → (search_resolved n d port hosts m).0 ≡ ok (some bus)
      → Suits bus
  unfolding search_resolved
  resolved-Suits port [] m bus h = cc
  resolved-Suits port ((host, c) ∷ hosts) m bus h = ground (
    arith,
    search-Suits (host, port) m bus,
    resolved-Suits port hosts (search_in_map n d (host, port) m).1 bus,
  )

  new_client-fresh :
      (port : ℕ) (o : Option Text) (clients servers : Map Endpoint ℕ) (bus : ℕ)
      → (new_client n d port o clients servers).0 ≡ ok bus
      → bus ≡ n.fresh
  unfolding new_client
  new_client-fresh port none clients servers bus h = cc
  new_client-fresh port (some host) clients servers bus h = ground arith

  client-Suits :
      (host : Text) (port : ℕ) (f : Factory) (bus : ℕ)
      → (get_bus_client_for n d host port f).0 ≡ ok bus
      → (bus ≡ n.fresh) ⊎ Suits bus
  unfolding get_bus_client_for
  client-Suits host port f bus h =
      let after = (search_in_map n d (host, port) f.clients).1 in
      ground (
        arith,
        search-Suits (host, port) f.clients bus,
        resolved-Suits port (n.resolve host) after bus,
        new_client-fresh port (connect n d (n.resolve host))
            (search_resolved n d port (n.resolve host) after).1 f.servers bus,
      )

  server-Suits :
      (host : Text) (port : ℕ) (f : Factory) (bus : ℕ)
      → (get_bus_server_for n d host port f).0 ≡ ok bus
      → (bus ≡ n.fresh) ⊎ Suits bus
  unfolding get_bus_server_for
  server-Suits host port f bus h = ground (arith, search-Suits (host, port) f.servers bus)

  -- In each mode, the bus that getBus gives is a new one, or one that lives and was made with the
  -- requested tcpnodelay option.
  pub get_bus-Suits :
      (mode : Server) (host : Text) (port : ℕ) (f : Factory) (bus : ℕ)
      → (get_bus n d mode host port f).0 ≡ ok bus
      → (bus ≡ n.fresh) ⊎ Suits bus
  unfolding get_bus
  get_bus-Suits server_no host port f bus h = client-Suits host port f bus h
  get_bus-Suits server_yes host port f bus h = server-Suits host port f bus h
  get_bus-Suits server_auto host port f bus h = ground (
    arith,
    server-Suits host port f bus,
    client-Suits host port (get_bus_server_for n d host port f).1 bus,
  )

-- The server bus that one participant got is the one that the next gets for the same host, port and
-- option, as long as it lives; and the factory stays as it is.
pub get_bus_server_for-shares :
    (n : Network) (d : Bool) (host : Text) (port : ℕ) (f : Factory) (bus : ℕ) (later : Network)
    → (get_bus_server_for n d host port f).0 ≡ ok bus
    → later.alive bus ≡ true
    → later.tcpnodelay bus ≡ d
    → get_bus_server_for later d host port (get_bus_server_for n d host port f).1
      ≡ (ok bus, (get_bus_server_for n d host port f).1)
unfolding get_bus_server_for search_in_map
get_bus_server_for-shares n d host port f bus later h alive option =
    let e : Endpoint = (host, port) in
    ground (
      arith,
      find-insert e e n.fresh f.servers,
      find-insert e e n.fresh (erase e f.servers),
      endpoint_ord.beq_refl e,
      bool_eq_refl d,
    )
