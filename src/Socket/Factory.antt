-- ===== src/Socket/Factory.antt =====
-- src/rsb/transport/socket/Factory.cpp: sharing of buses between participants. A bus is a number; what
-- the operating system and the pointers answer during a call is its Network.
use rsb_cpp.Prelude.{
  ℕ, Bool, not, List, [], ◌∷◌, Option, none, some, if◌then◌else◌, Text, Result, ok, err,
}
use rsb_cpp.Maps.{Ord, Map, find, insert, erase, text_ord}
use rsb_cpp.Maps.Pairs.{num_ord, pair_ord}

abbrev pub Endpoint : Type 0
Endpoint = Text × ℕ

instance abbrev pub endpoint_ord : Ord Endpoint
endpoint_ord = pair_ord text_ord num_ord

-- busClients and busServers, with weak pointers.
pub record Factory : Type 0 where
  pub clients : Map Endpoint ℕ
  pub servers : Map Endpoint ℕ

pub data FactoryError : Type 0 where
  option_mismatch could_not_connect could_not_listen : FactoryError

pub data Server : Type 0 where
  server_no server_yes server_auto : Server

-- `alive` and `tcpnodelay` of a bus; the host names that the resolver gives for a host, each with
-- whether connecting to it works; whether a server can be opened on the port; and the number of the
-- bus that is made next.
pub record Network : Type 0 where
  pub alive : ℕ → Bool
  pub tcpnodelay : ℕ → Bool
  pub resolve : Text → List (Text × Bool)
  pub can_listen : ℕ → Bool
  pub fresh : ℕ

-- The bus or what was thrown, and the factory after the call.
abbrev pub Answer : Type 0
Answer = Result FactoryError ℕ × Factory

abbrev pub bool_eq : Bool → Bool → Bool
bool_eq a b = if a then b else not b

module _ (n : Network) (tcpnodelay : Bool) where
  -- searchInMap with checkOptions: a live bus under the endpoint, none, or an exception; and the map,
  -- without the entry if its bus is gone.
  unfoldable pub search_in_map :
      Endpoint → Map Endpoint ℕ → Result FactoryError (Option ℕ) × Map Endpoint ℕ
  search_in_map endpoint m = elim (find endpoint m) [
    | none ↦ (ok none, m)
    | some bus ↦
        if n.alive bus
        then (if bool_eq (n.tcpnodelay bus) tcpnodelay
            then (ok (some bus), m)
            else (err option_mismatch, m))
        else (ok none, erase endpoint m)
  ]

  -- The loop over the endpoints to which the host resolves.
  unfoldable pub search_resolved :
      ℕ → List (Text × Bool) → Map Endpoint ℕ → Result FactoryError (Option ℕ) × Map Endpoint ℕ
  unfolding search_in_map
  search_resolved port [] m = (ok none, m)
  search_resolved port ((host, connects) ∷ hosts) m =
      let (found, m') = search_in_map (host, port) m in
      let later = search_resolved port hosts m' in
      elim found [ err x ↦ (err x, m') | ok (some bus) ↦ (ok (some bus), m') | ok none ↦ later ]

  -- The first host that a socket can be connected to.
  unfoldable pub connect : List (Text × Bool) → Option Text
  connect [] = none
  connect ((host, connects) ∷ hosts) =
      let rest = connect hosts in if connects then some host else rest

  unfoldable pub new_client : ℕ → Option Text → Map Endpoint ℕ → Map Endpoint ℕ → Answer
  new_client port none clients servers =
      (err could_not_connect, record { clients = clients; servers = servers })
  new_client port (some host) clients servers =
      (ok n.fresh, record { clients = insert (host, port) n.fresh clients; servers = servers })

  unfoldable pub get_bus_client_for : Text → ℕ → Factory → Answer
  unfolding search_resolved connect new_client
  get_bus_client_for host port f =
      let (found, m) = search_in_map (host, port) f.clients in
      let (found', m') = search_resolved port (n.resolve host) m in
      elim found [
        | err x ↦ (err x, record f { clients = m })
        | ok (some bus) ↦ (ok bus, record f { clients = m })
        | ok none ↦ elim found' [
          | err x ↦ (err x, record f { clients = m' })
          | ok (some bus) ↦ (ok bus, record f { clients = m' })
          | ok none ↦ new_client port (connect (n.resolve host)) m' f.servers
        ]
      ]

  unfoldable pub get_bus_server_for : Text → ℕ → Factory → Answer
  unfolding search_in_map
  get_bus_server_for host port f =
      let (found, m) = search_in_map (host, port) f.servers in
      elim found [
        | err x ↦ (err x, record f { servers = m })
        | ok (some bus) ↦ (ok bus, record f { servers = m })
        | ok none ↦
            if n.can_listen port
            then (ok n.fresh, record f { servers = insert (host, port) n.fresh m })
            else (err could_not_listen, record f { servers = m })
      ]

  -- Factory::getBus
  unfoldable pub get_bus : Server → Text → ℕ → Factory → Answer
  unfolding get_bus_client_for get_bus_server_for
  get_bus server_no host port f = get_bus_client_for host port f
  get_bus server_yes host port f = get_bus_server_for host port f
  get_bus server_auto host port f =
      let (r, f') = get_bus_server_for host port f in
      let retry = get_bus_client_for host port f' in
      elim r [ ok bus ↦ (ok bus, f') | err x ↦ retry ]
