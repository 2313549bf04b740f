-- ===== src/Tests/Heartbeats.antt =====
-- Heartbeats of a small registry, and a check for stale peers.
use ouroboros_db.Base.{
  ℕ, string_eq, nat_eq, ◌≡◌, ◌⊎◌, refl, Bool, List, [], ◌∷◌, Option, none, eqb, lookup, insert,
  delete, has, pos, Any, All, if◌then◌else◌,
}
use ouroboros_db.Auth.Types.{scope_admin, scope_user}
use ouroboros_db.Transport.Registry.{
  Node, Registry, role_server, role_client, connected, disconnected, add_node, merge_node,
  merge_with, merge_addresses_of, merge_role, merge_status, compact_addresses, compact_from,
  get_all_nodes, set_status,
}
use ouroboros_db.Transport.Registry.Nodes.{
  IsKeyed, RegistryCall, adds, registry_run, registry_call, registry_run_empty-IsKeyed,
}
use ouroboros_db.Transport.Carrier.{Carrier, connection_for_node, mark_peer_failed, drop_connection}
use ouroboros_db.Transport.Heartbeat.{
  HeartbeatNodeEntry, new_node, told, merge_entry, merge_heartbeat_nodes, heartbeat_timeout,
  duration_or,
}
use ouroboros_db.Transport.Heartbeat.Peers.{is_stale, fail_stale_peers, fail_each, fail_connected}
use ouroboros_db.Transport.Heartbeat.Discovery.{MergesAll, merge_heartbeat_nodes-MergesAll}
use ouroboros_db.Transport.Heartbeat.Stale.{IsOverdueAs, fail_stale_peers_lem}

program : Unit {0}
unfolding lookup insert add_node merge_node merge_with merge_addresses_of merge_role merge_status
    compact_addresses compact_from get_all_nodes new_node told merge_entry merge_heartbeat_nodes
    registry_run registry_call
program = tt

abbrev peer : ℕ → ℕ → Node ℕ ℕ
peer id at = record {
  node_id = id;
  addresses = "a" ∷ [];
  node_certs = [];
  role = role_server;
  last_seen = at;
  connection_status = connected;
}

abbrev is_zero : ℕ → Bool
is_zero n = eqb n 0

abbrev calls : List (RegistryCall ℕ ℕ)
calls = adds (peer 2 5) [] ∷ []

abbrev known : Registry ℕ ℕ
known = (2, peer 2 5) ∷ []

keyed : IsKeyed is_zero known
unfolding program
keyed = registry_run_empty-IsKeyed is_zero calls

-- A known node, the node itself, the zero NodeID and a new node.
abbrev gossip : List (HeartbeatNodeEntry ℕ)
gossip =
    record { node_id = 2; addresses = "b" ∷ []; role = role_server }
    ∷ record { node_id = 1; addresses = []; role = role_server }
    ∷ record { node_id = 0; addresses = []; role = role_server }
    ∷ record { node_id = 3; addresses = "c" ∷ "c" ∷ []; role = role_client }
    ∷ []

abbrev found : Node ℕ ℕ
found = record {
  node_id = 3;
  addresses = "c" ∷ [];
  node_certs = [];
  role = role_client;
  last_seen = 0;
  connection_status = disconnected;
}

merge_heartbeat_nodes-MergesAll_example :
    MergesAll is_zero 1 known gossip
      ((2, record (peer 2 5) { addresses = "a" ∷ "b" ∷ [] }) ∷ (3, found) ∷ [])
      (found ∷ [])
      none
unfolding program
merge_heartbeat_nodes-MergesAll_example =
    merge_heartbeat_nodes-MergesAll is_zero 1 known gossip keyed

abbrev carrier : Carrier ℕ ℕ ℕ ℕ ℕ
carrier = record {
  registry = (2, peer 2 5) ∷ (3, peer 3 29) ∷ [];
  connections = (2, 20) ∷ (3, 30) ∷ [];
  controller = none;
  peer_scopes = (2, scope_admin) ∷ (3, scope_user) ∷ [];
}

-- With a timeout of 10 ticks, node 2 is stale at 30 and node 3 is not.
fail_stale_peers_lem_example :
    (Any (IsOverdueAs (pos 10) 30 2) (get_all_nodes carrier.registry)
      × (lookup 2 (fail_stale_peers (pos 10) 30 carrier).connections ≡ none)
      × (lookup 2 (fail_stale_peers (pos 10) 30 carrier).peer_scopes
          ≡ (if has 2 carrier.connections then none else lookup 2 carrier.peer_scopes)))
    ⊎ (All (λ (p : Node ℕ ℕ). IsOverdueAs (pos 10) 30 2 p → ⊥) (get_all_nodes carrier.registry)
        × (lookup 2 (fail_stale_peers (pos 10) 30 carrier).connections
            ≡ lookup 2 carrier.connections)
        × (lookup 2 (fail_stale_peers (pos 10) 30 carrier).peer_scopes
            ≡ lookup 2 carrier.peer_scopes))
fail_stale_peers_lem_example = fail_stale_peers_lem (pos 10) 30 carrier 2

stale_dropped :
    ◌≡◌ {A = Option ℕ} (lookup 2 (fail_stale_peers (pos 10) 30 carrier).connections) none
unfolding program fail_stale_peers fail_each fail_connected connection_for_node mark_peer_failed
    drop_connection set_status is_stale heartbeat_timeout duration_or delete
stale_dropped = refl
