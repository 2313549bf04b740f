-- ===== src/Tests/Peers.antt =====
-- The registry, broadcasts, framing and data access, on concrete inputs.
use ouroboros_db.Base.{
  ℕ, ◌+◌, nat_eq, String, string_eq, ◌≡◌, ◌≢◌, refl, Bool, true, false, not, ◌||◌, List, [], ◌∷◌,
  some, ok, ◌↔◌, ◌⊎◌, lookup, insert, eqb, ltb, ◌==◌, if◌then◌else◌, All,
}
use ouroboros_db.Auth.Types.{scope_admin, scope_user}
use ouroboros_db.Control.{Message}
use ouroboros_db.Transport.Registry.{
  Node, Registry, role_server, role_client, connected, disconnected, compact_addresses, add_node,
  compact_from, merge_with, merge_node, merge_addresses_of, merge_role, merge_status,
}
use ouroboros_db.Transport.Registry.Merging.{Keeps}
use ouroboros_db.Transport.Registry.Nodes.{
  adds, sets_status, registry_run, IsKeyed, add_node-Keeps, registry_run_empty-IsKeyed,
}
use ouroboros_db.Transport.Broadcast.{
  broadcast_reliable, broadcast_reliable_lem, attempt_loop, attempt_round, count, IsReached,
  IsUnreached,
}
use ouroboros_db.Transport.Wire.{write_message_stream}
use ouroboros_db.Cas.{can_access_data, new_access_context}
use ouroboros_db.Cas.Privileges.{IsListed, can_access_data-new_access_context}

abbrev twice : List String
twice = "a" ∷ "" ∷ "b" ∷ "a" ∷ []

compacted : compact_addresses twice ≡ "a" ∷ "b" ∷ []
unfolding compact_addresses compact_from lookup insert
compacted = refl

abbrev known : Node ℕ ℕ
known = record {
  node_id = 1;
  addresses = "a" ∷ [];
  node_certs = [];
  role = role_client;
  last_seen = 5;
  connection_status = connected;
}

abbrev again : Node ℕ ℕ
again = record {
  node_id = 1;
  addresses = "b" ∷ [];
  node_certs = [];
  role = role_server;
  last_seen = 0;
  connection_status = disconnected;
}

abbrev is_zero : ℕ → Bool
is_zero n = eqb n 0

abbrev registry : Registry ℕ ℕ
registry = (1, known) ∷ []

abbrev merged : Registry ℕ ℕ
merged = (1, record known { addresses = "a" ∷ "b" ∷ [] }) ∷ []

program : Unit {0}
unfolding add_node merge_with merge_node merge_addresses_of merge_role merge_status
    compact_addresses compact_from lookup insert broadcast_reliable attempt_loop attempt_round
    write_message_stream
program = tt

merges : add_node is_zero registry again [] ≡ ok merged
unfolding program
merges = refl

add_node-Keeps_example :
    (new : Node ℕ ℕ) × Keeps known again [] new
    × ((id : ℕ) → lookup id merged ≡ (if 1 == id then some new else lookup id registry))
add_node-Keeps_example =
    add_node-Keeps is_zero registry merged again known [] (unfold lookup in refl) merges

registry_run_empty-IsKeyed_example :
    IsKeyed {C = ℕ} is_zero
      (registry_run is_zero [] (adds known [] ∷ sets_status 1 disconnected ∷ []))
registry_run_empty-IsKeyed_example =
    registry_run_empty-IsKeyed {C = ℕ} is_zero (adds known [] ∷ sets_status 1 disconnected ∷ [])

-- Node 1 is reached at once, node 2 in the second attempt, node 3 never.
abbrev send : ℕ → ℕ → Bool
send attempt node = if eqb node 3 then false else not (ltb attempt (node + 0)) || eqb node 1

broadcast_run : broadcast_reliable send 3 (3 ∷ 1 ∷ 2 ∷ []) ≡ some (1 ∷ 2 ∷ [], 3 ∷ [])
unfolding program
broadcast_run = refl

broadcast_reliable_lem_example :
    ((a : ℕ) → count a (1 ∷ 2 ∷ []) + count a (3 ∷ []) ≡ count a (3 ∷ 1 ∷ 2 ∷ []))
    × All (IsReached send 4) (1 ∷ 2 ∷ [])
    × All (IsUnreached send 4 0) (3 ∷ [])
broadcast_reliable_lem_example =
    broadcast_reliable_lem send 3 (3 ∷ 1 ∷ 2 ∷ []) (1 ∷ 2 ∷ []) (3 ∷ []) broadcast_run

abbrev message : Message
message = record { typ = 5; payload = 3 ∷ 4 ∷ [] }

written : write_message_stream message ≡ ok (5 ∷ 3 ∷ 4 ∷ [])
unfolding program
written = refl

can_access_data-new_access_context_example :
    (can_access_data (new_access_context scope_user ("o" ∷ [])) "o" ≡ true) ↔ (
      (scope_user ≡ scope_admin)
      ⊎ ((scope_user ≡ scope_user) × ◌≢◌ {A = String} "o" "" × IsListed "o" ("o" ∷ [])))
can_access_data-new_access_context_example =
    can_access_data-new_access_context scope_user ("o" ∷ []) "o"
