-- ===== src/Transport/Heartbeat.antt =====
-- internal/transport/heartbeat.go: what a heartbeat carries, what a received one changes, and which
-- peers are given up. protobuf is outside the repository, and so is the copy between a NodeID and
-- its bytes. A role on the wire is its number. Times are ticks of a nanosecond, as the durations of
-- the configuration are. Dialling discovered peers is `connect_node`.
pub mod Peers
pub mod Payload
pub mod Known
pub mod Discovery
pub mod Stale
use ouroboros_db.Base.{
  ℕ, zero, suc, ◌+◌, ◌*◌, ◌-◌, ◌%◌, ◌^◌, String, string_eq, Bool, true, false, not, ◌&&◌, ◌||◌,
  List, [], ◌∷◌, ◌++◌, Option, none, some, is_some, Result, ok, err, ◌>>=◌, or_fail, Eq, ◌==◌, Map,
  lookup, eqb, ltb, length, map, ℤ, pos, negsuc, if◌then◌else◌,
}
use ouroboros_db.Auth.Types.{Bytes}
use ouroboros_db.Control.{Message, Proto}
use ouroboros_db.Transport.Registry.{
  Node, NodeRole, Registry, RegistryError, role_server, role_client, role_other, disconnected,
  is_client, is_connected, compact_addresses, add_node, get_node, set_role, get_all_nodes,
  get_unreachable_nodes,
}
use ouroboros_db.Transport.Carrier.{
  Carrier, Outcome, to_heartbeat, mark_peer_seen, mark_peer_failed, connection_for_node,
  dispatch_message,
}

abbrev pub second : ℕ
second = 1000000000

-- A configured duration, if it is positive.
unfoldable pub duration_or : ℤ → ℕ → ℕ
duration_or (pos zero) default = default
duration_or (pos (suc n)) default = suc n
duration_or (negsuc n) default = default

unfoldable pub heartbeat_interval : ℤ → ℕ
heartbeat_interval configured = duration_or configured (5 * second)

unfoldable pub heartbeat_timeout : ℤ → ℕ
heartbeat_timeout configured = duration_or configured (15 * second)

unfoldable pub reconnect_interval : ℤ → ℕ
reconnect_interval configured = duration_or configured (300 * second)

pub record HeartbeatNodeEntry (N : Type 0) : Type 0 where
  pub node_id : N
  pub addresses : List String
  pub role : NodeRole

pub record HeartbeatPayload (N : Type 0) : Type 0 where
  pub sent_at_unix : ℤ
  pub sender_role : NodeRole
  pub known_nodes : List (HeartbeatNodeEntry N)
  pub stats : Map String ℕ
  pub storage_free_bytes : ℕ
  pub custom_fields : Map String Bytes

-- `pb.HeartbeatNodeEntry`.
pub record WireNodeEntry : Type 0 where
  pub node_id : Bytes
  pub addresses : List String
  pub role : ℕ

-- `pb.HeartbeatPayload`.
pub record WireHeartbeat : Type 0 where
  pub sent_at_unix : ℤ
  pub sender_role : ℕ
  pub known_nodes : List WireNodeEntry
  pub stats : Map String ℕ
  pub storage_free_bytes : ℕ
  pub custom_fields : Map String Bytes

-- `proto.Marshal` and `proto.Unmarshal` at this message, and the copies between a NodeID and bytes.
pub record HeartbeatCodec (N : Type 0) : Type 0 where
  pub marshal : WireHeartbeat → Option Bytes
  pub unmarshal : Bytes → Option WireHeartbeat
  pub id_bytes : N → Bytes
  pub id_copy : Bytes → N

-- `int32(role)`, of a role that is no negative number.
unfoldable pub role_to_wire : NodeRole → ℕ
role_to_wire role_server = 0
role_to_wire role_client = 1
role_to_wire (role_other n) = (n + 2) % 2 ^ 32

unfoldable pub role_of_wire : ℕ → NodeRole
role_of_wire zero = role_server
role_of_wire (suc zero) = role_client
role_of_wire (suc (suc n)) = role_other n

pub data HeartbeatError : Type 0 where
  unmarshal_heartbeat : HeartbeatError
  in_registry : RegistryError → HeartbeatError

module _ {N : Type 0} (codec : HeartbeatCodec N) where
  unfoldable pub entry_to_wire : HeartbeatNodeEntry N → WireNodeEntry
  entry_to_wire n = record {
    node_id = codec.id_bytes n.node_id;
    addresses = n.addresses;
    role = role_to_wire n.role;
  }

  unfoldable pub entry_of_wire : WireNodeEntry → HeartbeatNodeEntry N
  entry_of_wire n = record {
    node_id = codec.id_copy n.node_id;
    addresses = n.addresses;
    role = role_of_wire n.role;
  }

  unfoldable pub to_wire_heartbeat : HeartbeatPayload N → WireHeartbeat
  to_wire_heartbeat payload = record {
    sent_at_unix = payload.sent_at_unix;
    sender_role = role_to_wire payload.sender_role;
    known_nodes = map entry_to_wire payload.known_nodes;
    stats = payload.stats;
    storage_free_bytes = payload.storage_free_bytes;
    custom_fields = payload.custom_fields;
  }

  unfoldable pub marshal_heartbeat_payload : HeartbeatPayload N → Option Bytes
  marshal_heartbeat_payload payload = codec.marshal (to_wire_heartbeat payload)

  unfoldable pub of_wire_heartbeat : WireHeartbeat → HeartbeatPayload N
  of_wire_heartbeat msg = record {
    sent_at_unix = msg.sent_at_unix;
    sender_role = role_of_wire msg.sender_role;
    known_nodes = map entry_of_wire msg.known_nodes;
    stats = msg.stats;
    storage_free_bytes = msg.storage_free_bytes;
    custom_fields = msg.custom_fields;
  }

  unfoldable pub unmarshal_heartbeat_payload : Bytes → Option (HeartbeatPayload N)
  unmarshal_heartbeat_payload data_ = elim (codec.unmarshal data_) [
    | none ↦ none
    | some msg ↦ some (of_wire_heartbeat msg)
  ]

-- The registry after the loop, the nodes that are new, and an error that ends the loop.
abbrev pub Merged : Type 0 → Type 0 → Type 0
Merged N C = Registry N C × List (Node N C) × Option RegistryError

-- The node that a heartbeat adds.
unfoldable pub new_node : {N C : Type 0} → HeartbeatNodeEntry N → Node N C
new_node entry = record {
  node_id = entry.node_id;
  addresses = compact_addresses entry.addresses;
  node_certs = [];
  role = entry.role;
  last_seen = 0;
  connection_status = disconnected;
}

-- A known node with what the entry tells of it.
unfoldable pub told : {N C : Type 0} → Node N C → HeartbeatNodeEntry N → Node N C
told node entry = record node {
  addresses = compact_addresses (node.addresses ++ entry.addresses);
  role = entry.role;
}

module _ {N C : Type 0} ⦃e : Eq N⦄ (is_zero : N → Bool) (self_id : N) where
  -- One entry: the registry, and the node if it is new.
  unfoldable pub merge_entry :
      Registry N C → HeartbeatNodeEntry N → Result RegistryError (Registry N C × List (Node N C))
  merge_entry r entry =
      if is_zero entry.node_id || (entry.node_id == self_id)
      then ok (r, [])
      else elim (lookup entry.node_id r) [
        | none ↦ do next ← add_node is_zero r (new_node entry) []; ok (next, new_node entry ∷ [])
        | some node ↦ do next ← add_node is_zero r (told node entry) node.node_certs; ok (next, [])
      ]

  unfoldable pub merge_heartbeat_nodes : Registry N C → List (HeartbeatNodeEntry N) → Merged N C
  merge_heartbeat_nodes r [] = (r, [], none)
  merge_heartbeat_nodes r (entry ∷ entries) = elim (merge_entry r entry) [
    | err bad ↦ (r, [], some bad)
    | ok (next, found) ↦
        let (last, discovered, failed) = merge_heartbeat_nodes next entries in
        (last, found ++ discovered, failed)
  ]
