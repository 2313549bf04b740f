-- ===== src/Transport/Registry.antt =====
-- internal/transport/node_registry.go, and `compactAddresses` of carrier.go. A time is a number of
-- ticks, and 0 is the zero time. Copies of slices are the slices.
pub mod Addresses
pub mod Merging
pub mod Nodes
use ouroboros_db.Base.{
  ℕ, String, string_eq, Bool, true, false, not, ◌&&◌, List, [], ◌∷◌, ◌++◌, Option, none, some,
  Result, ok, err, ◌>>=◌, ◌>>◌, or_fail, fail_if, Eq, Map, Set, has, lookup, insert, delete, eqb,
  length, ◌==◌, if◌then◌else◌,
}

-- The two named roles, and any other value of the integer type.
pub data NodeRole : Type 0 where
  role_server role_client : NodeRole
  role_other : ℕ → NodeRole

pub data ConnectionStatus : Type 0 where
  disconnected connecting connected failed : ConnectionStatus
  status_other : ℕ → ConnectionStatus

-- `C` is the type of certificates.
pub record Node (N C : Type 0) : Type 0 where
  pub node_id : N
  pub addresses : List String
  pub node_certs : List C
  pub role : NodeRole
  pub last_seen : ℕ
  pub connection_status : ConnectionStatus

pub data RegistryError : Type 0 where
  zero_node_id node_not_found : RegistryError

abbrev pub Registry : Type 0 → Type 0 → Type 0
Registry N C = Map N (Node N C)

abbrev pub is_server : NodeRole → Bool
is_server role_server = true
is_server role_client = false
is_server (role_other n) = false

abbrev pub is_client : NodeRole → Bool
is_client role_client = true
is_client role_server = false
is_client (role_other n) = false

abbrev pub is_disconnected : ConnectionStatus → Bool
is_disconnected disconnected = true
is_disconnected connecting = false
is_disconnected connected = false
is_disconnected failed = false
is_disconnected (status_other n) = false

abbrev pub is_connected : ConnectionStatus → Bool
is_connected connected = true
is_connected disconnected = false
is_connected connecting = false
is_connected failed = false
is_connected (status_other n) = false

-- The loop of `compactAddresses`, with the addresses seen so far.
unfoldable pub compact_from : Set String → List String → List String
compact_from seen [] = []
compact_from seen (address ∷ rest) =
    let skipped = compact_from seen rest in
    let kept = compact_from (insert address tt seen) rest in
    if address == "" then skipped else if has address seen then skipped else address ∷ kept

unfoldable pub compact_addresses : List String → List String
compact_addresses addresses = compact_from [] addresses

unfoldable pub merge_addresses_of : List String → List String → List String
merge_addresses_of existing incoming =
    if eqb (length incoming) 0 then existing else compact_addresses (existing ++ incoming)

unfoldable pub merge_role : NodeRole → NodeRole → NodeRole
merge_role existing incoming =
    if is_server incoming && is_client existing then existing else incoming

unfoldable pub merge_status : ConnectionStatus → ConnectionStatus → ConnectionStatus
merge_status existing incoming =
    if is_disconnected incoming && not (is_disconnected existing) then existing else incoming

module _ {N C : Type 0} where
  unfoldable pub merge_node : Node N C → Node N C → Node N C
  merge_node existing incoming = record {
    node_id = incoming.node_id;
    addresses = merge_addresses_of existing.addresses incoming.addresses;
    node_certs =
        if eqb (length incoming.node_certs) 0 then existing.node_certs else incoming.node_certs;
    role = merge_role existing.role incoming.role;
    last_seen = if eqb incoming.last_seen 0 then existing.last_seen else incoming.last_seen;
    connection_status = merge_status existing.connection_status incoming.connection_status;
  }

  -- The entry that `AddNode` stores.
  unfoldable pub merge_with : Option (Node N C) → Node N C → Node N C
  merge_with none n = n
  merge_with (some existing) n = merge_node existing n

module _ {N C : Type 0} ⦃e : Eq N⦄ where
  -- `is_zero` is the library's `IsZero`.
  unfoldable pub add_node :
      (N → Bool) → Registry N C → Node N C → List C → Result RegistryError (Registry N C)
  add_node is_zero r node certs = do
    fail_if (is_zero node.node_id) zero_node_id
    let node_certs = if eqb (length certs) 0 then node.node_certs else certs
    let n = record node { node_certs = node_certs }
    ok (insert node.node_id (merge_with (lookup node.node_id r) n) r)

  unfoldable pub remove_node : Registry N C → N → Result RegistryError (Registry N C)
  remove_node r node_id = do fail_if (not (has node_id r)) node_not_found; ok (delete node_id r)

  unfoldable pub get_node : Registry N C → N → Result RegistryError (Node N C)
  get_node r node_id = or_fail (lookup node_id r) node_not_found

  unfoldable pub update_last_seen : Registry N C → N → ℕ → Result RegistryError (Registry N C)
  update_last_seen r node_id seen_at = do
    node ← or_fail (lookup node_id r) node_not_found
    ok (insert node_id (record node { last_seen = seen_at }) r)

  unfoldable pub set_status :
      Registry N C → N → ConnectionStatus → Result RegistryError (Registry N C)
  set_status r node_id status = do
    node ← or_fail (lookup node_id r) node_not_found
    ok (insert node_id (record node { connection_status = status }) r)

  unfoldable pub set_role : Registry N C → N → NodeRole → Result RegistryError (Registry N C)
  set_role r node_id role = do
    node ← or_fail (lookup node_id r) node_not_found
    ok (insert node_id (record node { role = role }) r)

  unfoldable pub merge_addresses :
      Registry N C → N → List String → Result RegistryError (Registry N C)
  merge_addresses r node_id addresses = do
    node ← or_fail (lookup node_id r) node_not_found
    ok (
        insert node_id (record node { addresses = compact_addresses (node.addresses ++ addresses) })
          r)

-- `GetAllNodes`, and `GetAdminNodes` and `GetUserNodes`, which are the same.
unfoldable pub get_all_nodes : {N C : Type 0} → Registry N C → List (Node N C)
get_all_nodes [] = []
get_all_nodes ((node_id, node) ∷ rest) = node ∷ get_all_nodes rest

unfoldable pub get_unreachable_nodes : {N C : Type 0} → Registry N C → List (Node N C)
get_unreachable_nodes [] = []
get_unreachable_nodes ((node_id, node) ∷ rest) =
    let others = get_unreachable_nodes rest in
    if not (is_connected node.connection_status) then node ∷ others else others

unfoldable pub get_server_nodes : {N C : Type 0} → Registry N C → List (Node N C)
get_server_nodes [] = []
get_server_nodes ((node_id, node) ∷ rest) =
    let others = get_server_nodes rest in
    if not (is_client node.role) then node ∷ others else others
