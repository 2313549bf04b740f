-- ===== src/Transport/Carrier.antt =====
-- internal/transport/carrier_cluster.go, carrier_connection.go and carrier_dispatch.go: which
-- connection and which scope a peer has, and the scope under which its messages are handled. `K`
-- is the type of connections and `C` that of certificates. Closing a connection is an effect
-- outside the state; where its error is read, the error is an argument. The handling of heartbeat
-- messages is not part of this file: a dispatch says that it is called. `registerPeer` locks the
-- registry and then the carrier; the two are one step here.
pub mod Scopes
use ouroboros_db.Base.{
  ℕ, String, Bool, true, false, not, List, [], ◌∷◌, Option, none, some, is_some, Result, ok, err,
  ◌>>=◌, or_fail, Eq, Map, has, lookup, insert, delete, eqb, ◌==◌, if◌then◌else◌,
}
use ouroboros_db.Auth.Types.{TrustScope, scope_admin, AuthContext}
use ouroboros_db.Control.{Handlers, Message, Proto, Dispatch, ControlError, handle_incoming_message}
use ouroboros_db.Transport.Registry.{
  Node, Registry, RegistryError, ConnectionStatus, role_server, connected, disconnected, failed,
  compact_addresses, add_node, remove_node, update_last_seen, set_status,
}

-- `MessageTypeHeartbeat`.
abbrev pub message_type_heartbeat : ℕ
message_type_heartbeat = 4

pub record Carrier (N C K M F : Type 0) : Type 0 where
  pub registry : Registry N C
  pub connections : Map N K
  pub controller : Option (Handlers M F)
  pub peer_scopes : Map N TrustScope

-- What becomes of a message.
pub data Outcome (N M F : Type 0) : Type 0 where
  to_heartbeat : N → Message → Outcome N M F
  no_controller : Outcome N M F
  to_controller : Result ControlError (Dispatch N M F) → Outcome N M F

-- The registry after a call whose error is ignored.
abbrev pub or_unchanged :
    {N C : Type 0} → Registry N C → Result RegistryError (Registry N C) → Registry N C
or_unchanged r (ok next) = next
or_unchanged r (err e) = r

module _ {N C K M F : Type 0} ⦃e : Eq N⦄ where
  unfoldable pub register_peer :
      (N → Bool)
      → Carrier N C K M F
      → AuthContext N
      → K
      → List C
      → List String
      → ℕ
      → Result RegistryError (Carrier N C K M F)
  register_peer is_zero c auth_ctx conn certs addresses seen_at = do
    let node : Node N C = record {
      node_id = auth_ctx.node_id;
      addresses = compact_addresses addresses;
      node_certs = certs;
      role = role_server;
      last_seen = seen_at;
      connection_status = connected;
    }
    registry ← add_node is_zero c.registry node certs
    ok (record c {
      registry = registry;
      connections = insert auth_ctx.node_id conn c.connections;
      peer_scopes = insert auth_ctx.node_id auth_ctx.effective_scope c.peer_scopes;
    })

  -- With whether it succeeded; whether closing the connection fails is an argument.
  unfoldable pub leave_cluster : Carrier N C K M F → N → Bool → Carrier N C K M F × Bool
  leave_cluster c node_id close_fails =
      if not (has node_id c.connections) then (c, false) else if close_fails then (c, false) else (
        record c {
          connections = delete node_id c.connections;
          peer_scopes = delete node_id c.peer_scopes;
        },
        true,
      )

  -- `delete` of a missing connection changes nothing.
  unfoldable pub remove_peer : Carrier N C K M F → N → Carrier N C K M F
  remove_peer c node_id = record c {
    connections = delete node_id c.connections;
    peer_scopes = delete node_id c.peer_scopes;
    registry = or_unchanged c.registry (remove_node c.registry node_id);
  }

  unfoldable pub drop_connection : ⦃k : Eq K⦄ → Carrier N C K M F → N → K → Carrier N C K M F
  drop_connection c node_id conn =
      let dropped = record c {
        connections = delete node_id c.connections;
        peer_scopes = delete node_id c.peer_scopes;
        registry = or_unchanged c.registry (set_status c.registry node_id disconnected);
      } in
      elim (lookup node_id c.connections) [
        | none ↦ c
        | some current ↦ if not (current == conn) then c else dropped
      ]

  unfoldable pub mark_peer_seen : Carrier N C K M F → N → ℕ → Carrier N C K M F
  mark_peer_seen c node_id seen_at =
      let seen = or_unchanged c.registry (update_last_seen c.registry node_id seen_at) in
      record c { registry = or_unchanged seen (set_status seen node_id connected) }

  unfoldable pub mark_peer_failed : ⦃k : Eq K⦄ → Carrier N C K M F → N → K → Carrier N C K M F
  mark_peer_failed c node_id conn =
      let dropped = drop_connection c node_id conn in
      record dropped {
        registry = or_unchanged dropped.registry (set_status dropped.registry node_id failed);
      }

  unfoldable pub set_controller : Carrier N C K M F → Handlers M F → Carrier N C K M F
  set_controller c controller = record c { controller = some controller }

  unfoldable pub connection_for_node : Carrier N C K M F → N → Option K
  connection_for_node c node_id = lookup node_id c.connections

  -- A key that is missing reads as the zero value of `TrustScope`, which is `ScopeAdmin`.
  unfoldable pub scope_for_node : Carrier N C K M F → N → TrustScope
  scope_for_node c node_id = elim (lookup node_id c.peer_scopes) [
    | none ↦ scope_admin
    | some scope ↦ scope
  ]

  unfoldable pub dispatch_message :
      Proto M → Carrier N C K M F → N → Message → ℕ → Carrier N C K M F × Outcome N M F
  dispatch_message p c node_id msg now =
      let seen = mark_peer_seen c node_id now in
      (
        seen,
        if eqb msg.typ message_type_heartbeat
            then to_heartbeat node_id msg
            else elim seen.controller [
              | none ↦ no_controller
              | some controller ↦
                  to_controller
                    (handle_incoming_message p controller msg node_id (scope_for_node seen node_id))
            ],
      )

-- A step of the carrier that changes connections or scopes.
pub data Step (N C K M F : Type 0) : Type 0 where
  registers : AuthContext N → K → List C → List String → ℕ → Step N C K M F
  leaves : N → Bool → Step N C K M F
  removes : N → Step N C K M F
  drops fails : N → K → Step N C K M F
  sees : N → ℕ → Step N C K M F
  controls : Handlers M F → Step N C K M F

module _ {N C K M F : Type 0} ⦃e : Eq N⦄ ⦃k : Eq K⦄ (is_zero : N → Bool) where
  -- A registration that fails leaves the carrier as it is.
  abbrev pub or_before :
      Carrier N C K M F → Result RegistryError (Carrier N C K M F) → Carrier N C K M F
  or_before c (ok next) = next
  or_before c (err e) = c

  unfoldable pub step : Carrier N C K M F → Step N C K M F → Carrier N C K M F
  step c (registers ctx conn certs addresses at) =
      or_before c (register_peer is_zero c ctx conn certs addresses at)
  step c (leaves node_id close_fails) = (leave_cluster c node_id close_fails).0
  step c (removes node_id) = remove_peer c node_id
  step c (drops node_id conn) = drop_connection c node_id conn
  step c (fails node_id conn) = mark_peer_failed c node_id conn
  step c (sees node_id at) = mark_peer_seen c node_id at
  step c (controls handlers) = set_controller c handlers

  unfoldable pub steps : Carrier N C K M F → List (Step N C K M F) → Carrier N C K M F
  steps c [] = c
  steps c (s ∷ rest) = steps (step c s) rest

unfoldable pub new_carrier : {N C K M F : Type 0} → Carrier N C K M F
new_carrier = record { registry = []; connections = []; controller = none; peer_scopes = [] }
