-- ===== src/Transport/Heartbeat/Peers.antt =====
-- internal/transport/heartbeat.go: the carrier's side of the heartbeat. Whether a message could be
-- sent is an argument; log lines are left out. What is learned of new peers is dialled by a
-- goroutine of its own: the nodes to dial are a result.
use ouroboros_db.Base.{
  ℕ, ◌-◌, String, Bool, not, ◌&&◌, List, [], ◌∷◌, Option, none, some, Result, ok, err, Eq, has, eqb,
  ltb, length, map, ℤ, if◌then◌else◌,
}
use ouroboros_db.Control.{Message, Proto}
use ouroboros_db.Transport.Registry.{
  Node, NodeRole, is_client, compact_addresses, set_role, get_all_nodes, get_unreachable_nodes,
}
use ouroboros_db.Transport.Carrier.{
  Carrier, to_heartbeat, no_controller, to_controller, mark_peer_seen, mark_peer_failed,
  connection_for_node, dispatch_message,
}
use ouroboros_db.Transport.Heartbeat.{
  HeartbeatCodec, HeartbeatNodeEntry, HeartbeatPayload, HeartbeatError, unmarshal_heartbeat,
  in_registry, unmarshal_heartbeat_payload, merge_heartbeat_nodes, heartbeat_timeout,
}

module _ {N C K M F : Type 0} ⦃e : Eq N⦄ where
  -- The node itself, then every node of the registry.
  unfoldable pub heartbeat_known_nodes :
      Carrier N C K M F → N → String → NodeRole → List (HeartbeatNodeEntry N)
  heartbeat_known_nodes c self_id listen_address node_role =
      record {
        node_id = self_id;
        addresses = compact_addresses (listen_address ∷ []);
        role = node_role;
      }
      ∷ map
          (λ (peer : Node N C). record {
            node_id = peer.node_id;
            addresses = peer.addresses;
            role = peer.role;
          })
          (get_all_nodes c.registry)

  unfoldable pub build_heartbeat_payload :
      Carrier N C K M F → N → String → NodeRole → ℤ → HeartbeatPayload N
  build_heartbeat_payload c self_id listen_address node_role now_unix =
      let known = heartbeat_known_nodes c self_id listen_address node_role in
      record {
        sent_at_unix = now_unix;
        sender_role = node_role;
        known_nodes = known;
        stats = ("connectedNodes", length c.connections) ∷ ("knownNodes", length known) ∷ [];
        storage_free_bytes = 0;
        custom_fields = [];
      }

  unfoldable pub should_heartbeat_peer : Carrier N C K M F → Node N C → Bool
  should_heartbeat_peer c peer = has peer.node_id c.connections && not (is_client peer.role)

  -- The nodes of a list that are dialled: no clients, and none that is connected.
  unfoldable pub to_dial : Carrier N C K M F → List (Node N C) → List (Node N C)
  to_dial c [] = []
  to_dial c (node ∷ nodes) =
      let others = to_dial c nodes in
      if is_client node.role
      then others
      else if has node.node_id c.connections
      then others
      else node ∷ others

  -- `retryUnreachablePeers`, at the time of its first dial.
  unfoldable pub to_retry : Carrier N C K M F → List (Node N C)
  to_retry c = to_dial c (get_unreachable_nodes c.registry)

  -- The error that ends the handling, and the nodes to dial.
  unfoldable pub handle_heartbeat_message :
      (N → Bool)
      → N
      → HeartbeatCodec N
      → Carrier N C K M F
      → N
      → Message
      → ℕ
      → Carrier N C K M F × Result HeartbeatError (List (Node N C))
  handle_heartbeat_message is_zero self_id codec c peer_id msg now =
      elim (unmarshal_heartbeat_payload codec msg.payload) [
        | none ↦ (c, err unmarshal_heartbeat)
        | some payload ↦
            let seen = mark_peer_seen c peer_id now in
            elim (set_role seen.registry peer_id payload.sender_role) [
              | err bad ↦ (seen, err (in_registry bad))
              | ok registry ↦
                  let (merged, discovered, failed) =
                    merge_heartbeat_nodes is_zero self_id registry payload.known_nodes in
                  (
                    record seen { registry = merged },
                    elim failed [ none ↦ ok discovered | some bad ↦ err (in_registry bad) ],
                  )
            ]
      ]

  -- `dispatchMessage` of a heartbeat, its marking included.
  unfoldable pub dispatch_heartbeat :
      Proto M
      → (N → Bool)
      → N
      → HeartbeatCodec N
      → Carrier N C K M F
      → N
      → Message
      → ℕ
      → Carrier N C K M F × Option (Result HeartbeatError (List (Node N C)))
  dispatch_heartbeat p is_zero self_id codec c node_id msg now =
      let (seen, outcome) = dispatch_message p c node_id msg now in
      elim outcome [
        | to_heartbeat peer_id m ↦
            let (next, answer) =
              handle_heartbeat_message is_zero self_id codec seen peer_id m now in
            (next, some answer)
        | no_controller ↦ (seen, none)
        | to_controller r ↦ (seen, none)
      ]

-- A peer that was never seen is left alone.
unfoldable pub is_stale : {N C : Type 0} → ℤ → ℕ → Node N C → Bool
is_stale configured now peer =
    not (eqb peer.last_seen 0) && ltb (heartbeat_timeout configured) (now - peer.last_seen)

module _ {N C K M F : Type 0} ⦃e : Eq N⦄ ⦃k : Eq K⦄ where
  -- A failed sending marks the peer as failed if it has a connection.
  unfoldable pub fail_connected : Carrier N C K M F → N → Carrier N C K M F
  fail_connected c node_id = elim (connection_for_node c node_id) [
    | none ↦ c
    | some conn ↦ mark_peer_failed c node_id conn
  ]

  unfoldable pub heartbeat_each :
      (N → Bool) → Carrier N C K M F → List (Node N C) → Carrier N C K M F
  heartbeat_each sends c [] = c
  heartbeat_each sends c (peer ∷ peers) =
      let next =
        if should_heartbeat_peer c peer
        then (if sends peer.node_id then c else fail_connected c peer.node_id)
        else c in
      heartbeat_each sends next peers

  unfoldable pub send_heartbeat_batch : (N → Bool) → Carrier N C K M F → Carrier N C K M F
  send_heartbeat_batch sends c = heartbeat_each sends c (get_all_nodes c.registry)

  unfoldable pub fail_each : ℤ → ℕ → Carrier N C K M F → List (Node N C) → Carrier N C K M F
  fail_each configured now c [] = c
  fail_each configured now c (peer ∷ peers) =
      let next = if is_stale configured now peer then fail_connected c peer.node_id else c in
      fail_each configured now next peers

  unfoldable pub fail_stale_peers : ℤ → ℕ → Carrier N C K M F → Carrier N C K M F
  fail_stale_peers configured now c = fail_each configured now c (get_all_nodes c.registry)
