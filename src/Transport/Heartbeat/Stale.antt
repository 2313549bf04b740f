-- ===== src/Transport/Heartbeat/Stale.antt =====
-- Which connections a check for stale peers ends.
use ouroboros_db.Base.{
  ℕ, zero, suc, pos, negsuc, ◌+◌, ◌<◌, ◌≡◌, ◌≢◌, ◌⊎◌, ◌↔◌, refl, Bool, true, false, ◌&&◌, All, Any,
  List, [], ◌∷◌, none, Eq, ◌==◌, has, lookup, lookup-delete, arith, ℤ, Option-cases, Bool-cases,
  inl, inr, if◌then◌else◌,
}
use ouroboros_db.Transport.Registry.{Node, get_all_nodes}
use ouroboros_db.Transport.Carrier.{Carrier, drop_connection, mark_peer_failed, connection_for_node}
use ouroboros_db.Transport.Heartbeat.{heartbeat_timeout, duration_or}
use ouroboros_db.Transport.Heartbeat.Peers.{fail_connected, is_stale, fail_each, fail_stale_peers}

-- The time after which a peer that is not seen is stale: the configured one if it is positive, and
-- else 15 seconds.
abbrev pub timeout : ℤ → ℕ
timeout (pos zero) = 15000000000
timeout (pos (suc n)) = suc n
timeout (negsuc n) = 15000000000

heartbeat_timeout_lem : (configured : ℤ) → heartbeat_timeout configured ≡ timeout configured
unfolding heartbeat_timeout duration_or
heartbeat_timeout_lem (pos zero) = refl
heartbeat_timeout_lem (pos (suc n)) = refl
heartbeat_timeout_lem (negsuc n) = refl

-- The peer was seen, and the timeout has passed since.
abbrev pub IsOverdue : {N C : Type 0} → ℤ → ℕ → Node N C → Type 0
IsOverdue configured now peer = (peer.last_seen ≢ 0) × (peer.last_seen + timeout configured < now)

-- An overdue peer of the NodeID.
abbrev pub IsOverdueAs : {N C : Type 0} → ℤ → ℕ → N → Node N C → Type 0
IsOverdueAs configured now id peer = (peer.node_id ≡ id) × IsOverdue configured now peer

-- Some stale peer of the list has the NodeID.
abbrev any_stale : {N C : Type 0} → ⦃e : Eq N⦄ → ℤ → ℕ → N → List (Node N C) → Bool
any_stale configured now id [] = false
any_stale configured now id (peer ∷ peers) =
    if is_stale configured now peer && (peer.node_id == id)
    then true
    else any_stale configured now id peers

is_stale_iff :
    {N C : Type 0} (configured : ℤ) (now : ℕ) (peer : Node N C)
    → (is_stale configured now peer ≡ true) ↔ IsOverdue configured now peer
unfolding is_stale
is_stale_iff configured now peer = ground (arith, heartbeat_timeout_lem configured)

-- The test decides whether some peer of the NodeID is overdue.
any_stale_lem :
    {N C : Type 0} ⦃e : Eq N⦄ (configured : ℤ) (now : ℕ) (id : N) (peers : List (Node N C))
    → ((any_stale configured now id peers ≡ true) × Any (IsOverdueAs configured now id) peers)
      ⊎ ((any_stale configured now id peers ≡ false)
          × All (λ peer. IsOverdueAs configured now id peer → ⊥) peers)
any_stale_lem ⦃e⦄ configured now id [] = inr (refl, tt)
any_stale_lem ⦃e⦄ configured now id (peer ∷ peers) =
    let stale_iff = is_stale_iff configured now peer in
    elim (Bool-cases (is_stale configured now peer && (peer.node_id == id))) [
      | inl here ↦ inl (
        rw here refl,
        inl (
          (e.beq_iff peer.node_id id).0 (ground (arith, here)),
          stale_iff.0 (ground (arith, here)),
        ),
      )
      | inr not_here ↦ elim (any_stale_lem configured now id peers) [
        | inl (found, one) ↦ inl (rw not_here found, inr one)
        | inr (missing, all) ↦ inr (
          rw not_here missing,
          (
            (λ h. ground (arith, not_here, stale_iff.1 h.1, (e.beq_iff peer.node_id id).1 h.0)),
            all,
          ),
        )
      ]
    ]

module _ {N C K M F : Type 0} ⦃e : Eq N⦄ ⦃k : Eq K⦄ where
  fail_connected_lem :
      (c : Carrier N C K M F) (n id : N)
      → (lookup id (fail_connected c n).connections
          ≡ (if n == id then none else lookup id c.connections))
        × (lookup id (fail_connected c n).peer_scopes
            ≡ (if (n == id) && has n c.connections then none else lookup id c.peer_scopes))
  unfolding fail_connected connection_for_node mark_peer_failed drop_connection
  fail_connected_lem c n id = elim (Option-cases (lookup n c.connections)) [
    | inl missing ↦ ground (arith, e.beq_iff n id)
    | inr (conn, there) ↦ ground (
      arith,
      e.beq_iff n id,
      k.beq_iff conn conn,
      lookup-delete n id c.connections,
      lookup-delete n id c.peer_scopes,
    )
  ]

  fail_each_lem :
      (configured : ℤ) (now : ℕ) (c : Carrier N C K M F) (peers : List (Node N C)) (id : N)
      → (lookup id (fail_each configured now c peers).connections
          ≡ (if any_stale configured now id peers then none else lookup id c.connections))
        × (lookup id (fail_each configured now c peers).peer_scopes ≡ (
            if any_stale configured now id peers && has id c.connections
            then none
            else lookup id c.peer_scopes))
  unfolding fail_each
  fail_each_lem configured now c [] id = (refl, refl)
  fail_each_lem configured now c (peer ∷ peers) id =
      elim (Bool-cases (is_stale configured now peer)) [
        | inr fresh ↦ rw (fresh, fail_each) (fail_each_lem configured now c peers id)
        | inl stale ↦
            let (conns, scopes) =
              fail_each_lem configured now (fail_connected c peer.node_id) peers id in
            let (conns_here, scopes_here) = fail_connected_lem c peer.node_id id in
            rw (stale, fail_each)
              (ground (arith, conns, scopes, conns_here, scopes_here, e.beq_iff peer.node_id id))
      ]

  -- A check for stale peers ends the connection of a NodeID, and takes its scope away, if the
  -- registry lists a peer under it that was seen, and since whose last sighting more than the
  -- timeout has passed. The connection and the scope of every other NodeID are left alone. A scope
  -- without a connection stays.
  pub fail_stale_peers_lem :
      (configured : ℤ) (now : ℕ) (c : Carrier N C K M F) (id : N)
      → (Any (IsOverdueAs configured now id) (get_all_nodes c.registry)
          × (lookup id (fail_stale_peers configured now c).connections ≡ none)
          × (lookup id (fail_stale_peers configured now c).peer_scopes
              ≡ (if has id c.connections then none else lookup id c.peer_scopes)))
        ⊎ (All (λ peer. IsOverdueAs configured now id peer → ⊥) (get_all_nodes c.registry)
            × (lookup id (fail_stale_peers configured now c).connections ≡ lookup id c.connections)
            × (lookup id (fail_stale_peers configured now c).peer_scopes ≡ lookup id c.peer_scopes))
  unfolding fail_stale_peers
  fail_stale_peers_lem configured now c id =
      let (conns, scopes) = fail_each_lem configured now c (get_all_nodes c.registry) id in
      elim (any_stale_lem configured now id (get_all_nodes c.registry)) [
        | inl (found, one) ↦ inl (one, (rw found at conns), (rw found at scopes))
        | inr (missing, all) ↦ inr (all, (rw missing at conns), (rw missing at scopes))
      ]
