-- ===== src/Transport/Carrier/Scopes.antt =====
-- The scope under which a peer's messages are handled.
use ouroboros_db.Base.{
  ℕ, ◌≡◌, refl, sym, ap, subst, Bool, true, false, List, [], ◌∷◌, some, Option-cases, Result, ok,
  Result-cases, >>=-eq-ok, Eq, has, lookup, insert, lookup-insert, lookup-delete, eqb, arith, inl,
  inr, ◌⊎◌, Map, Any,
}
use ouroboros_db.Auth.Types.{TrustScope, scope_admin, AuthContext}
use ouroboros_db.Control.{Handlers, Message, Proto, Dispatch, handle_incoming_message}
use ouroboros_db.Control.Access.{handle_incoming_message_iff}
use ouroboros_db.Transport.Registry.{RegistryError, add_node}
use ouroboros_db.Transport.Carrier.{
  Carrier, to_controller, message_type_heartbeat, register_peer, leave_cluster, remove_peer,
  drop_connection, mark_peer_seen, mark_peer_failed, set_controller, scope_for_node,
  dispatch_message, Step, registers, leaves, removes, drops, fails, sees, controls, step, steps,
  or_before, new_carrier,
}

module _ {N C K M F : Type 0} ⦃e : Eq N⦄ ⦃k : Eq K⦄ where
  -- A message that is handled for a peer whose connection was just dropped, and that is no
  -- heartbeat, is handled under admin scope, whatever scope the peer was authenticated with.
  pub drop_connection-dispatch_message :
      (p : Proto M) (c : Carrier N C K M F) (node_id : N) (conn : K) (handlers : Handlers M F)
      (msg : Message) (now : ℕ)
      → lookup node_id c.connections ≡ some conn
      → c.controller ≡ some handlers
      → eqb msg.typ message_type_heartbeat ≡ false
      → (dispatch_message p (drop_connection c node_id conn) node_id msg now).1
        ≡ to_controller (handle_incoming_message p handlers msg node_id scope_admin)
  unfolding dispatch_message drop_connection mark_peer_seen scope_for_node
  drop_connection-dispatch_message p c node_id conn handlers msg now current controller other =
      ground (
        arith,
        k.beq_iff conn conn,
        e.beq_iff node_id node_id,
        lookup-delete node_id node_id c.peer_scopes,
      )

  -- Exactly the connected peers have a scope.
  abbrev pub IsPaired : Carrier N C K M F → Type 0
  IsPaired c = (id : N) → has id c.connections ≡ has id c.peer_scopes

  -- The step authenticated the node with the scope.
  abbrev pub Authenticates : N → TrustScope → Step N C K M F → Type 0
  Authenticates id scope (registers ctx conn certs addresses at) =
      (ctx.node_id ≡ id) × (ctx.effective_scope ≡ scope)
  Authenticates id scope (leaves n b) = ⊥
  Authenticates id scope (removes n) = ⊥
  Authenticates id scope (drops n conn) = ⊥
  Authenticates id scope (fails n conn) = ⊥
  Authenticates id scope (sees n at) = ⊥
  Authenticates id scope (controls h) = ⊥

  connections_of : Carrier N C K M F → Map N K
  connections_of c = c.connections

  scopes_of : Carrier N C K M F → Map N TrustScope
  scopes_of c = c.peer_scopes

  injected : {a b : Carrier N C K M F} → ◌≡◌ {A = Result RegistryError _} (ok a) (ok b) → a ≡ b
  injected h = cc

  handled :
      (p : Proto M) (c : Carrier N C K M F) (id : N) (scope : TrustScope) (msg : Message) (now : ℕ)
      (d : Dispatch N M F)
      → lookup id c.peer_scopes ≡ some scope
      → (dispatch_message p c id msg now).1 ≡ to_controller (ok d)
      → (handlers : Handlers M F) × (handle_incoming_message p handlers msg id scope ≡ ok d)
  unfolding dispatch_message mark_peer_seen scope_for_node
  handled p c id scope msg now d known called = elim (Option-cases c.controller) [
    | inl nobody ↦ absurd (ground arith)
    | inr (handlers, there) ↦ (handlers, ground arith)
  ]

  module _ (is_zero : N → Bool) where
    register_peer_lem :
        (c next : Carrier N C K M F) (ctx : AuthContext N) (conn : K) (certs : List C)
        (addresses : _) (at : ℕ)
        → register_peer is_zero c ctx conn certs addresses at ≡ ok next
        → (next.connections ≡ insert ctx.node_id conn c.connections)
          × (next.peer_scopes ≡ insert ctx.node_id ctx.effective_scope c.peer_scopes)
    unfolding register_peer connections_of scopes_of
    register_peer_lem c next ctx conn certs addresses at h =
        let (registry, added, h₁) = >>=-eq-ok (add_node is_zero c.registry _ certs) _ h in
        (ap connections_of (sym (injected h₁)), ap scopes_of (sym (injected h₁)))

    registered-IsPaired :
        (c next : Carrier N C K M F) (ctx : AuthContext N) (conn : K)
        → IsPaired c
        → (next.connections ≡ insert ctx.node_id conn c.connections)
          × (next.peer_scopes ≡ insert ctx.node_id ctx.effective_scope c.peer_scopes)
        → IsPaired next
    registered-IsPaired c next ctx conn v now id = ground (
      arith,
      v id,
      now.0,
      now.1,
      lookup-insert ctx.node_id id conn c.connections,
      lookup-insert ctx.node_id id ctx.effective_scope c.peer_scopes,
    )

    step-IsPaired :
        (c : Carrier N C K M F) (s : Step N C K M F) → IsPaired c → IsPaired (step is_zero c s)
    unfolding step leave_cluster remove_peer drop_connection mark_peer_seen mark_peer_failed
        set_controller
    step-IsPaired c (registers ctx conn certs addresses at) v id =
        elim (Result-cases (register_peer is_zero c ctx conn certs addresses at)) [
          | inr (e, refused) ↦ subst IsPaired (sym (ap (or_before is_zero c) refused)) v id
          | inl (next, done) ↦
              subst IsPaired (sym (ap (or_before is_zero c) done))
                (registered-IsPaired c next ctx conn v
                  (register_peer_lem c next ctx conn certs addresses at done))
                id
        ]
    step-IsPaired c (leaves n b) v id =
        ground (arith, v id, lookup-delete n id c.connections, lookup-delete n id c.peer_scopes)
    step-IsPaired c (removes n) v id =
        ground (arith, v id, lookup-delete n id c.connections, lookup-delete n id c.peer_scopes)
    step-IsPaired c (drops n conn) v id =
        ground (arith, v id, lookup-delete n id c.connections, lookup-delete n id c.peer_scopes)
    step-IsPaired c (fails n conn) v id =
        ground (arith, v id, lookup-delete n id c.connections, lookup-delete n id c.peer_scopes)
    step-IsPaired c (sees n at) v id = v id
    step-IsPaired c (controls h) v id = v id

    registered_scope :
        (c next : Carrier N C K M F) (ctx : AuthContext N) (conn : K) (id : N) (scope : TrustScope)
        → next.peer_scopes ≡ insert ctx.node_id ctx.effective_scope c.peer_scopes
        → lookup id next.peer_scopes ≡ some scope
        → (lookup id c.peer_scopes ≡ some scope)
          ⊎ ((ctx.node_id ≡ id) × (ctx.effective_scope ≡ scope))
    registered_scope c next ctx conn id scope now h = ground (
      arith,
      now,
      e.beq_iff ctx.node_id id,
      lookup-insert ctx.node_id id ctx.effective_scope c.peer_scopes,
    )

    -- A scope of the state was there before or is the one that the step authenticated.
    step-scope :
        (c : Carrier N C K M F) (s : Step N C K M F) (id : N) (scope : TrustScope)
        → lookup id (step is_zero c s).peer_scopes ≡ some scope
        → (lookup id c.peer_scopes ≡ some scope) ⊎ Authenticates id scope s
    unfolding step leave_cluster remove_peer drop_connection mark_peer_seen mark_peer_failed
        set_controller
    step-scope c (registers ctx conn certs addresses at) id scope h =
        elim (Result-cases (register_peer is_zero c ctx conn certs addresses at)) [
          | inr (e, refused) ↦ inl (
              subst (λ (x : Carrier N C K M F). lookup id x.peer_scopes ≡ some scope)
                (ap (or_before is_zero c) refused) h)
          | inl (next, done) ↦
              registered_scope c next ctx conn id scope
                (register_peer_lem c next ctx conn certs addresses at done).1
                (subst (λ (x : Carrier N C K M F). lookup id x.peer_scopes ≡ some scope)
                  (ap (or_before is_zero c) done) h)
        ]
    step-scope c (leaves n b) id scope h = ground (arith, lookup-delete n id c.peer_scopes)
    step-scope c (removes n) id scope h = ground (arith, lookup-delete n id c.peer_scopes)
    step-scope c (drops n conn) id scope h = ground (arith, lookup-delete n id c.peer_scopes)
    step-scope c (fails n conn) id scope h = ground (arith, lookup-delete n id c.peer_scopes)
    step-scope c (sees n at) id scope h = inl h
    step-scope c (controls hs) id scope h = inl h

    steps-IsPaired :
        (c : Carrier N C K M F) (ss : List (Step N C K M F))
        → IsPaired c
        → IsPaired (steps is_zero c ss)
    unfolding steps
    steps-IsPaired c [] v = v
    steps-IsPaired c (s ∷ ss) v = steps-IsPaired (step is_zero c s) ss (step-IsPaired c s v)

    steps-scope :
        (c : Carrier N C K M F) (ss : List (Step N C K M F)) (id : N) (scope : TrustScope)
        → lookup id (steps is_zero c ss).peer_scopes ≡ some scope
        → (lookup id c.peer_scopes ≡ some scope) ⊎ Any (Authenticates id scope) ss
    unfolding steps
    steps-scope c [] id scope h = inl h
    steps-scope c (s ∷ ss) id scope h = elim (steps-scope (step is_zero c s) ss id scope h) [
      | inr later ↦ inr (inr later)
      | inl held ↦ elim (step-scope c s id scope held) [
        | inl before ↦ inl before
        | inr here ↦ inr (inl here)
      ]
    ]

    -- After any steps of a new carrier, a handler that is called for a message of a connected peer
    -- is given the peer's own NodeID and a scope with which some step authenticated that NodeID.
    pub steps-dispatch_message :
        (ss : List (Step N C K M F)) (p : Proto M) (id : N) (msg : Message) (now : ℕ)
        (d : Dispatch N M F)
        → has id (steps is_zero new_carrier ss).connections ≡ true
        → (dispatch_message p (steps is_zero new_carrier ss) id msg now).1 ≡ to_controller (ok d)
        → (d.peer ≡ id) × Any (Authenticates id d.peer_scope) ss
    unfolding new_carrier lookup
    steps-dispatch_message ss p id msg now d there called =
        let c = steps is_zero new_carrier ss in
        let paired : IsPaired c = steps-IsPaired new_carrier ss (λ i. refl) in
        elim (Option-cases (lookup id c.peer_scopes)) [
          | inl unknown ↦ absurd (ground (arith, paired id))
          | inr (scope, known) ↦
              let (handlers, ran) = handled p c id scope msg now d known called in
              let sent = (handle_incoming_message_iff handlers p msg id scope d).0 ran in
              elim (steps-scope new_carrier ss id scope known) [
                | inl before ↦ cc
                | inr authenticated ↦ (
                  sent.from_peer,
                  subst (λ s. Any (Authenticates id s) ss) (sym sent.under_scope) authenticated,
                )
              ]
        ]
