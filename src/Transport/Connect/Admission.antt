-- ===== src/Transport/Connect/Admission.antt =====
-- Nobody is registered who was not verified.
use ouroboros_db.Base.{
  String, ◌≡◌, refl, Bool, List, [], ◌∷◌, Option, some, Result, ok, err, or_fail, or_fail-eq-ok, Eq,
  ◌⊎◌, inl, inr, >>=-eq-ok, subst, Result-cases, Option-cases, Bool-cases,
}
use ouroboros_db.Auth.Types.{Bytes, Keys, AuthContext}
use ouroboros_db.Auth.Store.{CarrierAuth}
use ouroboros_db.Auth.Verify.{PeerHandshake, verify_peer_cert}
use ouroboros_db.Auth.Delegation.{NodeIdentity}
use ouroboros_db.Transport.Carrier.{Carrier, register_peer}
use ouroboros_db.Transport.Handshake.{AuthCodec, read_auth_handshake}
use ouroboros_db.Transport.Connect.{
  Cert, Network, AuthConfig, Moment, ConnectError, wrapped, or_refused, await_peer_auth, dialled,
  register_as, Arrival, incoming, outgoing, bootstrap, arrive, authenticate_to,
  handle_incoming_conn, connect_node, dial_known_addresses, dial_bootstrap_addr, is_node_connected,
  bad_handshake, not_verified,
}

module _ {P N H K : Type 0} ⦃e : Eq N⦄ (k : Keys P N) (proto : AuthCodec) (net : Network K)
    (cfg : AuthConfig P N H) (now : Moment) where
  -- The peer of the connection sent a handshake that the configured store accepts now.
  pub record IsVerified (conn : K) (ctx : AuthContext N) (certs : List (Cert P N)) : Type 0 where
    pub auth : CarrierAuth P N H
    pub auth_configured : cfg.auth ≡ some auth
    pub stream : Bytes
    pub received : net.accept_stream conn ≡ some stream
    pub handshake : PeerHandshake P N
    pub read : read_auth_handshake k proto (net.tls conn) stream ≡ ok handshake
    pub accepted : verify_peer_cert k auth now.unix handshake ≡ ok ctx
    pub same_certs : handshake.certs ≡ certs

  wrapped-ok :
      {E A : Type 0} {a : A} (as_error : E → ConnectError) (r : Result E A)
      → wrapped as_error r ≡ ok a
      → r ≡ ok a
  wrapped-ok as_error (ok b) h = cc
  wrapped-ok as_error (err b) h = cc

  await_peer_auth-IsVerified :
      (conn : K) (ctx : AuthContext N) (certs : List (Cert P N))
      → await_peer_auth k proto net cfg now conn ≡ ok (ctx, certs)
      → IsVerified conn ctx certs
  unfolding await_peer_auth
  await_peer_auth-IsVerified conn ctx certs h =
      let (auth, configured, h₁) = >>=-eq-ok (or_fail cfg.auth _) _ h in
      let (stream, accepts, h₂) = >>=-eq-ok (or_fail (net.accept_stream conn) _) _ h₁ in
      let (hs, reads, h₃) =
        >>=-eq-ok (wrapped bad_handshake (read_auth_handshake k proto (net.tls conn) stream)) _
          h₂ in
      let (c, verifies, h₄) =
        >>=-eq-ok (wrapped not_verified (verify_peer_cert k auth now.unix hs)) _ h₃ in
      let same_ctx : c ≡ ctx = cc h₄ in
      record {
        auth = auth;
        auth_configured = or_fail-eq-ok _ _ configured;
        stream = stream;
        received = or_fail-eq-ok _ _ accepts;
        handshake = hs;
        read = wrapped-ok _ _ reads;
        accepted =
            subst (λ x. verify_peer_cert k auth now.unix hs ≡ ok x) same_ctx
              (wrapped-ok _ _ verifies);
        same_certs = cc h₄;
      }

  dialled-IsVerified :
      (ni : NodeIdentity P N) (conn : K) (ctx : AuthContext N) (certs : List (Cert P N))
      → dialled k proto net cfg now ni conn ≡ ok (ctx, certs)
      → IsVerified conn ctx certs
  unfolding dialled
  dialled-IsVerified ni conn ctx certs h =
      let (_, sent, h₁) = >>=-eq-ok (authenticate_to k proto net cfg now ni conn) _ h in
      await_peer_auth-IsVerified conn ctx certs h₁

module _ {P N H K M F : Type 0} ⦃e : Eq N⦄ (k : Keys P N) (is_zero : N → Bool) (proto : AuthCodec)
    (net : Network K) (cfg : AuthConfig P N H) (now : Moment) where
  -- The second carrier is the first with one verified peer registered.
  pub record Admits (c next : Carrier N (Cert P N) K M F) : Type 0 where
    pub conn : K
    pub ctx : AuthContext N
    pub certs : List (Cert P N)
    pub address : String
    pub verified : IsVerified k proto net cfg now conn ctx certs
    pub registered : register_peer is_zero c ctx conn certs (address ∷ []) now.ticks ≡ ok next

  register_as-Admits :
      (c next : Carrier N (Cert P N) K M F) (conn : K) (address : String) (ctx : AuthContext N)
      (certs : List (Cert P N))
      → IsVerified k proto net cfg now conn ctx certs
      → register_as k is_zero proto net cfg now c conn address (ctx, certs) ≡ ok next
      → Admits c next
  unfolding register_as
  register_as-Admits c next conn address ctx certs v h = record {
    conn = conn;
    ctx = ctx;
    certs = certs;
    address = address;
    verified = v;
    registered = wrapped-ok k proto net cfg now _ _ h;
  }

  -- The end of the three operations: the peer is registered, and the operation ends without a
  -- further change of the carrier.
  registered-cases :
      (c : Carrier N (Cert P N) K M F) (conn : K) (address : String) (ctx : AuthContext N)
      (certs : List (Cert P N)) (after : Carrier N (Cert P N) K M F → Option ConnectError)
      → IsVerified k proto net cfg now conn ctx certs
      → let out =
          or_refused c
            (register_as k is_zero proto net cfg now c conn address (ctx, certs))
            (λ next. (next, after next)) in
        (out.0 ≡ c) ⊎ Admits c out.0
  registered-cases c conn address ctx certs after v =
      go (register_as k is_zero proto net cfg now c conn address (ctx, certs)) refl
    where
      go :
          (r : Result ConnectError (Carrier N (Cert P N) K M F))
          → register_as k is_zero proto net cfg now c conn address (ctx, certs) ≡ r
          → let out = or_refused c r (λ next. (next, after next)) in (out.0 ≡ c) ⊎ Admits c out.0
      go (err bad) same = inl refl
      go (ok next) same = inr (register_as-Admits c next conn address ctx certs v same)

  -- However a peer comes to the carrier, and whatever the network does, either the carrier is
  -- unchanged or exactly one peer is registered: one whose handshake, read from the very connection
  -- that is registered, the configured store accepts at that moment.
  pub arrive-Admits :
      (c : Carrier N (Cert P N) K M F) (a : Arrival P N K)
      → ((arrive k is_zero proto net cfg now c a).0 ≡ c)
        ⊎ Admits c (arrive k is_zero proto net cfg now c a).0
  unfolding arrive handle_incoming_conn connect_node dial_bootstrap_addr
  arrive-Admits c (incoming conn) = elim (Result-cases (await_peer_auth k proto net cfg now conn)) [
    | inr (bad, failed) ↦ rw (failed, handle_incoming_conn) (inl refl)
    | inl ((ctx, certs), awaited) ↦
        rw (awaited, handle_incoming_conn)
          (registered-cases c conn (net.remote_addr conn) ctx certs _
            (await_peer_auth-IsVerified k proto net cfg now conn ctx certs awaited))
  ]
  arrive-Admits c (outgoing node) = elim (Option-cases cfg.node_identity) [
    | inl missing ↦ simp (missing, connect_node) (inl refl)
    | inr (ni, there) ↦ elim (Bool-cases cfg.has_transport) [
      | inr no_tp ↦ simp (there, no_tp, connect_node) (inl refl)
      | inl tp ↦ elim (Result-cases (dial_known_addresses net node)) [
        | inr (bad, failed) ↦ simp (there, tp, failed, connect_node) (inl refl)
        | inl ((conn, used), dials) ↦ elim (Result-cases (dialled k proto net cfg now ni conn)) [
          | inr (bad, failed) ↦ simp (there, tp, dials, failed, connect_node) (inl refl)
          | inl ((ctx, certs), awaited) ↦
              simp (there, tp, dials, awaited, connect_node)
                (registered-cases c conn used ctx certs _
                  (dialled-IsVerified k proto net cfg now ni conn ctx certs awaited))
        ]
      ]
    ]
  ]
  arrive-Admits c (bootstrap addr) = elim (Option-cases cfg.node_identity) [
    | inl missing ↦ simp (missing, dial_bootstrap_addr) (inl refl)
    | inr (ni, there) ↦ elim (Bool-cases cfg.has_transport) [
      | inr no_tp ↦ simp (there, no_tp, dial_bootstrap_addr) (inl refl)
      | inl tp ↦ elim (Option-cases (net.dial addr)) [
        | inl failed ↦ simp (there, tp, failed, dial_bootstrap_addr) (inl refl)
        | inr (conn, dials) ↦ elim (Result-cases (dialled k proto net cfg now ni conn)) [
          | inr (bad, failed) ↦ simp (there, tp, dials, failed, dial_bootstrap_addr) (inl refl)
          | inl ((ctx, certs), awaited) ↦ elim (Bool-cases (is_node_connected c ctx.node_id)) [
            | inl old ↦ simp (there, tp, dials, awaited, old, dial_bootstrap_addr) (inl refl)
            | inr new ↦
                simp (there, tp, dials, awaited, new, dial_bootstrap_addr)
                  (registered-cases c conn addr ctx certs _
                    (dialled-IsVerified k proto net cfg now ni conn ctx certs awaited))
          ]
        ]
      ]
    ]
  ]
