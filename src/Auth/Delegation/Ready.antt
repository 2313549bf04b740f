-- ===== src/Auth/Delegation/Ready.antt =====
-- What a node has to have to authenticate itself.
use ouroboros_db.Base.{
  ◌<◌, ◌≤◌, ◌≡◌, refl, sym, ap, ◌∙◌, List, [], ◌∷◌, some, ok, Eq, ==_refl, All, arith, length, map,
  subst, fail_if, fail_if-eq-ok, or_fail, >>=-eq-ok, not, eqb, Option,
}
use ouroboros_db.Auth.Types.{
  Bytes, Keys, CertSnapshot, EmbeddedCa, max_peer_cert_bundle_size, default_cert_version,
}
use ouroboros_db.Auth.Snapshot.{snapshot_cert, snapshot_certs}
use ouroboros_db.Auth.Delegation.{NodeKey, Session, NodeIdentity, as_cert_like, new_node_identity}

module _ {P N : Type 0} (k : Keys P N) where
  -- A certificate as `NewNodeCert` makes it for the key.
  pub record IsOwnCert (key : NodeKey P) (nid : N) (c : CertSnapshot P N) : Type 0 where
    pub version : c.cert_version ≡ default_cert_version
    pub own_key : c.node_pub_key ≡ key.pub_key
    pub own_id : c.node_id ≡ nid

  -- What a node needs to authenticate itself: at most 1024 certificates for its key, each with a
  -- signature.
  pub record IsReady (ni : NodeIdentity P N) : Type 0 where
    pub derived : k.node_id ni.key.pub_key ≡ some ni.node_id
    pub some_cert : 0 < length ni.certs
    pub certs_capped : length ni.certs ≤ max_peer_cert_bundle_size
    pub one_sig_each : length ni.ca_sigs ≡ length ni.certs
    pub own : All (IsOwnCert ni.key ni.node_id) ni.certs

  -- A node identity that is made of at most 1024 certificates for its key is ready to authenticate,
  -- under the NodeID that the key derives.
  pub new_node_identity-IsReady :
      (key : NodeKey P) (nid : N) (certs : List (CertSnapshot P N)) (ca_sigs : List Bytes)
      (authorities : List EmbeddedCa) (session : Option Session) (ni : NodeIdentity P N)
      → k.node_id key.pub_key ≡ some nid
      → length certs ≤ max_peer_cert_bundle_size
      → All (IsOwnCert key nid) certs
      → new_node_identity key certs ca_sigs authorities session ≡ ok ni
      → IsReady ni × (ni.node_id ≡ nid)
  unfolding new_node_identity
  new_node_identity-IsReady key nid [] ca_sigs authorities session ni derived capped own h = cc
  new_node_identity-IsReady key nid (c ∷ certs) ca_sigs authorities session ni derived capped own
        h =
      let (_, counted, h₁) =
        >>=-eq-ok (fail_if (not (eqb (length ca_sigs) (length (c ∷ certs)))) _) _ h in
      let (s, made, h₂) = >>=-eq-ok (or_fail session _) _ h₁ in
      let same_id = own.0.own_id in
      subst (λ (i : NodeIdentity P N). IsReady i × (i.node_id ≡ nid))
        {x = record {
          key = key;
          session = s;
          certs = c ∷ certs;
          ca_sigs = ca_sigs;
          authorities = authorities;
          node_id = c.node_id;
        }}
        (cc h₂)
        (
          record {
            derived = derived ∙ ap some (sym same_id);
            some_cert = omega arith;
            certs_capped = capped;
            one_sig_each = ground (arith, fail_if-eq-ok _ _ counted);
            own = subst (λ n. All (IsOwnCert key n) (c ∷ certs)) (sym same_id) own;
          },
          same_id,
        )

module _ {P N : Type 0} ⦃e : Eq N⦄ (k : Keys P N) where
  -- Freezing a node's own certificates gives them back.
  pub snapshot_certs-own :
      (key : NodeKey P) (nid : N) (certs : List (CertSnapshot P N))
      → k.node_id key.pub_key ≡ some nid
      → All (IsOwnCert k key nid) certs
      → snapshot_certs k (map (λ c. some (as_cert_like c)) certs) ≡ ok certs
  unfolding snapshot_certs snapshot_cert as_cert_like
  snapshot_certs-own key nid [] derived own = refl
  snapshot_certs-own key nid (c ∷ certs) derived own =
      let here : k.node_id c.node_pub_key ≡ some c.node_id =
        ap k.node_id own.0.own_key ∙ derived ∙ ap some (sym own.0.own_id) in
      rw (own.0.version, here, ==_refl c.node_id, snapshot_certs-own key nid certs derived own.1)
        refl
