-- ===== src/Auth/Verify/Sound.antt =====
-- What a peer that `VerifyPeerCert` accepts has shown.
use ouroboros_db.Base.{
  ◌<◌, ◌≤◌, ◌≡◌, true, List, [], ◌∷◌, none, some, ok, Eq, ℤ, IsInt64, All, arith, length,
  Result-cases, inl, inr, >>=-eq-ok, subst,
}
use ouroboros_db.Auth.Types.{
  Bytes, Keys, CertSnapshot, DelegationProof, AuthContext, EmbeddedCa, max_peer_cert_bundle_size,
  binding_size,
}
use ouroboros_db.Auth.Canonical.{
  domain_separate, canonical_node_cert_bundle, canonical_delegation_proof,
}
use ouroboros_db.Auth.Snapshot.{snapshot_certs}
use ouroboros_db.Auth.Store.{CarrierAuth}
use ouroboros_db.Auth.Chain.{TrustSnapshot, AuthResult, snap_trust_store, verify_chain}
use ouroboros_db.Auth.Chain.Sound.{AuthBacked, verify_chain-AuthBacked}
use ouroboros_db.Auth.Embedded.Trust.{Extends, Extends-refl, with_embedded_authorities-Extends}
use ouroboros_db.Auth.Verify.Window.{IsFresh, verify_freshness-IsFresh, secure_equal_iff}
use ouroboros_db.Auth.Verify.{
  PeerHandshake, validate_handshake, validate_binding_fields, binding_fields, verify_delegation,
  verify_bundle_hash, verify_freshness, trust_for, derive_scope, verify_peer_cert,
  ctx_node_delegation_v1,
}

-- The proof's times are int64 values, as its Go type has it.
abbrev pub HasInt64Times : {P N : Type 0} → PeerHandshake P N → Type 0
HasInt64Times hs = elim hs.delegation_proof [
  | none ↦ Unit
  | some proof ↦ IsInt64 proof.not_before × IsInt64 proof.not_after
]

module _ {P N : Type 0} (k : Keys P N) (hs : PeerHandshake P N) where
  pub record IsWellShaped (proof : DelegationProof) : Type 0 where
    pub some_cert : 0 < length hs.certs
    pub certs_capped : length hs.certs ≤ max_peer_cert_bundle_size
    pub one_sig_each : length hs.ca_signatures ≡ length hs.certs
    pub proof_there : hs.delegation_proof ≡ some proof
    pub sig_there : 0 < length hs.delegation_sig

  validate_handshake-IsWellShaped :
      (proof : DelegationProof) → validate_handshake hs ≡ ok proof → IsWellShaped proof
  unfolding validate_handshake
  validate_handshake-IsWellShaped proof h = ground arith

sized :
    (fields : List Bytes)
    → validate_binding_fields fields ≡ ok tt
    → All (λ value. length value ≡ binding_size) fields
unfolding validate_binding_fields
sized [] h = tt
sized (value ∷ fields) h = ground (arith, sized fields)

module _ {P N : Type 0} (k : Keys P N) where
  -- The proof is signed by the node's key and bound to the TLS session and to the bundle.
  pub record IsDelegated (result : AuthResult P N) (proof : DelegationProof) (sig : Bytes)
      (certs : List (CertSnapshot P N)) (key_hash fingerprint : Bytes) : Type 0 where
    pub canonical : Bytes
    pub encoded : canonical_delegation_proof k proof ≡ ok canonical
    pub signed :
        k.verify result.node_pub_key (domain_separate ctx_node_delegation_v1 canonical) sig ≡ true
    pub same_key_hash : proof.tls_cert_pub_key_hash ≡ key_hash
    pub same_fingerprint : proof.x509_fingerprint ≡ fingerprint
    pub bundle : Bytes
    pub bundle_encoded : canonical_node_cert_bundle k certs ≡ ok bundle
    pub same_bundle : proof.node_cert_bundle_hash ≡ k.sha256 bundle

  verify_delegation-IsDelegated :
      (result : AuthResult P N) (proof : DelegationProof) (sig : Bytes)
      (certs : List (CertSnapshot P N)) (key_hash fingerprint : Bytes)
      → verify_delegation k result proof sig certs key_hash fingerprint ≡ ok tt
      → IsDelegated result proof sig certs key_hash fingerprint
  unfolding verify_delegation verify_bundle_hash
  verify_delegation-IsDelegated result proof sig certs key_hash fingerprint h =
      elim (Result-cases (canonical_delegation_proof k proof)) [
        | inr (bad, enc) ↦ absurd (ground arith)
        | inl (canonical, enc) ↦ elim (Result-cases (canonical_node_cert_bundle k certs)) [
          | inr (bad, bundle_enc) ↦ absurd (ground arith)
          | inl (bundle, bundle_enc) ↦ record {
            canonical = canonical;
            encoded = enc;
            signed = ground arith;
            same_key_hash = (secure_equal_iff _ _).0 (ground arith);
            same_fingerprint = (secure_equal_iff _ _).0 (ground arith);
            bundle = bundle;
            bundle_encoded = bundle_enc;
            same_bundle = (secure_equal_iff _ _).0 (ground arith);
          }
        ]
      ]

  trust_for-Extends :
      {H : Type 0} (ca : CarrierAuth P N H) (authorities : List EmbeddedCa) (ts : TrustSnapshot P N)
      → trust_for k ca authorities ≡ ok ts
      → Extends k (snap_trust_store ca) ts
  unfolding trust_for
  trust_for-Extends ca [] ts h =
      subst (Extends k (snap_trust_store ca)) (ground arith) (Extends-refl k _)
  trust_for-Extends ca (a ∷ as') ts h = with_embedded_authorities-Extends k _ ts (a ∷ as') h

module _ {P N H : Type 0} ⦃e : Eq N⦄ (k : Keys P N) (ca : CarrierAuth P N H) (now : ℤ)
    (hs : PeerHandshake P N) where
  -- Everything that the five checks of the protocol establish of an accepted peer.
  pub record IsAuthenticated (ctx : AuthContext N) : Type 0 where
    pub proof : DelegationProof
    pub well_shaped : IsWellShaped k hs proof
    pub certs : List (CertSnapshot P N)
    pub frozen : snapshot_certs k hs.certs ≡ ok certs
    pub trust : TrustSnapshot P N
    pub trust_extends : Extends k (snap_trust_store ca) trust
    pub result : AuthResult P N
    pub backed : AuthBacked k trust now certs hs.ca_signatures result
    pub fields_sized : All (λ value. length value ≡ binding_size) (binding_fields proof hs.tls)
    pub delegated :
        IsDelegated k result proof hs.delegation_sig certs hs.tls.cert_pub_key_hash
          hs.tls.x509_fingerprint
    pub fresh : IsFresh k proof hs.tls.exporter_binding hs.tls.transcript_hash now
    pub scoped : derive_scope result ≡ ctx

  -- A handshake with int64 delegation times is accepted only if it is well formed, the chain
  -- verification holds against the store and the anchored authorities that the peer sent, the
  -- delegation is signed by the node's key and bound to this TLS session and to the bundle, and it
  -- is fresh.
  pub verify_peer_cert-IsAuthenticated :
      (ctx : AuthContext N)
      → HasInt64Times hs
      → verify_peer_cert k ca now hs ≡ ok ctx
      → IsAuthenticated ctx
  unfolding verify_peer_cert
  verify_peer_cert-IsAuthenticated ctx times h =
      let (proof, valid, h₁) = >>=-eq-ok (validate_handshake hs) _ h in
      let (certs, frozen, h₂) = >>=-eq-ok (snapshot_certs k hs.certs) _ h₁ in
      let (ts, trusted, h₃) = >>=-eq-ok (trust_for k ca hs.authorities) _ h₂ in
      let (result, chain, h₄) = >>=-eq-ok (verify_chain k ts certs hs.ca_signatures now) _ h₃ in
      let (_, sizes, h₅) = >>=-eq-ok (validate_binding_fields (binding_fields proof hs.tls)) _ h₄ in
      let (_, delegation, h₆) =
        >>=-eq-ok
          (verify_delegation k result proof hs.delegation_sig certs hs.tls.cert_pub_key_hash
            hs.tls.x509_fingerprint)
          _ h₅ in
      let (_, freshness, h₇) =
        >>=-eq-ok (verify_freshness k proof hs.tls.exporter_binding hs.tls.transcript_hash now) _
          h₆ in
      let shape = validate_handshake-IsWellShaped k hs proof valid in
      let (begins, ends) = int64_times proof shape.proof_there in
      record {
        proof = proof;
        well_shaped = shape;
        certs = certs;
        frozen = frozen;
        trust = ts;
        trust_extends = trust_for-Extends k ca hs.authorities ts trusted;
        result = result;
        backed = verify_chain-AuthBacked k ts now certs hs.ca_signatures result chain;
        fields_sized = sized (binding_fields proof hs.tls) sizes;
        delegated = verify_delegation-IsDelegated k result proof _ certs _ _ delegation;
        fresh = verify_freshness-IsFresh k proof _ _ now begins ends freshness;
        scoped = ground arith;
      }
    where
      int64_times :
          (proof : DelegationProof)
          → hs.delegation_proof ≡ some proof
          → IsInt64 proof.not_before × IsInt64 proof.not_after
      int64_times proof there =
          subst (λ o. elim o [ none ↦ Unit | some p ↦ IsInt64 p.not_before × IsInt64 p.not_after ])
            there times
