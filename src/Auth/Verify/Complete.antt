-- ===== src/Auth/Verify/Complete.antt =====
-- When `VerifyPeerCert` must accept: each check of the protocol passes.
use ouroboros_db.Base.{◌≡◌, refl, true, List, [], ◌∷◌, ok, Eq, ℤ, IsInt64, All, arith, length}
use ouroboros_db.Auth.Types.{Bytes, Keys, CertSnapshot, DelegationProof, scope_admin, binding_size}
use ouroboros_db.Auth.Canonical.{canonical_delegation_proof_for_exporter}
use ouroboros_db.Auth.Snapshot.{snapshot_certs}
use ouroboros_db.Auth.Store.{CarrierAuth}
use ouroboros_db.Auth.Chain.{TrustSnapshot, AuthResult, verify_chain}
use ouroboros_db.Auth.Verify.Window.{IsFresh, verify_freshness_iff, secure_equal_iff}
use ouroboros_db.Auth.Verify.Sound.{IsWellShaped, IsDelegated}
use ouroboros_db.Auth.Verify.{
  PeerHandshake, validate_handshake, validate_binding_fields, binding_fields, verify_delegation,
  verify_bundle_hash, trust_for, derive_scope, verify_peer_cert,
}

module _ {P N : Type 0} (k : Keys P N) where
  validate_handshake-ok :
      (hs : PeerHandshake P N) (proof : DelegationProof)
      → IsWellShaped k hs proof
      → validate_handshake hs ≡ ok proof
  unfolding validate_handshake
  validate_handshake-ok hs proof s =
      ground (arith, s.some_cert, s.certs_capped, s.one_sig_each, s.proof_there, s.sig_there)

  validate_binding_fields-ok :
      (fields : List Bytes)
      → All (λ value. length value ≡ binding_size) fields
      → validate_binding_fields fields ≡ ok tt
  unfolding validate_binding_fields
  validate_binding_fields-ok [] sized = refl
  validate_binding_fields-ok (value ∷ fields) sized =
      ground (arith, validate_binding_fields-ok fields sized.1, sized.0)

  verify_delegation-ok :
      (result : AuthResult P N) (proof : DelegationProof) (sig : Bytes)
      (certs : List (CertSnapshot P N)) (key_hash fingerprint : Bytes)
      → IsDelegated k result proof sig certs key_hash fingerprint
      → verify_delegation k result proof sig certs key_hash fingerprint ≡ ok tt
  unfolding verify_delegation verify_bundle_hash
  verify_delegation-ok result proof sig certs key_hash fingerprint d =
      rw
        (
          d.encoded,
          d.signed,
          (secure_equal_iff _ _).1 d.same_key_hash,
          (secure_equal_iff _ _).1 d.same_fingerprint,
          d.bundle_encoded,
          (secure_equal_iff _ _).1 d.same_bundle,
        )
        refl

pub derive_scope-admin :
    {P N : Type 0} (r : AuthResult P N)
    → r.admin_valid ≡ true
    → (derive_scope r).effective_scope ≡ scope_admin
unfolding derive_scope
derive_scope-admin r h = rw h refl

module _ {P N H : Type 0} ⦃e : Eq N⦄ (k : Keys P N) (ca : CarrierAuth P N H) (now : ℤ)
    (hs : PeerHandshake P N) where
  -- A handshake is accepted, with the scope that its chain result gives, if its shape is valid,
  -- its certificates freeze, its authorities are taken, its chain verifies, its fields have their
  -- size, its delegation holds and is fresh; the delegation's times are int64.
  pub verify_peer_cert_complete :
      (proof : DelegationProof) (certs : List (CertSnapshot P N)) (ts : TrustSnapshot P N)
      (result : AuthResult P N) (ctx : Bytes)
      → IsWellShaped k hs proof
      → snapshot_certs k hs.certs ≡ ok certs
      → trust_for k ca hs.authorities ≡ ok ts
      → verify_chain k ts certs hs.ca_signatures now ≡ ok result
      → All (λ value. length value ≡ binding_size) (binding_fields proof hs.tls)
      → IsDelegated k result proof hs.delegation_sig certs hs.tls.cert_pub_key_hash
          hs.tls.x509_fingerprint
      → IsInt64 proof.not_before
      → IsInt64 proof.not_after
      → canonical_delegation_proof_for_exporter k proof ≡ ok ctx
      → IsFresh k proof hs.tls.exporter_binding hs.tls.transcript_hash now
      → verify_peer_cert k ca now hs ≡ ok (derive_scope result)
  unfolding verify_peer_cert
  verify_peer_cert_complete proof certs ts result ctx shape frozen trusted chain sized delegated
        begins ends encoded fresh =
      rw
        (
          validate_handshake-ok k hs proof shape,
          frozen,
          trusted,
          chain,
          validate_binding_fields-ok k (binding_fields proof hs.tls) sized,
          verify_delegation-ok k result proof hs.delegation_sig certs hs.tls.cert_pub_key_hash
              hs.tls.x509_fingerprint delegated,
          (verify_freshness_iff k proof hs.tls.exporter_binding hs.tls.transcript_hash now begins
                ends encoded).1
              fresh,
        )
        refl
