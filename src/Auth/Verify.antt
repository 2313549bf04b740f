-- ===== src/Auth/Verify.antt =====
-- internal/auth/carrier_auth_verify.go: the whole verification of a peer. The clock's reading is an
-- argument, `now_unix`; log lines are left out, and cloned byte slices are the slices.
pub mod Window
pub mod Sound
pub mod Scope
pub mod Complete
use ouroboros_db.Base.{
  ℕ, String, Bool, true, false, not, ◌||◌, List, [], ◌∷◌, Option, none, some, Result, ok, err,
  ◌>>=◌, ◌>>◌, or_fail, fail_if, Eq, eqb, ltb, ℤ, pos, ltb_ℤ, ◌-ℤ◌, wrap64, if◌then◌else◌, length,
  bytes_eq,
}
use ouroboros_db.Auth.Types.{
  Bytes, Keys, Error, CertSnapshot, DelegationProof, TlsBindings, EmbeddedCa, AuthContext, codes,
  scope_admin, scope_user, no_certs, bundle_too_large, signature_count_mismatch,
  nil_delegation_proof, invalid_delegation_sig, invalid_binding_field, tls_binding_mismatch,
  bundle_hash_mismatch, delegation_expired, delegation_too_long, max_peer_cert_bundle_size,
  binding_size, max_delegation_ttl,
}
use ouroboros_db.Auth.Canonical.{
  domain_separate, canonical_node_cert_bundle, canonical_delegation_proof,
  canonical_delegation_proof_for_exporter,
}
use ouroboros_db.Auth.Snapshot.{NodeCertLike, snapshot_certs}
use ouroboros_db.Auth.Store.{CarrierAuth}
use ouroboros_db.Auth.Chain.{TrustSnapshot, AuthResult, snap_trust_store, verify_chain}
use ouroboros_db.Auth.Embedded.{with_embedded_authorities}

abbrev pub ctx_node_delegation_v1 : Bytes
ctx_node_delegation_v1 = codes "OUROBOROS_NODE_DELEGATION_V1"

-- `none` is a nil certificate or proof. Each method of the proof is called once, by
-- `snapshotDelegation`, so the proof is the record of the answers.
pub record PeerHandshake (P N : Type 0) : Type 0 where
  pub certs : List (Option (NodeCertLike P N))
  pub ca_signatures : List Bytes
  pub authorities : List EmbeddedCa
  pub delegation_proof : Option DelegationProof
  pub delegation_sig : Bytes
  pub tls : TlsBindings

-- `subtle.ConstantTimeCompare` is 1 exactly when the slices are equal.
unfoldable pub secure_equal : Bytes → Bytes → Bool
secure_equal a b = if not (eqb (length a) (length b)) then false else bytes_eq a b

-- The values of the fields; every expected length is the same.
unfoldable pub validate_binding_fields : List Bytes → Result Error (Unit {0})
validate_binding_fields [] = ok tt
validate_binding_fields (value ∷ fields) = do
  fail_if (not (eqb (length value) binding_size)) invalid_binding_field
  validate_binding_fields fields

-- The fields in the order in which `VerifyPeerCert` lists them.
unfoldable pub binding_fields : DelegationProof → TlsBindings → List Bytes
binding_fields proof tls =
    proof.tls_cert_pub_key_hash ∷ proof.tls_exporter_binding ∷ proof.tls_transcript_hash
    ∷ proof.x509_fingerprint ∷ proof.node_cert_bundle_hash ∷ tls.cert_pub_key_hash
    ∷ tls.exporter_binding ∷ tls.x509_fingerprint ∷ tls.transcript_hash ∷ []

-- It hands on the proof, which is not nil.
unfoldable pub validate_handshake :
    {P N : Type 0} → PeerHandshake P N → Result Error DelegationProof
validate_handshake hs = do
  fail_if (eqb (length hs.certs) 0) no_certs
  fail_if (ltb max_peer_cert_bundle_size (length hs.certs)) bundle_too_large
  fail_if (not (eqb (length hs.ca_signatures) (length hs.certs))) signature_count_mismatch
  proof ← or_fail hs.delegation_proof nil_delegation_proof
  fail_if (eqb (length hs.delegation_sig) 0) invalid_delegation_sig
  ok proof

unfoldable pub derive_scope : {P N : Type 0} → AuthResult P N → AuthContext N
derive_scope result =
    if result.admin_valid
    then record {
      node_id = result.node_id;
      effective_scope = scope_admin;
      allowed_user_ca_owners = [];
      has_valid_admin_cert = result.admin_valid;
    }
    else record {
      node_id = result.node_id;
      effective_scope = scope_user;
      allowed_user_ca_owners = result.user_hashes;
      has_valid_admin_cert = result.admin_valid;
    }

-- The first test of `verifyFreshness`.
unfoldable pub is_outside : ℤ → ℤ → ℤ → Bool
is_outside not_before not_after now = ltb_ℤ now not_before || ltb_ℤ not_after now

-- The second test; the subtraction wraps around as int64 does.
unfoldable pub is_too_long : ℤ → ℤ → Bool
is_too_long not_before not_after =
    let ttl = wrap64 (not_after -ℤ not_before) in
    ltb_ℤ ttl (pos 0) || ltb_ℤ (pos max_delegation_ttl) ttl

module _ {P N : Type 0} (k : Keys P N) where
  unfoldable pub verify_bundle_hash :
      DelegationProof → List (CertSnapshot P N) → Result Error (Unit {0})
  verify_bundle_hash proof certs = do
    bundle_bytes ← canonical_node_cert_bundle k certs
    let computed = k.sha256 bundle_bytes
    fail_if (not (secure_equal proof.node_cert_bundle_hash computed)) bundle_hash_mismatch

  unfoldable pub verify_delegation :
      AuthResult P N
      → DelegationProof
      → Bytes
      → List (CertSnapshot P N)
      → Bytes
      → Bytes
      → Result Error (Unit {0})
  verify_delegation result proof sig certs tls_cert_pub_key_hash tls_x509_fingerprint = do
    canonical_data ← canonical_delegation_proof k proof
    let msg = domain_separate ctx_node_delegation_v1 canonical_data
    fail_if (not (k.verify result.node_pub_key msg sig)) invalid_delegation_sig
    fail_if (not (secure_equal proof.tls_cert_pub_key_hash tls_cert_pub_key_hash))
        tls_binding_mismatch
    fail_if (not (secure_equal proof.x509_fingerprint tls_x509_fingerprint)) tls_binding_mismatch
    verify_bundle_hash proof certs

  unfoldable pub verify_freshness : DelegationProof → Bytes → Bytes → ℤ → Result Error (Unit {0})
  verify_freshness proof tls_exporter_binding tls_transcript_hash now = do
    fail_if (is_outside proof.not_before proof.not_after now) delegation_expired
    fail_if (is_too_long proof.not_before proof.not_after) delegation_too_long
    exporter_ctx ← canonical_delegation_proof_for_exporter k proof
    fail_if (not (secure_equal proof.tls_exporter_binding tls_exporter_binding))
        tls_binding_mismatch
    fail_if (not (secure_equal proof.tls_transcript_hash tls_transcript_hash)) tls_binding_mismatch

  -- The store's copy, with the peer's authorities if it sent any.
  unfoldable pub trust_for :
      {H : Type 0} → CarrierAuth P N H → List EmbeddedCa → Result Error (TrustSnapshot P N)
  trust_for ca authorities = elim authorities [
    | [] ↦ ok (snap_trust_store ca)
    | a ∷ rest ↦ with_embedded_authorities k (snap_trust_store ca) (a ∷ rest)
  ]

  unfoldable pub verify_peer_cert :
      {H : Type 0}
      → ⦃e : Eq N⦄ → CarrierAuth P N H
      → ℤ
      → PeerHandshake P N
      → Result Error (AuthContext N)
  verify_peer_cert ca now_unix hs = do
    proof ← validate_handshake hs
    certs ← snapshot_certs k hs.certs
    ts ← trust_for ca hs.authorities
    result ← verify_chain k ts certs hs.ca_signatures now_unix
    validate_binding_fields (binding_fields proof hs.tls)
    verify_delegation result proof hs.delegation_sig certs hs.tls.cert_pub_key_hash
        hs.tls.x509_fingerprint
    verify_freshness proof hs.tls.exporter_binding hs.tls.transcript_hash now_unix
    ok (derive_scope result)
