-- ===== src/Auth/Delegation.antt =====
-- internal/auth/delegation, cert/node_cert.go and cert/node_identity.go: the prover's side of the
-- authentication. The node's key pair (`keys.AsyncCrypt`) and the TLS exporter are outside the
-- repository; the clock's reading and a fresh session are arguments. The certificates of a node
-- are `NodeCertImpl` values, whose methods always answer the same.
pub mod Signed
pub mod Ready
pub mod Accepted
use ouroboros_db.Base.{
  ℕ, String, not, List, [], ◌∷◌, Option, none, some, Result, ok, err, ◌>>=◌, ◌>>◌, or_fail, fail_if,
  eqb, ℤ, pos, ◌+ℤ◌, wrap64, length,
}
use ouroboros_db.Auth.Types.{
  Bytes, Keys, CertSnapshot, DelegationProof, EmbeddedCa, Error, external, default_cert_version,
  binding_size, max_delegation_ttl,
}
use ouroboros_db.Auth.Canonical.{
  domain_separate, canonical_node_cert_bundle, canonical_delegation_proof,
  canonical_delegation_proof_for_exporter,
}
use ouroboros_db.Auth.Snapshot.{NodeCertLike}
use ouroboros_db.Auth.Verify.{ctx_node_delegation_v1}

abbrev pub exporter_label : String
exporter_label = "EXPORTER_OUROBOROS_NODE_DELEGATION_V1"

abbrev pub transcript_binding_label : String
transcript_binding_label = "EXPORTER_OUROBOROS_TRANSCRIPT_BINDING_V1"

-- `ExporterFunc`: the label, the context (`none` is nil) and the length.
abbrev pub Exporter : Type 0
Exporter = String → Option Bytes → ℕ → Option Bytes

-- `keys.AsyncCrypt`.
pub record NodeKey (P : Type 0) : Type 0 where
  pub pub_key : P
  pub sign : Bytes → Option Bytes

-- The two hashes of `SessionIdentity`; its TLS certificate is for the TLS library.
pub record Session : Type 0 where
  pub cert_pub_key_hash : Bytes
  pub x509_fingerprint : Bytes

pub record NodeIdentity (P N : Type 0) : Type 0 where
  pub key : NodeKey P
  pub session : Session
  pub certs : List (CertSnapshot P N)
  pub ca_sigs : List Bytes
  pub authorities : List EmbeddedCa
  pub node_id : N

pub data IdentityError : Type 0 where
  no_node_cert cert_sig_mismatch no_session : IdentityError

-- The methods of `NodeCertImpl`.
unfoldable pub as_cert_like : {P N : Type 0} → CertSnapshot P N → NodeCertLike P N
as_cert_like c = record {
  cert_version = λ n. c.cert_version;
  node_pub_key = λ n. c.node_pub_key;
  issuer_ca_hash = λ n. c.issuer_ca_hash;
  valid_from = λ n. c.valid_from;
  valid_until = λ n. c.valid_until;
  serial = λ n. c.serial;
  cert_nonce = λ n. c.cert_nonce;
  node_id = λ n. c.node_id;
}

-- A new session is made after the checks.
unfoldable pub new_node_identity :
    {P N : Type 0}
    → NodeKey P
    → List (CertSnapshot P N)
    → List Bytes
    → List EmbeddedCa
    → Option Session
    → Result IdentityError (NodeIdentity P N)
new_node_identity key [] ca_sigs authorities session = err no_node_cert
new_node_identity key (c ∷ certs) ca_sigs authorities session = do
  fail_if (not (eqb (length ca_sigs) (length (c ∷ certs)))) cert_sig_mismatch
  s ← or_fail session no_session
  ok (record {
    key = key;
    session = s;
    certs = c ∷ certs;
    ca_sigs = ca_sigs;
    authorities = authorities;
    node_id = c.node_id;
  })

unfoldable pub rotate_session :
    {P N : Type 0} → NodeIdentity P N → Option Session → Result IdentityError (NodeIdentity P N)
rotate_session ni session = do s ← or_fail session no_session; ok (record ni { session = s })

-- The arguments of `NewDelegationProof` but for the exporter's value, which is nil at first.
unfoldable pub delegation_proof : Session → Bytes → Bytes → Bytes → ℤ → DelegationProof
delegation_proof session exporter transcript_hash bundle_hash now = record {
  tls_cert_pub_key_hash = session.cert_pub_key_hash;
  tls_exporter_binding = exporter;
  tls_transcript_hash = transcript_hash;
  x509_fingerprint = session.x509_fingerprint;
  node_cert_bundle_hash = bundle_hash;
  not_before = now;
  not_after = wrap64 (now +ℤ pos max_delegation_ttl);
}

module _ {P N : Type 0} (k : Keys P N) where
  unfoldable pub new_node_cert :
      P → String → ℤ → ℤ → Bytes → Bytes → Result Error (CertSnapshot P N)
  new_node_cert pub_key issuer_ca_hash valid_from valid_until serial cert_nonce = do
    nid ← or_fail (k.node_id pub_key) external
    ok (record {
      cert_version = default_cert_version;
      node_pub_key = pub_key;
      issuer_ca_hash = issuer_ca_hash;
      valid_from = valid_from;
      valid_until = valid_until;
      serial = serial;
      cert_nonce = cert_nonce;
      node_id = nid;
    })

  unfoldable pub sign_delegation :
      NodeKey P
      → List (CertSnapshot P N)
      → Session
      → Exporter
      → ℤ
      → Result Error (DelegationProof × Bytes)
  sign_delegation node_key certs session exporter_fn now = do
    bundle_bytes ← canonical_node_cert_bundle k certs
    let bundle_hash = k.sha256 bundle_bytes
    transcript_hash ← or_fail (exporter_fn transcript_binding_label none binding_size) external
    let proof_no_exp = delegation_proof session [] transcript_hash bundle_hash now
    exp_ctx ← canonical_delegation_proof_for_exporter k proof_no_exp
    exporter ← or_fail (exporter_fn exporter_label (some exp_ctx) binding_size) external
    let proof = delegation_proof session exporter transcript_hash bundle_hash now
    canon ← canonical_delegation_proof k proof
    let msg = domain_separate ctx_node_delegation_v1 canon
    sig ← or_fail (node_key.sign msg) external
    ok (proof, sig)
