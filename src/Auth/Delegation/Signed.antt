-- ===== src/Auth/Delegation/Signed.antt =====
-- What `SignDelegation` hands to the node.
use ouroboros_db.Base.{
  ◌≡◌, refl, List, [], none, some, ok, or_fail, ℤ, pos, negsuc, ◌+ℤ◌, ◌-ℤ◌, ◌≤ℤ◌, wrap64, IsInt64,
  arith, >>=-eq-ok, or_fail-eq-ok, subst,
}
use ouroboros_db.Auth.Types.{
  Bytes, Keys, CertSnapshot, DelegationProof, binding_size, max_delegation_ttl,
}
use ouroboros_db.Auth.Canonical.{
  domain_separate, canonical_node_cert_bundle, canonical_delegation_proof,
  canonical_delegation_proof_for_exporter,
}
use ouroboros_db.Auth.Verify.{ctx_node_delegation_v1}
use ouroboros_db.Auth.Delegation.{
  NodeKey, Session, Exporter, exporter_label, transcript_binding_label, delegation_proof,
  sign_delegation,
}

module _ {P N : Type 0} (k : Keys P N) (key : NodeKey P) (certs : List (CertSnapshot P N))
    (session : Session) (export : Exporter) (now : ℤ) where
  -- The proof is bound to the session, to the certificates and to the connection's two exported
  -- values, and the signature is the key's over its canonical bytes.
  pub record IsSigned (proof : DelegationProof) (sig : Bytes) : Type 0 where
    pub bundle : Bytes
    pub bundle_encoded : canonical_node_cert_bundle k certs ≡ ok bundle
    pub transcript : Bytes
    pub transcript_exported : export transcript_binding_label none binding_size ≡ some transcript
    pub exporter_ctx : Bytes
    pub ctx_encoded : canonical_delegation_proof_for_exporter k proof ≡ ok exporter_ctx
    pub exporter : Bytes
    pub exporter_exported : export exporter_label (some exporter_ctx) binding_size ≡ some exporter
    pub same_proof : delegation_proof session exporter transcript (k.sha256 bundle) now ≡ proof
    pub canonical : Bytes
    pub encoded : canonical_delegation_proof k proof ≡ ok canonical
    pub signed : key.sign (domain_separate ctx_node_delegation_v1 canonical) ≡ some sig

  pub sign_delegation-IsSigned :
      (proof : DelegationProof) (sig : Bytes)
      → sign_delegation k key certs session export now ≡ ok (proof, sig)
      → IsSigned proof sig
  unfolding sign_delegation delegation_proof canonical_delegation_proof_for_exporter
  sign_delegation-IsSigned proof sig h =
      let (bundle, bundled, h₁) = >>=-eq-ok (canonical_node_cert_bundle k certs) _ h in
      let (transcript, t, h₂) =
        >>=-eq-ok (or_fail (export transcript_binding_label none binding_size) _) _ h₁ in
      let (c, encoded, h₃) =
        >>=-eq-ok
          (canonical_delegation_proof_for_exporter k
            (delegation_proof session [] transcript (k.sha256 bundle) now))
          _ h₂ in
      let (exporter, x, h₄) =
        >>=-eq-ok (or_fail (export exporter_label (some c) binding_size) _) _ h₃ in
      let (canon, canonical, h₅) =
        >>=-eq-ok
          (canonical_delegation_proof k
            (delegation_proof session exporter transcript (k.sha256 bundle) now))
          _ h₄ in
      let (s, signs, h₆) =
        >>=-eq-ok (or_fail (key.sign (domain_separate ctx_node_delegation_v1 canon)) _) _ h₅ in
      let both : (delegation_proof session exporter transcript (k.sha256 bundle) now, s)
          ≡ (proof, sig) =
        cc h₆ in
      subst (λ (q : DelegationProof × Bytes). IsSigned q.0 q.1) both
        (record {
          bundle = bundle;
          bundle_encoded = bundled;
          transcript = transcript;
          transcript_exported = or_fail-eq-ok _ _ t;
          exporter_ctx = c;
          ctx_encoded = encoded;
          exporter = exporter;
          exporter_exported = or_fail-eq-ok _ _ x;
          same_proof = refl;
          canonical = canon;
          encoded = canonical;
          signed = or_fail-eq-ok _ _ signs;
        })

-- The end of the window is an int64 while the clock is far from the end of its range.
wrap64_int64 : (z : ℤ) → IsInt64 z → wrap64 z ≡ z
wrap64_int64 (pos n) h = ground arith
wrap64_int64 (negsuc n) h = ground arith

pub proof_window :
    (session : Session) (exporter transcript bundle : Bytes) (now : ℤ)
    → IsInt64 (now +ℤ pos max_delegation_ttl)
    → (delegation_proof session exporter transcript bundle now).not_after
      ≡ now +ℤ pos max_delegation_ttl
unfolding delegation_proof
proof_window session exporter transcript bundle now h = wrap64_int64 _ h

-- The window that a signed proof has.
pub window_open :
    (start now end : ℤ)
    → end ≡ start +ℤ pos max_delegation_ttl
    → start ≤ℤ now
    → now ≤ℤ start +ℤ pos max_delegation_ttl
    → (now ≤ℤ end) × (end -ℤ start ≤ℤ pos max_delegation_ttl)
window_open (pos s) now end same begun unended = ground arith
window_open (negsuc s) now end same begun unended = ground arith
