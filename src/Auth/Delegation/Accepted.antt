-- ===== src/Auth/Delegation/Accepted.antt =====
-- A node that signs a delegation with its own key for its own certificates is accepted by a peer
-- whose store trusts one of them.
use ouroboros_db.Base.{
  ℕ, String, ◌<◌, ◌≡◌, refl, sym, ap, ◌∙◌, true, some, ok, Eq, ℤ, pos, ◌+ℤ◌, ◌≤ℤ◌, IsInt64, All,
  All-map, arith, length-map, ◌-ℤ◌, length, get_elem?, map, subst, Option,
}
use ouroboros_db.Auth.Types.{
  Bytes, Keys, CertSnapshot, DelegationProof, AuthContext, TlsBindings, scope_admin,
  max_delegation_ttl, binding_size,
}
use ouroboros_db.Auth.Canonical.{domain_separate}
use ouroboros_db.Auth.Store.{CarrierAuth}
use ouroboros_db.Auth.Chain.{
  TrustSnapshot, IssuerType, issuer_admin, is_cert_valid, verify_single_cert,
}
use ouroboros_db.Auth.Chain.Complete.{verify_chain_complete}
use ouroboros_db.Auth.Verify.Scope.{derive_scope_node}
use ouroboros_db.Auth.Verify.Window.{IsFresh}
use ouroboros_db.Auth.Verify.Complete.{verify_peer_cert_complete, derive_scope-admin}
use ouroboros_db.Auth.Verify.{
  PeerHandshake, ctx_node_delegation_v1, trust_for, derive_scope, verify_peer_cert, binding_fields,
}
use ouroboros_db.Auth.Delegation.{
  NodeIdentity, Exporter, as_cert_like, sign_delegation, delegation_proof,
}
use ouroboros_db.Auth.Delegation.Signed.{
  IsSigned, sign_delegation-IsSigned, proof_window, window_open,
}
use ouroboros_db.Auth.Delegation.Ready.{IsOwnCert, IsReady, snapshot_certs-own}

-- The handshake that a verifier reads from a node's message over a connection with the bindings.
abbrev pub presented :
    {P N : Type 0} → NodeIdentity P N → DelegationProof → Bytes → TlsBindings → PeerHandshake P N
presented ni proof sig tls = record {
  certs = map (λ c. some (as_cert_like c)) ni.certs;
  ca_signatures = ni.ca_sigs;
  authorities = ni.authorities;
  delegation_proof = some proof;
  delegation_sig = sig;
  tls = tls;
}

-- The verifier's bindings of the connection, when both ends export the same values.
abbrev pub BoundTo : DelegationProof → TlsBindings → Type 0
BoundTo proof tls =
    (tls.cert_pub_key_hash ≡ proof.tls_cert_pub_key_hash)
    × (tls.x509_fingerprint ≡ proof.x509_fingerprint)
    × (tls.transcript_hash ≡ proof.tls_transcript_hash)
    × (tls.exporter_binding ≡ proof.tls_exporter_binding)

module _ {P N : Type 0} ⦃e : Eq N⦄ (k : Keys P N) (ni : NodeIdentity P N) (export : Exporter)
    (start now : ℤ) (ready : IsReady k ni)
    (verifies : (msg sig : Bytes)
      → ni.key.sign msg ≡ some sig
      → (0 < length sig) × (k.verify ni.key.pub_key msg sig ≡ true))
    (hash_sized : (b : Bytes) → length (k.sha256 b) ≡ binding_size)
    (export_sized : (label : String) (ctx : Option Bytes) (value : Bytes)
      → export label ctx binding_size ≡ some value
      → length value ≡ binding_size)
    (key_hash_sized : length ni.session.cert_pub_key_hash ≡ binding_size)
    (fingerprint_sized : length ni.session.x509_fingerprint ≡ binding_size)
    (starts_int64 : IsInt64 start) (ends_int64 : IsInt64 (start +ℤ pos max_delegation_ttl))
    (begun : start ≤ℤ now) (not_over : now ≤ℤ start +ℤ pos max_delegation_ttl) where
  proof_sized :
      (proof : DelegationProof) (sig : Bytes)
      → IsSigned k ni.key ni.certs ni.session export start proof sig
      → (length proof.tls_cert_pub_key_hash ≡ binding_size)
        × (length proof.tls_exporter_binding ≡ binding_size)
        × (length proof.tls_transcript_hash ≡ binding_size)
        × (length proof.x509_fingerprint ≡ binding_size)
        × (length proof.node_cert_bundle_hash ≡ binding_size)
  unfolding delegation_proof
  proof_sized proof sig s =
      subst
        (λ (p : DelegationProof).
          (length p.tls_cert_pub_key_hash ≡ binding_size)
          × (length p.tls_exporter_binding ≡ binding_size)
          × (length p.tls_transcript_hash ≡ binding_size)
          × (length p.x509_fingerprint ≡ binding_size)
          × (length p.node_cert_bundle_hash ≡ binding_size))
        s.same_proof
        (
          key_hash_sized,
          export_sized _ _ _ s.exporter_exported,
          export_sized _ _ _ s.transcript_exported,
          fingerprint_sized,
          hash_sized s.bundle,
        )

  fields_sized :
      (proof : DelegationProof) (sig : Bytes) (tls : TlsBindings)
      → IsSigned k ni.key ni.certs ni.session export start proof sig
      → BoundTo proof tls
      → All (λ value. length value ≡ binding_size) (binding_fields proof tls)
  unfolding binding_fields
  fields_sized proof sig tls s (b₀, b₁, b₂, b₃) =
      let (p₀, p₁, p₂, p₃, p₄) = proof_sized proof sig s in
      (
        p₀,
        (
          p₁,
          (
            p₂,
            (
              p₃,
              (
                p₄,
                (
                  ap length b₀ ∙ p₀,
                  (ap length b₃ ∙ p₁, (ap length b₁ ∙ p₃, (ap length b₂ ∙ p₂, tt))),
                ),
              ),
            ),
          ),
        ),
      )

  -- The proof's window, as the verifier checks it.
  fresh :
      (proof : DelegationProof) (sig : Bytes) (tls : TlsBindings)
      → IsSigned k ni.key ni.certs ni.session export start proof sig
      → BoundTo proof tls
      → IsInt64 proof.not_before
        × IsInt64 proof.not_after
        × IsFresh k proof tls.exporter_binding tls.transcript_hash now
  unfolding delegation_proof
  fresh proof sig tls s (b₀, b₁, b₂, b₃) =
      let from : start ≡ proof.not_before =
        ap (λ (p : DelegationProof). p.not_before) s.same_proof in
      let until : proof.not_after ≡ start +ℤ pos max_delegation_ttl =
        ap (λ (p : DelegationProof). p.not_after) (sym s.same_proof)
        ∙ proof_window ni.session s.exporter s.transcript (k.sha256 s.bundle) start ends_int64 in
      let (unended, short) = window_open start now proof.not_after until begun not_over in
      (
        subst IsInt64 from starts_int64,
        subst IsInt64 (sym until) ends_int64,
        record {
          begun = subst (λ t. t ≤ℤ now) from begun;
          not_over = unended;
          short = subst (λ t. proof.not_after -ℤ t ≤ℤ pos max_delegation_ttl) from short;
          same_exporter = sym b₃;
          same_transcript = sym b₂;
        },
      )

  -- A delegation that a ready node signs is accepted, for its NodeID and over the connection that
  -- it was signed for, from the time of signing until 300 seconds later, by every store that
  -- trusts one of its certificates: one that is valid then and that its authority signed. The peer
  -- has admin scope if that authority is an admin. The node's key signs what it verifies, hashes
  -- and exported values have 32 bytes, and the times are int64.
  pub sign_delegation-verify_peer_cert :
      {H : Type 0} (ca : CarrierAuth P N H) (proof : DelegationProof) (sig : Bytes)
      (tls : TlsBindings) (ts : TrustSnapshot P N) (idx : ℕ) (cert : CertSnapshot P N)
      (ca_sig : Bytes) (typ : IssuerType)
      → sign_delegation k ni.key ni.certs ni.session export start ≡ ok (proof, sig)
      → BoundTo proof tls
      → trust_for k ca ni.authorities ≡ ok ts
      → get_elem? ni.certs idx ≡ some cert
      → get_elem? ni.ca_sigs idx ≡ some ca_sig
      → is_cert_valid k ts cert now ≡ true
      → verify_single_cert k ts cert ca_sig ≡ ok (ni.node_id, ni.key.pub_key, typ)
      → (ctx : AuthContext N) × (verify_peer_cert k ca now (presented ni proof sig tls) ≡ ok ctx)
        × (ctx.node_id ≡ ni.node_id)
        × (typ ≡ issuer_admin → ctx.effective_scope ≡ scope_admin)
  unfolding delegation_proof
  sign_delegation-verify_peer_cert ca proof sig tls ts idx cert ca_sig typ signs bound trusted there
        sig_there valid single =
      let s = sign_delegation-IsSigned k ni.key ni.certs ni.session export start proof sig signs in
      let own =
        All-map (IsOwnCert k ni.key ni.node_id) (λ c. c.node_pub_key ≡ ni.key.pub_key) ni.certs
          (λ c o. o.own_key) ready.own in
      let (r, chain, same_id, same_key, admin) =
        verify_chain_complete k ts now ni.certs ni.ca_sigs ni.node_id ni.key.pub_key idx cert ca_sig
          typ ready.derived own there sig_there valid single in
      let (begins, ends, in_window) = fresh proof sig tls s bound in
      let (signed_long, signed) = verifies _ sig s.signed in
      let counted = length-map (λ c. some (as_cert_like c)) ni.certs in
      (
        derive_scope r,
        verify_peer_cert_complete k ca now (presented ni proof sig tls) proof ni.certs ts r
            s.exporter_ctx
            (record {
              some_cert = omega (arith, counted, ready.some_cert);
              certs_capped = omega (arith, counted, ready.certs_capped);
              one_sig_each = ready.one_sig_each ∙ sym counted;
              proof_there = refl;
              sig_there = signed_long;
            })
            (snapshot_certs-own k ni.key ni.node_id ni.certs ready.derived ready.own) trusted chain
            (fields_sized proof sig tls s bound)
            (record {
              canonical = s.canonical;
              encoded = s.encoded;
              signed =
                  subst
                    (λ p.
                      k.verify p (domain_separate ctx_node_delegation_v1 s.canonical) sig ≡ true)
                    (sym same_key) signed;
              same_key_hash = sym bound.0;
              same_fingerprint = sym bound.1;
              bundle = s.bundle;
              bundle_encoded = s.bundle_encoded;
              same_bundle =
                  ap (λ (p : DelegationProof). p.node_cert_bundle_hash) (sym s.same_proof);
            })
            begins ends s.ctx_encoded in_window,
        derive_scope_node r ∙ same_id,
        λ a. derive_scope-admin r (admin a),
      )
