-- ===== src/Transport/Handshake/Accepted.antt =====
-- The authentication from end to end: what a node writes to the stream is read and accepted by a
-- peer that trusts one of the node's certificates.
use ouroboros_db.Base.{
  ℕ, String, ◌<◌, ◌≤◌, ◌≡◌, refl, sym, ap, ◌∙◌, true, false, List, [], ◌∷◌, ◌++◌, some, Option, ok,
  Eq, ℤ, pos, ◌+ℤ◌, ◌≤ℤ◌, IsInt64, All, All-map, arith, length, get_elem?, map, subst, ltb,
}
use ouroboros_db.Auth.Types.{
  Bytes, Keys, CertSnapshot, DelegationProof, AuthContext, scope_admin, max_delegation_ttl,
  binding_size,
}
use ouroboros_db.Auth.Ca.{kem_public_key_size}
use ouroboros_db.Auth.Store.{CarrierAuth}
use ouroboros_db.Auth.Chain.{
  TrustSnapshot, IssuerType, issuer_admin, is_cert_valid, verify_single_cert,
}
use ouroboros_db.Auth.Verify.{PeerHandshake, trust_for, verify_peer_cert}
use ouroboros_db.Auth.Delegation.{NodeIdentity, Exporter, sign_delegation, delegation_proof}
use ouroboros_db.Auth.Delegation.Ready.{IsOwnCert, IsReady}
use ouroboros_db.Auth.Delegation.Signed.{IsSigned, sign_delegation-IsSigned}
use ouroboros_db.Auth.Delegation.Accepted.{BoundTo, sign_delegation-verify_peer_cert}
use ouroboros_db.Transport.Handshake.{
  WireAuthMessage, AuthCodec, TlsSession, max_auth_message_size, put_uint32, auth_message,
  write_auth_handshake, read_auth_handshake, dial_and_auth,
}
use ouroboros_db.Transport.Handshake.Conversion.{as_read}
use ouroboros_db.Transport.Handshake.RoundTrip.{received, write_auth_handshake-read_auth_handshake}

module _ {P N : Type 0} (k : Keys P N) where
  -- A node's own certificates have the version 1, so they are read as they are.
  own_read :
      (ni : NodeIdentity P N) (certs : List (CertSnapshot P N))
      → All (IsOwnCert k ni.key ni.node_id) certs
      → map as_read certs ≡ certs
  own_read ni [] own = refl
  own_read ni (c ∷ certs) own = rw (own_read ni certs own.1, sym own.0.version) refl

  own_derived :
      (ni : NodeIdentity P N)
      → IsReady k ni
      → All (λ (c : CertSnapshot P N). k.node_id c.node_pub_key ≡ some c.node_id) ni.certs
  own_derived ni ready =
      All-map (IsOwnCert k ni.key ni.node_id) _ ni.certs
        (λ c o. ap k.node_id o.own_key ∙ ready.derived ∙ ap some (sym o.own_id)) ready.own

module _ {P N : Type 0} ⦃e : Eq N⦄ (k : Keys P N) (ni : NodeIdentity P N) (export : Exporter)
    (start now : ℤ) (ready : IsReady k ni)
    (parse_back : (p : P) (kem sign : Bytes)
      → k.marshal_binary_kem p ≡ some kem
      → k.marshal_binary_sign p ≡ some sign
      → (length kem ≡ kem_public_key_size)
        × (0 < length sign)
        × (k.new_public_key_from_binary kem sign ≡ some p))
    (verifies : (msg sig : Bytes)
      → ni.key.sign msg ≡ some sig
      → (0 < length sig) × (k.verify ni.key.pub_key msg sig ≡ true))
    (hash_sized : (b : Bytes) → length (k.sha256 b) ≡ binding_size)
    (export_sized : (label : String) (ctx : Option Bytes) (value : Bytes)
      → export label ctx binding_size ≡ some value
      → length value ≡ binding_size)
    (key_hash_sized : length ni.session.cert_pub_key_hash ≡ binding_size)
    (fingerprint_sized : length ni.session.x509_fingerprint ≡ binding_size) (conn : TlsSession)
    (same_exports : (label : String) (ctx : Option Bytes)
      → conn.export_keying_material label ctx binding_size ≡ export label ctx binding_size)
    (same_key_hash : conn.tls_bindings.cert_pub_key_hash ≡ ni.session.cert_pub_key_hash)
    (same_fingerprint : conn.tls_bindings.x509_fingerprint ≡ ni.session.x509_fingerprint)
    (starts_int64 : IsInt64 start) (ends_int64 : IsInt64 (start +ℤ pos max_delegation_ttl))
    (begun : start ≤ℤ now) (not_over : now ≤ℤ start +ℤ pos max_delegation_ttl) where
  written :
      (proto : AuthCodec) (proof : DelegationProof) (sig : Bytes) (msg : WireAuthMessage)
      (payload : Bytes)
      → sign_delegation k ni.key ni.certs ni.session export start ≡ ok (proof, sig)
      → auth_message k ni.certs ni.ca_sigs ni.authorities proof sig ≡ ok msg
      → proto.marshal msg ≡ some payload
      → length payload ≤ max_auth_message_size
      → (write_auth_handshake k proto ni.certs ni.ca_sigs ni.authorities proof sig
          ≡ ok (put_uint32 (length payload) ++ payload))
        × (dial_and_auth k proto export ni start ≡ ok (put_uint32 (length payload) ++ payload))
  unfolding dial_and_auth write_auth_handshake
  written proto proof sig msg payload signs built marshalled fits =
      let small : ltb max_auth_message_size (length payload) ≡ false = ground (arith, fits) in
      (rw (built, marshalled, small) refl, rw (signs, built, marshalled, small) refl)

  bound :
      (proof : DelegationProof) (sig : Bytes)
      (s : IsSigned k ni.key ni.certs ni.session export start proof sig)
      → BoundTo proof (record conn.tls_bindings {
        transcript_hash = s.transcript;
        exporter_binding = s.exporter;
      })
  unfolding delegation_proof
  bound proof sig s = (
    same_key_hash ∙ ap (λ (p : DelegationProof). p.tls_cert_pub_key_hash) s.same_proof,
    same_fingerprint ∙ ap (λ (p : DelegationProof). p.x509_fingerprint) s.same_proof,
    ap (λ (p : DelegationProof). p.tls_transcript_hash) s.same_proof,
    ap (λ (p : DelegationProof). p.tls_exporter_binding) s.same_proof,
  )

  -- A ready node's authentication succeeds from end to end: what it writes is read by the peer and
  -- accepted for its NodeID, from the time of signing until 300 seconds later, by every store that
  -- trusts one of the node's certificates, and with admin scope if an admin authority issued it.
  -- The message is at most 1 MiB and the encoder gives it back, both ends of the connection have
  -- the session's hashes and export the same values, a key is parsed back from its two halves, the
  -- node's key signs what it verifies, hashes and exported values have 32 bytes, and the times are
  -- int64.
  pub dial_and_auth-verify_peer_cert :
      {H : Type 0} (ca : CarrierAuth P N H) (proto : AuthCodec) (proof : DelegationProof)
      (sig : Bytes) (msg : WireAuthMessage) (payload : Bytes) (ts : TrustSnapshot P N) (idx : ℕ)
      (cert : CertSnapshot P N) (ca_sig : Bytes) (typ : IssuerType)
      → sign_delegation k ni.key ni.certs ni.session export start ≡ ok (proof, sig)
      → auth_message k ni.certs ni.ca_sigs ni.authorities proof sig ≡ ok msg
      → proto.marshal msg ≡ some payload
      → proto.unmarshal payload ≡ some msg
      → 0 < length payload
      → length payload ≤ max_auth_message_size
      → trust_for k ca ni.authorities ≡ ok ts
      → get_elem? ni.certs idx ≡ some cert
      → get_elem? ni.ca_sigs idx ≡ some ca_sig
      → is_cert_valid k ts cert now ≡ true
      → verify_single_cert k ts cert ca_sig ≡ ok (ni.node_id, ni.key.pub_key, typ)
      → (stream : Bytes) × (dial_and_auth k proto export ni start ≡ ok stream)
        × (hs : PeerHandshake P N) × (read_auth_handshake k proto conn stream ≡ ok hs)
        × (ctx : AuthContext N) × (verify_peer_cert k ca now hs ≡ ok ctx)
        × (ctx.node_id ≡ ni.node_id)
        × (typ ≡ issuer_admin → ctx.effective_scope ≡ scope_admin)
  dial_and_auth-verify_peer_cert ca proto proof sig msg payload ts idx cert ca_sig typ signs built
        marshalled unmarshalled filled fits trusted there sig_there valid single =
      let s = sign_delegation-IsSigned k ni.key ni.certs ni.session export start proof sig signs in
      let (writes, dials) = written proto proof sig msg payload signs built marshalled fits in
      let reads =
        write_auth_handshake-read_auth_handshake k parse_back proto conn ni.certs ni.ca_sigs
          ni.authorities proof sig msg payload (put_uint32 (length payload) ++ payload) s.transcript
          s.exporter_ctx s.exporter (own_derived k ni ready) built marshalled unmarshalled filled
          writes (same_exports _ _ ∙ s.transcript_exported) s.ctx_encoded
          (same_exports _ _ ∙ s.exporter_exported) in
      let same_certs = own_read k ni ni.certs ready.own in
      let (ctx, accepted, same_node, admin) =
        sign_delegation-verify_peer_cert k ni export start now ready verifies hash_sized
          export_sized key_hash_sized fingerprint_sized starts_int64 ends_int64 begun not_over ca
          proof sig
          (record conn.tls_bindings {
            transcript_hash = s.transcript;
            exporter_binding = s.exporter;
          })
          ts idx cert ca_sig typ signs (bound proof sig s) trusted there sig_there valid single in
      (
        put_uint32 (length payload) ++ payload,
        dials,
        received conn ni.certs ni.ca_sigs ni.authorities proof sig s.transcript s.exporter,
        subst
            (λ cs.
              read_auth_handshake k proto conn (put_uint32 (length payload) ++ payload)
              ≡ ok (received conn cs ni.ca_sigs ni.authorities proof sig s.transcript s.exporter))
            same_certs reads,
        ctx,
        accepted,
        same_node,
        admin,
      )
