-- ===== src/Transport/Handshake/RoundTrip.antt =====
-- What the verifier reads of what the prover writes.
use ouroboros_db.Base.{
  ◌<◌, ◌≤◌, ◌≡◌, refl, ap, List, ◌++◌, some, none, ok, or_fail, ltb, fail_if, fail_if-eq-ok, All,
  arith, length, map, >>=-eq-ok, or_fail-eq-ok, subst,
}
use ouroboros_db.Auth.Types.{Bytes, Keys, CertSnapshot, DelegationProof, EmbeddedCa, binding_size}
use ouroboros_db.Auth.Canonical.{canonical_delegation_proof_for_exporter}
use ouroboros_db.Auth.Ca.{kem_public_key_size}
use ouroboros_db.Auth.Verify.{PeerHandshake}
use ouroboros_db.Auth.Delegation.{exporter_label, transcript_binding_label, as_cert_like}
use ouroboros_db.Transport.Handshake.{
  WireAuthMessage, AuthCodec, TlsSession, at_step, bad_cert, max_auth_message_size, put_uint32,
  to_wire_authority, from_wire_authority, to_wire_delegation, pb_to_delegation, certs_to_pb,
  pb_to_node_certs, auth_message, write_auth_handshake, read_auth_handshake,
}
use ouroboros_db.Transport.Handshake.Conversion.{
  ltb_self, out_of_bounds_false, take-length, put_uint32-read_uint32, authorities_back,
  pb_to_delegation-to_wire_delegation, at_step-ok, as_read, certs_to_pb-pb_to_node_certs,
}

-- The handshake of a message that was read over a connection that exports the two values.
abbrev pub received :
    {P N : Type 0}
    → TlsSession
    → List (CertSnapshot P N)
    → List Bytes
    → List EmbeddedCa
    → DelegationProof
    → Bytes
    → Bytes
    → Bytes
    → PeerHandshake P N
received conn certs ca_sigs authorities proof sig transcript exporter = record {
  certs = map (λ c. some (as_cert_like c)) certs;
  ca_signatures = ca_sigs;
  authorities = authorities;
  delegation_proof = some proof;
  delegation_sig = sig;
  tls = record conn.tls_bindings { transcript_hash = transcript; exporter_binding = exporter };
}

module _ {P N : Type 0} (k : Keys P N)
    (parse_back : (p : P) (kem sign : Bytes)
      → k.marshal_binary_kem p ≡ some kem
      → k.marshal_binary_sign p ≡ some sign
      → (length kem ≡ kem_public_key_size)
        × (0 < length sign)
        × (k.new_public_key_from_binary kem sign ≡ some p)) where
  framed :
      (proto : AuthCodec) (certs : List (CertSnapshot P N)) (ca_sigs : List Bytes)
      (authorities : List EmbeddedCa) (proof : DelegationProof) (sig : Bytes)
      (msg : WireAuthMessage) (payload stream : Bytes)
      → auth_message k certs ca_sigs authorities proof sig ≡ ok msg
      → proto.marshal msg ≡ some payload
      → write_auth_handshake k proto certs ca_sigs authorities proof sig ≡ ok stream
      → (length payload ≤ max_auth_message_size) × (put_uint32 (length payload) ++ payload ≡ stream)
  unfolding write_auth_handshake
  framed proto certs ca_sigs authorities proof sig msg payload stream built marshalled h =
      let (m, builds, h₁) = >>=-eq-ok (auth_message k certs ca_sigs authorities proof sig) _ h in
      let (p, marshals, h₂) = >>=-eq-ok (or_fail (proto.marshal m) _) _ h₁ in
      let (_, fits, h₃) = >>=-eq-ok (fail_if (ltb max_auth_message_size (length p)) _) _ h₂ in
      let same_msg : m ≡ msg = cc (builds, built) in
      let same : p ≡ payload =
        cc (or_fail-eq-ok _ _ marshals, marshalled, ap proto.marshal same_msg) in
      subst (λ q. (length q ≤ max_auth_message_size) × (put_uint32 (length q) ++ q ≡ stream)) same
        (ground (arith, fail_if-eq-ok _ _ fits), cc h₃)

  converted :
      (certs : List (CertSnapshot P N)) (ca_sigs : List Bytes) (authorities : List EmbeddedCa)
      (proof : DelegationProof) (sig : Bytes) (msg : WireAuthMessage)
      → All (λ (c : CertSnapshot P N). k.node_id c.node_pub_key ≡ some c.node_id) certs
      → auth_message k certs ca_sigs authorities proof sig ≡ ok msg
      → (pb_to_node_certs k msg.certs ≡ ok (map as_read certs))
        × (msg.ca_signatures ≡ ca_sigs)
        × (map from_wire_authority msg.authorities ≡ authorities)
        × (pb_to_delegation msg.delegation ≡ proof)
        × (msg.delegation_sig ≡ sig)
  unfolding auth_message
  converted certs ca_sigs authorities proof sig msg derived built =
      let (wcs, converts, h₁) = >>=-eq-ok (at_step (certs_to_pb k certs) bad_cert) _ built in
      subst
        (λ (m : WireAuthMessage).
          (pb_to_node_certs k m.certs ≡ ok (map as_read certs))
          × (m.ca_signatures ≡ ca_sigs)
          × (map from_wire_authority m.authorities ≡ authorities)
          × (pb_to_delegation m.delegation ≡ proof)
          × (m.delegation_sig ≡ sig))
        {x = record {
          certs = wcs;
          ca_signatures = ca_sigs;
          authorities = map to_wire_authority authorities;
          delegation = some (to_wire_delegation proof);
          delegation_sig = sig;
        }}
        {y = msg} (cc h₁)
        (
          certs_to_pb-pb_to_node_certs k parse_back certs wcs derived (at_step-ok _ _ converts),
          refl,
          authorities_back authorities,
          pb_to_delegation-to_wire_delegation proof,
          refl,
        )

  -- A handshake whose message the encoder gives back is read from the stream as it was written,
  -- with every certificate at version 1 and with the verifier's own bindings of the connection:
  -- those of its TLS session, and the two values that it exports for the proof that it read.
  pub write_auth_handshake-read_auth_handshake :
      (proto : AuthCodec) (conn : TlsSession) (certs : List (CertSnapshot P N))
      (ca_sigs : List Bytes) (authorities : List EmbeddedCa) (proof : DelegationProof) (sig : Bytes)
      (msg : WireAuthMessage) (payload stream transcript ctx exporter : Bytes)
      → All (λ (c : CertSnapshot P N). k.node_id c.node_pub_key ≡ some c.node_id) certs
      → auth_message k certs ca_sigs authorities proof sig ≡ ok msg
      → proto.marshal msg ≡ some payload
      → proto.unmarshal payload ≡ some msg
      → 0 < length payload
      → write_auth_handshake k proto certs ca_sigs authorities proof sig ≡ ok stream
      → conn.export_keying_material transcript_binding_label none binding_size ≡ some transcript
      → canonical_delegation_proof_for_exporter k proof ≡ ok ctx
      → conn.export_keying_material exporter_label (some ctx) binding_size ≡ some exporter
      → read_auth_handshake k proto conn stream
        ≡ ok (received conn (map as_read certs) ca_sigs authorities proof sig transcript exporter)
  unfolding read_auth_handshake
  write_auth_handshake-read_auth_handshake proto conn certs ca_sigs authorities proof sig msg
        payload stream transcript ctx exporter derived built marshalled unmarshalled filled h
        exported encoded bound =
      let (fits, same) =
        framed proto certs ca_sigs authorities proof sig msg payload stream built marshalled h in
      let (back, same_sigs, same_authorities, same_proof, same_sig) =
        converted certs ca_sigs authorities proof sig msg derived built in
      subst
        (λ bs.
          read_auth_handshake k proto conn bs
          ≡ ok
              (received conn (map as_read certs) ca_sigs authorities proof sig transcript exporter))
        same
        (rw
          (
            put_uint32-read_uint32 (length payload) payload (omega (arith, fits)),
            out_of_bounds_false (length payload) filled fits,
            ltb_self (length payload),
            take-length payload,
            unmarshalled,
            back,
            same_proof,
            exported,
            encoded,
            bound,
            same_sigs,
            same_authorities,
            same_sig,
          )
          refl)
