-- ===== src/Transport/Handshake.antt =====
-- internal/transport/auth_handshake.go, and `dialAndAuth` of carrier_cluster.go: the message of
-- the authentication and its framing. The protobuf encoder and the TLS connection are outside the
-- repository. A stream is what is written to it; errors of reading and writing a stream are a
-- stream that is too short. Copies of slices are the slices.
pub mod Conversion
pub mod RoundTrip
pub mod Accepted
use ouroboros_db.Base.{
  ℕ, String, ◌+◌, ◌*◌, ◌/◌, ◌%◌, ◌^◌, ◌||◌, List, [], ◌∷◌, ◌++◌, Option, none, some, Result, ok,
  err, ◌>>=◌, ◌>>◌, or_fail, fail_if, eqb, ltb, leb, ℤ, pos, length, take, drop, map,
}
use ouroboros_db.Auth.Types.{
  Bytes, Keys, CertSnapshot, DelegationProof, EmbeddedCa, TlsBindings, Error, external,
  public_key_too_short, binding_size,
}
use ouroboros_db.Auth.Canonical.{marshal_pub_key_bytes, canonical_delegation_proof_for_exporter}
use ouroboros_db.Auth.Ca.{kem_public_key_size}
use ouroboros_db.Auth.Verify.{PeerHandshake}
use ouroboros_db.Auth.Delegation.{
  Exporter, NodeIdentity, exporter_label, transcript_binding_label, new_node_cert, as_cert_like,
  sign_delegation,
}

-- 1 MiB.
abbrev pub max_auth_message_size : ℕ
max_auth_message_size = 1048576

-- `pb.WireNodeCert`.
pub record WireNodeCert : Type 0 where
  pub cert_version : ℕ
  pub node_pub_key : Bytes
  pub issuer_ca_hash : String
  pub valid_from : ℤ
  pub valid_until : ℤ
  pub serial : Bytes
  pub cert_nonce : Bytes

-- `pb.WireEmbeddedCA`.
pub record WireEmbeddedCa : Type 0 where
  pub ca_type : String
  pub pub_kem : Bytes
  pub pub_sign : Bytes
  pub anchor_sig : Bytes
  pub anchor_admin : String

-- `pb.WireDelegationProof`.
pub record WireDelegationProof : Type 0 where
  pub tls_cert_pub_key_hash : Bytes
  pub tls_exporter_binding : Bytes
  pub tls_transcript_hash : Bytes
  pub x509_fingerprint : Bytes
  pub node_cert_bundle_hash : Bytes
  pub not_before : ℤ
  pub not_after : ℤ

-- `pb.WireAuthMessage`; the delegation may be missing.
pub record WireAuthMessage : Type 0 where
  pub certs : List WireNodeCert
  pub ca_signatures : List Bytes
  pub authorities : List WireEmbeddedCa
  pub delegation : Option WireDelegationProof
  pub delegation_sig : Bytes

-- `proto.Marshal` and `proto.Unmarshal` at this message type.
pub record AuthCodec : Type 0 where
  pub marshal : WireAuthMessage → Option Bytes
  pub unmarshal : Bytes → Option WireAuthMessage

-- What a connection tells of its TLS session: `TLSBindings` and `ExportKeyingMaterial`.
pub record TlsSession : Type 0 where
  pub tls_bindings : TlsBindings
  pub export_keying_material : Exporter

pub data HandshakeError : Type 0 where
  read_length size_out_of_bounds read_payload decode_handshake : HandshakeError
  bad_cert no_transcript no_exporter_context no_exporter : HandshakeError
  encode_handshake message_too_large not_signed : HandshakeError

-- `binary.BigEndian.PutUint32` and `Uint32`.
unfoldable pub put_uint32 : ℕ → Bytes
put_uint32 n = (n / 2 ^ 24 % 256) ∷ (n / 2 ^ 16 % 256) ∷ (n / 2 ^ 8 % 256) ∷ (n % 256) ∷ []

-- With the four bytes read by `io.ReadFull`, and the rest of the stream.
unfoldable pub read_uint32 : Bytes → Option (ℕ × Bytes)
read_uint32 (a ∷ b ∷ c ∷ d ∷ rest) = some (a * 2 ^ 24 + b * 2 ^ 16 + c * 2 ^ 8 + d, rest)
read_uint32 [] = none
read_uint32 (a ∷ []) = none
read_uint32 (a ∷ b ∷ []) = none
read_uint32 (a ∷ b ∷ c ∷ []) = none

-- A wire error is the error of the step that fails.
abbrev pub at_step : {A : Type 0} → Result Error A → HandshakeError → Result HandshakeError A
at_step (ok a) e = ok a
at_step (err bad) e = err e

unfoldable pub to_wire_authority : EmbeddedCa → WireEmbeddedCa
to_wire_authority a = record {
  ca_type = a.ca_type;
  pub_kem = a.pub_kem;
  pub_sign = a.pub_sign;
  anchor_sig = a.anchor_sig;
  anchor_admin = a.anchor_admin;
}

unfoldable pub from_wire_authority : WireEmbeddedCa → EmbeddedCa
from_wire_authority a = record {
  ca_type = a.ca_type;
  pub_kem = a.pub_kem;
  pub_sign = a.pub_sign;
  anchor_sig = a.anchor_sig;
  anchor_admin = a.anchor_admin;
}

unfoldable pub to_wire_delegation : DelegationProof → WireDelegationProof
to_wire_delegation proof = record {
  tls_cert_pub_key_hash = proof.tls_cert_pub_key_hash;
  tls_exporter_binding = proof.tls_exporter_binding;
  tls_transcript_hash = proof.tls_transcript_hash;
  x509_fingerprint = proof.x509_fingerprint;
  node_cert_bundle_hash = proof.node_cert_bundle_hash;
  not_before = proof.not_before;
  not_after = proof.not_after;
}

-- A missing delegation is an empty proof, not an error.
unfoldable pub pb_to_delegation : Option WireDelegationProof → DelegationProof
pb_to_delegation none = record {
  tls_cert_pub_key_hash = [];
  tls_exporter_binding = [];
  tls_transcript_hash = [];
  x509_fingerprint = [];
  node_cert_bundle_hash = [];
  not_before = pos 0;
  not_after = pos 0;
}
pb_to_delegation (some wd) = record {
  tls_cert_pub_key_hash = wd.tls_cert_pub_key_hash;
  tls_exporter_binding = wd.tls_exporter_binding;
  tls_transcript_hash = wd.tls_transcript_hash;
  x509_fingerprint = wd.x509_fingerprint;
  node_cert_bundle_hash = wd.node_cert_bundle_hash;
  not_before = wd.not_before;
  not_after = wd.not_after;
}

module _ {P N : Type 0} (k : Keys P N) where
  unfoldable pub cert_to_pb : CertSnapshot P N → Result Error WireNodeCert
  cert_to_pb c = do
    pub_bytes ← marshal_pub_key_bytes k c.node_pub_key
    ok (record {
      cert_version = c.cert_version;
      node_pub_key = pub_bytes;
      issuer_ca_hash = c.issuer_ca_hash;
      valid_from = c.valid_from;
      valid_until = c.valid_until;
      serial = c.serial;
      cert_nonce = c.cert_nonce;
    })

  -- The version on the wire is not read.
  unfoldable pub pb_to_node_cert : WireNodeCert → Result Error (CertSnapshot P N)
  pb_to_node_cert wc = do
    fail_if (leb (length wc.node_pub_key) kem_public_key_size) public_key_too_short
    let kem_bytes = take kem_public_key_size wc.node_pub_key
    let sign_bytes = drop kem_public_key_size wc.node_pub_key
    pub_key ← or_fail (k.new_public_key_from_binary kem_bytes sign_bytes) external
    new_node_cert k pub_key wc.issuer_ca_hash wc.valid_from wc.valid_until wc.serial wc.cert_nonce

  unfoldable pub certs_to_pb : List (CertSnapshot P N) → Result Error (List WireNodeCert)
  certs_to_pb [] = ok []
  certs_to_pb (c ∷ cs) = do wc ← cert_to_pb c; rest ← certs_to_pb cs; ok (wc ∷ rest)

  unfoldable pub pb_to_node_certs : List WireNodeCert → Result Error (List (CertSnapshot P N))
  pb_to_node_certs [] = ok []
  pb_to_node_certs (wc ∷ wcs) = do
    c ← pb_to_node_cert wc
    rest ← pb_to_node_certs wcs
    ok (c ∷ rest)

  -- The message that `writeAuthHandshake` encodes.
  unfoldable pub auth_message :
      List (CertSnapshot P N)
      → List Bytes
      → List EmbeddedCa
      → DelegationProof
      → Bytes
      → Result HandshakeError WireAuthMessage
  auth_message certs ca_sigs authorities proof delegation_sig = do
    wire_certs ← at_step (certs_to_pb certs) bad_cert
    ok (record {
      certs = wire_certs;
      ca_signatures = ca_sigs;
      authorities = map to_wire_authority authorities;
      delegation = some (to_wire_delegation proof);
      delegation_sig = delegation_sig;
    })

  unfoldable pub write_auth_handshake :
      AuthCodec
      → List (CertSnapshot P N)
      → List Bytes
      → List EmbeddedCa
      → DelegationProof
      → Bytes
      → Result HandshakeError Bytes
  write_auth_handshake proto certs ca_sigs authorities proof delegation_sig = do
    msg ← auth_message certs ca_sigs authorities proof delegation_sig
    payload ← or_fail (proto.marshal msg) encode_handshake
    fail_if (ltb max_auth_message_size (length payload)) message_too_large
    ok (put_uint32 (length payload) ++ payload)

  unfoldable pub read_auth_handshake :
      AuthCodec → TlsSession → Bytes → Result HandshakeError (PeerHandshake P N)
  read_auth_handshake proto conn stream = do
    (msg_len, rest) ← or_fail (read_uint32 stream) read_length
    fail_if (eqb msg_len 0 || ltb max_auth_message_size msg_len) size_out_of_bounds
    fail_if (ltb (length rest) msg_len) read_payload
    msg ← or_fail (proto.unmarshal (take msg_len rest)) decode_handshake
    certs ← at_step (pb_to_node_certs msg.certs) bad_cert
    let proof = pb_to_delegation msg.delegation
    transcript ←
        or_fail (conn.export_keying_material transcript_binding_label none binding_size)
          no_transcript
    exp_ctx ← at_step (canonical_delegation_proof_for_exporter k proof) no_exporter_context
    exporter ←
        or_fail (conn.export_keying_material exporter_label (some exp_ctx) binding_size) no_exporter
    ok (record {
      certs = map (λ c. some (as_cert_like c)) certs;
      ca_signatures = msg.ca_signatures;
      authorities = map from_wire_authority msg.authorities;
      delegation_proof = some proof;
      delegation_sig = msg.delegation_sig;
      tls = record conn.tls_bindings { transcript_hash = transcript; exporter_binding = exporter };
    })

  -- `dialAndAuth`, and `writeLocalAuth` of a carrier that has a node identity: what is written to
  -- the authentication stream.
  unfoldable pub dial_and_auth :
      AuthCodec → Exporter → NodeIdentity P N → ℤ → Result HandshakeError Bytes
  dial_and_auth proto export ni now = do
    (proof, sig) ← at_step (sign_delegation k ni.key ni.certs ni.session export now) not_signed
    write_auth_handshake proto ni.certs ni.ca_sigs ni.authorities proof sig
