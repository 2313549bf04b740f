-- ===== src/Certgen/SignNode.antt =====
-- cmd/certgen/main.go: `cmdSignNode`.
pub mod Issued
pub mod Trusted
pub mod Signer
pub mod Loaded
pub mod Accepted
use ouroboros_db.Base.{
  String, string_eq, List, none, some, Result, ok, ◌>>=◌, ◌>>◌, or_fail, fail_if, ◌==◌, ltb, length,
  drop, ℤ, if◌then◌else◌,
}
use ouroboros_db.Auth.Types.{Bytes, Keys, CertSnapshot}
use ouroboros_db.Auth.Canonical.{domain_separate, canonical_node_cert, marshal_pub_key_bytes}
use ouroboros_db.Auth.Ca.{
  kem_public_key_size, ctx_node_admission_v1, new_admin_ca, verify_node_cert,
}
use ouroboros_db.Auth.Delegation.{NodeKey, new_node_cert}
use ouroboros_db.AuthFile.{
  CaKeyFile, NodeCertFile, FileCodec, marshal_node_cert, read_ca_key, build_embedded_trust_chain,
}
use ouroboros_db.Certgen.{
  unix_after, default_validity, Tools, CommandError, missing_flag, no_new_key, no_key_json,
  not_encoded, invalid_validity, no_public_key, out_of_range, no_serial, no_nonce, not_signed,
  bad_file, bad_ca, node_cert_created, Outcome, failing, parse_flag, write_out,
}

module _ {P : Type 0} (tools : Tools P) where
  -- `-validity`; no flag and an empty one are a year.
  unfoldable pub validity_of : List String → Result CommandError ℤ
  validity_of args = elim (parse_flag args "-validity") [
    | none ↦ ok default_validity
    | some text ↦
        if text == ""
        then ok default_validity
        else or_fail (tools.parse_duration text) invalid_validity
  ]

  -- The node's new key, the serial number and the nonce.
  unfoldable pub fresh_parts : Result CommandError (NodeKey P × Bytes × Bytes)
  fresh_parts = do
    node_ac ← or_fail tools.new_key no_new_key
    serial ← or_fail tools.serial no_serial
    cert_nonce ← or_fail tools.cert_nonce no_nonce
    ok (node_ac, serial, cert_nonce)

module _ {P N : Type 0} (k : Keys P N) where
  -- The authority's key in the three forms in which it is used: whole, and its two halves.
  unfoldable pub issuer_parts : NodeKey P → Result CommandError (Bytes × Bytes × Bytes)
  issuer_parts ca_ac = do
    ca_pub_bytes ← failing bad_ca (marshal_pub_key_bytes k ca_ac.pub_key)
    ca_pub_kem ← or_fail (k.marshal_binary_kem ca_ac.pub_key) no_public_key
    ca_pub_sign ← or_fail (k.marshal_binary_sign ca_ac.pub_key) no_public_key
    fail_if (ltb (length ca_pub_bytes) kem_public_key_size) out_of_range
    ok (ca_pub_bytes, ca_pub_kem, ca_pub_sign)

module _ {P N : Type 0} (k : Keys P N) (tools : Tools P) where
  -- A new certificate of the key with the signature of the authority, which is verified as it is
  -- made.
  unfoldable pub signed_cert :
      NodeKey P
      → NodeKey P
      → Bytes
      → String
      → Bytes
      → Bytes
      → ℤ
      → Result CommandError (CertSnapshot P N × Bytes)
  signed_cert ca_ac node_ac ca_pub_bytes issuer_hash serial cert_nonce validity = do
    cert ← failing bad_ca (
        new_node_cert k node_ac.pub_key issuer_hash tools.now.seconds
          (unix_after tools.now validity) serial cert_nonce)
    canonical_data ← failing bad_ca (canonical_node_cert k cert)
    ca_sig ← or_fail (ca_ac.sign (domain_separate ctx_node_admission_v1 canonical_data)) not_signed
    authority ← failing bad_ca (new_admin_ca k ca_pub_bytes)
    verified ← failing bad_ca (verify_node_cert k authority.base cert ca_sig)
    ok (cert, ca_sig)

  -- The file of a new node under the authority, and the node's certificate.
  unfoldable pub signed_node :
      NodeKey P → CaKeyFile → ℤ → Result CommandError (NodeCertFile × CertSnapshot P N)
  signed_node ca_ac ca_file validity = do
    (ca_pub_bytes, ca_pub_kem, ca_pub_sign) ← issuer_parts k ca_ac
    let issuer_hash = k.hex (k.sha256 (drop kem_public_key_size ca_pub_bytes))
    (node_ac, serial, cert_nonce) ← fresh_parts tools
    (cert, ca_sig) ← signed_cert ca_ac node_ac ca_pub_bytes issuer_hash serial cert_nonce validity
    key_json ← or_fail (tools.key_json node_ac) no_key_json
    authorities ← failing bad_file (build_embedded_trust_chain k ca_ac ca_file)
    ok (
      record {
        file_type = "node-cert";
        key_json = key_json;
        ca_pub_kem = ca_pub_kem;
        ca_pub_sign = ca_pub_sign;
        ca_signature = ca_sig;
        authorities = authorities;
        issuer_ca_hash = issuer_hash;
        valid_from = tools.now.seconds;
        valid_until = unix_after tools.now validity;
        serial = serial;
        cert_nonce = cert_nonce;
      },
      cert,
    )

module _ {P N : Type 0} (k : Keys P N) (codec : FileCodec P) (tools : Tools P) where
  unfoldable pub cmd_sign_node : List String → Outcome N
  cmd_sign_node args = write_out tools (do
    ca_path ← or_fail (parse_flag args "-ca-key") (missing_flag "-ca-key")
    out ← or_fail (parse_flag args "-out") (missing_flag "-out")
    validity ← validity_of tools args
    (ca_ac, ca_file) ← failing bad_file (read_ca_key codec (tools.read ca_path))
    (f, cert) ← signed_node k tools ca_ac ca_file validity
    bytes ← or_fail (marshal_node_cert codec f) not_encoded
    ok (out, bytes, ok (node_cert_created cert.node_id f.issuer_ca_hash)))
