-- ===== src/Auth/Canonical.antt =====
-- internal/auth/canonical/canonical.go: the bytes that are signed. `sort.Slice` by `bytes.Compare`
-- is an insertion sort; entries that compare equal are the same bytes, so every sort agrees.
pub mod Order
pub mod Domain
use ouroboros_db.Base.{
  ℕ, suc, ◌+◌, ◌/◌, ◌%◌, ◌^◌, Bool, true, false, List, [], ◌∷◌, ◌++◌, Option, none, some, Result,
  ok, err, ◌>>=◌, or_fail, ltb, eqb, if◌then◌else◌, length,
}
use ouroboros_db.Auth.Types.{
  Bytes, Keys, CertSnapshot, CanonicalCert, DelegationProof, DelegationNoExporter, Error, external,
}

-- `bytes.Compare(a, b) < 0`.
abbrev pub bytes_lt : Bytes → Bytes → Bool
bytes_lt xs [] = false
bytes_lt [] (y ∷ ys) = true
bytes_lt (x ∷ xs) (y ∷ ys) = if ltb x y then true else if eqb x y then bytes_lt xs ys else false

unfoldable pub insert_sorted : Bytes → List Bytes → List Bytes
insert_sorted x [] = x ∷ []
insert_sorted x (y ∷ ys) = if bytes_lt y x then y ∷ insert_sorted x ys else x ∷ y ∷ ys

unfoldable pub sort_entries : List Bytes → List Bytes
sort_entries [] = []
sort_entries (x ∷ xs) = insert_sorted x (sort_entries xs)

-- The four bytes of the length, the context, the data.
unfoldable pub domain_separate : Bytes → Bytes → Bytes
domain_separate ctx body =
    (l / 2 ^ 24 % 256) ∷ (l / 2 ^ 16 % 256) ∷ (l / 2 ^ 8 % 256) ∷ (l % 256) ∷ (ctx ++ body)
  where
    l : ℕ
    l = length ctx

module _ {P N : Type 0} (k : Keys P N) where
  unfoldable pub marshal_pub_key_bytes : P → Result Error Bytes
  marshal_pub_key_bytes pub_key = do
    kem ← or_fail (k.marshal_binary_kem pub_key) external
    sign ← or_fail (k.marshal_binary_sign pub_key) external
    ok (kem ++ sign)

  unfoldable pub canonical_node_cert : CertSnapshot P N → Result Error Bytes
  canonical_node_cert cert = do
    node_pub_key ← marshal_pub_key_bytes cert.node_pub_key
    let c : CanonicalCert = record {
      cert_version = cert.cert_version;
      node_pub_key = node_pub_key;
      issuer_ca_hash = cert.issuer_ca_hash;
      valid_from = cert.valid_from;
      valid_until = cert.valid_until;
      serial = cert.serial;
      cert_nonce = cert.cert_nonce;
    }
    or_fail (k.marshal_cert c) external

  -- The loop that encodes each certificate.
  unfoldable pub encode_certs : List (CertSnapshot P N) → Result Error (List Bytes)
  encode_certs [] = ok []
  encode_certs (c ∷ cs) = do enc ← canonical_node_cert c; rest ← encode_certs cs; ok (enc ∷ rest)

  unfoldable pub canonical_node_cert_bundle : List (CertSnapshot P N) → Result Error Bytes
  canonical_node_cert_bundle certs = do
    entries ← encode_certs certs
    or_fail (k.marshal_bundle (sort_entries entries)) external

  unfoldable pub canonical_delegation_proof : DelegationProof → Result Error Bytes
  canonical_delegation_proof proof = or_fail (k.marshal_delegation proof) external

  unfoldable pub canonical_delegation_proof_for_exporter : DelegationProof → Result Error Bytes
  canonical_delegation_proof_for_exporter proof = or_fail (k.marshal_no_exporter d) external
    where
      d : DelegationNoExporter
      d = record {
        tls_cert_pub_key_hash = proof.tls_cert_pub_key_hash;
        tls_transcript_hash = proof.tls_transcript_hash;
        x509_fingerprint = proof.x509_fingerprint;
        node_cert_bundle_hash = proof.node_cert_bundle_hash;
        not_before = proof.not_before;
        not_after = proof.not_after;
      }
