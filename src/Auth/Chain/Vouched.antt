-- ===== src/Auth/Chain/Vouched.antt =====
-- What it takes for a certificate to count.
use ouroboros_db.Base.{
  string_eq, ◌≡◌, true, false, some, ok, Eq, ℤ, ◌≤ℤ◌, arith, Option-cases, Result-cases, inl, inr,
}
use ouroboros_db.Auth.Types.{Bytes, Keys, CertSnapshot}
use ouroboros_db.Auth.Canonical.{domain_separate, canonical_node_cert}
use ouroboros_db.Auth.Ca.{verify_node_cert, ctx_node_admission_v1}
use ouroboros_db.Auth.Chain.{
  TrustSnapshot, IssuerType, IssuerInfo, lookup_issuer, is_ca_revoked, is_node_revoked,
  is_user_ca_anchor_valid, is_cert_valid, verify_single_cert,
}

module _ {P N : Type 0} ⦃e : Eq N⦄ (k : Keys P N) (ts : TrustSnapshot P N) (now : ℤ) where
  -- The certificate is within its time window, its issuer is a trusted authority of the given type
  -- that is not revoked and whose anchor is trusted and not revoked, the node is not revoked, and
  -- the issuer's key signed the certificate's canonical bytes under the admission context.
  pub record IsVouched (cert : CertSnapshot P N) (sig : Bytes) (nid : N) (typ : IssuerType)
      : Type 0 where
    pub started : cert.valid_from ≤ℤ now
    pub not_ended : now ≤ℤ cert.valid_until
    pub issuer : IssuerInfo P
    pub issuer_known : lookup_issuer ts cert.issuer_ca_hash ≡ some issuer
    pub issuer_typ : issuer.typ ≡ typ
    pub ca_not_revoked : is_ca_revoked ts cert.issuer_ca_hash ≡ false
    pub anchor_valid : is_user_ca_anchor_valid ts cert.issuer_ca_hash ≡ true
    pub node_derived : k.node_id cert.node_pub_key ≡ some nid
    pub node_not_revoked : is_node_revoked ts nid ≡ false
    pub canonical : Bytes
    pub encoded : canonical_node_cert k cert ≡ ok canonical
    pub signed :
        k.verify issuer.verifier.pub_key (domain_separate ctx_node_admission_v1 canonical) sig
        ≡ true

  is_cert_valid_window :
      (cert : CertSnapshot P N)
      → is_cert_valid k ts cert now ≡ true
      → (cert.valid_from ≤ℤ now) × (now ≤ℤ cert.valid_until)
  unfolding is_cert_valid
  is_cert_valid_window cert h = ground arith

  is_cert_valid_ca :
      (cert : CertSnapshot P N)
      → is_cert_valid k ts cert now ≡ true
      → (is_ca_revoked ts cert.issuer_ca_hash ≡ false)
        × (is_user_ca_anchor_valid ts cert.issuer_ca_hash ≡ true)
  unfolding is_cert_valid
  is_cert_valid_ca cert h = ground arith

  is_cert_valid_node :
      (cert : CertSnapshot P N) (nid : N)
      → is_cert_valid k ts cert now ≡ true
      → k.node_id cert.node_pub_key ≡ some nid
      → is_node_revoked ts nid ≡ false
  unfolding is_cert_valid
  is_cert_valid_node cert nid h n = ground arith

  verify_node_cert-ok :
      (i : IssuerInfo P) (cert : CertSnapshot P N) (sig : Bytes) (nid : N)
      → verify_node_cert k i.verifier cert sig ≡ ok nid
      → (canonical : Bytes) × (canonical_node_cert k cert ≡ ok canonical)
        × (k.verify i.verifier.pub_key (domain_separate ctx_node_admission_v1 canonical) sig ≡ true)
        × (k.node_id cert.node_pub_key ≡ some nid)
  unfolding verify_node_cert
  verify_node_cert-ok i cert sig nid h = elim (Result-cases (canonical_node_cert k cert)) [
    | inl (canonical, enc) ↦ (canonical, enc, ground arith, ground arith)
    | inr (bad, enc) ↦ ground arith
  ]

  verify_single_cert-ok :
      (cert : CertSnapshot P N) (sig : Bytes) (nid : N) (pub_key : P) (typ : IssuerType)
      → verify_single_cert k ts cert sig ≡ ok (nid, pub_key, typ)
      → (i : IssuerInfo P) × (lookup_issuer ts cert.issuer_ca_hash ≡ some i)
        × (i.typ ≡ typ)
        × (verify_node_cert k i.verifier cert sig ≡ ok nid)
        × (cert.node_pub_key ≡ pub_key)
  unfolding verify_single_cert
  verify_single_cert-ok cert sig nid pub_key typ h =
      elim (Option-cases (lookup_issuer ts cert.issuer_ca_hash)) [
        | inl missing ↦ ground arith
        | inr (i, known) ↦ (i, known, ground arith, ground arith, ground arith)
      ]

  pub vouched :
      (cert : CertSnapshot P N) (sig : Bytes) (nid : N) (pub_key : P) (typ : IssuerType)
      → is_cert_valid k ts cert now ≡ true
      → verify_single_cert k ts cert sig ≡ ok (nid, pub_key, typ)
      → IsVouched cert sig nid typ × (cert.node_pub_key ≡ pub_key)
  vouched cert sig nid pub_key typ valid single =
      let (i, known, same_typ, signed, same_key) =
        verify_single_cert-ok cert sig nid pub_key typ single in
      let (canonical, encoded, verified, derived) = verify_node_cert-ok i cert sig nid signed in
      (
        record {
          started = (is_cert_valid_window cert valid).0;
          not_ended = (is_cert_valid_window cert valid).1;
          issuer = i;
          issuer_known = known;
          issuer_typ = same_typ;
          ca_not_revoked = (is_cert_valid_ca cert valid).0;
          anchor_valid = (is_cert_valid_ca cert valid).1;
          node_derived = derived;
          node_not_revoked = is_cert_valid_node cert nid valid derived;
          canonical = canonical;
          encoded = encoded;
          signed = verified;
        },
        same_key,
      )
