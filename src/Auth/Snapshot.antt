-- ===== src/Auth/Snapshot.antt =====
-- internal/auth/snapshot.go: peer certificates are interface values that may answer a method
-- differently each time, so each is read into a frozen copy.
pub mod Frozen
use ouroboros_db.Base.{
  ℕ, suc, ◌+◌, String, Bool, true, false, not, List, [], ◌∷◌, Option, none, some, Result, ok, err,
  ◌>>=◌, ◌>>◌, or_fail, fail_if, Eq, ◌==◌, eqb, ℤ, ◌≡◌,
}
use ouroboros_db.Auth.Types.{
  Bytes, Keys, CertSnapshot, Error, external, unsupported_cert_version, stateful_cert,
  nil_cert_entry, default_cert_version,
}

-- `canonical.NodeCertLike`. A method's argument is the number of method calls that were made to
-- the value before, so that an answer may change from call to call.
pub record NodeCertLike (P N : Type 0) : Type 0 where
  pub cert_version : ℕ → ℕ
  pub node_pub_key : ℕ → P
  pub issuer_ca_hash : ℕ → String
  pub valid_from : ℕ → ℤ
  pub valid_until : ℕ → ℤ
  pub serial : ℕ → Bytes
  pub cert_nonce : ℕ → Bytes
  pub node_id : ℕ → N

module _ {P N : Type 0} ⦃e : Eq N⦄ (k : Keys P N) where
  -- The calls of the code in their order: the version is read twice.
  unfoldable pub snapshot_cert : NodeCertLike P N → Result Error (CertSnapshot P N)
  snapshot_cert c = do
    fail_if (not (eqb (c.cert_version 0) default_cert_version)) unsupported_cert_version
    let pub_key = c.node_pub_key 1
    derived_nid ← or_fail (k.node_id pub_key) external
    let reported_nid = c.node_id 2
    fail_if (not (derived_nid == reported_nid)) stateful_cert
    ok (record {
      cert_version = c.cert_version 3;
      node_pub_key = pub_key;
      issuer_ca_hash = c.issuer_ca_hash 4;
      valid_from = c.valid_from 5;
      valid_until = c.valid_until 6;
      serial = c.serial 7;
      cert_nonce = c.cert_nonce 8;
      node_id = derived_nid;
    })

  unfoldable pub snapshot_certs :
      List (Option (NodeCertLike P N)) → Result Error (List (CertSnapshot P N))
  snapshot_certs [] = ok []
  snapshot_certs (none ∷ cs) = err nil_cert_entry
  snapshot_certs (some c ∷ cs) = do
    snap ← snapshot_cert c
    rest ← snapshot_certs cs
    ok (snap ∷ rest)
