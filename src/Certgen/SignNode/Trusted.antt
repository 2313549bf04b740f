-- ===== src/Certgen/SignNode/Trusted.antt =====
-- cmd/certgen and cmd/interactive: a node's file that an admin authority has signed, as the node
-- loads it and as a store that trusts the authority judges its certificate.
use ouroboros_db.Base.{
  String, string_eq, ◌<◌, ◌≡◌, refl, sym, ap, ◌∙◌, true, false, not, [], ◌∷◌, none, some, ok,
  or_fail, fail_if, some-injective, ◌≤ℤ◌, arith, >>=-eq-ok, or_fail-eq-ok, Eq, lookup, has, length,
  ℤ, ltb_ℤ, ==_refl,
}
use ouroboros_db.Auth.Types.{Bytes, Keys, CertSnapshot, external, invalid_ca_signature}
use ouroboros_db.Auth.Canonical.{marshal_pub_key_bytes, canonical_node_cert, domain_separate}
use ouroboros_db.Auth.Ca.{AdminCa, kem_public_key_size, ctx_node_admission_v1, verify_node_cert}
use ouroboros_db.Auth.Store.{CarrierAuth}
use ouroboros_db.Auth.Chain.{
  snap_trust_store, issuer_admin, is_cert_valid, verify_single_cert, lookup_issuer, is_ca_revoked,
  is_node_revoked, is_user_ca_anchor_valid,
}
use ouroboros_db.Auth.Embedded.{
  embedded_authority_pub_key_bytes, add_embedded_admin, admin_round, user_round, embed_admins,
  embed_users, with_embedded_authorities,
}
use ouroboros_db.Auth.Verify.{trust_for}
use ouroboros_db.AuthFile.{to_auth_embedded_ca}
use ouroboros_db.AuthFile.Identity.{admin_authority, admin_of, own_admin}

-- The store trusts the authority under the hash, has revoked neither it nor the node, and knows no
-- user authority under the same hash.
pub record Trusts {P N H : Type 0} ⦃e : Eq N⦄ (ca : CarrierAuth P N H) (h : String)
    (admin : AdminCa P) (nid : N) : Type 0 where
  pub trusted : lookup h ca.admin_cas ≡ some admin
  pub not_revoked : has h ca.revoked_admin_cas ≡ false
  pub no_revoked_user : has h ca.revoked_user_cas ≡ false
  pub no_user : lookup h ca.user_cas ≡ none
  pub node_not_revoked : has nid ca.revoked_nodes ≡ false

module _ {P N H : Type 0} ⦃e : Eq N⦄ (ca : CarrierAuth P N H) (h : String) (admin : AdminCa P)
    (nid : N) (t : Trusts ca h admin nid) where
  issuer_known :
      lookup_issuer (snap_trust_store ca) h
      ≡ some (record { typ = issuer_admin; verifier = admin.base })
  unfolding lookup_issuer snap_trust_store
  issuer_known = rw (t.trusted, lookup_issuer) refl

  issuer_live : is_ca_revoked (snap_trust_store ca) h ≡ false
  unfolding is_ca_revoked snap_trust_store
  issuer_live = rw (t.not_revoked, t.no_revoked_user, is_ca_revoked) refl

  no_anchor : is_user_ca_anchor_valid (snap_trust_store ca) h ≡ true
  unfolding is_user_ca_anchor_valid snap_trust_store
  no_anchor = rw (t.no_user, is_user_ca_anchor_valid) refl

  node_live : is_node_revoked (snap_trust_store ca) nid ≡ false
  unfolding is_node_revoked snap_trust_store
  node_live = t.node_not_revoked

module _ {P N : Type 0} (k : Keys P N) where
  verified_id :
      (admin : AdminCa P) (cert : CertSnapshot P N) (sig : Bytes) (nid : N)
      → k.node_id cert.node_pub_key ≡ some cert.node_id
      → verify_node_cert k admin.base cert sig ≡ ok nid
      → nid ≡ cert.node_id
  unfolding verify_node_cert
  verified_id admin cert sig nid derived h =
      let (data_bytes, encoded, h₁) = >>=-eq-ok (canonical_node_cert k cert) _ h in
      let (_, holds, h₂) =
        >>=-eq-ok
          (fail_if
            (not (k.verify admin.pub_key (domain_separate ctx_node_admission_v1 data_bytes) sig))
            invalid_ca_signature)
          (λ done. or_fail (k.node_id cert.node_pub_key) external) h₁ in
      some-injective (sym (or_fail-eq-ok _ external h₂) ∙ derived)

module _ {P N : Type 0} ⦃e : Eq N⦄ (k : Keys P N)
    (parse_back : (p : P) (kem sign : Bytes)
      → k.marshal_binary_kem p ≡ some kem
      → k.marshal_binary_sign p ≡ some sign
      → (length kem ≡ kem_public_key_size)
        × (0 < length sign)
        × (k.new_public_key_from_binary kem sign ≡ some p)) where
  -- The authority that the node presents is one that the store trusts, so the store stays as it is.
  pub trust_for-own :
      {H : Type 0} (ca : CarrierAuth P N H) (p : P) (kem sign : Bytes) (nid : N)
      → k.marshal_binary_kem p ≡ some kem
      → k.marshal_binary_sign p ≡ some sign
      → Trusts ca (admin_of k p kem sign).hash (admin_of k p kem sign) nid
      → trust_for k ca (to_auth_embedded_ca (admin_authority kem sign) ∷ [])
        ≡ ok (snap_trust_store ca)
  unfolding trust_for with_embedded_authorities embed_admins embed_users admin_round user_round
      add_embedded_admin to_auth_embedded_ca embedded_authority_pub_key_bytes snap_trust_store
      marshal_pub_key_bytes
  trust_for-own ca p kem sign nid hk hs t =
      let (bytes, parsed) = own_admin k parse_back p kem sign hk hs in
      let (sized, long, back) = parse_back p kem sign hk hs in
      rw (back, hk, hs, parsed, t.not_revoked, t.trusted) refl

  -- The authority's certificate for the node is valid within its window for every such store.
  pub is_cert_valid-own :
      {H : Type 0} (ca : CarrierAuth P N H) (admin : AdminCa P) (cert : CertSnapshot P N) (now : ℤ)
      → Trusts ca cert.issuer_ca_hash admin cert.node_id
      → k.node_id cert.node_pub_key ≡ some cert.node_id
      → cert.valid_from ≤ℤ now
      → now ≤ℤ cert.valid_until
      → is_cert_valid k (snap_trust_store ca) cert now ≡ true
  unfolding is_cert_valid
  is_cert_valid-own ca admin cert now t derived begun lasting =
      let early : ltb_ℤ now cert.valid_from ≡ false = ground (arith, begun) in
      let late : ltb_ℤ cert.valid_until now ≡ false = ground (arith, lasting) in
      let known = issuer_known ca cert.issuer_ca_hash admin cert.node_id t in
      let live = issuer_live ca cert.issuer_ca_hash admin cert.node_id t in
      let anchor = no_anchor ca cert.issuer_ca_hash admin cert.node_id t in
      let node = node_live ca cert.issuer_ca_hash admin cert.node_id t in
      rw (early, late, known, live, anchor, derived, node) refl

  -- Its signature is the authority's.
  pub verify_single_cert-own :
      {H : Type 0} (ca : CarrierAuth P N H) (admin : AdminCa P) (cert : CertSnapshot P N)
      (sig : Bytes) (nid : N)
      → Trusts ca cert.issuer_ca_hash admin cert.node_id
      → k.node_id cert.node_pub_key ≡ some cert.node_id
      → verify_node_cert k admin.base cert sig ≡ ok nid
      → verify_single_cert k (snap_trust_store ca) cert sig
        ≡ ok (cert.node_id, cert.node_pub_key, issuer_admin)
  unfolding verify_single_cert
  verify_single_cert-own ca admin cert sig nid t derived verified =
      let same : verify_node_cert k admin.base cert sig ≡ ok cert.node_id =
        verified ∙ ap ok (verified_id k admin cert sig nid derived verified) in
      let known = issuer_known ca cert.issuer_ca_hash admin cert.node_id t in
      rw (known, same, derived, ==_refl cert.node_id) refl
