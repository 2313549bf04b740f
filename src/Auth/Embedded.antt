-- ===== src/Auth/Embedded.antt =====
-- internal/auth/trust_snapshot.go: the public authorities that a peer sends along. An admin
-- authority must be trusted already; a user authority is added to this handshake's copy of the
-- store if a trusted admin authority anchors it.
pub mod Trust
use ouroboros_db.Base.{
  String, string_eq, Bool, true, false, not, List, [], ◌∷◌, Option, none, some, Result, ok, err,
  ◌>>=◌, ◌>>◌, or_fail, fail_if, ◌==◌, has, lookup, insert, if◌then◌else◌,
}
use ouroboros_db.Auth.Types.{
  Bytes, Keys, Error, EmbeddedCa, external, ca_revoked, unknown_issuer, anchor_admin_not_found,
  anchor_admin_revoked, invalid_anchor_sig,
}
use ouroboros_db.Auth.Canonical.{domain_separate, marshal_pub_key_bytes}
use ouroboros_db.Auth.Ca.{AdminCa, UserCa, new_admin_ca, new_user_ca, verify, ctx_user_ca_anchor_v1}
use ouroboros_db.Auth.Chain.{TrustSnapshot}

module _ {P N : Type 0} (k : Keys P N) where
  unfoldable pub embedded_authority_pub_key_bytes : EmbeddedCa → Result Error Bytes
  embedded_authority_pub_key_bytes authority = do
    pub_key ← or_fail (k.new_public_key_from_binary authority.pub_kem authority.pub_sign) external
    marshal_pub_key_bytes k pub_key

  unfoldable pub add_embedded_admin :
      TrustSnapshot P N → EmbeddedCa → Result Error (TrustSnapshot P N)
  add_embedded_admin ts authority = do
    pub_bytes ← embedded_authority_pub_key_bytes authority
    admin ← new_admin_ca k pub_bytes
    fail_if (has admin.hash ts.revoked_admin_cas) ca_revoked
    fail_if (not (has admin.hash ts.admin_cas)) unknown_issuer
    ok ts

  -- The checks of `addEmbeddedUser` for an authority that the store does not have.
  unfoldable pub anchor_embedded_user :
      TrustSnapshot P N → EmbeddedCa → Bytes → UserCa P → Result Error (TrustSnapshot P N)
  anchor_embedded_user ts authority pub_bytes user = do
    admin ← or_fail (lookup authority.anchor_admin ts.admin_cas) anchor_admin_not_found
    fail_if (has authority.anchor_admin ts.revoked_admin_cas) anchor_admin_revoked
    let msg = domain_separate ctx_user_ca_anchor_v1 pub_bytes
    fail_if (not (verify k admin.base msg authority.anchor_sig)) invalid_anchor_sig
    ok (record ts { user_cas = insert user.hash user ts.user_cas })

  unfoldable pub add_embedded_user :
      TrustSnapshot P N → EmbeddedCa → Result Error (TrustSnapshot P N)
  add_embedded_user ts authority = do
    pub_bytes ← embedded_authority_pub_key_bytes authority
    user ← new_user_ca k pub_bytes authority.anchor_sig authority.anchor_admin
    fail_if (has user.hash ts.revoked_user_cas) ca_revoked
    if has user.hash ts.user_cas then ok ts else anchor_embedded_user ts authority pub_bytes user

  -- The body of the first loop.
  unfoldable pub admin_round : TrustSnapshot P N → EmbeddedCa → Result Error (TrustSnapshot P N)
  admin_round ts authority =
      if not (authority.ca_type == "admin-ca") then ok ts else add_embedded_admin ts authority

  -- The body of the second loop.
  unfoldable pub user_round : TrustSnapshot P N → EmbeddedCa → Result Error (TrustSnapshot P N)
  user_round ts authority =
      if not (authority.ca_type == "user-ca") then ok ts else add_embedded_user ts authority

  -- The first loop of `withEmbeddedAuthorities`.
  unfoldable pub embed_admins :
      TrustSnapshot P N → List EmbeddedCa → Result Error (TrustSnapshot P N)
  embed_admins ts [] = ok ts
  embed_admins ts (authority ∷ rest) = do next ← admin_round ts authority; embed_admins next rest

  -- The second loop.
  unfoldable pub embed_users :
      TrustSnapshot P N → List EmbeddedCa → Result Error (TrustSnapshot P N)
  embed_users ts [] = ok ts
  embed_users ts (authority ∷ rest) = do next ← user_round ts authority; embed_users next rest

  unfoldable pub with_embedded_authorities :
      TrustSnapshot P N → List EmbeddedCa → Result Error (TrustSnapshot P N)
  with_embedded_authorities ts authorities = do
    clone ← embed_admins ts authorities
    embed_users clone authorities
