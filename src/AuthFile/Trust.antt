-- ===== src/AuthFile/Trust.antt =====
-- pkg/authfile: the authorities of a node certificate's file as a trust store takes them.
use ouroboros_db.Base.{
  string_eq, not, List, [], ◌∷◌, Option, none, some, is_some, Result, ok, err, ◌>>=◌, or_fail, ◌==◌,
  eqb, length, if◌then◌else◌,
}
use ouroboros_db.Auth.Types.{Bytes, Keys, Error, external}
use ouroboros_db.Auth.Canonical.{marshal_pub_key_bytes}
use ouroboros_db.Auth.Store.{CarrierAuth, add_admin_pub_key, add_user_pub_key}
use ouroboros_db.AuthFile.{EmbeddedCaFile, NodeCertFile}

-- A file without authorities is an old one: its issuer counts as an admin authority.
unfoldable pub trusted_authorities : NodeCertFile → List EmbeddedCaFile
trusted_authorities f =
    if eqb (length f.authorities) 0
    then record {
      ca_type = "admin-ca";
      pub_kem = f.ca_pub_kem;
      pub_sign = f.ca_pub_sign;
      anchor_sig = [];
      anchor_admin = "";
    }
      ∷ []
    else f.authorities

module _ {P N : Type 0} (k : Keys P N) where
  unfoldable pub embedded_ca_pub_key_bytes : EmbeddedCaFile → Result Error Bytes
  embedded_ca_pub_key_bytes authority = do
    pub_key ← or_fail (k.new_public_key_from_binary authority.pub_kem authority.pub_sign) external
    marshal_pub_key_bytes k pub_key

module _ {P N H : Type 0} (k : Keys P N) where
  -- The body of the first loop of `AddEmbeddedTrust`.
  unfoldable pub trust_admin : CarrierAuth P N H → EmbeddedCaFile → CarrierAuth P N H × Option Error
  trust_admin store authority =
      if not (authority.ca_type == "admin-ca")
      then (store, none)
      else elim (embedded_ca_pub_key_bytes k authority) [
        | err e ↦ (store, some e)
        | ok pub_bytes ↦ add_admin_pub_key k store pub_bytes
      ]

  -- The body of the second loop.
  unfoldable pub trust_user : CarrierAuth P N H → EmbeddedCaFile → CarrierAuth P N H × Option Error
  trust_user store authority =
      if not (authority.ca_type == "user-ca")
      then (store, none)
      else elim (embedded_ca_pub_key_bytes k authority) [
        | err e ↦ (store, some e)
        | ok pub_bytes ↦
            add_user_pub_key k store pub_bytes authority.anchor_sig authority.anchor_admin
      ]

  -- A loop that ends at the first error; what was added before stays.
  unfoldable pub trust_each :
      (CarrierAuth P N H → EmbeddedCaFile → CarrierAuth P N H × Option Error)
      → CarrierAuth P N H
      → List EmbeddedCaFile
      → CarrierAuth P N H × Option Error
  trust_each body store [] = (store, none)
  trust_each body store (authority ∷ rest) =
      let (next, failed) = body store authority in
      let others = trust_each body next rest in if is_some failed then (next, failed) else others

  -- Both loops, over the same authorities.
  unfoldable pub trust_authorities :
      CarrierAuth P N H → List EmbeddedCaFile → CarrierAuth P N H × Option Error
  trust_authorities store authorities =
      let (admins, failed) = trust_each trust_admin store authorities in
      elim failed [ some e ↦ (admins, some e) | none ↦ trust_each trust_user admins authorities ]

  unfoldable pub add_embedded_trust :
      CarrierAuth P N H → NodeCertFile → CarrierAuth P N H × Option Error
  add_embedded_trust store f = trust_authorities store (trusted_authorities f)
