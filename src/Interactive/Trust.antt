-- ===== src/Interactive/Trust.antt =====
-- cmd/interactive/main.go: the node's identity and its trust store, from its files. A path's
-- content is an argument, `none` if it cannot be read. A store with an error is not used.
use ouroboros_db.Base.{
  string_eq, ◌&&◌, List, [], ◌∷◌, Option, none, some, Result, ok, err, ◌>>=◌, ◌==◌, eqb, length,
  if◌then◌else◌,
}
use ouroboros_db.Auth.Types.{Bytes, Keys, Error}
use ouroboros_db.Auth.Canonical.{marshal_pub_key_bytes}
use ouroboros_db.Auth.Store.{CarrierAuth, new_carrier_auth, add_admin_pub_key, add_user_pub_key}
use ouroboros_db.Auth.Delegation.{NodeIdentity, Session}
use ouroboros_db.AuthFile.{
  CaKeyFile, FileCodec, FileError, read_ca_key, read_node_cert, node_cert_to_identity,
}
use ouroboros_db.AuthFile.Trust.{add_embedded_trust}
use ouroboros_db.Start.{Text, IdentityConfig}

pub data LoadError : Type 0 where
  bad_file : FileError → LoadError
  bad_key not_added : Error → LoadError
  unsupported_ca_type : LoadError

-- An error under the name of the step.
abbrev pub loading {ℓ} :
    {E : Type 0} {A : Type ℓ} → (E → LoadError) → Result E A → Result LoadError A
loading as_error (ok a) = ok a
loading as_error (err e) = err (as_error e)

-- A store after a call of one of its methods.
abbrev pub if_added : {S : Type 0} → S × Option Error → Result LoadError S
if_added (store, none) = ok store
if_added (store, some e) = err (not_added e)

module _ {P N : Type 0} (k : Keys P N) (codec : FileCodec P) (read : Text → Option Bytes) where
  -- A session is made for the identity.
  unfoldable pub load_node_identity : Option Session → Text → Result LoadError (NodeIdentity P N)
  load_node_identity session path = do
    (ac, f) ← loading bad_file (read_node_cert codec (read path))
    loading bad_file (node_cert_to_identity k ac f session)

  unfoldable pub add_by_type :
      {H : Type 0} → CarrierAuth P N H → CaKeyFile → Bytes → Result LoadError (CarrierAuth P N H)
  add_by_type store f pub_bytes =
      if f.file_type == "admin-ca"
      then if_added (add_admin_pub_key k store pub_bytes)
      else if f.file_type == "user-ca"
      then if_added (add_user_pub_key k store pub_bytes f.anchor_sig f.anchor_admin)
      else err unsupported_ca_type

  unfoldable pub add_ca_file :
      {H : Type 0} → CarrierAuth P N H → Text → Result LoadError (CarrierAuth P N H)
  add_ca_file store path = do
    (ac, f) ← loading bad_file (read_ca_key codec (read path))
    pub_bytes ← loading bad_key (marshal_pub_key_bytes k ac.pub_key)
    add_by_type store f pub_bytes

  -- Either loop.
  unfoldable pub add_ca_files :
      {H : Type 0} → CarrierAuth P N H → List Text → Result LoadError (CarrierAuth P N H)
  add_ca_files store [] = ok store
  add_ca_files store (path ∷ paths) = do next ← add_ca_file store path; add_ca_files next paths

  -- With no authority's file named, the node's own file says whom it trusts.
  unfoldable pub load_carrier_auth :
      {H : Type 0} → IdentityConfig → Result LoadError (CarrierAuth P N H)
  load_carrier_auth conf =
      if eqb (length conf.admin_ca_paths) 0 && eqb (length conf.user_ca_paths) 0
      then (do
        (ac, f) ← loading bad_file (read_node_cert codec (read conf.node_cert_path))
        if_added (add_embedded_trust k new_carrier_auth f))
      else (do
        with_admins ← add_ca_files new_carrier_auth conf.admin_ca_paths
        add_ca_files with_admins conf.user_ca_paths)
