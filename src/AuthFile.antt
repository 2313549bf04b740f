-- ===== src/AuthFile.antt =====
-- pkg/authfile: the files in which authorities and nodes keep their keys, and the trust that a node
-- takes from its own. A file's content is an argument, `none` if it cannot be read; protobuf and
-- the JSON form of a key pair are outside the repository.
pub mod Trust
pub mod RoundTrip
pub mod Calls
pub mod Identity
use ouroboros_db.Base.{
  ℕ, String, string_eq, Bool, true, false, not, ◌&&◌, ◌||◌, List, [], ◌∷◌, Option, none, some,
  Result, ok, err, ◌>>=◌, ◌>>◌, or_fail, fail_if, ◌==◌, eqb, length, map, ℤ, if◌then◌else◌,
}
use ouroboros_db.Auth.Types.{Bytes, Keys, EmbeddedCa, Error}
use ouroboros_db.Auth.Canonical.{marshal_pub_key_bytes}
use ouroboros_db.Auth.Store.{CarrierAuth, add_admin_pub_key, add_user_pub_key}
use ouroboros_db.Auth.Delegation.{
  NodeKey, NodeIdentity, Session, IdentityError, new_node_cert, new_node_identity,
}

pub record CaKeyFile : Type 0 where
  pub file_type : String
  pub key_json : Bytes
  pub anchor_sig : Bytes
  pub anchor_admin : String
  pub anchor_admin_pub_kem : Bytes
  pub anchor_admin_pub_sign : Bytes

pub record EmbeddedCaFile : Type 0 where
  pub ca_type : String
  pub pub_kem : Bytes
  pub pub_sign : Bytes
  pub anchor_sig : Bytes
  pub anchor_admin : String

pub record NodeCertFile : Type 0 where
  pub file_type : String
  pub key_json : Bytes
  pub ca_pub_kem : Bytes
  pub ca_pub_sign : Bytes
  pub ca_signature : Bytes
  pub authorities : List EmbeddedCaFile
  pub issuer_ca_hash : String
  pub valid_from : ℤ
  pub valid_until : ℤ
  pub serial : Bytes
  pub cert_nonce : Bytes

-- `pb.CAKeyFile`.
pub record PbCaKeyFile : Type 0 where
  pub file_type : String
  pub key_json : Bytes
  pub anchor_sig : Bytes
  pub anchor_admin : String
  pub anchor_admin_pub_kem : Bytes
  pub anchor_admin_pub_sign : Bytes

-- `pb.EmbeddedCAFile`.
pub record PbEmbeddedCaFile : Type 0 where
  pub ca_type : String
  pub pub_kem : Bytes
  pub pub_sign : Bytes
  pub anchor_sig : Bytes
  pub anchor_admin : String

-- `pb.NodeCertFile`.
pub record PbNodeCertFile : Type 0 where
  pub file_type : String
  pub key_json : Bytes
  pub ca_pub_kem : Bytes
  pub ca_pub_sign : Bytes
  pub ca_signature : Bytes
  pub authorities : List PbEmbeddedCaFile
  pub issuer_ca_hash : String
  pub valid_from : ℤ
  pub valid_until : ℤ
  pub serial : Bytes
  pub cert_nonce : Bytes

-- The encoder at the two messages, and `LoadKeyFromJSON`.
pub record FileCodec (P : Type 0) : Type 0 where
  pub marshal_ca_file : PbCaKeyFile → Option Bytes
  pub unmarshal_ca_file : Bytes → Option PbCaKeyFile
  pub marshal_node_file : PbNodeCertFile → Option Bytes
  pub unmarshal_node_file : Bytes → Option PbNodeCertFile
  pub load_key : Bytes → Option (NodeKey P)

pub data FileError : Type 0 where
  unreadable undecodable wrong_type no_key : FileError
  bad_ca_key missing_anchor_key unsupported_type : FileError
  not_made : IdentityError → FileError
  bad_cert : Error → FileError

unfoldable pub ca_file_to_pb : CaKeyFile → PbCaKeyFile
ca_file_to_pb f = record {
  file_type = f.file_type;
  key_json = f.key_json;
  anchor_sig = f.anchor_sig;
  anchor_admin = f.anchor_admin;
  anchor_admin_pub_kem = f.anchor_admin_pub_kem;
  anchor_admin_pub_sign = f.anchor_admin_pub_sign;
}

unfoldable pub ca_file_of_pb : PbCaKeyFile → CaKeyFile
ca_file_of_pb msg = record {
  file_type = msg.file_type;
  key_json = msg.key_json;
  anchor_sig = msg.anchor_sig;
  anchor_admin = msg.anchor_admin;
  anchor_admin_pub_kem = msg.anchor_admin_pub_kem;
  anchor_admin_pub_sign = msg.anchor_admin_pub_sign;
}

unfoldable pub authority_to_pb : EmbeddedCaFile → PbEmbeddedCaFile
authority_to_pb a = record {
  ca_type = a.ca_type;
  pub_kem = a.pub_kem;
  pub_sign = a.pub_sign;
  anchor_sig = a.anchor_sig;
  anchor_admin = a.anchor_admin;
}

unfoldable pub authority_of_pb : PbEmbeddedCaFile → EmbeddedCaFile
authority_of_pb a = record {
  ca_type = a.ca_type;
  pub_kem = a.pub_kem;
  pub_sign = a.pub_sign;
  anchor_sig = a.anchor_sig;
  anchor_admin = a.anchor_admin;
}

unfoldable pub node_file_to_pb : NodeCertFile → PbNodeCertFile
node_file_to_pb f = record {
  file_type = f.file_type;
  key_json = f.key_json;
  ca_pub_kem = f.ca_pub_kem;
  ca_pub_sign = f.ca_pub_sign;
  ca_signature = f.ca_signature;
  authorities = map authority_to_pb f.authorities;
  issuer_ca_hash = f.issuer_ca_hash;
  valid_from = f.valid_from;
  valid_until = f.valid_until;
  serial = f.serial;
  cert_nonce = f.cert_nonce;
}

unfoldable pub node_file_of_pb : PbNodeCertFile → NodeCertFile
node_file_of_pb msg = record {
  file_type = msg.file_type;
  key_json = msg.key_json;
  ca_pub_kem = msg.ca_pub_kem;
  ca_pub_sign = msg.ca_pub_sign;
  ca_signature = msg.ca_signature;
  authorities = map authority_of_pb msg.authorities;
  issuer_ca_hash = msg.issuer_ca_hash;
  valid_from = msg.valid_from;
  valid_until = msg.valid_until;
  serial = msg.serial;
  cert_nonce = msg.cert_nonce;
}

-- `toAuthEmbeddedCAs` maps it over a list.
unfoldable pub to_auth_embedded_ca : EmbeddedCaFile → EmbeddedCa
to_auth_embedded_ca a = record {
  ca_type = a.ca_type;
  pub_kem = a.pub_kem;
  pub_sign = a.pub_sign;
  anchor_sig = a.anchor_sig;
  anchor_admin = a.anchor_admin;
}

-- A step's error under the name of the step.
abbrev pub under {ℓ} : {E : Type 0} {A : Type ℓ} → (E → FileError) → Result E A → Result FileError A
under as_error (ok a) = ok a
under as_error (err e) = err (as_error e)

module _ {P : Type 0} (codec : FileCodec P) where
  unfoldable pub marshal_ca_key : CaKeyFile → Option Bytes
  marshal_ca_key f = codec.marshal_ca_file (ca_file_to_pb f)

  unfoldable pub marshal_node_cert : NodeCertFile → Option Bytes
  marshal_node_cert f = codec.marshal_node_file (node_file_to_pb f)

  unfoldable pub unmarshal_ca_key : Bytes → Result FileError CaKeyFile
  unmarshal_ca_key bytes = do
    msg ← or_fail (codec.unmarshal_ca_file bytes) undecodable
    ok (ca_file_of_pb msg)

  unfoldable pub unmarshal_node_cert : Bytes → Result FileError NodeCertFile
  unmarshal_node_cert bytes = do
    msg ← or_fail (codec.unmarshal_node_file bytes) undecodable
    ok (node_file_of_pb msg)

  unfoldable pub read_ca_key : Option Bytes → Result FileError (NodeKey P × CaKeyFile)
  read_ca_key content = do
    bytes ← or_fail content unreadable
    f ← unmarshal_ca_key bytes
    fail_if (not (f.file_type == "admin-ca") && not (f.file_type == "user-ca")) wrong_type
    ac ← or_fail (codec.load_key f.key_json) no_key
    ok (ac, f)

  unfoldable pub read_node_cert : Option Bytes → Result FileError (NodeKey P × NodeCertFile)
  read_node_cert content = do
    bytes ← or_fail content unreadable
    f ← unmarshal_node_cert bytes
    fail_if (not (f.file_type == "node-cert")) wrong_type
    ac ← or_fail (codec.load_key f.key_json) no_key
    ok (ac, f)

module _ {P N : Type 0} (k : Keys P N) where
  unfoldable pub node_cert_to_identity :
      NodeKey P → NodeCertFile → Option Session → Result FileError (NodeIdentity P N)
  node_cert_to_identity ac f session = do
    cert ← under bad_cert (
        new_node_cert k ac.pub_key f.issuer_ca_hash f.valid_from f.valid_until f.serial
          f.cert_nonce)
    under not_made (
        new_node_identity ac (cert ∷ []) (f.ca_signature ∷ [])
          (map to_auth_embedded_ca f.authorities) session)

  unfoldable pub build_embedded_trust_chain :
      NodeKey P → CaKeyFile → Result FileError (List EmbeddedCaFile)
  build_embedded_trust_chain ac f = do
    pub_kem ← or_fail (k.marshal_binary_kem ac.pub_key) bad_ca_key
    pub_sign ← or_fail (k.marshal_binary_sign ac.pub_key) bad_ca_key
    if f.file_type == "admin-ca"
        then ok (
            record {
              ca_type = "admin-ca";
              pub_kem = pub_kem;
              pub_sign = pub_sign;
              anchor_sig = [];
              anchor_admin = "";
            }
            ∷ [])
        else if f.file_type == "user-ca"
        then (if eqb (length f.anchor_admin_pub_kem) 0 || eqb (length f.anchor_admin_pub_sign) 0
            then err missing_anchor_key
            else ok (
                record {
                  ca_type = "admin-ca";
                  pub_kem = f.anchor_admin_pub_kem;
                  pub_sign = f.anchor_admin_pub_sign;
                  anchor_sig = [];
                  anchor_admin = "";
                }
                ∷ record {
                  ca_type = "user-ca";
                  pub_kem = pub_kem;
                  pub_sign = pub_sign;
                  anchor_sig = f.anchor_sig;
                  anchor_admin = f.anchor_admin;
                }
                ∷ []))
        else err unsupported_type
