-- ===== src/Auth/Ca.antt =====
-- internal/auth/ca.
use ouroboros_db.Base.{
  ℕ, String, Bool, Result, ok, ◌>>=◌, ◌>>◌, or_fail, fail_if, not, leb, length, take, drop,
}
use ouroboros_db.Auth.Types.{
  Bytes, Keys, CertSnapshot, Error, codes, external, public_key_too_short, invalid_ca_signature,
}
use ouroboros_db.Auth.Canonical.{domain_separate, canonical_node_cert, marshal_pub_key_bytes}

abbrev pub kem_public_key_size : ℕ
kem_public_key_size = 1568

abbrev pub ctx_node_admission_v1 : Bytes
ctx_node_admission_v1 = codes "OUROBOROS_NODE_ADMISSION_V1"

abbrev pub ctx_user_ca_anchor_v1 : Bytes
ctx_user_ca_anchor_v1 = codes "OUROBOROS_USER_CA_ANCHOR_V1"

pub record CaBase (P : Type 0) : Type 0 where
  pub pub_key : P
  pub pub_key_bytes : Bytes
  pub hash : String

pub record AdminCa (P : Type 0) : Type 0 where
  pub base : CaBase P
  pub open base use *

pub record UserCa (P : Type 0) : Type 0 where
  pub base : CaBase P
  pub open base use *
  pub anchor_sig : Bytes
  pub anchor_admin_hash : String

module _ {P N : Type 0} (k : Keys P N) where
  unfoldable pub split_and_parse_pub_key : Bytes → Result Error P
  split_and_parse_pub_key pub_key_bytes = do
    fail_if (leb (length pub_key_bytes) kem_public_key_size) public_key_too_short
    or_fail (k.new_public_key_from_binary kem_bytes sign_bytes) external
    where
      kem_bytes : Bytes
      kem_bytes = take kem_public_key_size pub_key_bytes

      sign_bytes : Bytes
      sign_bytes = drop kem_public_key_size pub_key_bytes

  unfoldable pub ca_hash : P → Result Error String
  ca_hash pub_key = do
    sign_bytes ← or_fail (k.marshal_binary_sign pub_key) external
    ok (k.hex (k.sha256 sign_bytes))

  unfoldable pub new_ca_base : Bytes → Result Error (CaBase P)
  new_ca_base pub_key_bytes = do
    pub_key ← split_and_parse_pub_key pub_key_bytes
    h ← ca_hash pub_key
    cached ← marshal_pub_key_bytes k pub_key
    ok (record { pub_key = pub_key; pub_key_bytes = cached; hash = h })

  unfoldable pub new_admin_ca : Bytes → Result Error (AdminCa P)
  new_admin_ca pub_key_bytes = do base ← new_ca_base pub_key_bytes; ok (record { base = base })

  unfoldable pub new_user_ca : Bytes → Bytes → String → Result Error (UserCa P)
  new_user_ca pub_key_bytes anchor_sig anchor_admin_hash = do
    base ← new_ca_base pub_key_bytes
    ok (record { base = base; anchor_sig = anchor_sig; anchor_admin_hash = anchor_admin_hash })

  -- `caBase.Verify`.
  unfoldable pub verify : CaBase P → Bytes → Bytes → Bool
  verify b msg sig = k.verify b.pub_key msg sig

  -- `caBase.VerifyNodeCert`; it encodes the certificate as `CanonicalNodeCert` does.
  unfoldable pub verify_node_cert : CaBase P → CertSnapshot P N → Bytes → Result Error N
  verify_node_cert b cert ca_signature = do
    canonical_data ← canonical_node_cert k cert
    let msg = domain_separate ctx_node_admission_v1 canonical_data
    fail_if (not (k.verify b.pub_key msg ca_signature)) invalid_ca_signature
    or_fail (k.node_id cert.node_pub_key) external
