-- ===== src/Auth/Types.antt =====
-- internal/auth/types.go, errors.go, constants.go and the records of cert/ and delegation/ that
-- the package's other files read, with the cryptographic library (ouroboros-crypt), crypto/sha256
-- and the protobuf encoder as the interface `Keys`.
use Prim.Native.Char.{code}
use ouroboros_db.Base.{
  ℕ, String, ◌≡◌, refl, Bool, true, false, List, [], ◌∷◌, Option, Eq, eqb, ◌↔◌, arith, ℤ,
}

-- `[]byte`; a byte is a number below 256.
abbrev pub Bytes : Type 0
Bytes = List ℕ

-- The bytes of a text, if it is ASCII, as the context constants are.
abbrev pub codes : String → Bytes
codes String.[] = []
codes (String.◌∷◌ first rest) = code first ∷ codes rest

-- The sentinel errors of errors.go and ca/ca_base.go. A wrapped error keeps its sentinel, so it is
-- that sentinel here. `external` is an error of a library call.
pub data Error : Type 0 where
  no_certs unknown_issuer mismatched_node_id invalid_delegation_sig : Error
  tls_binding_mismatch invalid_binding_field bundle_hash_mismatch : Error
  delegation_expired delegation_too_long no_valid_certs signature_count_mismatch : Error
  bundle_too_large nil_delegation_proof nil_cert_entry ca_revoked : Error
  ca_already_exists ca_not_found invalid_anchor_sig anchor_admin_not_found : Error
  anchor_admin_revoked stateful_cert unsupported_cert_version revocation_store_full : Error
  invalid_ca_signature public_key_too_short external : Error

-- The two named scopes, and any other value of the integer type.
pub data TrustScope : Type 0 where
  scope_admin scope_user : TrustScope
  scope_other : ℕ → TrustScope

abbrev pub scope_beq : TrustScope → TrustScope → Bool
scope_beq scope_admin scope_admin = true
scope_beq scope_user scope_user = true
scope_beq (scope_other a) (scope_other b) = eqb a b
scope_beq scope_admin _ = false
scope_beq scope_user _ = false
scope_beq (scope_other a) _ = false

pub scope_beq_iff : (a b : TrustScope) → (scope_beq a b ≡ true) ↔ (a ≡ b)
scope_beq_iff scope_admin scope_user = (λ h. cc, λ h. cc)
scope_beq_iff scope_admin (scope_other n) = (λ h. cc, λ h. cc)
scope_beq_iff scope_user scope_admin = (λ h. cc, λ h. cc)
scope_beq_iff scope_user (scope_other n) = (λ h. cc, λ h. cc)
scope_beq_iff (scope_other n) scope_admin = (λ h. cc, λ h. cc)
scope_beq_iff (scope_other n) scope_user = (λ h. cc, λ h. cc)
scope_beq_iff scope_admin scope_admin = (λ h. refl, λ h. refl)
scope_beq_iff scope_user scope_user = (λ h. refl, λ h. refl)
scope_beq_iff (scope_other a) (scope_other b) = ground arith

instance abbrev pub scope_eq : Eq TrustScope
scope_eq = record { beq = scope_beq; beq_iff = scope_beq_iff }

abbrev pub max_peer_cert_bundle_size : ℕ
max_peer_cert_bundle_size = 1024

abbrev pub max_revocation_entries : ℕ
max_revocation_entries = 100000

-- All five binding sizes of constants.go and delegation/constants.go are 32.
abbrev pub binding_size : ℕ
binding_size = 32

abbrev pub max_delegation_ttl : ℕ
max_delegation_ttl = 300

abbrev pub default_cert_version : ℕ
default_cert_version = 1

-- `pb.CanonicalCert`.
pub record CanonicalCert : Type 0 where
  pub cert_version : ℕ
  pub node_pub_key : Bytes
  pub issuer_ca_hash : String
  pub valid_from : ℤ
  pub valid_until : ℤ
  pub serial : Bytes
  pub cert_nonce : Bytes

-- `pb.CanonicalDelegationNoExporter`.
pub record DelegationNoExporter : Type 0 where
  pub tls_cert_pub_key_hash : Bytes
  pub tls_transcript_hash : Bytes
  pub x509_fingerprint : Bytes
  pub node_cert_bundle_hash : Bytes
  pub not_before : ℤ
  pub not_after : ℤ

-- A frozen delegation proof: `delegationSnapshot`, `DelegationProofImpl`, `pb.CanonicalDelegation`.
pub record DelegationProof : Type 0 where
  pub tls_cert_pub_key_hash : Bytes
  pub tls_exporter_binding : Bytes
  pub tls_transcript_hash : Bytes
  pub x509_fingerprint : Bytes
  pub node_cert_bundle_hash : Bytes
  pub not_before : ℤ
  pub not_after : ℤ

pub record TlsBindings : Type 0 where
  pub cert_pub_key_hash : Bytes
  pub exporter_binding : Bytes
  pub x509_fingerprint : Bytes
  pub transcript_hash : Bytes

pub record EmbeddedCa : Type 0 where
  pub ca_type : String
  pub pub_kem : Bytes
  pub pub_sign : Bytes
  pub anchor_sig : Bytes
  pub anchor_admin : String

-- A frozen certificate: `certSnapshot` and `NodeCertImpl`.
pub record CertSnapshot (P N : Type 0) : Type 0 where
  pub cert_version : ℕ
  pub node_pub_key : P
  pub issuer_ca_hash : String
  pub valid_from : ℤ
  pub valid_until : ℤ
  pub serial : Bytes
  pub cert_nonce : Bytes
  pub node_id : N

pub record AuthContext (N : Type 0) : Type 0 where
  pub node_id : N
  pub effective_scope : TrustScope
  pub allowed_user_ca_owners : List String
  pub has_valid_admin_cert : Bool

-- Code outside the repository. `P` is `keys.PublicKey` and `N` is `keys.NodeID`; `none` is an
-- error. `node_id` is deterministic, and its panic on a malformed key, from which `safeNodeID`
-- recovers, is an error too.
pub record Keys (P N : Type 0) : Type 0 where
  pub new_public_key_from_binary : Bytes → Bytes → Option P
  pub marshal_binary_kem : P → Option Bytes
  pub marshal_binary_sign : P → Option Bytes
  pub verify : P → Bytes → Bytes → Bool
  pub node_id : P → Option N
  pub sha256 : Bytes → Bytes
  pub hex : Bytes → String
  pub marshal_cert : CanonicalCert → Option Bytes
  pub marshal_bundle : List Bytes → Option Bytes
  pub marshal_delegation : DelegationProof → Option Bytes
  pub marshal_no_exporter : DelegationNoExporter → Option Bytes
