-- ===== src/Tests/Handshake.antt =====
-- One handshake that is accepted, and the theorems about accepted peers applied to it.
use ouroboros_db.Base.{
  ℕ, zero, suc, String, string_eq, nat_eq, ◌≡◌, ◌≢◌, ◌↔◌, refl, true, false, List, [], ◌∷◌, ◌++◌,
  none, some, ok, err, has, lookup, insert, delete, arith, pos, All,
}
use ouroboros_db.Auth.Types.{
  CertSnapshot, DelegationProof, AuthContext, EmbeddedCa, scope_admin, scope_user,
  anchor_admin_not_found,
}
use ouroboros_db.Auth.Canonical.{
  domain_separate, marshal_pub_key_bytes, canonical_node_cert, encode_certs,
  canonical_node_cert_bundle, insert_sorted, sort_entries, canonical_delegation_proof,
  canonical_delegation_proof_for_exporter,
}
use ouroboros_db.Auth.Ca.{
  verify_node_cert, ctx_node_admission_v1, ctx_user_ca_anchor_v1, new_user_ca, new_ca_base,
  split_and_parse_pub_key, ca_hash, verify,
}
use ouroboros_db.Auth.Store.{
  CarrierAuth, revokes_user, revoke_node, run, call, revoke_admin_ca, revoke_user_ca,
}
use ouroboros_db.Auth.Snapshot.{NodeCertLike, snapshot_cert, snapshot_certs}
use ouroboros_db.Auth.Chain.{
  TrustSnapshot, AuthResult, snap_trust_store, lookup_issuer, is_cert_valid,
  is_user_ca_anchor_valid, valid_indices, filter_valid_certs, verify_single_cert, note_issuer,
  note_cert, to_auth_result, authority_round, authority_loop, verify_authority, verify_chain,
  issuer_admin,
}
use ouroboros_db.Auth.Verify.{
  PeerHandshake, secure_equal, validate_binding_fields, binding_fields, validate_handshake,
  derive_scope, is_outside, is_too_long, verify_bundle_hash, verify_delegation, verify_freshness,
  trust_for, verify_peer_cert, ctx_node_delegation_v1,
}
use ouroboros_db.Auth.Embedded.{
  embedded_authority_pub_key_bytes, add_embedded_admin, anchor_embedded_user, add_embedded_user,
  admin_round, user_round, embed_admins, embed_users, with_embedded_authorities,
}
use ouroboros_db.Auth.Embedded.Trust.{Extends, with_embedded_authorities-Extends}
use ouroboros_db.Auth.Chain.Backing.{IssuedBy}
use ouroboros_db.Auth.Chain.Sound.{AuthBacked, verify_chain-AuthBacked}
use ouroboros_db.Auth.Chain.Complete.{verify_chain_complete}
use ouroboros_db.Auth.Verify.Window.{IsFresh, verify_freshness_iff}
use ouroboros_db.Auth.Verify.Sound.{
  HasInt64Times, IsAuthenticated, verify_peer_cert-IsAuthenticated,
}
use ouroboros_db.Auth.Verify.Scope.{
  IsOwner, verify_peer_cert-admin_scope, verify_peer_cert-owners, revoke_node-verify_peer_cert,
}
use ouroboros_db.Tests.World.{world, fill}

program : Unit {0}
unfolding domain_separate marshal_pub_key_bytes canonical_node_cert encode_certs
    canonical_node_cert_bundle insert_sorted sort_entries canonical_delegation_proof
    canonical_delegation_proof_for_exporter verify_node_cert snapshot_cert snapshot_certs
    snap_trust_store lookup_issuer is_cert_valid is_user_ca_anchor_valid valid_indices
    filter_valid_certs verify_single_cert note_issuer note_cert to_auth_result authority_round
    authority_loop verify_authority verify_chain secure_equal validate_binding_fields binding_fields
    validate_handshake derive_scope is_outside is_too_long verify_bundle_hash verify_delegation
    verify_freshness trust_for verify_peer_cert lookup insert revoke_node run call
    embedded_authority_pub_key_bytes add_embedded_admin anchor_embedded_user add_embedded_user
    admin_round user_round embed_admins embed_users with_embedded_authorities new_user_ca
    new_ca_base split_and_parse_pub_key ca_hash verify
program = tt

abbrev pub store : CarrierAuth ℕ ℕ ℕ
store = record {
  admin_cas =
      ("admin", record { base = record { pub_key = 7; pub_key_bytes = []; hash = "admin" } }) ∷ [];
  user_cas = [];
  revoked_admin_cas = [];
  revoked_user_cas = [];
  revoked_nodes = [];
  on_revoke = none;
}

-- A certificate whose answers do not change, but for a version that does after the first call.
abbrev cert : ℕ → String → NodeCertLike ℕ ℕ
cert later_version issuer = record {
  cert_version = elim [ zero ↦ 1 | suc n ↦ later_version ];
  node_pub_key = λ n. 5;
  issuer_ca_hash = λ n. issuer;
  valid_from = λ n. pos 100;
  valid_until = λ n. pos 900;
  serial = λ n. 9 ∷ [];
  cert_nonce = λ n. [];
  node_id = λ n. 5;
}

abbrev pub proof : DelegationProof
proof = record {
  tls_cert_pub_key_hash = fill 32 1;
  tls_exporter_binding = fill 32 2;
  tls_transcript_hash = fill 32 3;
  x509_fingerprint = fill 32 4;
  node_cert_bundle_hash = fill 32 1;
  not_before = pos 400;
  not_after = pos 700;
}

-- The issuer's hash and key, and the authorities that come along.
handshake : String → ℕ → List EmbeddedCa → PeerHandshake ℕ ℕ
handshake issuer key authorities = record {
  certs = some (cert 1 issuer) ∷ [];
  ca_signatures = (key ∷ domain_separate ctx_node_admission_v1 (1 ∷ 9 ∷ [])) ∷ [];
  authorities = authorities;
  delegation_proof = some proof;
  delegation_sig = 5 ∷ domain_separate ctx_node_delegation_v1 (fill 32 3 ++ fill 32 2);
  tls = record {
    cert_pub_key_hash = fill 32 1;
    exporter_binding = fill 32 2;
    x509_fingerprint = fill 32 4;
    transcript_hash = fill 32 3;
  };
}

-- A certificate of the trusted admin authority.
hs : PeerHandshake ℕ ℕ
unfolding handshake
hs = handshake "admin" 7 []

abbrev pub ctx : AuthContext ℕ
ctx = record {
  node_id = 5;
  effective_scope = scope_admin;
  allowed_user_ca_owners = [];
  has_valid_admin_cert = true;
}

accepted : verify_peer_cert world store (pos 500) hs ≡ ok ctx
unfolding program hs
accepted = refl

times : HasInt64Times hs
unfolding hs
times = omega arith

-- A certificate of a user authority that the peer sends along with its anchor.
user_authority : EmbeddedCa
user_authority = record {
  ca_type = "user-ca";
  pub_kem = fill 1568 0;
  pub_sign = 8 ∷ [];
  anchor_sig = 7 ∷ domain_separate ctx_user_ca_anchor_v1 (fill 1568 0 ++ 8 ∷ []);
  anchor_admin = "admin";
}

user_hs : PeerHandshake ℕ ℕ
unfolding handshake user_authority
user_hs = handshake "user" 8 (user_authority ∷ [])

abbrev user_ctx : AuthContext ℕ
user_ctx = record {
  node_id = 5;
  effective_scope = scope_user;
  allowed_user_ca_owners = "user" ∷ [];
  has_valid_admin_cert = false;
}

user_accepted : verify_peer_cert world store (pos 500) user_hs ≡ ok user_ctx
unfolding program user_hs
user_accepted = refl

user_times : HasInt64Times user_hs
unfolding user_hs
user_times = omega arith

-- After the anchor is revoked the same handshake is refused.
user_refused :
    verify_peer_cert world (revoke_admin_ca store "admin").0 (pos 500) user_hs
    ≡ err anchor_admin_not_found
unfolding program user_hs revoke_admin_ca delete
user_refused = refl

verify_peer_cert-IsAuthenticated_example : IsAuthenticated world store (pos 500) user_hs user_ctx
verify_peer_cert-IsAuthenticated_example =
    verify_peer_cert-IsAuthenticated world store (pos 500) user_hs user_ctx user_times user_accepted

verify_peer_cert-admin_scope_example :
    (h : String) × (has h store.admin_cas ≡ true)
    × (has h store.revoked_admin_cas ≡ false)
    × (ts : TrustSnapshot ℕ ℕ) × Extends world (snap_trust_store store) ts
    × (certs : List (CertSnapshot ℕ ℕ)) × (snapshot_certs world hs.certs ≡ ok certs)
    × IssuedBy world ts (pos 500) certs hs.ca_signatures 5 issuer_admin h
verify_peer_cert-admin_scope_example =
    verify_peer_cert-admin_scope world store (pos 500) hs ctx times accepted refl

verify_peer_cert-owners_example :
    All (IsOwner world store (pos 500) user_hs user_ctx user_times user_accepted) ("user" ∷ [])
verify_peer_cert-owners_example =
    verify_peer_cert-owners world store (pos 500) user_hs user_ctx user_times user_accepted

revoked_done : (revoke_node store 6).1 ≡ none
unfolding revoke_node
revoked_done = refl

still_accepted :
    verify_peer_cert world
      (run world (revoke_node store 6).0 (revokes_user "other" ∷ []))
      (pos 500)
      hs
    ≡ ok ctx
unfolding program hs revoke_user_ca delete
still_accepted = refl

revoke_node-verify_peer_cert_example : ◌≢◌ {A = ℕ} 5 6
revoke_node-verify_peer_cert_example =
    revoke_node-verify_peer_cert world store 6 (revokes_user "other" ∷ []) (pos 500) hs ctx
      revoked_done times still_accepted

abbrev pub snapped : CertSnapshot ℕ ℕ
snapped = record {
  cert_version = 1;
  node_pub_key = 5;
  issuer_ca_hash = "admin";
  valid_from = pos 100;
  valid_until = pos 900;
  serial = 9 ∷ [];
  cert_nonce = [];
  node_id = 5;
}

embedded : TrustSnapshot ℕ ℕ
embedded = record (snap_trust_store store) {
  user_cas =
      (
        "user",
        record {
          base = record { pub_key = 8; pub_key_bytes = fill 1568 0 ++ 8 ∷ []; hash = "user" };
          anchor_sig = 7 ∷ domain_separate ctx_user_ca_anchor_v1 (fill 1568 0 ++ 8 ∷ []);
          anchor_admin_hash = "admin";
        },
      )
      ∷ [];
}

with_embedded_authorities-Extends_example : Extends world (snap_trust_store store) embedded
unfolding program user_authority embedded
with_embedded_authorities-Extends_example =
    with_embedded_authorities-Extends world (snap_trust_store store) embedded (user_authority ∷ [])
      refl

verify_chain-AuthBacked_example :
    AuthBacked world
      (snap_trust_store store)
      (pos 500)
      (snapped ∷ [])
      hs.ca_signatures
      (record { node_pub_key = 5; node_id = 5; admin_valid = true; user_hashes = [] })
unfolding program hs
verify_chain-AuthBacked_example =
    verify_chain-AuthBacked world (snap_trust_store store) (pos 500) (snapped ∷ []) hs.ca_signatures
      (record { node_pub_key = 5; node_id = 5; admin_valid = true; user_hashes = [] }) refl

verify_freshness_iff_example :
    (verify_freshness world proof (fill 32 2) (fill 32 3) (pos 500) ≡ ok tt)
    ↔ IsFresh world proof (fill 32 2) (fill 32 3) (pos 500)
unfolding canonical_delegation_proof_for_exporter
verify_freshness_iff_example =
    verify_freshness_iff world proof (fill 32 2) (fill 32 3) (pos 500) {ctx = fill 32 3}
      (omega arith) (omega arith) refl

verify_chain_complete_example :
    (r : AuthResult ℕ ℕ) × (verify_chain world
        (snap_trust_store store)
        (snapped ∷ [])
        hs.ca_signatures
        (pos 500)
      ≡ ok r)
    × (r.node_id ≡ 5)
    × (r.node_pub_key ≡ 5)
    × (issuer_admin ≡ issuer_admin → r.admin_valid ≡ true)
unfolding program hs
verify_chain_complete_example =
    verify_chain_complete world (snap_trust_store store) (pos 500) (snapped ∷ []) hs.ca_signatures 5
      5 0 snapped (7 ∷ domain_separate ctx_node_admission_v1 (1 ∷ 9 ∷ [])) issuer_admin refl
      (refl, tt) refl refl refl refl
