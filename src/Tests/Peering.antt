-- ===== src/Tests/Peering.antt =====
-- A node with one certificate of an admin authority authenticates itself to a peer that trusts the
-- authority.
mod Certified
mod Started
use ouroboros_db.Base.{
  ℕ, String, string_eq, nat_eq, ◌<◌, ◌≡◌, refl, true, List, [], ◌∷◌, ◌++◌, Option, none, some, ok,
  length, arith, pos, bytes_eq_iff, subst, lookup,
}
use ouroboros_db.Auth.Types.{Bytes, AuthContext, scope_admin, binding_size}
use ouroboros_db.Auth.Canonical.{
  domain_separate, marshal_pub_key_bytes, canonical_node_cert, encode_certs,
  canonical_node_cert_bundle, insert_sorted, sort_entries, canonical_delegation_proof,
  canonical_delegation_proof_for_exporter,
}
use ouroboros_db.Auth.Ca.{verify_node_cert, ctx_node_admission_v1, kem_public_key_size}
use ouroboros_db.Auth.Chain.{
  snap_trust_store, lookup_issuer, is_cert_valid, is_user_ca_anchor_valid, verify_single_cert,
  issuer_admin,
}
use ouroboros_db.Auth.Verify.{PeerHandshake, trust_for, verify_peer_cert, ctx_node_delegation_v1}
use ouroboros_db.Auth.Delegation.{
  NodeKey, NodeIdentity, Session, Exporter, new_node_identity, new_node_cert, delegation_proof,
  sign_delegation,
}
use ouroboros_db.Auth.Delegation.Ready.{IsReady, new_node_identity-IsReady}
use ouroboros_db.Transport.Handshake.{
  WireNodeCert, WireAuthMessage, AuthCodec, TlsSession, put_uint32, to_wire_authority,
  to_wire_delegation, cert_to_pb, certs_to_pb, auth_message, write_auth_handshake,
  read_auth_handshake, dial_and_auth,
}
use ouroboros_db.Transport.Handshake.RoundTrip.{received, write_auth_handshake-read_auth_handshake}
use ouroboros_db.Transport.Handshake.Accepted.{dial_and_auth-verify_peer_cert}
use ouroboros_db.Tests.World.{world, fill, first_byte}
use ouroboros_db.Tests.Handshake.{store, proof, snapped}

pub program : Unit {0}
unfolding domain_separate marshal_pub_key_bytes canonical_node_cert encode_certs
    canonical_node_cert_bundle insert_sorted sort_entries canonical_delegation_proof
    canonical_delegation_proof_for_exporter verify_node_cert snap_trust_store lookup_issuer
    is_cert_valid is_user_ca_anchor_valid verify_single_cert trust_for lookup new_node_identity
    new_node_cert delegation_proof sign_delegation put_uint32 to_wire_authority to_wire_delegation
    cert_to_pb certs_to_pb auth_message write_auth_handshake
program = tt

abbrev pub key : NodeKey ℕ
key = record { pub_key = 5; sign = λ msg. some (5 ∷ msg) }

abbrev pub session : Session
session = record { cert_pub_key_hash = fill 32 1; x509_fingerprint = fill 32 4 }

abbrev pub export : Exporter
export label none n = some (fill n 3)
export label (some ctx) n = some (fill n 2)

abbrev pub ca_sigs : List Bytes
ca_sigs = (7 ∷ domain_separate ctx_node_admission_v1 (1 ∷ 9 ∷ [])) ∷ []

abbrev pub node : NodeIdentity ℕ ℕ
node = record {
  key = key;
  session = session;
  certs = snapped ∷ [];
  ca_sigs = ca_sigs;
  authorities = [];
  node_id = 5;
}

abbrev pub sig : Bytes
sig = 5 ∷ domain_separate ctx_node_delegation_v1 (fill 32 3 ++ fill 32 2)

made : new_node_identity key (snapped ∷ []) ca_sigs [] (some session) ≡ ok node
unfolding new_node_identity
made = refl

ready : IsReady world node
ready =
    (new_node_identity-IsReady world key 5 (snapped ∷ []) ca_sigs [] (some session) node refl
      (omega arith) (record { version = refl; own_key = refl; own_id = refl }, tt) made).0

signed : sign_delegation world key (snapped ∷ []) session export (pos 400) ≡ ok (proof, sig)
unfolding program
signed = refl

abbrev pub wire_cert : WireNodeCert
wire_cert = record {
  cert_version = 1;
  node_pub_key = fill 1568 0 ++ 5 ∷ [];
  issuer_ca_hash = "admin";
  valid_from = pos 100;
  valid_until = pos 900;
  serial = 9 ∷ [];
  cert_nonce = [];
}

abbrev message : WireAuthMessage
message = record {
  certs = wire_cert ∷ [];
  ca_signatures = ca_sigs;
  authorities = [];
  delegation = some (to_wire_delegation proof);
  delegation_sig = sig;
}

-- The encoder knows one message.
abbrev pub codec : AuthCodec
codec = record { marshal = λ m. some (1 ∷ []); unmarshal = λ b. some message }

abbrev pub conn : TlsSession
conn = record {
  tls_bindings = record {
    cert_pub_key_hash = fill 32 1;
    exporter_binding = [];
    x509_fingerprint = fill 32 4;
    transcript_hash = [];
  };
  export_keying_material = export;
}

built : auth_message world (snapped ∷ []) ca_sigs [] proof sig ≡ ok message
unfolding program
built = refl

pub parse_back :
    (p : ℕ) (kem sign : Bytes)
    → ◌≡◌ {A = Option Bytes} (some (fill 1568 0)) (some kem)
    → ◌≡◌ {A = Option Bytes} (some (p ∷ [])) (some sign)
    → (length kem ≡ kem_public_key_size)
      × (0 < length sign)
      × (◌≡◌ {A = Option ℕ} (some (first_byte sign)) (some p))
parse_back p kem sign h g =
    let k_same : fill 1568 0 ≡ kem = cc h in
    let s_same : p ∷ [] ≡ sign = cc g in
    (
      subst (λ b. length b ≡ kem_public_key_size) k_same refl,
      subst (λ b. 0 < length b) s_same (omega arith),
      subst (λ b. ◌≡◌ {A = Option ℕ} (some (first_byte b)) (some p)) s_same refl,
    )

pub verifies :
    (msg s : Bytes)
    → ◌≡◌ {A = Option Bytes} (some (5 ∷ msg)) (some s)
    → (0 < length s) × (world.verify 5 msg s ≡ true)
verifies msg s h =
    let same : 5 ∷ msg ≡ s = cc h in
    subst (λ b. (0 < length b) × (world.verify 5 msg b ≡ true)) same
      (omega arith, (bytes_eq_iff (5 ∷ msg) (5 ∷ msg)).1 refl)

pub hash_sized : (b : Bytes) → length (world.sha256 b) ≡ binding_size
hash_sized b = refl

pub export_sized :
    (label : String) (ctx : Option Bytes) (value : Bytes)
    → export label ctx binding_size ≡ some value
    → length value ≡ binding_size
export_sized label none value h =
    let same : fill 32 3 ≡ value = cc h in subst (λ b. length b ≡ binding_size) same refl
export_sized label (some ctx) value h =
    let same : fill 32 2 ≡ value = cc h in subst (λ b. length b ≡ binding_size) same refl

valid : is_cert_valid world (snap_trust_store store) snapped (pos 600) ≡ true
unfolding program
valid = refl

single :
    verify_single_cert world
      (snap_trust_store store)
      snapped
      (7 ∷ domain_separate ctx_node_admission_v1 (1 ∷ 9 ∷ []))
    ≡ ok (5, 5, issuer_admin)
unfolding program
single = refl

trusted : trust_for world store [] ≡ ok (snap_trust_store store)
unfolding trust_for
trusted = refl

dial_and_auth-verify_peer_cert_example :
    (stream : Bytes) × (dial_and_auth world codec export node (pos 400) ≡ ok stream)
    × (hs : PeerHandshake ℕ ℕ) × (read_auth_handshake world codec conn stream ≡ ok hs)
    × (ctx : AuthContext ℕ) × (verify_peer_cert world store (pos 600) hs ≡ ok ctx)
    × (ctx.node_id ≡ 5)
    × (issuer_admin ≡ issuer_admin → ctx.effective_scope ≡ scope_admin)
dial_and_auth-verify_peer_cert_example =
    dial_and_auth-verify_peer_cert world node export (pos 400) (pos 600) ready parse_back verifies
      hash_sized export_sized refl refl conn (λ label ctx. refl) refl refl (omega arith)
      (omega arith) (omega arith) (omega arith) store codec proof sig message (1 ∷ [])
      (snap_trust_store store) 0 snapped (7 ∷ domain_separate ctx_node_admission_v1 (1 ∷ 9 ∷ []))
      issuer_admin signed built refl refl (omega arith) (omega arith) trusted refl refl valid single

wrote :
    write_auth_handshake world codec (snapped ∷ []) ca_sigs [] proof sig
    ≡ ok (0 ∷ 0 ∷ 0 ∷ 1 ∷ 1 ∷ [])
unfolding program
wrote = refl

write_auth_handshake-read_auth_handshake_example :
    read_auth_handshake world codec conn (0 ∷ 0 ∷ 0 ∷ 1 ∷ 1 ∷ [])
    ≡ ok (received conn (snapped ∷ []) ca_sigs [] proof sig (fill 32 3) (fill 32 2))
unfolding program
write_auth_handshake-read_auth_handshake_example =
    write_auth_handshake-read_auth_handshake world parse_back codec conn (snapped ∷ []) ca_sigs []
      proof sig message (1 ∷ []) (0 ∷ 0 ∷ 0 ∷ 1 ∷ 1 ∷ []) (fill 32 3) (fill 32 3) (fill 32 2)
      (refl, tt) built refl refl (omega arith) wrote refl refl refl
