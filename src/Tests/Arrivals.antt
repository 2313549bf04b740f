-- ===== src/Tests/Arrivals.antt =====
-- Peers that arrive at a small carrier, and a bootstrap.
mod Trace
use ouroboros_db.Base.{
  ltb, eqb, Bool, List, Option, [], err, false, insert, lookup, nat_eq, none, ok, pos, refl, some,
  string_eq, true, ℕ, ◌∷◌, ◌≡◌, ◌⊎◌,
}
use ouroboros_db.Auth.Types.{scope_admin}
use ouroboros_db.Auth.Canonical.{
  canonical_delegation_proof, canonical_delegation_proof_for_exporter, canonical_node_cert,
  canonical_node_cert_bundle, domain_separate, encode_certs, insert_sorted, marshal_pub_key_bytes,
  sort_entries,
}
use ouroboros_db.Auth.Ca.{
  ca_hash, new_ca_base, new_user_ca, split_and_parse_pub_key, verify, verify_node_cert,
}
use ouroboros_db.Auth.Store.{call, revoke_node, run}
use ouroboros_db.Auth.Snapshot.{snapshot_cert, snapshot_certs}
use ouroboros_db.Auth.Chain.{
  authority_loop, authority_round, filter_valid_certs, is_cert_valid, is_user_ca_anchor_valid,
  lookup_issuer, note_cert, note_issuer, snap_trust_store, to_auth_result, valid_indices,
  verify_authority, verify_chain, verify_single_cert,
}
use ouroboros_db.Auth.Verify.{
  binding_fields, derive_scope, is_outside, is_too_long, secure_equal, trust_for,
  validate_binding_fields, validate_handshake, verify_bundle_hash, verify_delegation,
  verify_freshness, verify_peer_cert,
}
use ouroboros_db.Auth.Embedded.{
  add_embedded_admin, add_embedded_user, admin_round, anchor_embedded_user, embed_admins,
  embed_users, embedded_authority_pub_key_bytes, user_round, with_embedded_authorities,
}
use ouroboros_db.Tests.World.{world}
use ouroboros_db.Auth.Delegation.{
  as_cert_like, delegation_proof, new_node_cert, new_node_identity, sign_delegation,
}
use ouroboros_db.Transport.Handshake.{
  auth_message, cert_to_pb, certs_to_pb, dial_and_auth, from_wire_authority, pb_to_delegation,
  pb_to_node_cert, pb_to_node_certs, put_uint32, read_auth_handshake, read_uint32,
  to_wire_authority, to_wire_delegation, write_auth_handshake,
}
use ouroboros_db.Tests.Handshake.{ctx, snapped, store}
use ouroboros_db.Transport.Connect.{
  AuthConfig, Cert, Moment, Network, arrive, auth_failed, authenticate_to, await_peer_auth,
  dial_bootstrap_addr, dialled, handle_incoming_conn, incoming, is_node_connected, register_as,
  response_failed, write_local_auth,
}
use ouroboros_db.Transport.Connect.Admission.{Admits, arrive-Admits}
use ouroboros_db.Transport.Bootstrap.{
  NodeState, attempt_bootstrap, bootstrap_attempts, bootstrap_max_retries, dial_bootstrap_all,
  dial_one, online,
}
use ouroboros_db.Transport.Bootstrap.Rounds.{Ends, attempt_bootstrap-Ends}
use ouroboros_db.Transport.Carrier.{Carrier, new_carrier, register_peer}
use ouroboros_db.Transport.Registry.{
  add_node, compact_addresses, compact_from, connected, merge_addresses_of, merge_node, merge_role,
  merge_status, merge_with, role_server,
}
use ouroboros_db.Tests.Peering.{codec, conn, node}

pub program : Unit {0}
unfolding add_embedded_admin add_embedded_user add_node admin_round anchor_embedded_user
    as_cert_like attempt_bootstrap auth_message authenticate_to authority_loop authority_round
    await_peer_auth binding_fields bootstrap_attempts bootstrap_max_retries ca_hash call
    canonical_delegation_proof canonical_delegation_proof_for_exporter canonical_node_cert
    canonical_node_cert_bundle cert_to_pb certs_to_pb compact_addresses compact_from
    delegation_proof derive_scope dial_and_auth dial_bootstrap_addr dial_bootstrap_all dial_one
    dialled domain_separate embed_admins embed_users embedded_authority_pub_key_bytes encode_certs
    filter_valid_certs from_wire_authority handle_incoming_conn insert insert_sorted is_cert_valid
    is_node_connected is_outside is_too_long is_user_ca_anchor_valid lookup lookup_issuer
    marshal_pub_key_bytes merge_addresses_of merge_node merge_role merge_status merge_with
    new_ca_base new_carrier new_node_cert new_node_identity new_user_ca note_cert note_issuer
    pb_to_delegation pb_to_node_cert pb_to_node_certs put_uint32 read_auth_handshake read_uint32
    register_as register_peer revoke_node run secure_equal sign_delegation snap_trust_store
    snapshot_cert snapshot_certs sort_entries split_and_parse_pub_key to_auth_result
    to_wire_authority to_wire_delegation trust_for user_round valid_indices validate_binding_fields
    validate_handshake verify verify_authority verify_bundle_hash verify_chain verify_delegation
    verify_freshness verify_node_cert verify_peer_cert verify_single_cert with_embedded_authorities
    write_auth_handshake write_local_auth
program = tt

abbrev pub Small : Type 0
Small = Carrier ℕ (Cert ℕ ℕ) ℕ ℕ ℕ

-- Every connection carries the message of the node; whether answers can be written is an argument.
abbrev pub network : Bool → Network ℕ
network sending = record {
  dial = λ address. some 30;
  tls = λ c. conn;
  accept_stream = λ c. some (0 ∷ 0 ∷ 0 ∷ 1 ∷ 1 ∷ []);
  sends = λ c bytes. sending;
  remote_addr = λ c. "peer";
}

abbrev pub config : AuthConfig ℕ ℕ ℕ
config = record { auth = some store; node_identity = some node; has_transport = true }

abbrev pub now : Moment
now = record { unix = pos 600; ticks = 1 }

abbrev pub is_zero : ℕ → Bool
is_zero n = eqb n 0

abbrev empty : Small
empty = record { registry = []; connections = []; controller = none; peer_scopes = [] }

joined : Small
joined = (arrive world is_zero codec (network true) config now empty (incoming 20)).0

joined_connections : joined.connections ≡ (5, 20) ∷ []
unfolding program arrive joined
joined_connections = refl

arrive-Admits_example :
    (joined ≡ empty) ⊎ Admits world is_zero codec (network true) config now empty joined
unfolding joined
arrive-Admits_example =
    arrive-Admits world is_zero codec (network true) config now empty (incoming 20)

abbrev before : NodeState ℕ ℕ ℕ ℕ ℕ
before = record { carrier = empty; status = online; dials = 0 }

-- The first round fails, the second finds the peer.
abbrev moments : ℕ → Network ℕ × Moment
moments n = (network (ltb 1 n), now)

abbrev after : NodeState ℕ ℕ ℕ ℕ ℕ × Bool
after =
    attempt_bootstrap world is_zero codec config moments (λ a. false) (pos 2) ("a" ∷ "b" ∷ [])
      before

after_dials : after.0.dials ≡ 4
unfolding program
after_dials = refl

attempt_bootstrap-Ends_example :
    Ends world is_zero codec config moments (λ a. false) ("a" ∷ "b" ∷ []) 0 3 before after.0 after.1
attempt_bootstrap-Ends_example =
    attempt_bootstrap-Ends world is_zero codec config moments (λ a. false) (pos 2) ("a" ∷ "b" ∷ [])
      before
