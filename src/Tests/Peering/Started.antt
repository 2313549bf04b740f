-- ===== src/Tests/Peering/Started.antt =====
-- A node that starts from the file that the tool signed, and a peer that trusts the tool's
-- authority.
use ouroboros_db.Base.{
  ℕ, string_eq, nat_eq, ◌≡◌, refl, [], ◌∷◌, Option, some, ok, pos, ◌≤ℤ◌, arith, lookup, map,
}
use ouroboros_db.Auth.Types.{Bytes, AuthContext, scope_admin}
use ouroboros_db.Auth.Store.{CarrierAuth}
use ouroboros_db.Auth.Verify.{PeerHandshake, verify_peer_cert}
use ouroboros_db.Auth.Delegation.{NodeIdentity, sign_delegation}
use ouroboros_db.Auth.Delegation.Ready.{IsReady}
use ouroboros_db.AuthFile.{
  to_auth_embedded_ca, read_ca_key, unmarshal_ca_key, ca_file_of_pb, ca_file_to_pb, read_node_cert,
  unmarshal_node_cert, node_file_of_pb, authority_of_pb, node_cert_to_identity,
}
use ouroboros_db.AuthFile.Identity.{admin_of, trusting, admin_authority}
use ouroboros_db.Start.{Text, IdentityConfig}
use ouroboros_db.Interactive.Trust.{load_node_identity, load_carrier_auth}
use ouroboros_db.Transport.Handshake.{
  WireAuthMessage, AuthCodec, auth_message, read_auth_handshake, dial_and_auth, to_wire_authority,
}
use ouroboros_db.Certgen.{unix_after, parse_flag}
use ouroboros_db.Certgen.SignNode.{validity_of}
use ouroboros_db.Certgen.SignNode.Trusted.{Trusts}
use ouroboros_db.Certgen.SignNode.Loaded.{cmd_sign_node-load_carrier_auth}
use ouroboros_db.Certgen.SignNode.Accepted.{cmd_sign_node-verify_peer_cert}
use ouroboros_db.Tests.World.{world, fill}
use ouroboros_db.Tests.Handshake.{proof}
use ouroboros_db.Tests.Peering.{
  program, session, export, node, sig, message, conn, parse_back, verifies, hash_sized,
  export_sized,
}
use ouroboros_db.Tests.Peering.Certified.{ca_key, ca_file, codec, tools, args, back, written}

-- The node's own file is the only one.
abbrev read : Text → Option Bytes
read path = some (1 ∷ [])

abbrev conf : IdentityConfig
conf = record { node_cert_path = 1 ∷ []; admin_ca_paths = []; user_ca_paths = [] }

named : parse_flag args "-ca-key" ≡ some "ca.oukey"
unfolding parse_flag
named = refl

reads : read_ca_key codec (tools.read "ca.oukey") ≡ ok (ca_key, ca_file)
unfolding read_ca_key unmarshal_ca_key ca_file_of_pb ca_file_to_pb
reads = refl

cmd_sign_node-load_carrier_auth_example :
    (ni : NodeIdentity ℕ ℕ) × (load_node_identity world codec read (some session) (1 ∷ []) ≡ ok ni)
    × IsReady world ni
    × (load_carrier_auth world codec read {H = ℕ} conf
        ≡ ok (trusting (admin_of world 7 (fill 1568 0) (7 ∷ []))))
cmd_sign_node-load_carrier_auth_example =
    cmd_sign_node-load_carrier_auth world codec tools back parse_back args "n.oucert" (1 ∷ [])
      "ca.oukey" ca_key ca_file (fill 1568 0) (7 ∷ []) read conf session written named reads refl
      refl refl refl refl refl

abbrev started : NodeIdentity ℕ ℕ
unfolding to_auth_embedded_ca
started = record node {
  authorities = to_auth_embedded_ca (admin_authority (fill 1568 0) (7 ∷ [])) ∷ [];
}

abbrev store : CarrierAuth ℕ ℕ ℕ
store = trusting (admin_of world 7 (fill 1568 0) (7 ∷ []))

loads : load_node_identity world codec read (some session) (1 ∷ []) ≡ ok started
unfolding program started load_node_identity read_node_cert unmarshal_node_cert node_file_of_pb
    authority_of_pb node_cert_to_identity to_auth_embedded_ca
loads = refl

trusts : Trusts {P = ℕ} {N = ℕ} {H = ℕ} store "admin" (admin_of world 7 (fill 1568 0) (7 ∷ [])) 5
unfolding lookup
trusts = record {
  trusted = refl;
  not_revoked = refl;
  no_revoked_user = refl;
  no_user = refl;
  node_not_revoked = refl;
}

chosen : validity_of tools args ≡ ok (pos 800000000000)
unfolding validity_of parse_flag
chosen = refl

lasting : pos 600 ≤ℤ unix_after tools.now (pos 800000000000)
unfolding unix_after
lasting = omega arith

signs :
    sign_delegation world started.key started.certs started.session export (pos 400)
    ≡ ok (proof, sig)
unfolding program started
signs = refl

abbrev started_message : WireAuthMessage
unfolding started to_wire_authority
started_message = record message { authorities = map to_wire_authority started.authorities }

built :
    auth_message world started.certs started.ca_sigs started.authorities proof sig
    ≡ ok started_message
unfolding program started started_message
built = refl

abbrev wire : AuthCodec
unfolding started_message
wire = record { marshal = λ m. some (1 ∷ []); unmarshal = λ b. some started_message }

cmd_sign_node-verify_peer_cert_example :
    (stream : Bytes) × (dial_and_auth world wire export started (pos 400) ≡ ok stream)
    × (hs : PeerHandshake ℕ ℕ) × (read_auth_handshake world wire conn stream ≡ ok hs)
    × (ctx : AuthContext ℕ) × (verify_peer_cert world store (pos 600) hs ≡ ok ctx)
    × (ctx.node_id ≡ 5)
    × (ctx.effective_scope ≡ scope_admin)
unfolding started wire
cmd_sign_node-verify_peer_cert_example =
    cmd_sign_node-verify_peer_cert world codec tools back parse_back started export (pos 400)
      (pos 600) verifies hash_sized export_sized refl refl conn (λ label ctx. refl) refl refl
      (omega arith) (omega arith) (omega arith) (omega arith) store args "n.oucert" (1 ∷ [])
      "ca.oukey" ca_key ca_file (fill 1568 0) (7 ∷ []) (pos 800000000000) read (1 ∷ []) session wire
      proof sig started_message (1 ∷ []) written named reads refl refl refl chosen refl loads trusts
      (omega arith) lasting signs built refl refl (omega arith) (omega arith)
