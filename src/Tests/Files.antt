-- ===== src/Tests/Files.antt =====
-- A node certificate's file, and the trust that it carries.
use ouroboros_db.Base.{
  ℕ, string_eq, nat_eq, ◌≡◌, refl, false, List, [], ◌∷◌, none, some, ok, has, pos,
}
use ouroboros_db.Auth.Store.{new_carrier_auth, revoke_admin_ca, run, revokes_user}
use ouroboros_db.Auth.Store.WellFormed.{Inv}
use ouroboros_db.Auth.Store.Invariant.{run-new_carrier_auth-Inv}
use ouroboros_db.AuthFile.{
  CaKeyFile, NodeCertFile, EmbeddedCaFile, FileCodec, node_file_to_pb, marshal_node_cert,
  read_node_cert, build_embedded_trust_chain,
}
use ouroboros_db.AuthFile.Trust.{add_embedded_trust}
use ouroboros_db.AuthFile.RoundTrip.{marshal_node_cert-read_node_cert}
use ouroboros_db.AuthFile.Calls.{revoke_admin_ca-add_embedded_trust}
use ouroboros_db.AuthFile.Identity.{
  admin_of, trusting, build_embedded_trust_chain-add_embedded_trust,
}
use ouroboros_db.Tests.World.{world, fill}
use ouroboros_db.Tests.Peering.{key, parse_back}

abbrev chain : List EmbeddedCaFile
chain =
    record {
      ca_type = "admin-ca";
      pub_kem = fill 1568 0;
      pub_sign = 5 ∷ [];
      anchor_sig = [];
      anchor_admin = "";
    }
    ∷ []

abbrev node_file : NodeCertFile
node_file = record {
  file_type = "node-cert";
  key_json = 5 ∷ [];
  ca_pub_kem = [];
  ca_pub_sign = [];
  ca_signature = 1 ∷ [];
  authorities = chain;
  issuer_ca_hash = "other";
  valid_from = pos 1;
  valid_until = pos 2;
  serial = [];
  cert_nonce = [];
}

abbrev ca_file : CaKeyFile
ca_file = record {
  file_type = "admin-ca";
  key_json = [];
  anchor_sig = [];
  anchor_admin = "";
  anchor_admin_pub_kem = [];
  anchor_admin_pub_sign = [];
}

-- The encoder knows one file of a node.
codec : FileCodec ℕ
codec = record {
  marshal_ca_file = λ f. none;
  unmarshal_ca_file = λ b. none;
  marshal_node_file = λ f. some (1 ∷ []);
  unmarshal_node_file = λ b. some (node_file_to_pb node_file);
  load_key = λ b. some key;
}

marshal_node_cert-read_node_cert_example :
    read_node_cert codec (some (1 ∷ [])) ≡ ok (key, node_file)
unfolding codec marshal_node_cert
marshal_node_cert-read_node_cert_example =
    marshal_node_cert-read_node_cert codec node_file (1 ∷ []) key (λ h. refl) refl refl refl

built : build_embedded_trust_chain world key ca_file ≡ ok chain
unfolding build_embedded_trust_chain
built = refl

build_embedded_trust_chain-add_embedded_trust_example :
    add_embedded_trust world (new_carrier_auth {P = ℕ} {N = ℕ} {H = ℕ}) node_file
    ≡ (trusting (admin_of world 5 (fill 1568 0) (5 ∷ [])), none)
build_embedded_trust_chain-add_embedded_trust_example =
    build_embedded_trust_chain-add_embedded_trust world parse_back key ca_file chain node_file
      (fill 1568 0) (5 ∷ []) refl refl refl built refl

well_formed : Inv world (new_carrier_auth {P = ℕ} {N = ℕ} {H = ℕ})
unfolding run
well_formed = run-new_carrier_auth-Inv world []

revoked : (revoke_admin_ca (new_carrier_auth {P = ℕ} {N = ℕ} {H = ℕ}) "other").1 ≡ none
unfolding revoke_admin_ca new_carrier_auth
revoked = refl

revoke_admin_ca-add_embedded_trust_example :
    has "other"
      (add_embedded_trust world
        (run world
          (revoke_admin_ca (new_carrier_auth {P = ℕ} {N = ℕ} {H = ℕ}) "other").0
          (revokes_user "a" ∷ []))
        node_file).0.admin_cas
    ≡ false
revoke_admin_ca-add_embedded_trust_example =
    revoke_admin_ca-add_embedded_trust world new_carrier_auth "other" (revokes_user "a" ∷ [])
      node_file well_formed revoked
