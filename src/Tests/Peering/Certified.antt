-- ===== src/Tests/Peering/Certified.antt =====
-- A node's file that the tool signs, the node that starts from it, and a peer that accepts the
-- node.
use ouroboros_db.Base.{
  ℕ, String, string_eq, nat_eq, ◌≡◌, refl, sym, ap, subst, Bool, true, false, ◌&&◌, List, [], ◌∷◌,
  Option, none, some, ℤ, pos, negsuc, eqb, bytes_eq, bytes_eq_iff, eq_iff, ◌==◌, arith,
  some-injective, if◌then◌else◌,
}
use ouroboros_db.Auth.Types.{Bytes}
use ouroboros_db.Auth.Delegation.{NodeKey}
use ouroboros_db.AuthFile.{
  CaKeyFile, PbNodeCertFile, PbEmbeddedCaFile, FileCodec, node_file_to_pb, ca_file_to_pb,
}
use ouroboros_db.Auth.Canonical.{domain_separate}
use ouroboros_db.Auth.Ca.{
  ctx_node_admission_v1, new_admin_ca, new_ca_base, split_and_parse_pub_key, ca_hash,
}
use ouroboros_db.Certgen.{Tools, write_out, parse_flag, unix_after}
use ouroboros_db.Certgen.SignNode.{
  validity_of, signed_node, signed_cert, issuer_parts, fresh_parts, cmd_sign_node,
}
use ouroboros_db.AuthFile.{
  read_ca_key, unmarshal_ca_key, ca_file_of_pb, build_embedded_trust_chain, marshal_node_cert,
  authority_to_pb,
}
use ouroboros_db.Certgen.SignNode.Loaded.{ReadsBack}
use ouroboros_db.Tests.World.{world, fill}
use ouroboros_db.Tests.Peering.{program, key}

abbrev pub ca_key : NodeKey ℕ
ca_key = record { pub_key = 7; sign = λ msg. some (7 ∷ msg) }

abbrev pub ca_file : CaKeyFile
ca_file = record {
  file_type = "admin-ca";
  key_json = 7 ∷ [];
  anchor_sig = [];
  anchor_admin = "";
  anchor_admin_pub_kem = [];
  anchor_admin_pub_sign = [];
}

abbrev pub authority : PbEmbeddedCaFile
authority = record {
  ca_type = "admin-ca";
  pub_kem = fill 1568 0;
  pub_sign = 7 ∷ [];
  anchor_sig = [];
  anchor_admin = "";
}

-- The message of the only file that the encoder knows.
abbrev file_message : PbNodeCertFile
file_message = record {
  file_type = "node-cert";
  key_json = 5 ∷ [];
  ca_pub_kem = fill 1568 0;
  ca_pub_sign = 7 ∷ [];
  ca_signature = 7 ∷ [];
  authorities = authority ∷ [];
  issuer_ca_hash = "admin";
  valid_from = pos 100;
  valid_until = pos 900;
  serial = 9 ∷ [];
  cert_nonce = [];
}

abbrev is_pos : ℕ → ℤ → Bool
is_pos n (pos m) = eqb m n
is_pos n (negsuc m) = false

abbrev same_authorities : List PbEmbeddedCaFile → Bool
same_authorities [] = false
same_authorities (a ∷ b ∷ rest) = false
same_authorities (a ∷ []) =
    (a.ca_type == "admin-ca")
    && bytes_eq a.pub_kem (fill 1568 0)
    && bytes_eq a.pub_sign (7 ∷ [])
    && bytes_eq a.anchor_sig []
    && (a.anchor_admin == "")

abbrev same_file : Bytes → PbNodeCertFile → Bool
same_file sig f =
    (f.file_type == "node-cert")
    && bytes_eq f.key_json (5 ∷ [])
    && bytes_eq f.ca_pub_kem (fill 1568 0)
    && bytes_eq f.ca_pub_sign (7 ∷ [])
    && bytes_eq f.ca_signature sig
    && same_authorities f.authorities
    && (f.issuer_ca_hash == "admin")
    && is_pos 100 f.valid_from
    && is_pos 900 f.valid_until
    && bytes_eq f.serial (9 ∷ [])
    && bytes_eq f.cert_nonce []

and_true : (a b : Bool) → (a && b) ≡ true → (a ≡ true) × (b ≡ true)
and_true true b h = (refl, h)
and_true false b h = cc h

is_pos→eq : (n : ℕ) (z : ℤ) → is_pos n z ≡ true → z ≡ pos n
is_pos→eq n (pos m) h = ground (arith, h)
is_pos→eq n (negsuc m) h = cc h

same_authorities→eq :
    (as_listed : List PbEmbeddedCaFile)
    → same_authorities as_listed ≡ true
    → as_listed ≡ authority ∷ []
same_authorities→eq [] h = cc h
same_authorities→eq (a ∷ b ∷ rest) h = cc h
same_authorities→eq (a ∷ []) h =
    let (h₁, e) = and_true _ _ h in
    let (h₂, d) = and_true _ _ h₁ in
    let (h₃, c) = and_true _ _ h₂ in
    let (t, b) = and_true _ _ h₃ in
    cc (
      (eq_iff a.ca_type "admin-ca").0 t,
      (bytes_eq_iff a.pub_kem (fill 1568 0)).0 b,
      (bytes_eq_iff a.pub_sign (7 ∷ [])).0 c,
      (bytes_eq_iff a.anchor_sig []).0 d,
      (eq_iff a.anchor_admin "").0 e,
    )

abbrev pub ca_sig : Bytes
ca_sig = 7 ∷ domain_separate ctx_node_admission_v1 (1 ∷ 9 ∷ [])

same_file→eq :
    (f : PbNodeCertFile)
    → same_file ca_sig f ≡ true
    → f ≡ record file_message { ca_signature = ca_sig }
same_file→eq f h₀ =
    let (h₁, nonce) = and_true _ _ h₀ in
    let (h₂, serial) = and_true _ _ h₁ in
    let (h₃, until) = and_true _ _ h₂ in
    let (h₄, from) = and_true _ _ h₃ in
    let (h₅, issuer) = and_true _ _ h₄ in
    let (h₆, listed) = and_true _ _ h₅ in
    let (h₇, signed) = and_true _ _ h₆ in
    let (h₈, sign) = and_true _ _ h₇ in
    let (h₉, kem) = and_true _ _ h₈ in
    let (typ, json) = and_true _ _ h₉ in
    cc (
      (eq_iff f.file_type "node-cert").0 typ,
      (bytes_eq_iff f.key_json (5 ∷ [])).0 json,
      (bytes_eq_iff f.ca_pub_kem (fill 1568 0)).0 kem,
      (bytes_eq_iff f.ca_pub_sign (7 ∷ [])).0 sign,
      (bytes_eq_iff f.ca_signature ca_sig).0 signed,
      same_authorities→eq f.authorities listed,
      (eq_iff f.issuer_ca_hash "admin").0 issuer,
      is_pos→eq 100 f.valid_from from,
      is_pos→eq 900 f.valid_until until,
      (bytes_eq_iff f.serial (9 ∷ [])).0 serial,
      (bytes_eq_iff f.cert_nonce []).0 nonce,
    )

abbrev pub codec : FileCodec ℕ
codec = record {
  marshal_ca_file = λ f. none;
  unmarshal_ca_file = λ b. some (ca_file_to_pb ca_file);
  marshal_node_file = λ f. if same_file ca_sig f then some (1 ∷ []) else none;
  unmarshal_node_file = λ b. some (record file_message { ca_signature = ca_sig });
  load_key = λ b. if bytes_eq b (7 ∷ []) then some ca_key else some key;
}

abbrev pub tools : Tools ℕ
tools = record {
  read = λ path. some (0 ∷ []);
  writes = λ path b. true;
  new_key = some key;
  key_json = λ k. some (5 ∷ []);
  parse_duration = λ text. some (pos 800000000000);
  serial = some (9 ∷ []);
  cert_nonce = some [];
  now = record { seconds = pos 100; nanos = 0 };
}

abbrev pub args : List String
args = "-ca-key" ∷ "ca.oukey" ∷ "-out" ∷ "n.oucert" ∷ "-validity" ∷ "800s" ∷ []

if_encoded :
    (same : Bool) (b : Bytes)
    → ◌≡◌ {A = Option Bytes} (if same then some (1 ∷ []) else none) (some b)
    → same ≡ true
if_encoded true b h = refl
if_encoded false b h = cc h

pub back : ReadsBack codec tools
back = record { file_back = file_back; key_back = key_back }
  where
    file_back :
        (msg : PbNodeCertFile) (b : Bytes)
        → codec.marshal_node_file msg ≡ some b
        → codec.unmarshal_node_file b ≡ some msg
    file_back msg b h = ap some (sym (same_file→eq msg (if_encoded (same_file ca_sig msg) b h)))

    key_back :
        (k : NodeKey ℕ) (json : Bytes)
        → tools.new_key ≡ some k
        → tools.key_json k ≡ some json
        → codec.load_key json ≡ some k
    key_back k json made written =
        subst (λ b. codec.load_key b ≡ some k) (some-injective written) made

pub written : (cmd_sign_node world codec tools args).written ≡ some ("n.oucert", 1 ∷ [])
unfolding program cmd_sign_node write_out parse_flag validity_of signed_node signed_cert
    issuer_parts fresh_parts read_ca_key unmarshal_ca_key ca_file_of_pb ca_file_to_pb
    build_embedded_trust_chain marshal_node_cert node_file_to_pb authority_to_pb new_admin_ca
    new_ca_base split_and_parse_pub_key ca_hash unix_after
written = refl
