-- ===== src/Certgen/SignNode/Loaded.antt =====
-- cmd/certgen and cmd/interactive: a node's file that an admin authority has signed, as the node
-- loads it.
use ouroboros_db.Base.{
  String, string_eq, ◌<◌, ◌≡◌, refl, sym, ap, ◌∙◌, List, [], Option, some, ok, ok-injective,
  some-injective, length,
}
use ouroboros_db.Auth.Types.{Bytes, Keys}
use ouroboros_db.Auth.Ca.{kem_public_key_size}
use ouroboros_db.Auth.Delegation.{NodeKey, NodeIdentity, Session}
use ouroboros_db.Auth.Delegation.Ready.{IsReady}
use ouroboros_db.AuthFile.{
  CaKeyFile, PbNodeCertFile, FileCodec, read_ca_key, read_node_cert, node_file_to_pb,
  build_embedded_trust_chain,
}
use ouroboros_db.AuthFile.Identity.{
  admin_of, trusting, node_cert_to_identity-IsReady, build_embedded_trust_chain-add_embedded_trust,
}
use ouroboros_db.AuthFile.RoundTrip.{marshal_node_cert-read_node_cert}
use ouroboros_db.Start.{Text, IdentityConfig}
use ouroboros_db.Interactive.Trust.{load_node_identity, load_carrier_auth}
use ouroboros_db.Certgen.{Tools, parse_flag}
use ouroboros_db.Certgen.SignNode.{cmd_sign_node}
use ouroboros_db.Certgen.SignNode.Issued.{IsRun, cmd_sign_node-IsRun}
use ouroboros_db.Certgen.SignNode.Signer.{own_identity, node_cert_to_identity_lem}

-- A file's encoder gives back what it encoded, and the key library the new key that it wrote.
pub record ReadsBack {P : Type 0} (codec : FileCodec P) (tools : Tools P) : Type 0 where
  pub file_back :
      (msg : PbNodeCertFile) (bytes : Bytes)
      → codec.marshal_node_file msg ≡ some bytes
      → codec.unmarshal_node_file bytes ≡ some msg
  pub key_back :
      (key : NodeKey P) (json : Bytes)
      → tools.new_key ≡ some key
      → tools.key_json key ≡ some json
      → codec.load_key json ≡ some key

module _ {P N : Type 0} (k : Keys P N) (codec : FileCodec P) (tools : Tools P)
    (back : ReadsBack codec tools) where
  pub issued-read_node_cert :
      (args : List String) (out : String) (bytes : Bytes) (r : IsRun k codec tools args out bytes)
      → read_node_cert codec (some bytes) ≡ ok (r.issued.node_ac, r.file)
  issued-read_node_cert args out bytes r =
      marshal_node_cert-read_node_cert codec r.file bytes r.issued.node_ac
        (back.file_back (node_file_to_pb r.file) bytes) r.issued.a_node_cert
        (back.key_back r.issued.node_ac r.file.key_json r.issued.generated r.issued.key_written)
        r.marshalled

  -- The node's identity is the one of the file that was written.
  pub issued-load_node_identity :
      (args : List String) (out : String) (bytes : Bytes) (r : IsRun k codec tools args out bytes)
      (read : Text → Option Bytes) (path : Text) (session : Session)
      → read path ≡ some bytes
      → load_node_identity k codec read (some session) path
        ≡ ok (own_identity k r.issued.node_ac session r.cert r.file)
  unfolding load_node_identity
  issued-load_node_identity args out bytes r read path session there =
      rw
        (
          there,
          issued-read_node_cert args out bytes r,
          node_cert_to_identity_lem k r.issued.node_ac session r.cert r.file r.issued.same_cert,
        )
        refl

  pub issued-IsReady :
      (args : List String) (out : String) (bytes : Bytes) (r : IsRun k codec tools args out bytes)
      (session : Session)
      → IsReady k (own_identity k r.issued.node_ac session r.cert r.file)
  issued-IsReady args out bytes r session =
      node_cert_to_identity-IsReady k r.issued.node_ac r.file (some session) _
        (node_cert_to_identity_lem k r.issued.node_ac session r.cert r.file r.issued.same_cert)

  -- The authority's file that the run read is the one that the arguments name.
  pub issued-same_ca :
      (args : List String) (out : String) (bytes : Bytes) (r : IsRun k codec tools args out bytes)
      (ca_path : String) (ca_ac : NodeKey P) (ca_file : CaKeyFile)
      → parse_flag args "-ca-key" ≡ some ca_path
      → read_ca_key codec (tools.read ca_path) ≡ ok (ca_ac, ca_file)
      → ◌≡◌ {A = NodeKey P × CaKeyFile} (r.ca_ac, r.ca_file) (ca_ac, ca_file)
  issued-same_ca args out bytes r ca_path ca_ac ca_file named reads =
      let same_path = some-injective (sym r.ca_named ∙ named) in
      ok-injective
        (sym r.ca_read ∙ ap (λ path. read_ca_key codec (tools.read path)) same_path ∙ reads)

module _ {P N : Type 0} (k : Keys P N) (codec : FileCodec P) (tools : Tools P)
    (back : ReadsBack codec tools)
    (parse_back : (p : P) (kem sign : Bytes)
      → k.marshal_binary_kem p ≡ some kem
      → k.marshal_binary_sign p ≡ some sign
      → (length kem ≡ kem_public_key_size)
        × (0 < length sign)
        × (k.new_public_key_from_binary kem sign ≡ some p)) where
  -- The file that `certgen sign-node` writes with an admin authority's key starts a node: with no
  -- authorities' files configured, the interactive command loads from it an identity that is ready
  -- to authenticate, and a trust store that trusts exactly that authority. Files and keys are read
  -- back as they were written, and a key is parsed back from its two halves.
  pub cmd_sign_node-load_carrier_auth :
      {H : Type 0} (args : List String) (out : String) (bytes : Bytes) (ca_path : String)
      (ca_ac : NodeKey P) (ca_file : CaKeyFile) (kem sign : Bytes) (read : Text → Option Bytes)
      (conf : IdentityConfig) (session : Session)
      → (cmd_sign_node k codec tools args).written ≡ some (out, bytes)
      → parse_flag args "-ca-key" ≡ some ca_path
      → read_ca_key codec (tools.read ca_path) ≡ ok (ca_ac, ca_file)
      → ca_file.file_type ≡ "admin-ca"
      → k.marshal_binary_kem ca_ac.pub_key ≡ some kem
      → k.marshal_binary_sign ca_ac.pub_key ≡ some sign
      → conf.admin_ca_paths ≡ []
      → conf.user_ca_paths ≡ []
      → read conf.node_cert_path ≡ some bytes
      → (ni : NodeIdentity P N) × (load_node_identity k codec read
            (some session)
            conf.node_cert_path
          ≡ ok ni)
        × IsReady k ni
        × (load_carrier_auth k codec read {H = H} conf
            ≡ ok (trusting (admin_of k ca_ac.pub_key kem sign)))
  unfolding load_carrier_auth
  cmd_sign_node-load_carrier_auth {H} args out bytes ca_path ca_ac ca_file kem sign read conf
        session written named reads typ hk hs no_admins no_users there =
      let r = cmd_sign_node-IsRun k codec tools args out bytes written in
      let same =
        issued-same_ca k codec tools back args out bytes r ca_path ca_ac ca_file named reads in
      let chained =
        sym (ap (λ (x : NodeKey P × CaKeyFile). build_embedded_trust_chain k x.0 x.1) same)
        ∙ r.issued.chained in
      let trust =
        build_embedded_trust_chain-add_embedded_trust k parse_back {H = H} ca_ac ca_file
          r.file.authorities r.file kem sign hk hs typ chained refl in
      (
        own_identity k r.issued.node_ac session r.cert r.file,
        issued-load_node_identity k codec tools back args out bytes r read conf.node_cert_path
            session there,
        issued-IsReady k codec tools back args out bytes r session,
        rw
            (
              no_admins,
              no_users,
              there,
              issued-read_node_cert k codec tools back args out bytes r,
              trust,
            )
            refl,
      )
