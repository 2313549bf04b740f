-- ===== src/Certgen/SignNode/Accepted.antt =====
-- From cmd/certgen to internal/auth: a node whose file an admin authority has signed is accepted by
-- every peer that trusts the authority.
use ouroboros_db.Base.{
  String, string_eq, ◌<◌, ◌≤◌, ◌≡◌, refl, sym, ap, ◌∙◌, subst, true, List, Option, some, ok,
  ok-injective, some-injective, Eq, length, get_elem?, map, ℤ, pos, ◌+ℤ◌, ◌≤ℤ◌, IsInt64,
}
use ouroboros_db.Auth.Types.{
  Bytes, Keys, CertSnapshot, DelegationProof, AuthContext, scope_admin, max_delegation_ttl,
  binding_size,
}
use ouroboros_db.Auth.Ca.{kem_public_key_size}
use ouroboros_db.Auth.Store.{CarrierAuth}
use ouroboros_db.Auth.Chain.{snap_trust_store, issuer_admin, is_cert_valid, verify_single_cert}
use ouroboros_db.Auth.Verify.{PeerHandshake, trust_for, verify_peer_cert}
use ouroboros_db.Auth.Delegation.{NodeKey, NodeIdentity, Session, Exporter, sign_delegation}
use ouroboros_db.Auth.Delegation.Ready.{IsReady}
use ouroboros_db.AuthFile.{CaKeyFile, FileCodec, read_ca_key, to_auth_embedded_ca}
use ouroboros_db.AuthFile.Identity.{admin_of, admin_chain}
use ouroboros_db.Start.{Text}
use ouroboros_db.Interactive.Trust.{load_node_identity}
use ouroboros_db.Transport.Handshake.{
  WireAuthMessage, AuthCodec, TlsSession, max_auth_message_size, auth_message, read_auth_handshake,
  dial_and_auth,
}
use ouroboros_db.Transport.Handshake.Accepted.{dial_and_auth-verify_peer_cert}
use ouroboros_db.Certgen.{Tools, parse_flag, unix_after}
use ouroboros_db.Certgen.SignNode.{validity_of, cmd_sign_node}
use ouroboros_db.Certgen.SignNode.Issued.{IsRun, cmd_sign_node-IsRun}
use ouroboros_db.Certgen.SignNode.Signer.{
  own_identity, new_node_cert-IsMade, IsSigner, IsIssued-IsSigner,
}
use ouroboros_db.Certgen.SignNode.Trusted.{
  Trusts, trust_for-own, is_cert_valid-own, verify_single_cert-own,
}
use ouroboros_db.Certgen.SignNode.Loaded.{
  ReadsBack, issued-load_node_identity, issued-IsReady, issued-same_ca,
}

module _ {P N : Type 0} ⦃e : Eq N⦄ (k : Keys P N) where
  -- What a store makes of a node's identity.
  record Presents {H : Type 0} (ca : CarrierAuth P N H) (now : ℤ) (ni : NodeIdentity P N)
      : Type 0 where
    ready : IsReady k ni
    same_trust : trust_for k ca ni.authorities ≡ ok (snap_trust_store ca)
    cert : CertSnapshot P N
    ca_sig : Bytes
    there : get_elem? ni.certs 0 ≡ some cert
    sig_there : get_elem? ni.ca_sigs 0 ≡ some ca_sig
    valid : is_cert_valid k (snap_trust_store ca) cert now ≡ true
    single :
        verify_single_cert k (snap_trust_store ca) cert ca_sig
        ≡ ok (ni.node_id, ni.key.pub_key, issuer_admin)

  module _ (codec : FileCodec P) (tools : Tools P) (back : ReadsBack codec tools)
      (parse_back : (p : P) (kem sign : Bytes)
        → k.marshal_binary_kem p ≡ some kem
        → k.marshal_binary_sign p ≡ some sign
        → (length kem ≡ kem_public_key_size)
          × (0 < length sign)
          × (k.new_public_key_from_binary kem sign ≡ some p)) where
    issued-Presents :
        {H : Type 0} (ca : CarrierAuth P N H) (now : ℤ) (args : List String) (out : String)
        (bytes : Bytes) (r : IsRun k codec tools args out bytes) (session : Session)
        → r.ca_file.file_type ≡ "admin-ca"
        → tools.now.seconds ≤ℤ now
        → now ≤ℤ unix_after tools.now r.validity
        → (s : IsSigner k parse_back r.ca_ac r.file r.cert)
        → Trusts ca
            (admin_of k r.ca_ac.pub_key s.kem s.sign).hash
            (admin_of k r.ca_ac.pub_key s.kem s.sign)
            r.cert.node_id
        → Presents ca now (own_identity k r.issued.node_ac session r.cert r.file)
    issued-Presents ca now args out bytes r session typ begun lasting s t =
        let admin = admin_of k r.ca_ac.pub_key s.kem s.sign in
        let m =
          new_node_cert-IsMade k r.issued.node_ac.pub_key r.file.issuer_ca_hash r.file.valid_from
            r.file.valid_until r.file.serial r.file.cert_nonce r.cert r.issued.same_cert in
        let listed =
          admin_chain k parse_back r.ca_ac r.ca_file r.file.authorities s.kem s.sign s.kem_half
            s.sign_half typ r.issued.chained in
        let known = subst (λ h. Trusts ca h admin r.cert.node_id) (sym s.same_hash) t in
        let derived = ap k.node_id m.same_key ∙ m.derived in
        let starts = m.same_from ∙ r.issued.from in
        let ends = m.same_until ∙ r.issued.until in
        record {
          ready = issued-IsReady k codec tools back args out bytes r session;
          same_trust =
              subst (λ xs. trust_for k ca (map to_auth_embedded_ca xs) ≡ ok (snap_trust_store ca))
                listed
                (trust_for-own k parse_back ca r.ca_ac.pub_key s.kem s.sign r.cert.node_id
                  s.kem_half s.sign_half t);
          cert = r.cert;
          ca_sig = r.file.ca_signature;
          there = refl;
          sig_there = refl;
          valid =
              is_cert_valid-own k parse_back ca admin r.cert now known derived
                (subst (λ z. z ≤ℤ now) (sym starts) begun)
                (subst (λ z. now ≤ℤ z) (sym ends) lasting);
          single =
              verify_single_cert-own k parse_back ca admin r.cert r.file.ca_signature s.nid known
                derived s.signed
              ∙ ap (λ p. ok (r.cert.node_id, p, issuer_admin)) m.same_key;
        }

    issued-admin :
        (args : List String) (out : String) (bytes : Bytes) (r : IsRun k codec tools args out bytes)
        (ca_ac : NodeKey P) (ca_file : CaKeyFile) (kem sign : Bytes)
        → ◌≡◌ {A = NodeKey P × CaKeyFile} (r.ca_ac, r.ca_file) (ca_ac, ca_file)
        → k.marshal_binary_kem ca_ac.pub_key ≡ some kem
        → k.marshal_binary_sign ca_ac.pub_key ≡ some sign
        → (s : IsSigner k parse_back r.ca_ac r.file r.cert)
        → admin_of k r.ca_ac.pub_key s.kem s.sign ≡ admin_of k ca_ac.pub_key kem sign
    issued-admin args out bytes r ca_ac ca_file kem sign same hk hs s =
        let same_ac = ap (λ (x : NodeKey P × CaKeyFile). x.0) same in
        let same_kem =
          some-injective (
            sym s.kem_half ∙ ap (λ (x : NodeKey P). k.marshal_binary_kem x.pub_key) same_ac ∙ hk) in
        let same_sign = some-injective (
          sym s.sign_half ∙ ap (λ (x : NodeKey P). k.marshal_binary_sign x.pub_key) same_ac ∙ hs) in
        ap (λ (x : NodeKey P). admin_of k x.pub_key s.kem s.sign) same_ac
        ∙ ap (λ b. admin_of k ca_ac.pub_key b s.sign) same_kem
        ∙ ap (λ b. admin_of k ca_ac.pub_key kem b) same_sign

    -- A store that trusts the authority whose key signed the file makes of the loaded identity what
    -- it should.
    loaded-Presents :
        {H : Type 0} (ca : CarrierAuth P N H) (now : ℤ) (args : List String) (out : String)
        (bytes : Bytes) (ca_path : String) (ca_ac : NodeKey P) (ca_file : CaKeyFile)
        (kem sign : Bytes) (validity : ℤ) (read : Text → Option Bytes) (path : Text)
        (session : Session) (ni : NodeIdentity P N)
        → (cmd_sign_node k codec tools args).written ≡ some (out, bytes)
        → parse_flag args "-ca-key" ≡ some ca_path
        → read_ca_key codec (tools.read ca_path) ≡ ok (ca_ac, ca_file)
        → ca_file.file_type ≡ "admin-ca"
        → k.marshal_binary_kem ca_ac.pub_key ≡ some kem
        → k.marshal_binary_sign ca_ac.pub_key ≡ some sign
        → validity_of tools args ≡ ok validity
        → read path ≡ some bytes
        → load_node_identity k codec read (some session) path ≡ ok ni
        → Trusts ca
            (admin_of k ca_ac.pub_key kem sign).hash
            (admin_of k ca_ac.pub_key kem sign)
            ni.node_id
        → tools.now.seconds ≤ℤ now
        → now ≤ℤ unix_after tools.now validity
        → Presents ca now ni
    loaded-Presents {H} ca now args out bytes ca_path ca_ac ca_file kem sign validity read path
          session ni written named reads typ hk hs chosen there loads t begun lasting =
        let r = cmd_sign_node-IsRun k codec tools args out bytes written in
        let s =
          IsIssued-IsSigner k parse_back tools r.ca_ac r.ca_file r.validity r.file r.cert
            r.issued in
        let same =
          issued-same_ca k codec tools back args out bytes r ca_path ca_ac ca_file named reads in
        let same_ni = ok-injective (
          sym
            (issued-load_node_identity k codec tools back args out bytes r read path session there)
          ∙ loads) in
        let same_admin = issued-admin args out bytes r ca_ac ca_file kem sign same hk hs s in
        let same_validity = ok-injective (sym r.lasting ∙ chosen) in
        let trusts =
          subst
            (λ (i : NodeIdentity P N).
              Trusts ca (admin_of k r.ca_ac.pub_key s.kem s.sign).hash
                (admin_of k r.ca_ac.pub_key s.kem s.sign) i.node_id)
            (sym same_ni) (subst (λ a. Trusts ca a.hash a ni.node_id) (sym same_admin) t) in
        subst (Presents ca now) same_ni (
          issued-Presents ca now args out bytes r session
            (ap (λ (x : NodeKey P × CaKeyFile). x.1.file_type) same ∙ typ) begun
            (subst (λ v. now ≤ℤ unix_after tools.now v) (sym same_validity) lasting) s trusts)

    module _ (ni : NodeIdentity P N) (export : Exporter) (start now : ℤ)
        (verifies : (msg sig : Bytes)
          → ni.key.sign msg ≡ some sig
          → (0 < length sig) × (k.verify ni.key.pub_key msg sig ≡ true))
        (hash_sized : (b : Bytes) → length (k.sha256 b) ≡ binding_size)
        (export_sized : (label : String) (ctx : Option Bytes) (value : Bytes)
          → export label ctx binding_size ≡ some value
          → length value ≡ binding_size)
        (key_hash_sized : length ni.session.cert_pub_key_hash ≡ binding_size)
        (fingerprint_sized : length ni.session.x509_fingerprint ≡ binding_size) (conn : TlsSession)
        (same_exports : (label : String) (ctx : Option Bytes)
          → conn.export_keying_material label ctx binding_size ≡ export label ctx binding_size)
        (same_key_hash : conn.tls_bindings.cert_pub_key_hash ≡ ni.session.cert_pub_key_hash)
        (same_fingerprint : conn.tls_bindings.x509_fingerprint ≡ ni.session.x509_fingerprint)
        (starts_int64 : IsInt64 start) (ends_int64 : IsInt64 (start +ℤ pos max_delegation_ttl))
        (begun : start ≤ℤ now) (not_over : now ≤ℤ start +ℤ pos max_delegation_ttl) where
      -- From the tool to the peer: a node that starts from the file that `certgen sign-node` wrote
      -- with an admin authority's key authenticates itself, within the file's validity and for 300
      -- seconds from the signing of its delegation, to every store that trusts the authority, has
      -- revoked neither it nor the node, and knows no user authority under its hash; it gets admin
      -- scope under its NodeID. The encoders of files and messages give back what they encoded, and
      -- the message is at most 1 MiB; the tool's new key is loaded back from what was written, a
      -- key is parsed back from its two halves, and the node's key signs what it verifies; both
      -- ends of the connection have the session's hashes and export the same values; hashes and
      -- exported values have 32 bytes, and the times are int64.
      pub cmd_sign_node-verify_peer_cert :
          {H : Type 0} (ca : CarrierAuth P N H) (args : List String) (out : String) (bytes : Bytes)
          (ca_path : String) (ca_ac : NodeKey P) (ca_file : CaKeyFile) (kem sign : Bytes)
          (validity : ℤ) (read : Text → Option Bytes) (path : Text) (session : Session)
          (proto : AuthCodec) (proof : DelegationProof) (sig : Bytes) (msg : WireAuthMessage)
          (payload : Bytes)
          → (cmd_sign_node k codec tools args).written ≡ some (out, bytes)
          → parse_flag args "-ca-key" ≡ some ca_path
          → read_ca_key codec (tools.read ca_path) ≡ ok (ca_ac, ca_file)
          → ca_file.file_type ≡ "admin-ca"
          → k.marshal_binary_kem ca_ac.pub_key ≡ some kem
          → k.marshal_binary_sign ca_ac.pub_key ≡ some sign
          → validity_of tools args ≡ ok validity
          → read path ≡ some bytes
          → load_node_identity k codec read (some session) path ≡ ok ni
          → Trusts ca
              (admin_of k ca_ac.pub_key kem sign).hash
              (admin_of k ca_ac.pub_key kem sign)
              ni.node_id
          → tools.now.seconds ≤ℤ now
          → now ≤ℤ unix_after tools.now validity
          → sign_delegation k ni.key ni.certs ni.session export start ≡ ok (proof, sig)
          → auth_message k ni.certs ni.ca_sigs ni.authorities proof sig ≡ ok msg
          → proto.marshal msg ≡ some payload
          → proto.unmarshal payload ≡ some msg
          → 0 < length payload
          → length payload ≤ max_auth_message_size
          → (stream : Bytes) × (dial_and_auth k proto export ni start ≡ ok stream)
            × (hs : PeerHandshake P N) × (read_auth_handshake k proto conn stream ≡ ok hs)
            × (ctx : AuthContext N) × (verify_peer_cert k ca now hs ≡ ok ctx)
            × (ctx.node_id ≡ ni.node_id)
            × (ctx.effective_scope ≡ scope_admin)
      cmd_sign_node-verify_peer_cert ca args out bytes ca_path ca_ac ca_file kem sign validity read
            path session proto proof sig msg payload written named reads typ hk hs chosen there
            loads t in_time still_valid signs built marshalled unmarshalled filled fits =
          let p =
            loaded-Presents ca now args out bytes ca_path ca_ac ca_file kem sign validity read path
              session ni written named reads typ hk hs chosen there loads t in_time still_valid in
          let (stream, dials, handshake, received, ctx, accepted, same_node, admin) =
            dial_and_auth-verify_peer_cert k ni export start now p.ready parse_back verifies
              hash_sized export_sized key_hash_sized fingerprint_sized conn same_exports
              same_key_hash same_fingerprint starts_int64 ends_int64 begun not_over ca proto proof
              sig msg payload (snap_trust_store ca) 0 p.cert p.ca_sig issuer_admin signs built
              marshalled unmarshalled filled fits p.same_trust p.there p.sig_there p.valid
              p.single in
          (stream, dials, handshake, received, ctx, accepted, same_node, admin refl)
