-- ===== src/Certgen/SignNode/Issued.antt =====
-- cmd/certgen/main.go: what a run of `cmdSignNode` that wrote its file has done.
use ouroboros_db.Base.{
  String, string_eq, ◌≡◌, refl, ap, ◌∙◌, subst, List, Option, some, Result, ok, err, or_fail,
  fail_if, >>=-eq-ok, or_fail-eq-ok, ltb, length, drop, ℤ, ok-injective, some-injective, Bool-cases,
  inl, inr, arith,
}
use ouroboros_db.Auth.Types.{Bytes, Keys, CertSnapshot}
use ouroboros_db.Auth.Canonical.{marshal_pub_key_bytes, canonical_node_cert}
use ouroboros_db.Auth.Ca.{AdminCa, kem_public_key_size, new_admin_ca, verify_node_cert}
use ouroboros_db.Auth.Delegation.{NodeKey, new_node_cert}
use ouroboros_db.AuthFile.{
  CaKeyFile, NodeCertFile, FileCodec, marshal_node_cert, read_ca_key, build_embedded_trust_chain,
}
use ouroboros_db.Certgen.{
  Tools, CommandError, Report, failing, bad_ca, bad_file, unix_after, parse_flag, write_out,
  no_public_key, no_new_key, no_serial, no_nonce, no_key_json, out_of_range, not_signed,
  missing_flag, not_encoded,
}
use ouroboros_db.Certgen.SignNode.{
  validity_of, issuer_parts, fresh_parts, signed_cert, signed_node, cmd_sign_node,
}

failing-ok :
    {E A : Type 0} {a : A} (as_error : E → CommandError) (r : Result E A)
    → failing as_error r ≡ ok a
    → r ≡ ok a
failing-ok as_error (ok b) h = cc
failing-ok as_error (err e) h = cc

module _ {P N : Type 0} (k : Keys P N) (tools : Tools P) (ca_ac : NodeKey P)
    (ca_file : CaKeyFile) where
  -- The file and the certificate of a node that the authority has signed.
  pub record IsIssued (validity : ℤ) (f : NodeCertFile) (cert : CertSnapshot P N) : Type 0 where
    pub node_ac : NodeKey P
    pub generated : tools.new_key ≡ some node_ac
    pub key_written : tools.key_json node_ac ≡ some f.key_json
    pub from : f.valid_from ≡ tools.now.seconds
    pub until : f.valid_until ≡ unix_after tools.now validity
    pub a_node_cert : f.file_type ≡ "node-cert"
    pub same_cert :
        new_node_cert k node_ac.pub_key f.issuer_ca_hash f.valid_from f.valid_until f.serial
          f.cert_nonce
        ≡ ok cert
    pub pub_bytes : Bytes
    pub encoded : marshal_pub_key_bytes k ca_ac.pub_key ≡ ok pub_bytes
    pub hashed : f.issuer_ca_hash ≡ k.hex (k.sha256 (drop kem_public_key_size pub_bytes))
    pub authority : AdminCa P
    pub parsed : new_admin_ca k pub_bytes ≡ ok authority
    pub nid : N
    pub verified : verify_node_cert k authority.base cert f.ca_signature ≡ ok nid
    pub chained : build_embedded_trust_chain k ca_ac ca_file ≡ ok f.authorities

  signed_cert_lem :
      (node_ac : NodeKey P) (pub_bytes : Bytes) (issuer_hash : String) (serial cert_nonce : Bytes)
      (validity : ℤ) (cert : CertSnapshot P N) (ca_sig : Bytes)
      → signed_cert k tools ca_ac node_ac pub_bytes issuer_hash serial cert_nonce validity
        ≡ ok (cert, ca_sig)
      → (new_node_cert k node_ac.pub_key issuer_hash tools.now.seconds
            (unix_after tools.now validity)
            serial
            cert_nonce
          ≡ ok cert)
        × (authority : AdminCa P) × (new_admin_ca k pub_bytes ≡ ok authority)
        × (nid : N) × (verify_node_cert k authority.base cert ca_sig ≡ ok nid)
  unfolding signed_cert
  signed_cert_lem node_ac pub_bytes issuer_hash serial cert_nonce validity cert ca_sig h =
      let (c, made, h₁) =
        >>=-eq-ok
          (failing bad_ca (new_node_cert k node_ac.pub_key issuer_hash tools.now.seconds _ _ _)) _
          h in
      let (canonical, encoded, h₂) = >>=-eq-ok (failing bad_ca (canonical_node_cert k c)) _ h₁ in
      let (sig, signs, h₃) = >>=-eq-ok (or_fail (ca_ac.sign _) not_signed) _ h₂ in
      let (authority, parsed, h₄) = >>=-eq-ok (failing bad_ca (new_admin_ca k pub_bytes)) _ h₃ in
      let (nid, verified, h₅) =
        >>=-eq-ok (failing bad_ca (verify_node_cert k authority.base c sig)) _ h₄ in
      let same : ◌≡◌ {A = CertSnapshot P N × Bytes} (c, sig) (cert, ca_sig) = ok-injective h₅ in
      let same_cert = ap (λ (x : CertSnapshot P N × Bytes). x.0) same in
      (
        failing-ok bad_ca _ made ∙ ap ok same_cert,
        authority,
        failing-ok bad_ca _ parsed,
        nid,
        subst (λ (x : CertSnapshot P N × Bytes). verify_node_cert k authority.base x.0 x.1 ≡ ok nid)
            same (failing-ok bad_ca _ verified),
      )

  issuer_parts_lem :
      (pub_bytes kem sign : Bytes)
      → issuer_parts k ca_ac ≡ ok (pub_bytes, kem, sign)
      → marshal_pub_key_bytes k ca_ac.pub_key ≡ ok pub_bytes
  unfolding issuer_parts
  issuer_parts_lem pub_bytes kem sign h =
      let (bytes, encoded, h₁) =
        >>=-eq-ok (failing bad_ca (marshal_pub_key_bytes k ca_ac.pub_key)) _ h in
      let (kem_half, kem_made, h₂) =
        >>=-eq-ok (or_fail (k.marshal_binary_kem ca_ac.pub_key) no_public_key) _ h₁ in
      let (sign_half, sign_made, h₃) =
        >>=-eq-ok (or_fail (k.marshal_binary_sign ca_ac.pub_key) no_public_key) _ h₂ in
      let (_, long, h₄) =
        >>=-eq-ok (fail_if (ltb (length bytes) kem_public_key_size) out_of_range) _ h₃ in
      failing-ok bad_ca _ encoded ∙ ap (λ (x : Bytes × Bytes × Bytes). ok x.0) (ok-injective h₄)

  fresh_parts_lem :
      (node_ac : NodeKey P) (serial cert_nonce : Bytes)
      → fresh_parts tools ≡ ok (node_ac, serial, cert_nonce)
      → tools.new_key ≡ some node_ac
  unfolding fresh_parts
  fresh_parts_lem node_ac serial cert_nonce h =
      let (key, generated, h₁) = >>=-eq-ok (or_fail tools.new_key no_new_key) _ h in
      let (number, drawn, h₂) = >>=-eq-ok (or_fail tools.serial no_serial) _ h₁ in
      let (nonce, drawn_too, h₃) = >>=-eq-ok (or_fail tools.cert_nonce no_nonce) _ h₂ in
      or_fail-eq-ok _ _ generated
      ∙ ap (λ (x : NodeKey P × Bytes × Bytes). some x.0) (ok-injective h₃)

  pub signed_node-IsIssued :
      (validity : ℤ) (f : NodeCertFile) (cert : CertSnapshot P N)
      → signed_node k tools ca_ac ca_file validity ≡ ok (f, cert)
      → IsIssued validity f cert
  unfolding signed_node
  signed_node-IsIssued validity f cert h =
      let ((pub_bytes, kem, sign), parts, h₁) = >>=-eq-ok (issuer_parts k ca_ac) _ h in
      let ((node_ac, serial, cert_nonce), fresh, h₂) = >>=-eq-ok (fresh_parts tools) _ h₁ in
      let issuer_hash = k.hex (k.sha256 (drop kem_public_key_size pub_bytes)) in
      let ((c, ca_sig), signs, h₃) =
        >>=-eq-ok
          (signed_cert k tools ca_ac node_ac pub_bytes issuer_hash serial cert_nonce validity) _
          h₂ in
      let (key_json, written, h₄) = >>=-eq-ok (or_fail (tools.key_json node_ac) no_key_json) _ h₃ in
      let (authorities, chained, h₅) =
        >>=-eq-ok (failing bad_file (build_embedded_trust_chain k ca_ac ca_file)) _ h₄ in
      let (made, authority, parsed, nid, verified) =
        signed_cert_lem node_ac pub_bytes issuer_hash serial cert_nonce validity c ca_sig signs in
      subst (λ (x : NodeCertFile × CertSnapshot P N). IsIssued validity x.0 x.1)
        {x = (
          record {
            file_type = "node-cert";
            key_json = key_json;
            ca_pub_kem = kem;
            ca_pub_sign = sign;
            ca_signature = ca_sig;
            authorities = authorities;
            issuer_ca_hash = issuer_hash;
            valid_from = tools.now.seconds;
            valid_until = unix_after tools.now validity;
            serial = serial;
            cert_nonce = cert_nonce;
          },
          c,
        )}
        {y = (f, cert)} (ok-injective h₅)
        (record {
          node_ac = node_ac;
          generated = fresh_parts_lem node_ac serial cert_nonce fresh;
          key_written = or_fail-eq-ok _ _ written;
          from = refl;
          until = refl;
          a_node_cert = refl;
          same_cert = made;
          pub_bytes = pub_bytes;
          encoded = issuer_parts_lem pub_bytes kem sign parts;
          hashed = refl;
          authority = authority;
          parsed = parsed;
          nid = nid;
          verified = verified;
          chained = failing-ok {a = authorities} bad_file _ chained;
        })

module _ {P N : Type 0} (k : Keys P N) (codec : FileCodec P) (tools : Tools P) where
  -- A run that wrote the file: the key it read, and what it issued.
  pub record IsRun (args : List String) (out : String) (bytes : Bytes) : Type 0 where
    pub ca_path : String
    pub ca_named : parse_flag args "-ca-key" ≡ some ca_path
    pub out_named : parse_flag args "-out" ≡ some out
    pub ca_ac : NodeKey P
    pub ca_file : CaKeyFile
    pub ca_read : read_ca_key codec (tools.read ca_path) ≡ ok (ca_ac, ca_file)
    pub file : NodeCertFile
    pub cert : CertSnapshot P N
    pub validity : ℤ
    pub lasting : validity_of tools args ≡ ok validity
    pub issued : IsIssued k tools ca_ac ca_file validity file cert
    pub marshalled : marshal_node_cert codec file ≡ some bytes

  -- The file that was written is the one that was prepared.
  record IsPrepared (r : Result CommandError (String × Bytes × Result CommandError (Report N)))
      (out : String) (bytes : Bytes) : Type 0 where
    report : Result CommandError (Report N)
    prepared : r ≡ ok (out, bytes, report)

  write_out-IsPrepared :
      (out : String) (bytes : Bytes)
      (r : Result CommandError (String × Bytes × Result CommandError (Report N)))
      → (write_out tools r).written ≡ some (out, bytes)
      → IsPrepared r out bytes
  unfolding write_out
  write_out-IsPrepared out bytes (err e) h = cc
  write_out-IsPrepared out bytes (ok (path, content, report)) h =
      elim (Bool-cases (tools.writes path content)) [
        | inr failed ↦ absurd (ground (arith, h, failed))
        | inl done ↦
            let same : ◌≡◌ {A = Option (String × Bytes)} (some (path, content))
                (some (out, bytes)) =
              ground (arith, h, done) in
            let pair = some-injective same in
            record {
              report = report;
              prepared = ap (λ (x : String × Bytes). ok (x.0, x.1, report)) pair;
            }
      ]

  pub cmd_sign_node-IsRun :
      (args : List String) (out : String) (bytes : Bytes)
      → (cmd_sign_node k codec tools args).written ≡ some (out, bytes)
      → IsRun args out bytes
  unfolding cmd_sign_node
  cmd_sign_node-IsRun args out bytes h =
      let p = write_out-IsPrepared out bytes _ h in
      let (ca_path, named, h₁) =
        >>=-eq-ok (or_fail (parse_flag args "-ca-key") (missing_flag "-ca-key")) _ p.prepared in
      let (path, out_named, h₂) =
        >>=-eq-ok (or_fail (parse_flag args "-out") (missing_flag "-out")) _ h₁ in
      let (validity, valid, h₃) = >>=-eq-ok (validity_of tools args) _ h₂ in
      let ((ca_ac, ca_file), reads, h₄) =
        >>=-eq-ok (failing bad_file (read_ca_key codec (tools.read ca_path))) _ h₃ in
      let ((f, cert), signs, h₅) = >>=-eq-ok (signed_node k tools ca_ac ca_file validity) _ h₄ in
      let (content, encoded, h₆) =
        >>=-eq-ok (or_fail (marshal_node_cert codec f) not_encoded) _ h₅ in
      let same = ok-injective h₆ in
      record {
        ca_path = ca_path;
        ca_named = or_fail-eq-ok _ _ named;
        out_named =
            or_fail-eq-ok _ _ out_named
            ∙ ap (λ (x : String × Bytes × Result CommandError (Report N)). some x.0) same;
        ca_ac = ca_ac;
        ca_file = ca_file;
        ca_read = failing-ok bad_file _ reads;
        file = f;
        cert = cert;
        validity = validity;
        lasting = valid;
        issued = signed_node-IsIssued k tools ca_ac ca_file validity f cert signs;
        marshalled =
            or_fail-eq-ok _ _ encoded
            ∙ ap (λ (x : String × Bytes × Result CommandError (Report N)). some x.1) same;
      }
