-- ===== src/Certgen/SignNode/Signer.antt =====
-- cmd/certgen and pkg/authfile: the authority that signed a node, and the identity of the node.
use ouroboros_db.Base.{
  String, string_eq, ◌<◌, ◌≡◌, refl, sym, ap, ◌∙◌, subst, [], ◌∷◌, ◌++◌, some, ok, or_fail,
  >>=-eq-ok, or_fail-eq-ok, ok-injective, length, drop, ℤ, map, drop-length_append,
}
use ouroboros_db.Auth.Types.{Bytes, Keys, CertSnapshot, external}
use ouroboros_db.Auth.Canonical.{marshal_pub_key_bytes}
use ouroboros_db.Auth.Ca.{kem_public_key_size, new_admin_ca, verify_node_cert}
use ouroboros_db.Auth.Delegation.{NodeKey, NodeIdentity, Session, new_node_cert, new_node_identity}
use ouroboros_db.AuthFile.{CaKeyFile, NodeCertFile, node_cert_to_identity, to_auth_embedded_ca}
use ouroboros_db.AuthFile.Identity.{admin_of, own_admin}
use ouroboros_db.Certgen.{Tools}
use ouroboros_db.Certgen.SignNode.Issued.{IsIssued}

module _ {P N : Type 0} (k : Keys P N) where
  -- The two halves of an encoded key.
  record Halves (p : P) (bytes : Bytes) : Type 0 where
    kem : Bytes
    sign : Bytes
    kem_half : k.marshal_binary_kem p ≡ some kem
    sign_half : k.marshal_binary_sign p ≡ some sign
    joined : kem ++ sign ≡ bytes

  halves : (p : P) (bytes : Bytes) → marshal_pub_key_bytes k p ≡ ok bytes → Halves p bytes
  unfolding marshal_pub_key_bytes
  halves p bytes h =
      let (kem, first, h₁) = >>=-eq-ok (or_fail (k.marshal_binary_kem p) external) _ h in
      let (sign, second, h₂) = >>=-eq-ok (or_fail (k.marshal_binary_sign p) external) _ h₁ in
      record {
        kem = kem;
        sign = sign;
        kem_half = or_fail-eq-ok _ external first;
        sign_half = or_fail-eq-ok _ external second;
        joined = ok-injective h₂;
      }

  -- The fields of a new certificate.
  pub record IsMade (p : P) (h : String) (valid_from valid_until : ℤ) (cert : CertSnapshot P N)
      : Type 0 where
    pub same_hash : cert.issuer_ca_hash ≡ h
    pub same_from : cert.valid_from ≡ valid_from
    pub same_until : cert.valid_until ≡ valid_until
    pub same_key : cert.node_pub_key ≡ p
    pub derived : k.node_id p ≡ some cert.node_id

  pub new_node_cert-IsMade :
      (p : P) (h : String) (valid_from valid_until : ℤ) (serial cert_nonce : Bytes)
      (cert : CertSnapshot P N)
      → new_node_cert k p h valid_from valid_until serial cert_nonce ≡ ok cert
      → IsMade p h valid_from valid_until cert
  unfolding new_node_cert
  new_node_cert-IsMade p h valid_from valid_until serial cert_nonce cert made =
      let (nid, derived, same) = >>=-eq-ok (or_fail (k.node_id p) external) _ made in
      subst (IsMade p h valid_from valid_until) (ok-injective same) (record {
        same_hash = refl;
        same_from = refl;
        same_until = refl;
        same_key = refl;
        derived = or_fail-eq-ok _ external derived;
      })

  -- The identity that the file gives.
  abbrev pub own_identity : NodeKey P → Session → CertSnapshot P N → NodeCertFile → NodeIdentity P N
  own_identity node_ac session cert f = record {
    key = node_ac;
    session = session;
    certs = cert ∷ [];
    ca_sigs = f.ca_signature ∷ [];
    authorities = map to_auth_embedded_ca f.authorities;
    node_id = cert.node_id;
  }

  pub node_cert_to_identity_lem :
      (node_ac : NodeKey P) (session : Session) (cert : CertSnapshot P N) (f : NodeCertFile)
      → new_node_cert k node_ac.pub_key f.issuer_ca_hash f.valid_from f.valid_until f.serial
          f.cert_nonce
        ≡ ok cert
      → node_cert_to_identity k node_ac f (some session) ≡ ok (own_identity node_ac session cert f)
  unfolding node_cert_to_identity new_node_identity
  node_cert_to_identity_lem node_ac session cert f made = rw made refl

module _ {P N : Type 0} (k : Keys P N)
    (parse_back : (p : P) (kem sign : Bytes)
      → k.marshal_binary_kem p ≡ some kem
      → k.marshal_binary_sign p ≡ some sign
      → (length kem ≡ kem_public_key_size)
        × (0 < length sign)
        × (k.new_public_key_from_binary kem sign ≡ some p)) where
  -- The authority that signed is the one of the authority's key.
  pub record IsSigner (ca_ac : NodeKey P) (f : NodeCertFile) (cert : CertSnapshot P N)
      : Type 0 where
    pub kem : Bytes
    pub sign : Bytes
    pub kem_half : k.marshal_binary_kem ca_ac.pub_key ≡ some kem
    pub sign_half : k.marshal_binary_sign ca_ac.pub_key ≡ some sign
    pub same_hash : cert.issuer_ca_hash ≡ (admin_of k ca_ac.pub_key kem sign).hash
    pub nid : N
    pub signed :
        verify_node_cert k (admin_of k ca_ac.pub_key kem sign).base cert f.ca_signature ≡ ok nid

  pub IsIssued-IsSigner :
      (tools : Tools P) (ca_ac : NodeKey P) (ca_file : CaKeyFile) (validity : ℤ) (f : NodeCertFile)
      (cert : CertSnapshot P N)
      → IsIssued k tools ca_ac ca_file validity f cert
      → IsSigner ca_ac f cert
  IsIssued-IsSigner tools ca_ac ca_file validity f cert i =
      let h = halves k ca_ac.pub_key i.pub_bytes i.encoded in
      let (sized, long, back) = parse_back ca_ac.pub_key h.kem h.sign h.kem_half h.sign_half in
      let (bytes, parsed) =
        own_admin k parse_back ca_ac.pub_key h.kem h.sign h.kem_half h.sign_half in
      let same_admin = ok-injective (sym i.parsed ∙ ap (new_admin_ca k) (sym h.joined) ∙ parsed) in
      let rear : drop kem_public_key_size (h.kem ++ h.sign) ≡ h.sign =
        ap (λ n. drop n (h.kem ++ h.sign)) (sym sized) ∙ drop-length_append h.kem h.sign in
      let m =
        new_node_cert-IsMade k i.node_ac.pub_key f.issuer_ca_hash f.valid_from f.valid_until
          f.serial f.cert_nonce cert i.same_cert in
      record {
        kem = h.kem;
        sign = h.sign;
        kem_half = h.kem_half;
        sign_half = h.sign_half;
        same_hash =
            m.same_hash
            ∙ i.hashed
            ∙ ap (λ b. k.hex (k.sha256 (drop kem_public_key_size b))) (sym h.joined)
            ∙ ap (λ b. k.hex (k.sha256 b)) rear;
        nid = i.nid;
        signed =
            subst (λ a. verify_node_cert k a.base cert f.ca_signature ≡ ok i.nid) same_admin
              i.verified;
      }
