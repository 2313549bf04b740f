-- ===== src/AuthFile/Identity.antt =====
-- A node certificate's file makes a node that can authenticate itself, and the authority's own file
-- makes it trusted.
use ouroboros_db.Base.{
  string_eq, ◌<◌, ◌≡◌, refl, sym, ap, ◌∙◌, subst, false, List, [], ◌∷◌, ◌++◌, Option, none, some,
  Result, ok, err, or_fail, or_fail-eq-ok, >>=-eq-ok, map, arith, length, lookup, insert, take,
  drop, leb, take-length_append, drop-length_append, length-append,
}
use ouroboros_db.Auth.Types.{Bytes, Keys, CertSnapshot, default_cert_version}
use ouroboros_db.Auth.Canonical.{marshal_pub_key_bytes}
use ouroboros_db.Auth.Ca.{
  kem_public_key_size, ca_hash, AdminCa, new_admin_ca, new_ca_base, split_and_parse_pub_key,
}
use ouroboros_db.Auth.Store.{CarrierAuth, new_carrier_auth, add_admin_pub_key}
use ouroboros_db.Auth.Delegation.{NodeKey, NodeIdentity, Session, new_node_cert}
use ouroboros_db.Auth.Delegation.Ready.{IsOwnCert, IsReady, new_node_identity-IsReady}
use ouroboros_db.AuthFile.{
  CaKeyFile, NodeCertFile, EmbeddedCaFile, FileError, under, bad_cert, to_auth_embedded_ca,
  node_cert_to_identity, build_embedded_trust_chain,
}
use ouroboros_db.AuthFile.Trust.{
  trusted_authorities, embedded_ca_pub_key_bytes, trust_admin, trust_user, trust_each,
  trust_authorities, add_embedded_trust,
}

abbrev pub admin_authority : Bytes → Bytes → EmbeddedCaFile
admin_authority kem sign = record {
  ca_type = "admin-ca";
  pub_kem = kem;
  pub_sign = sign;
  anchor_sig = [];
  anchor_admin = "";
}

-- The authority of a key.
abbrev pub admin_of : {P N : Type 0} → Keys P N → P → Bytes → Bytes → AdminCa P
admin_of k p kem sign = record {
  base = record { pub_key = p; pub_key_bytes = kem ++ sign; hash = k.hex (k.sha256 sign) };
}

-- A store with one admin authority and nothing else.
abbrev pub trusting : {P N H : Type 0} → AdminCa P → CarrierAuth P N H
trusting admin = record {
  admin_cas = (admin.hash, admin) ∷ [];
  user_cas = [];
  revoked_admin_cas = [];
  revoked_user_cas = [];
  revoked_nodes = [];
  on_revoke = none;
}

pub under-ok :
    {E A : Type 0} {a : A} (as_error : E → FileError) (r : Result E A)
    → under as_error r ≡ ok a
    → r ≡ ok a
under-ok as_error (ok b) h = cc
under-ok as_error (err bad) h = cc

module _ {P N : Type 0} (k : Keys P N) where
  pub own_cert :
      (ac : NodeKey P) (f : NodeCertFile) (cert : CertSnapshot P N)
      → new_node_cert k ac.pub_key f.issuer_ca_hash f.valid_from f.valid_until f.serial f.cert_nonce
        ≡ ok cert
      → (k.node_id ac.pub_key ≡ some cert.node_id) × IsOwnCert k ac cert.node_id cert
  unfolding new_node_cert
  own_cert ac f cert h =
      let (nid, derived, h₁) = >>=-eq-ok (or_fail (k.node_id ac.pub_key) _) _ h in
      subst
        (λ (c : CertSnapshot P N).
          (k.node_id ac.pub_key ≡ some c.node_id) × IsOwnCert k ac c.node_id c)
        {x = record {
          cert_version = default_cert_version;
          node_pub_key = ac.pub_key;
          issuer_ca_hash = f.issuer_ca_hash;
          valid_from = f.valid_from;
          valid_until = f.valid_until;
          serial = f.serial;
          cert_nonce = f.cert_nonce;
          node_id = nid;
        }}
        {y = cert} (cc h₁)
        (or_fail-eq-ok _ _ derived, record { version = refl; own_key = refl; own_id = refl })

  -- The identity that a node certificate's file gives is ready to authenticate itself.
  pub node_cert_to_identity-IsReady :
      (ac : NodeKey P) (f : NodeCertFile) (session : Option Session) (ni : NodeIdentity P N)
      → node_cert_to_identity k ac f session ≡ ok ni
      → IsReady k ni
  unfolding node_cert_to_identity
  node_cert_to_identity-IsReady ac f session ni h =
      let (cert, made, h₁) =
        >>=-eq-ok
          (under bad_cert (
            new_node_cert k ac.pub_key f.issuer_ca_hash f.valid_from f.valid_until f.serial
              f.cert_nonce))
          _ h in
      let (derived, own) = own_cert ac f cert (under-ok _ _ made) in
      (new_node_identity-IsReady k ac cert.node_id (cert ∷ []) (f.ca_signature ∷ [])
        (map to_auth_embedded_ca f.authorities) session ni derived (omega arith) (own, tt)
        (under-ok _ _ h₁)).0

not_short :
    (kem sign : Bytes)
    → length kem ≡ kem_public_key_size
    → 0 < length sign
    → leb (length (kem ++ sign)) kem_public_key_size ≡ false
not_short kem sign sized long = ground (arith, length-append kem sign, sized, long)

module _ {P N : Type 0} (k : Keys P N)
    (parse_back : (p : P) (kem sign : Bytes)
      → k.marshal_binary_kem p ≡ some kem
      → k.marshal_binary_sign p ≡ some sign
      → (length kem ≡ kem_public_key_size)
        × (0 < length sign)
        × (k.new_public_key_from_binary kem sign ≡ some p)) where
  -- An admin authority's own key, marshalled, is the authority again.
  pub own_admin :
      (p : P) (kem sign : Bytes)
      → k.marshal_binary_kem p ≡ some kem
      → k.marshal_binary_sign p ≡ some sign
      → (embedded_ca_pub_key_bytes k (admin_authority kem sign) ≡ ok (kem ++ sign))
        × (new_admin_ca k (kem ++ sign) ≡ ok (admin_of k p kem sign))
  unfolding embedded_ca_pub_key_bytes marshal_pub_key_bytes new_admin_ca new_ca_base
      split_and_parse_pub_key ca_hash
  own_admin p kem sign hk hs =
      let (sized, long, back) = parse_back p kem sign hk hs in
      let front : take kem_public_key_size (kem ++ sign) ≡ kem =
        ap (λ n. take n (kem ++ sign)) (sym sized) ∙ take-length_append kem sign in
      let rear : drop kem_public_key_size (kem ++ sign) ≡ sign =
        ap (λ n. drop n (kem ++ sign)) (sym sized) ∙ drop-length_append kem sign in
      (rw (back, hk, hs) refl, rw (not_short kem sign sized long, front, rear, back, hs, hk) refl)

  -- The chain of an admin authority's own file.
  pub admin_chain :
      (ac : NodeKey P) (f : CaKeyFile) (chain : List EmbeddedCaFile) (kem sign : Bytes)
      → k.marshal_binary_kem ac.pub_key ≡ some kem
      → k.marshal_binary_sign ac.pub_key ≡ some sign
      → f.file_type ≡ "admin-ca"
      → build_embedded_trust_chain k ac f ≡ ok chain
      → admin_authority kem sign ∷ [] ≡ chain
  unfolding build_embedded_trust_chain
  admin_chain ac f chain kem sign hk hs typ h =
      let built : build_embedded_trust_chain k ac f ≡ ok (admin_authority kem sign ∷ []) =
        rw (hk, hs, typ, build_embedded_trust_chain) refl in
      cc (built, h)

  trusted_chain :
      (nf : NodeCertFile) (kem sign : Bytes)
      → nf.authorities ≡ admin_authority kem sign ∷ []
      → trusted_authorities nf ≡ admin_authority kem sign ∷ []
  unfolding trusted_authorities
  trusted_chain nf kem sign whole =
      subst
        (λ (xs : List EmbeddedCaFile).
          trusted_authorities (record nf { authorities = xs }) ≡ admin_authority kem sign ∷ [])
        (sym whole) refl

  first_loop :
      {H : Type 0} (p : P) (kem sign : Bytes)
      → k.marshal_binary_kem p ≡ some kem
      → k.marshal_binary_sign p ≡ some sign
      → trust_each k
          (trust_admin k)
          (new_carrier_auth {N = N} {H = H})
          (admin_authority kem sign ∷ [])
        ≡ (trusting (admin_of k p kem sign), none)
  unfolding trust_each trust_admin add_admin_pub_key new_carrier_auth lookup insert
  first_loop {H} p kem sign hk hs =
      let (bytes, admin) = own_admin p kem sign hk hs in
      let added : add_admin_pub_key k (new_carrier_auth {N = N} {H = H}) (kem ++ sign)
          ≡ (trusting (admin_of k p kem sign), none) =
        rw (admin, add_admin_pub_key) refl in
      rw (bytes, added) refl

  second_loop :
      {H : Type 0} (store : CarrierAuth P N H) (kem sign : Bytes)
      → trust_each k (trust_user k) store (admin_authority kem sign ∷ []) ≡ (store, none)
  unfolding trust_each trust_user
  second_loop store kem sign = refl

  loops :
      {H : Type 0} (p : P) (kem sign : Bytes)
      → k.marshal_binary_kem p ≡ some kem
      → k.marshal_binary_sign p ≡ some sign
      → trust_authorities k (new_carrier_auth {N = N} {H = H}) (admin_authority kem sign ∷ [])
        ≡ (trusting (admin_of k p kem sign), none)
  unfolding trust_authorities
  loops {H} p kem sign hk hs =
      let first = first_loop {H = H} p kem sign hk hs in
      rw (first, first, trust_authorities) (second_loop (trusting (admin_of k p kem sign)) kem sign)

  -- The trust chain that an admin authority's file gives, put into a node certificate's file, makes
  -- a new store trust exactly that authority under the hash of its signing key, without an error.
  -- A key is parsed back from its two halves.
  pub build_embedded_trust_chain-add_embedded_trust :
      {H : Type 0} (ac : NodeKey P) (f : CaKeyFile) (chain : List EmbeddedCaFile)
      (nf : NodeCertFile) (kem sign : Bytes)
      → k.marshal_binary_kem ac.pub_key ≡ some kem
      → k.marshal_binary_sign ac.pub_key ≡ some sign
      → f.file_type ≡ "admin-ca"
      → build_embedded_trust_chain k ac f ≡ ok chain
      → nf.authorities ≡ chain
      → add_embedded_trust k (new_carrier_auth {H = H}) nf
        ≡ (trusting (admin_of k ac.pub_key kem sign), none)
  unfolding add_embedded_trust
  build_embedded_trust_chain-add_embedded_trust ac f chain nf kem sign hk hs typ built listed =
      let whole : nf.authorities ≡ admin_authority kem sign ∷ [] =
        listed ∙ sym (admin_chain ac f chain kem sign hk hs typ built) in
      ap (trust_authorities k new_carrier_auth) (trusted_chain nf kem sign whole)
      ∙ loops ac.pub_key kem sign hk hs
