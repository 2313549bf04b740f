-- ===== src/Transport/Handshake/Conversion.antt =====
-- Certificates, authorities and proofs on the wire, and the frame of a message.
use ouroboros_db.Base.{
  ℕ, ◌^◌, ◌<◌, ◌≤◌, ◌≡◌, refl, sym, ap, List, [], ◌∷◌, ◌++◌, some, ok, Result, or_fail, err, leb,
  ltb, eqb, ◌||◌, false, All, arith, length, length-append, take, drop, take-length_append,
  drop-length_append, map, >>=-eq-ok, or_fail-eq-ok, subst,
}
use ouroboros_db.Auth.Types.{
  Bytes, Keys, CertSnapshot, DelegationProof, EmbeddedCa, Error, default_cert_version,
}
use ouroboros_db.Auth.Canonical.{marshal_pub_key_bytes}
use ouroboros_db.Auth.Ca.{kem_public_key_size}
use ouroboros_db.Auth.Delegation.{new_node_cert}
use ouroboros_db.Transport.Handshake.{
  WireNodeCert, at_step, HandshakeError, max_auth_message_size, put_uint32, read_uint32,
  to_wire_authority, from_wire_authority, to_wire_delegation, pb_to_delegation, cert_to_pb,
  pb_to_node_cert, certs_to_pb, pb_to_node_certs,
}

leb-false : (n m : ℕ) → m < n → leb n m ≡ false
leb-false n m h = ground arith

pub ltb_self : (n : ℕ) → ltb n n ≡ false
ltb_self n = ground arith

pub out_of_bounds_false :
    (n : ℕ) → 0 < n → n ≤ max_auth_message_size → (eqb n 0 || ltb max_auth_message_size n) ≡ false
out_of_bounds_false n filled fits = ground arith

pub take-length : {A : Type 0} (xs : List A) → take (length xs) xs ≡ xs
take-length [] = refl
take-length (x ∷ xs) = ap (◌∷◌ x) (take-length xs)

pub put_uint32-read_uint32 :
    (n : ℕ) (rest : Bytes) → n < 2 ^ 32 → read_uint32 (put_uint32 n ++ rest) ≡ some (n, rest)
unfolding put_uint32 read_uint32
put_uint32-read_uint32 n rest small = ap (λ v. some (v, rest)) (omega arith)

pub authorities_back :
    (xs : List EmbeddedCa) → map from_wire_authority (map to_wire_authority xs) ≡ xs
unfolding to_wire_authority from_wire_authority
authorities_back [] = refl
authorities_back (a ∷ rest) = ap (◌∷◌ a) (authorities_back rest)

pub pb_to_delegation-to_wire_delegation :
    (proof : DelegationProof) → pb_to_delegation (some (to_wire_delegation proof)) ≡ proof
unfolding pb_to_delegation to_wire_delegation
pb_to_delegation-to_wire_delegation proof = refl

pub at_step-ok :
    {A : Type 0} {a : A} (r : Result Error A) (e : HandshakeError) → at_step r e ≡ ok a → r ≡ ok a
at_step-ok (ok b) e h = cc
at_step-ok (err bad) e h = cc

-- A certificate as the verifier reads it.
abbrev pub as_read : {P N : Type 0} → CertSnapshot P N → CertSnapshot P N
as_read c = record c { cert_version = default_cert_version }

module _ {P N : Type 0} (k : Keys P N)
    (parse_back : (p : P) (kem sign : Bytes)
      → k.marshal_binary_kem p ≡ some kem
      → k.marshal_binary_sign p ≡ some sign
      → (length kem ≡ kem_public_key_size)
        × (0 < length sign)
        × (k.new_public_key_from_binary kem sign ≡ some p)) where
  halves :
      (p : P) (bytes : Bytes)
      → marshal_pub_key_bytes k p ≡ ok bytes
      → (kem_public_key_size < length bytes)
        × (k.new_public_key_from_binary
              (take kem_public_key_size bytes)
              (drop kem_public_key_size bytes)
            ≡ some p)
  unfolding marshal_pub_key_bytes
  halves p bytes h =
      let (kem, marshalled, h₁) = >>=-eq-ok (or_fail (k.marshal_binary_kem p) _) _ h in
      let (sign, signs, h₂) = >>=-eq-ok (or_fail (k.marshal_binary_sign p) _) _ h₁ in
      let (kem_sized, sign_long, parsed) =
        parse_back p kem sign (or_fail-eq-ok _ _ marshalled) (or_fail-eq-ok _ _ signs) in
      let joined : kem ++ sign ≡ bytes = cc h₂ in
      subst
        (λ bs.
          (kem_public_key_size < length bs)
          × (k.new_public_key_from_binary (take kem_public_key_size bs)
                (drop kem_public_key_size bs)
              ≡ some p))
        joined
        (
          omega (arith, length-append kem sign, kem_sized, sign_long),
          rw (sym kem_sized, take-length_append kem sign, drop-length_append kem sign) parsed,
        )

  -- A certificate whose NodeID is the one its key derives, of whatever version, is read back from
  -- the wire unchanged but for its version, which becomes 1.
  pub cert_to_pb-pb_to_node_cert :
      (c : CertSnapshot P N) (wc : WireNodeCert)
      → k.node_id c.node_pub_key ≡ some c.node_id
      → cert_to_pb k c ≡ ok wc
      → pb_to_node_cert k wc ≡ ok (record c { cert_version = default_cert_version })
  unfolding cert_to_pb pb_to_node_cert new_node_cert
  cert_to_pb-pb_to_node_cert c wc derived h =
      let (bytes, marshalled, h₁) = >>=-eq-ok (marshal_pub_key_bytes k c.node_pub_key) _ h in
      let (long, parsed) = halves c.node_pub_key bytes marshalled in
      subst
        (λ (w : WireNodeCert).
          pb_to_node_cert k w ≡ ok (record c { cert_version = default_cert_version }))
        {x = record {
          cert_version = c.cert_version;
          node_pub_key = bytes;
          issuer_ca_hash = c.issuer_ca_hash;
          valid_from = c.valid_from;
          valid_until = c.valid_until;
          serial = c.serial;
          cert_nonce = c.cert_nonce;
        }}
        {y = wc} (cc h₁) (rw (leb-false _ _ long, parsed, derived) refl)

  pub certs_to_pb-pb_to_node_certs :
      (certs : List (CertSnapshot P N)) (wcs : List WireNodeCert)
      → All (λ (c : CertSnapshot P N). k.node_id c.node_pub_key ≡ some c.node_id) certs
      → certs_to_pb k certs ≡ ok wcs
      → pb_to_node_certs k wcs ≡ ok (map as_read certs)
  unfolding certs_to_pb pb_to_node_certs
  certs_to_pb-pb_to_node_certs [] wcs derived h =
      subst (λ ws. pb_to_node_certs k ws ≡ ok []) {x = []} {y = wcs} (cc h) refl
  certs_to_pb-pb_to_node_certs (c ∷ certs) wcs derived h =
      let (wc, here, h₁) = >>=-eq-ok (cert_to_pb k c) _ h in
      let (rest, later, h₂) = >>=-eq-ok (certs_to_pb k certs) _ h₁ in
      subst (λ ws. pb_to_node_certs k ws ≡ ok (map as_read (c ∷ certs))) {x = wc ∷ rest} {y = wcs}
        (cc h₂)
        (rw
          (
            cert_to_pb-pb_to_node_cert c wc derived.0 here,
            certs_to_pb-pb_to_node_certs certs rest derived.1 later,
          )
          refl)
