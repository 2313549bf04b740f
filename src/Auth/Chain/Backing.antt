-- ===== src/Auth/Chain/Backing.antt =====
-- What the loop of `verifyAuthority` knows: which certificates of the bundle stand behind it.
use ouroboros_db.Base.{
  ℕ, String, string_eq, ◌≡◌, refl, sym, Bool, true, false, List, [], ◌∷◌, Option, none, some,
  Result, ok, err, ◌>>=◌, Eq, ℤ, get_elem?, All, All-append, arith, Bool-cases, Option-cases,
  Result-cases, inl, inr, subst,
}
use ouroboros_db.Auth.Types.{Bytes, Keys, CertSnapshot, Error}
use ouroboros_db.Auth.Chain.Vouched.{IsVouched, vouched}
use ouroboros_db.Auth.Chain.{
  TrustSnapshot, IssuerType, Found, issuer_admin, issuer_user, is_cert_valid, verify_single_cert,
  note_issuer, note_cert, authority_round, authority_loop,
}

module _ {P N : Type 0} ⦃e : Eq N⦄ (k : Keys P N) (ts : TrustSnapshot P N) (now : ℤ)
    (certs : List (CertSnapshot P N)) (sigs : List Bytes) where
  -- A certificate of the bundle that is vouched for under its own signature.
  pub record Backing (nid : N) (pub_key : P) (typ : IssuerType) (ca_hash : String) : Type 0 where
    pub index : ℕ
    pub cert : CertSnapshot P N
    pub sig : Bytes
    pub cert_there : get_elem? certs index ≡ some cert
    pub sig_there : get_elem? sigs index ≡ some sig
    pub is_vouched : IsVouched k ts now cert sig nid typ
    pub same_key : cert.node_pub_key ≡ pub_key
    pub same_issuer : cert.issuer_ca_hash ≡ ca_hash

  -- Some certificate of the bundle binds the node and its key.
  abbrev pub Identified : N → P → Type 0
  Identified nid pub_key = (typ : IssuerType) × (h : String) × Backing nid pub_key typ h

  -- Some certificate from an authority of the type binds the node.
  abbrev pub IssuedBy : N → IssuerType → String → Type 0
  IssuedBy nid typ h = (pub_key : P) × Backing nid pub_key typ h

  -- What the loop of `verifyAuthority` knows of the peer.
  abbrev pub Backed : Option (N × P) → Bool → List String → Type 0
  Backed none admin_valid user_hashes = (admin_valid ≡ false) × (user_hashes ≡ [])
  Backed (some (nid, pub_key)) admin_valid user_hashes =
      Identified nid pub_key
      × (admin_valid ≡ true → (h : String) × IssuedBy nid issuer_admin h)
      × All (IssuedBy nid issuer_user) user_hashes

  abbrev pub Post : Result Error (Found P N) → Type 0
  Post (ok f) = Backed f.first f.admin_valid f.user_hashes
  Post (err e) = Unit

  Post-bind :
      (m : Result Error (Found P N)) (next : Found P N → Result Error (Found P N))
      → Post m
      → ((f : Found P N) → Backed f.first f.admin_valid f.user_hashes → Post (next f))
      → Post (m >>= next)
  Post-bind (ok f) next p q = q f p
  Post-bind (err e) next p q = tt

  note_cert-Post :
      (first : Option (N × P)) (admin_valid : Bool) (user_hashes : List String)
      (cert : CertSnapshot P N) (nid : N) (pub_key : P) (typ : IssuerType)
      → Backed first admin_valid user_hashes
      → Backing nid pub_key typ cert.issuer_ca_hash
      → Post (
          note_cert
            (record { first = first; admin_valid = admin_valid; user_hashes = user_hashes })
            cert
            (nid, pub_key, typ))
  unfolding note_cert note_issuer
  note_cert-Post none admin hashes cert nid pub_key issuer_admin v b = (
    (issuer_admin, cert.issuer_ca_hash, b),
    (λ _. (cert.issuer_ca_hash, (pub_key, b))),
    rw v.1 tt,
  )
  note_cert-Post none admin hashes cert nid pub_key issuer_user v b = (
    (issuer_user, cert.issuer_ca_hash, b),
    (λ h. absurd (ground arith)),
    rw v.1 ((pub_key, b), tt),
  )
  note_cert-Post (some (n, p)) admin hashes cert nid pub_key issuer_admin v b =
      elim (Bool-cases (e.beq n nid)) [
        | inr differ ↦ rw differ tt
        | inl same ↦ rw same (
          v.0,
          (λ _. (
            cert.issuer_ca_hash,
            (
              pub_key,
              subst (λ x. Backing x pub_key issuer_admin cert.issuer_ca_hash)
                  (sym ((e.beq_iff n nid).0 same)) b,
            ),
          )),
          v.2,
        )
      ]
  note_cert-Post (some (n, p)) admin hashes cert nid pub_key issuer_user v b =
      elim (Bool-cases (e.beq n nid)) [
        | inr differ ↦ rw differ tt
        | inl same ↦ rw same (
          v.0,
          v.1,
          All-append (IssuedBy n issuer_user) hashes (cert.issuer_ca_hash ∷ []) v.2 (
            (
              pub_key,
              subst (λ x. Backing x pub_key issuer_user cert.issuer_ca_hash)
                  (sym ((e.beq_iff n nid).0 same)) b,
            ),
            tt,
          ),
        )
      ]

  -- The index of a certificate that passed the filter.
  abbrev pub ValidAt : ℕ → Type 0
  ValidAt i =
      (cert : CertSnapshot P N) × (get_elem? certs i ≡ some cert)
      × (is_cert_valid k ts cert now ≡ true)

  backing :
      (idx : ℕ) (cert : CertSnapshot P N) (sig : Bytes) (nid : N) (pub_key : P) (typ : IssuerType)
      → get_elem? certs idx ≡ some cert
      → is_cert_valid k ts cert now ≡ true
      → get_elem? sigs idx ≡ some sig
      → verify_single_cert k ts cert sig ≡ ok (nid, pub_key, typ)
      → Backing nid pub_key typ cert.issuer_ca_hash
  backing idx cert sig nid pub_key typ there valid sig_there single =
      let (is_vouched, same_key) = vouched k ts now cert sig nid pub_key typ valid single in
      record {
        index = idx;
        cert = cert;
        sig = sig;
        cert_there = there;
        sig_there = sig_there;
        is_vouched = is_vouched;
        same_key = same_key;
        same_issuer = refl;
      }

  authority_round-Post :
      (idx : ℕ) (f : Found P N)
      → ValidAt idx
      → Backed f.first f.admin_valid f.user_hashes
      → Post (authority_round k ts certs sigs idx f)
  unfolding authority_round
  authority_round-Post idx f (cert, there, valid) v = elim (Option-cases (get_elem? sigs idx)) [
    | inl short ↦ rw (there, short, authority_round) v
    | inr (sig, sig_there) ↦ elim (Result-cases (verify_single_cert k ts cert sig)) [
      | inr (bad, failed) ↦ rw (there, sig_there, failed, authority_round) v
      | inl ((nid, pub_key, typ), single) ↦
          rw (there, sig_there, single, authority_round)
            (note_cert-Post f.first f.admin_valid f.user_hashes cert nid pub_key typ v
              (backing idx cert sig nid pub_key typ there valid sig_there single))
    ]
  ]

  pub authority_loop-Post :
      (idxs : List ℕ) (f : Found P N)
      → All ValidAt idxs
      → Backed f.first f.admin_valid f.user_hashes
      → Post (authority_loop k ts certs sigs idxs f)
  unfolding authority_loop
  authority_loop-Post [] f valid v = v
  authority_loop-Post (idx ∷ idxs) f valid v =
      Post-bind (authority_round k ts certs sigs idx f) _ (authority_round-Post idx f valid.0 v)
        (λ g w. authority_loop-Post idxs g valid.1 w)
