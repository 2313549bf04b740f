-- ===== src/Auth/Chain/Sound.antt =====
-- What a successful chain verification means: everything in its result goes back to certificates
-- of the bundle that are vouched for.
use ouroboros_db.Base.{
  ℕ, suc, ◌+◌, String, string_eq, ◌≡◌, refl, sym, Bool, true, false, List, [], ◌∷◌, Option, none,
  some, Result, ok, err, ◌>>=◌, Eq, ℤ, get_elem?, All, All-map, >>=-eq-ok, arith, Bool-cases, inl,
  inr, subst,
}
use ouroboros_db.Auth.Types.{Bytes, Keys, CertSnapshot, Error}
use ouroboros_db.Auth.Chain.{
  TrustSnapshot, AuthResult, Found, issuer_admin, issuer_user, is_cert_valid, valid_indices,
  filter_valid_certs, authority_loop, verify_authority, verify_chain, to_auth_result,
}
use ouroboros_db.Auth.Chain.Backing.{
  Identified, IssuedBy, Backed, Post, ValidAt, authority_loop-Post,
}

module _ {P N : Type 0} ⦃e : Eq N⦄ (k : Keys P N) (ts : TrustSnapshot P N) (now : ℤ)
    (certs : List (CertSnapshot P N)) (sigs : List Bytes) where
  -- What the result of the chain verification says of the peer.
  abbrev pub AuthBacked : AuthResult P N → Type 0
  AuthBacked r =
      Identified k ts now certs sigs r.node_id r.node_pub_key
      × (r.admin_valid ≡ true
          → (h : String) × IssuedBy k ts now certs sigs r.node_id issuer_admin h)
      × All (IssuedBy k ts now certs sigs r.node_id issuer_user) r.user_hashes

  AuthPost : Result Error (AuthResult P N) → Type 0
  AuthPost (ok r) = AuthBacked r
  AuthPost (err e) = Unit

  verify_authority-AuthPost :
      (idxs : List ℕ)
      → All (ValidAt k ts now certs sigs) idxs
      → AuthPost (verify_authority k ts certs sigs idxs)
  unfolding verify_authority to_auth_result AuthPost
  verify_authority-AuthPost idxs valid = finish (authority_loop k ts certs sigs idxs _) (
      authority_loop-Post k ts now certs sigs idxs
        (record { first = none; admin_valid = false; user_hashes = [] }) valid (refl, refl))
    where
      conclude :
          (first : Option (N × P)) (admin_valid : Bool) (user_hashes : List String)
          → Backed k ts now certs sigs first admin_valid user_hashes
          → AuthPost (
              to_auth_result
                (record { first = first; admin_valid = admin_valid; user_hashes = user_hashes }))
      conclude none admin hashes v = tt
      conclude (some (nid, pub_key)) admin hashes v = v

      finish :
          (m : Result Error (Found P N))
          → Post k ts now certs sigs m
          → AuthPost (m >>= to_auth_result)
      finish (ok f) p = conclude f.first f.admin_valid f.user_hashes p
      finish (err e) p = tt

module _ {P N : Type 0} ⦃e : Eq N⦄ (k : Keys P N) (ts : TrustSnapshot P N) (now : ℤ) where
  -- An index that the filter keeps, counted from `i`.
  KeptFrom : ℕ → List (CertSnapshot P N) → ℕ → Type 0
  KeptFrom i certs j =
      (m : ℕ) × (j ≡ i + m)
      × (cert : CertSnapshot P N) × (get_elem? certs m ≡ some cert)
      × (is_cert_valid k ts cert now ≡ true)

  valid_indices-KeptFrom :
      (i : ℕ) (certs : List (CertSnapshot P N))
      → All (KeptFrom i certs) (valid_indices k ts i certs now)
  unfolding valid_indices KeptFrom
  valid_indices-KeptFrom i [] = tt
  valid_indices-KeptFrom i (cert ∷ certs) =
      let later : All (KeptFrom i (cert ∷ certs)) (valid_indices k ts (suc i) certs now) =
        All-map (KeptFrom (suc i) certs) (KeptFrom i (cert ∷ certs)) _
          (λ j (m, off, c, there, valid). (suc m, omega arith, c, there, valid))
          (valid_indices-KeptFrom (suc i) certs) in
      elim (Bool-cases (is_cert_valid k ts cert now)) [
        | inl valid ↦ rw valid ((0, omega arith, cert, refl, valid), later)
        | inr invalid ↦ rw invalid later
      ]

  filter_valid_certs-ValidAt :
      (certs : List (CertSnapshot P N)) (sigs : List Bytes) (idxs : List ℕ)
      → filter_valid_certs k ts certs now ≡ ok idxs
      → All (ValidAt k ts now certs sigs) idxs
  unfolding filter_valid_certs KeptFrom
  filter_valid_certs-ValidAt certs sigs idxs h = subst (All (ValidAt k ts now certs sigs)) same (
      All-map (KeptFrom 0 certs) (ValidAt k ts now certs sigs) _
        (λ j (m, off, c, there, valid).
          (c, subst (λ x. get_elem? certs x ≡ some c) (sym (plain j m off)) there, valid))
        (valid_indices-KeptFrom 0 certs))
    where
      plain : (j m : ℕ) → j ≡ 0 + m → j ≡ m
      plain j m off = omega arith

      same : valid_indices k ts 0 certs now ≡ idxs
      same = ground arith

  -- A chain verification that succeeds has found: a vouched certificate that binds the NodeID and
  -- the public key of its result; if it reports admin standing, a vouched certificate for that
  -- NodeID from an admin authority; and for each user authority that it lists, one from it.
  pub verify_chain-AuthBacked :
      (certs : List (CertSnapshot P N)) (sigs : List Bytes) (r : AuthResult P N)
      → verify_chain k ts certs sigs now ≡ ok r
      → AuthBacked k ts now certs sigs r
  unfolding verify_chain AuthPost
  verify_chain-AuthBacked certs sigs r h =
      let (idxs, kept, verified) = >>=-eq-ok (filter_valid_certs k ts certs now) _ h in
      subst (AuthPost k ts now certs sigs) verified (
        verify_authority-AuthPost k ts now certs sigs idxs
          (filter_valid_certs-ValidAt certs sigs idxs kept))
