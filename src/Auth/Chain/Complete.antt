-- ===== src/Auth/Chain/Complete.antt =====
-- When the chain verification must succeed: all certificates belong to one node, and one of them
-- counts.
use ouroboros_db.Base.{
  ℕ, zero, suc, ◌+◌, string_eq, ◌≡◌, refl, sym, ap, ◌∙◌, true, false, not, List, [], ◌∷◌, none,
  some, ok, err, Eq, ==_refl, ℤ, get_elem?, All, arith, Bool-cases, Option-cases, Result-cases, inl,
  inr, ◌⊎◌, subst, Any, >>=-eq-ok, or_fail, fail_if, or_fail-eq-ok, fail_if-eq-ok, ◌==◌, ==_iff,
}
use ouroboros_db.Auth.Types.{Bytes, Keys, CertSnapshot, no_valid_certs}
use ouroboros_db.Auth.Ca.{verify_node_cert}
use ouroboros_db.Auth.Chain.{
  TrustSnapshot, AuthResult, Found, IssuerType, issuer_admin, issuer_user, is_cert_valid,
  valid_indices, lookup_issuer, filter_valid_certs, verify_single_cert, note_issuer, note_cert,
  authority_round, authority_loop, verify_authority, verify_chain, to_auth_result,
}

All-elem :
    {A : Type 0} (Q : A → Type 0) (xs : List A) (i : ℕ) (x : A)
    → All Q xs
    → get_elem? xs i ≡ some x
    → Q x
All-elem Q [] i x all there = cc
All-elem Q (y ∷ ys) zero x all there = subst Q (ground arith) all.0
All-elem Q (y ∷ ys) (suc i) x all there = All-elem Q ys i x all.1 there

module _ {P N : Type 0} ⦃e : Eq N⦄ (nid : N) (pub_key : P) where
  -- The loop has found nothing yet, or the node.
  Own : Found P N → Type 0
  Own f = (f.first ≡ none) ⊎ (f.first ≡ some (nid, pub_key))

  -- The loop has found the node by a certificate from an authority of the type.
  pub Shown : IssuerType → Found P N → Type 0
  Shown typ f = (f.first ≡ some (nid, pub_key)) × (typ ≡ issuer_admin → f.admin_valid ≡ true)

  Shown-Own : (typ : IssuerType) (f : Found P N) → Shown typ f → Own f
  unfolding Own Shown
  Shown-Own typ f s = inr s.0

  note_issuer-first :
      (f : Found P N) (typ : IssuerType) (cert : CertSnapshot P N)
      → (note_issuer f typ cert).first ≡ f.first
  unfolding note_issuer
  note_issuer-first f issuer_admin cert = refl
  note_issuer-first f issuer_user cert = refl

  note_issuer-admin :
      (f : Found P N) (typ : IssuerType) (cert : CertSnapshot P N)
      → f.admin_valid ≡ true
      → (note_issuer f typ cert).admin_valid ≡ true
  unfolding note_issuer
  note_issuer-admin f issuer_admin cert h = refl
  note_issuer-admin f issuer_user cert h = h

  note_issuer-typ :
      (f : Found P N) (typ : IssuerType) (cert : CertSnapshot P N)
      → typ ≡ issuer_admin
      → (note_issuer f typ cert).admin_valid ≡ true
  unfolding note_issuer
  note_issuer-typ f issuer_admin cert h = refl
  note_issuer-typ f issuer_user cert h = absurd (ground arith)

  -- What a round makes of the state: it has the node, and what it had shown.
  Kept : Found P N → Found P N → Type 0
  Kept f g = Own g × ((typ : IssuerType) → Shown typ f → Shown typ g)

  note_cert-ok :
      (f : Found P N) (cert : CertSnapshot P N) (typ : IssuerType)
      → Own f
      → (g : Found P N) × (note_cert f cert (nid, pub_key, typ) ≡ ok g) × Shown typ g × Kept f g
  unfolding note_cert Own Shown Kept
  note_cert-ok f cert typ (inl nothing) =
      let f₁ = record f { first = some (nid, pub_key) } in
      (
        note_issuer f₁ typ cert,
        rw nothing refl,
        (note_issuer-first f₁ typ cert, note_issuer-typ f₁ typ cert),
        (inr (note_issuer-first f₁ typ cert), λ t s. absurd (ground (arith, s.0))),
      )
  note_cert-ok f cert typ (inr found) = (
    note_issuer f typ cert,
    rw (found, ==_refl nid) refl,
    (note_issuer-first f typ cert ∙ found, note_issuer-typ f typ cert),
    (
      inr (note_issuer-first f typ cert ∙ found),
      λ t s. (note_issuer-first f typ cert ∙ found, λ a. note_issuer-admin f typ cert (s.1 a)),
    ),
  )

module _ {P N : Type 0} ⦃e : Eq N⦄ (k : Keys P N) (ts : TrustSnapshot P N) (nid : N) (pub_key : P)
    (derived : k.node_id pub_key ≡ some nid) where
  -- A certificate of the key that verifies gives the node and the key.
  own_result :
      (cert : CertSnapshot P N) (sig : Bytes) (n : N) (p : P) (typ : IssuerType)
      → cert.node_pub_key ≡ pub_key
      → verify_single_cert k ts cert sig ≡ ok (n, p, typ)
      → ◌≡◌ {A = N × P × IssuerType} (n, p, typ) (nid, pub_key, typ)
  unfolding verify_single_cert
  own_result cert sig n p typ own h =
      let (i, known, h₁) = >>=-eq-ok (or_fail (lookup_issuer ts cert.issuer_ca_hash) _) _ h in
      let (m, signed, h₂) = >>=-eq-ok (verify_node_cert k i.verifier cert sig) _ h₁ in
      let (q, again, h₃) = >>=-eq-ok (or_fail (k.node_id cert.node_pub_key) _) _ h₂ in
      let (_, same, h₄) = >>=-eq-ok (fail_if (not (m == q)) _) _ h₃ in
      let equal : m ≡ q = (==_iff m q).0 (ground (arith, fail_if-eq-ok _ _ same)) in
      let here : k.node_id pub_key ≡ some q = ap k.node_id (sym own) ∙ or_fail-eq-ok _ _ again in
      cc (h₄, equal, here, derived, own)

  authority_round-Kept :
      (certs : List (CertSnapshot P N)) (sigs : List Bytes) (idx : ℕ) (f : Found P N)
      → All (λ (c : CertSnapshot P N). c.node_pub_key ≡ pub_key) certs
      → Own nid pub_key f
      → (g : Found P N) × (authority_round k ts certs sigs idx f ≡ ok g) × Kept nid pub_key f g
  unfolding authority_round Kept
  authority_round-Kept certs sigs idx f own o = elim (Option-cases (get_elem? certs idx)) [
    | inl missing ↦ (f, rw (missing, authority_round) refl, (o, λ t s. s))
    | inr (cert, there) ↦ elim (Option-cases (get_elem? sigs idx)) [
      | inl short ↦ (f, rw (there, short, authority_round) refl, (o, λ t s. s))
      | inr (sig, sig_there) ↦ elim (Result-cases (verify_single_cert k ts cert sig)) [
        | inr (bad, failed) ↦
            (f, rw (there, sig_there, failed, authority_round) refl, (o, λ t s. s))
        | inl ((n, p, typ), single) ↦
            let same = own_result cert sig n p typ (All-elem _ certs idx cert own there) single in
            let (g, noted, shown, kept) = note_cert-ok nid pub_key f cert typ o in
            (g, rw (there, sig_there, single, same, authority_round) noted, kept)
      ]
    ]
  ]

  -- The round of a certificate that verifies.
  authority_round-Shown :
      (certs : List (CertSnapshot P N)) (sigs : List Bytes) (idx : ℕ) (f : Found P N)
      (cert : CertSnapshot P N) (sig : Bytes) (typ : IssuerType)
      → get_elem? certs idx ≡ some cert
      → get_elem? sigs idx ≡ some sig
      → verify_single_cert k ts cert sig ≡ ok (nid, pub_key, typ)
      → Own nid pub_key f
      → (g : Found P N) × (authority_round k ts certs sigs idx f ≡ ok g) × Shown nid pub_key typ g
  unfolding authority_round
  authority_round-Shown certs sigs idx f cert sig typ there sig_there single o =
      let (g, noted, shown, kept) = note_cert-ok nid pub_key f cert typ o in
      (g, rw (there, sig_there, single, authority_round) noted, shown)

  -- What has been shown stays shown to the end of the loop.
  authority_loop-keeps :
      (certs : List (CertSnapshot P N)) (sigs : List Bytes) (idxs : List ℕ) (f : Found P N)
      (typ : IssuerType)
      → All (λ (c : CertSnapshot P N). c.node_pub_key ≡ pub_key) certs
      → Shown nid pub_key typ f
      → (g : Found P N) × (authority_loop k ts certs sigs idxs f ≡ ok g) × Shown nid pub_key typ g
  unfolding authority_loop Kept
  authority_loop-keeps certs sigs [] f typ own s = (f, refl, s)
  authority_loop-keeps certs sigs (idx ∷ idxs) f typ own s =
      let (g, done, kept) =
        authority_round-Kept certs sigs idx f own (Shown-Own nid pub_key typ f s) in
      let (z, rest, shown) = authority_loop-keeps certs sigs idxs g typ own (kept.1 typ s) in
      (z, rw (done, authority_loop) rest, shown)

  authority_loop-Shown :
      (certs : List (CertSnapshot P N)) (sigs : List Bytes) (idxs : List ℕ) (f : Found P N)
      (idx : ℕ) (cert : CertSnapshot P N) (sig : Bytes) (typ : IssuerType)
      → All (λ (c : CertSnapshot P N). c.node_pub_key ≡ pub_key) certs
      → get_elem? certs idx ≡ some cert
      → get_elem? sigs idx ≡ some sig
      → verify_single_cert k ts cert sig ≡ ok (nid, pub_key, typ)
      → Any (λ j. j ≡ idx) idxs
      → Own nid pub_key f
      → (g : Found P N) × (authority_loop k ts certs sigs idxs f ≡ ok g) × Shown nid pub_key typ g
  unfolding authority_loop Kept
  authority_loop-Shown certs sigs [] f idx cert sig typ own there sig_there single listed o =
      absurd listed
  authority_loop-Shown certs sigs (j ∷ idxs) f idx cert sig typ own there sig_there single
        (inl here) o =
      let (g, done, s) =
        authority_round-Shown certs sigs idx f cert sig typ there sig_there single o in
      let (z, rest, shown) = authority_loop-keeps certs sigs idxs g typ own s in
      (z, rw (here, done, authority_loop) rest, shown)
  authority_loop-Shown certs sigs (j ∷ idxs) f idx cert sig typ own there sig_there single
        (inr later) o =
      let (g, done, kept) = authority_round-Kept certs sigs j f own o in
      let (z, rest, shown) =
        authority_loop-Shown certs sigs idxs g idx cert sig typ own there sig_there single later
          kept.0 in
      (z, rw (done, authority_loop) rest, shown)

module _ {P N : Type 0} ⦃e : Eq N⦄ (k : Keys P N) (ts : TrustSnapshot P N) (now : ℤ) where
  -- The filter keeps the index of a certificate that is valid.
  valid_indices-Any :
      (i m : ℕ) (certs : List (CertSnapshot P N)) (cert : CertSnapshot P N)
      → get_elem? certs m ≡ some cert
      → is_cert_valid k ts cert now ≡ true
      → Any (λ j. j ≡ i + m) (valid_indices k ts i certs now)
  unfolding valid_indices
  valid_indices-Any i m [] cert there valid = cc
  valid_indices-Any i zero (c ∷ certs) cert there valid =
      let same : c ≡ cert = cc there in rw (same, valid) (inl (omega arith))
  valid_indices-Any i (suc m) (c ∷ certs) cert there valid =
      let later : Any (λ j. j ≡ i + suc m) (valid_indices k ts (suc i) certs now) =
        subst (λ n. Any (λ j. j ≡ n) (valid_indices k ts (suc i) certs now)) (omega arith)
          (valid_indices-Any (suc i) m certs cert there valid) in
      elim (Bool-cases (is_cert_valid k ts c now)) [
        | inl kept ↦ rw kept (inr later)
        | inr skipped ↦ rw skipped later
      ]

  filter_valid_certs-ok :
      (certs : List (CertSnapshot P N)) (idx : ℕ)
      → Any (λ j. j ≡ idx) (valid_indices k ts 0 certs now)
      → filter_valid_certs k ts certs now ≡ ok (valid_indices k ts 0 certs now)
  unfolding filter_valid_certs
  filter_valid_certs-ok certs idx listed = finish (valid_indices k ts 0 certs now) listed
    where
      finish :
          (is : List ℕ)
          → Any (λ j. j ≡ idx) is
          → elim is [ [] ↦ err no_valid_certs | i ∷ rest ↦ ok (i ∷ rest) ] ≡ ok is
      finish [] none_listed = absurd none_listed
      finish (i ∷ rest) some_listed = refl

  -- If every certificate of a bundle is for one key, and some certificate that is valid now
  -- verifies under the signature at its place, the chain verification succeeds with that key and
  -- its NodeID, and reports admin standing if that certificate is from an admin authority.
  pub verify_chain_complete :
      (certs : List (CertSnapshot P N)) (sigs : List Bytes) (nid : N) (pub_key : P) (idx : ℕ)
      (cert : CertSnapshot P N) (sig : Bytes) (typ : IssuerType)
      → k.node_id pub_key ≡ some nid
      → All (λ (c : CertSnapshot P N). c.node_pub_key ≡ pub_key) certs
      → get_elem? certs idx ≡ some cert
      → get_elem? sigs idx ≡ some sig
      → is_cert_valid k ts cert now ≡ true
      → verify_single_cert k ts cert sig ≡ ok (nid, pub_key, typ)
      → (r : AuthResult P N) × (verify_chain k ts certs sigs now ≡ ok r)
        × (r.node_id ≡ nid)
        × (r.node_pub_key ≡ pub_key)
        × (typ ≡ issuer_admin → r.admin_valid ≡ true)
  unfolding verify_chain verify_authority to_auth_result Own Shown
  verify_chain_complete certs sigs nid pub_key idx cert sig typ derived own there sig_there valid
        single =
      let listed : Any (λ j. j ≡ idx) (valid_indices k ts 0 certs now) =
        subst (λ n. Any (λ j. j ≡ n) (valid_indices k ts 0 certs now)) (omega arith)
          (valid_indices-Any 0 idx certs cert there valid) in
      let kept = filter_valid_certs-ok certs idx listed in
      let (g, looped, shown) =
        authority_loop-Shown k ts nid pub_key derived certs sigs (valid_indices k ts 0 certs now)
          (record { first = none; admin_valid = false; user_hashes = [] }) idx cert sig typ own
          there sig_there single listed (inl refl) in
      (
        record {
          node_pub_key = pub_key;
          node_id = nid;
          admin_valid = g.admin_valid;
          user_hashes = g.user_hashes;
        },
        rw (kept, looped, shown.0) refl,
        refl,
        refl,
        shown.1,
      )
