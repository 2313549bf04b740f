-- ===== src/AuthFile/Calls.antt =====
-- The trust that a node certificate's file adds is added by calls of the store, so what holds of
-- every run of calls holds of it.
use ouroboros_db.Base.{
  String, string_eq, ◌≡◌, refl, sym, ap, ◌∙◌, subst, false, List, [], ◌∷◌, ◌++◌, Option, none,
  is_some, Result-cases, Bool-cases, Option-cases, inl, inr, Eq, has, ◌==◌,
}
use ouroboros_db.Auth.Types.{Keys, Error}
use ouroboros_db.Auth.Store.{CarrierAuth, Call, adds_admin, adds_user, call, run, revoke_admin_ca}
use ouroboros_db.Auth.Store.WellFormed.{Inv}
use ouroboros_db.Auth.Store.Revocation.{revoke_admin_ca_permanent}
use ouroboros_db.AuthFile.{EmbeddedCaFile, NodeCertFile}
use ouroboros_db.AuthFile.Trust.{
  trusted_authorities, embedded_ca_pub_key_bytes, trust_admin, trust_user, trust_each,
  trust_authorities, add_embedded_trust,
}

module _ {P N H : Type 0} ⦃e : Eq N⦄ (k : Keys P N) where
  run-append :
      (ca : CarrierAuth P N H) (xs ys : List (Call N H))
      → run k ca (xs ++ ys) ≡ run k (run k ca xs) ys
  unfolding run
  run-append ca [] ys = refl
  run-append ca (c ∷ xs) ys = run-append (call k ca c) xs ys

  -- The second store is reached from the first by calls of its methods.
  abbrev pub Reached : CarrierAuth P N H → CarrierAuth P N H → Type 0
  Reached before after = (cs : List (Call N H)) × (after ≡ run k before cs)

  Reached-trans : (a b c : CarrierAuth P N H) → Reached a b → Reached b c → Reached a c
  Reached-trans a b c (xs, to_b) (ys, to_c) =
      (xs ++ ys, to_c ∙ ap (λ s. run k s ys) to_b ∙ sym (run-append a xs ys))

  trust_admin-Reached :
      (store : CarrierAuth P N H) (authority : EmbeddedCaFile)
      → Reached store (trust_admin k store authority).0
  unfolding trust_admin run call
  trust_admin-Reached store authority = elim (Bool-cases (authority.ca_type == "admin-ca")) [
    | inr other ↦ rw (other, trust_admin) ([], refl)
    | inl admin ↦ elim (Result-cases (embedded_ca_pub_key_bytes k authority)) [
      | inr (bad, failed) ↦ rw (admin, failed, trust_admin) ([], refl)
      | inl (bytes, parsed) ↦ rw (admin, parsed, trust_admin) (adds_admin bytes ∷ [], refl)
    ]
  ]

  trust_user-Reached :
      (store : CarrierAuth P N H) (authority : EmbeddedCaFile)
      → Reached store (trust_user k store authority).0
  unfolding trust_user run call
  trust_user-Reached store authority = elim (Bool-cases (authority.ca_type == "user-ca")) [
    | inr other ↦ rw (other, trust_user) ([], refl)
    | inl user ↦ elim (Result-cases (embedded_ca_pub_key_bytes k authority)) [
      | inr (bad, failed) ↦ rw (user, failed, trust_user) ([], refl)
      | inl (bytes, parsed) ↦
          rw (user, parsed, trust_user)
            (adds_user bytes authority.anchor_sig authority.anchor_admin ∷ [], refl)
    ]
  ]

  trust_each-Reached :
      (body : CarrierAuth P N H → EmbeddedCaFile → CarrierAuth P N H × Option Error)
      → ((store : CarrierAuth P N H) (authority : EmbeddedCaFile)
          → Reached store (body store authority).0)
      → (store : CarrierAuth P N H) (authorities : List EmbeddedCaFile)
      → Reached store (trust_each k body store authorities).0
  unfolding trust_each run
  trust_each-Reached body step store [] = ([], refl)
  trust_each-Reached body step store (authority ∷ rest) =
      elim (Bool-cases (is_some (body store authority).1)) [
        | inl failed ↦ rw (failed, trust_each) (step store authority)
        | inr added ↦
            rw (added, trust_each)
              (Reached-trans store (body store authority).0 _ (step store authority)
                (trust_each-Reached body step (body store authority).0 rest))
      ]

  trust_authorities-Reached :
      (store : CarrierAuth P N H) (authorities : List EmbeddedCaFile)
      → Reached store (trust_authorities k store authorities).0
  unfolding trust_authorities
  trust_authorities-Reached store authorities =
      let admins = trust_each-Reached (trust_admin k) trust_admin-Reached store authorities in
      elim (Option-cases (trust_each k (trust_admin k) store authorities).1) [
        | inr (bad, failed) ↦ rw (failed, trust_authorities) admins
        | inl added ↦
            rw (added, trust_authorities)
              (Reached-trans store _ _ admins
                (trust_each-Reached (trust_user k) trust_user-Reached _ authorities))
      ]

  -- The trust that a file adds, even if an error ends it early, is added by calls of the store.
  pub add_embedded_trust-Reached :
      (store : CarrierAuth P N H) (f : NodeCertFile)
      → Reached store (add_embedded_trust k store f).0
  unfolding add_embedded_trust
  add_embedded_trust-Reached store f = trust_authorities-Reached store (trusted_authorities f)

  -- After a revocation of an admin authority of a well-formed store that reports no error, and
  -- whatever calls follow, the trust of no node certificate's file brings the authority back.
  pub revoke_admin_ca-add_embedded_trust :
      (ca : CarrierAuth P N H) (h : String) (cs : List (Call N H)) (f : NodeCertFile)
      → Inv k ca
      → (revoke_admin_ca ca h).1 ≡ none
      → has h (add_embedded_trust k (run k (revoke_admin_ca ca h).0 cs) f).0.admin_cas ≡ false
  revoke_admin_ca-add_embedded_trust ca h cs f inv done =
      let (more, added) = add_embedded_trust-Reached (run k (revoke_admin_ca ca h).0 cs) f in
      let whole = added ∙ sym (run-append (revoke_admin_ca ca h).0 cs more) in
      subst (λ (s : CarrierAuth P N H). has h s.admin_cas ≡ false) (sym whole)
        (revoke_admin_ca_permanent k ca h (cs ++ more) inv done).1
