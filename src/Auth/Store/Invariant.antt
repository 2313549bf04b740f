-- ===== src/Auth/Store/Invariant.antt =====
-- Every call keeps the invariant of a trust store, and so does every sequence of calls.
use ouroboros_db.Base.{
  subst, Result-cases, Bool-cases, Option-cases, String, string_eq, ◌≡◌, refl, List, [], ◌∷◌,
  Option, none, ok, Eq, has, lookup, arith, inl, inr,
}
use ouroboros_db.Auth.Types.{Bytes, Keys}
use ouroboros_db.Auth.Ca.{AdminCa, UserCa, new_admin_ca, new_user_ca}
use ouroboros_db.Auth.Store.Apart.{Apart-insert, Holds-insert}
use ouroboros_db.Auth.Store.{
  CarrierAuth, Call, adds_admin, adds_user, removes_admin, removes_user, revokes_admin,
  revokes_user, revokes_node, sets_hook, new_carrier_auth, add_admin, add_admin_pub_key, add_user,
  add_user_pub_key, verify_anchor, set_revocation_hook, call, run,
}
use ouroboros_db.Auth.Store.WellFormed.{
  Inv, IsAnchored, admins-Inv, users-Inv, remove_admin_pub_key-Inv, remove_user_pub_key-Inv,
  revoke_admin_ca-Inv, revoke_user_ca-Inv, revoke_node-Inv,
}

module _ {P N : Type 0} (k : Keys P N) where
  new_user_ca-anchor :
      (bytes sig : Bytes) (h : String) {user : UserCa P}
      → new_user_ca k bytes sig h ≡ ok user
      → user.anchor_admin_hash ≡ h
  unfolding new_user_ca
  new_user_ca-anchor bytes sig h e = ground arith

module _ {P N H : Type 0} (k : Keys P N) where
  add_admin-Inv :
      (ca : CarrierAuth P N H) (admin : AdminCa P) → Inv k ca → Inv k (add_admin k ca admin).0
  unfolding add_admin
  add_admin-Inv ca admin v = elim (Bool-cases (has admin.hash ca.admin_cas)) [
    | inl present ↦ rw present v
    | inr absent ↦ elim (Bool-cases (has admin.hash ca.revoked_admin_cas)) [
      | inl revoked ↦ rw (absent, revoked) v
      | inr free ↦
          rw (absent, free)
            (admins-Inv k ca _ _ v
              (Apart-insert ca.admin_cas ca.revoked_admin_cas v.admins_apart admin.hash admin free)
              (Holds-insert _ ca.admin_cas v.admins_keyed admin.hash admin refl) v.admins_capped)
    ]
  ]

  verify_anchor-IsAnchored :
      (ca : CarrierAuth P N H) (user : UserCa P)
      → Inv k ca
      → verify_anchor k ca user user.anchor_admin_hash ≡ none
      → IsAnchored k user
  unfolding verify_anchor
  verify_anchor-IsAnchored ca user v h =
      elim (Option-cases (lookup user.anchor_admin_hash ca.admin_cas)) [
        | inl missing ↦ ground arith
        | inr (admin, found) ↦ (admin, v.admins_keyed _ admin found, ground arith)
      ]

  add_user-Inv :
      (ca : CarrierAuth P N H) (user : UserCa P)
      → Inv k ca
      → Inv k (add_user k ca user user.anchor_admin_hash).0
  unfolding add_user
  add_user-Inv ca user v = elim (Bool-cases (has user.hash ca.user_cas)) [
    | inl present ↦ rw present v
    | inr absent ↦ elim (Bool-cases (has user.hash ca.revoked_user_cas)) [
      | inl revoked ↦ rw (absent, revoked) v
      | inr free ↦ elim (Option-cases (verify_anchor k ca user user.anchor_admin_hash)) [
        | inr (e, bad) ↦ rw (absent, free, bad) v
        | inl good ↦
            rw (absent, free, good)
              (users-Inv k ca _ _ v
                (Apart-insert ca.user_cas ca.revoked_user_cas v.users_apart user.hash user free)
                (Holds-insert _ ca.user_cas v.users_keyed user.hash user
                  (refl, verify_anchor-IsAnchored ca user v good))
                v.users_capped)
      ]
    ]
  ]

  add_admin_pub_key-Inv :
      (ca : CarrierAuth P N H) (pub_key : Bytes)
      → Inv k ca
      → Inv k (add_admin_pub_key k ca pub_key).0
  unfolding add_admin_pub_key
  add_admin_pub_key-Inv ca pub_key v = elim (Result-cases (new_admin_ca k pub_key)) [
    | inl (admin, parsed) ↦ rw (parsed, add_admin_pub_key) (add_admin-Inv ca admin v)
    | inr (e, bad) ↦ rw (bad, add_admin_pub_key) v
  ]

  add_user_pub_key-Inv :
      (ca : CarrierAuth P N H) (pub_key sig : Bytes) (h : String)
      → Inv k ca
      → Inv k (add_user_pub_key k ca pub_key sig h).0
  unfolding add_user_pub_key
  add_user_pub_key-Inv ca pub_key sig h v = elim (Result-cases (new_user_ca k pub_key sig h)) [
    | inl (user, parsed) ↦
        rw (parsed, add_user_pub_key)
          (subst (λ anchor. Inv k (add_user k ca user anchor).0)
            (new_user_ca-anchor k pub_key sig h parsed) (add_user-Inv ca user v))
    | inr (e, bad) ↦ rw (bad, add_user_pub_key) v
  ]

  set_revocation_hook-Inv :
      (ca : CarrierAuth P N H) (hook : Option H) → Inv k ca → Inv k (set_revocation_hook ca hook)
  unfolding set_revocation_hook
  set_revocation_hook-Inv ca hook v = record {
    admins_apart = v.admins_apart;
    users_apart = v.users_apart;
    admins_keyed = v.admins_keyed;
    users_keyed = v.users_keyed;
    admins_capped = v.admins_capped;
    users_capped = v.users_capped;
    nodes_capped = v.nodes_capped;
  }

  pub call-Inv :
      ⦃e : Eq N⦄ → (ca : CarrierAuth P N H) (c : Call N H) → Inv k ca → Inv k (call k ca c)
  unfolding call
  call-Inv ca (adds_admin pub_key) v = add_admin_pub_key-Inv ca pub_key v
  call-Inv ca (adds_user pub_key sig h) v = add_user_pub_key-Inv ca pub_key sig h v
  call-Inv ca (removes_admin h) v = remove_admin_pub_key-Inv k ca h v
  call-Inv ca (removes_user h) v = remove_user_pub_key-Inv k ca h v
  call-Inv ca (revokes_admin h) v = revoke_admin_ca-Inv k ca h v
  call-Inv ca (revokes_user h) v = revoke_user_ca-Inv k ca h v
  call-Inv ca (revokes_node n) v = revoke_node-Inv k ca n v
  call-Inv ca (sets_hook hook) v = set_revocation_hook-Inv ca hook v

  pub run-Inv :
      ⦃e : Eq N⦄ → (ca : CarrierAuth P N H) (cs : List (Call N H)) → Inv k ca → Inv k (run k ca cs)
  unfolding run
  run-Inv ca [] v = v
  run-Inv ca (c ∷ cs) v = run-Inv (call k ca c) cs (call-Inv ca c v)

  new_carrier_auth-Inv : Inv {H = H} k new_carrier_auth
  unfolding new_carrier_auth lookup
  new_carrier_auth-Inv = record {
    admins_apart = λ h e. cc;
    users_apart = λ h e. cc;
    admins_keyed = λ h v e. cc;
    users_keyed = λ h v e. cc;
    admins_capped = omega arith;
    users_capped = omega arith;
    nodes_capped = omega arith;
  }

  -- After any calls of a new store's methods, no authority is both trusted and revoked, every
  -- authority stands under its own hash, every user authority has an anchor signature by a key
  -- whose hash is the anchor's, and no revocation set has more than 100,000 entries.
  pub run-new_carrier_auth-Inv :
      ⦃e : Eq N⦄ → (cs : List (Call N H)) → Inv k (run k new_carrier_auth cs)
  run-new_carrier_auth-Inv cs = run-Inv new_carrier_auth cs new_carrier_auth-Inv
