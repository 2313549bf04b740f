-- ===== src/Auth/Store/WellFormed.antt =====
-- The invariant of a trust store, kept by the methods that remove and revoke.
use ouroboros_db.Base.{
  leb, ltb, Bool-cases, String, string_eq, ◌≡◌, ◌≤◌, true, Eq, Map, Set, has, length, arith, inl,
  inr, length-insert-le,
}
use ouroboros_db.Auth.Types.{Keys, max_revocation_entries}
use ouroboros_db.Auth.Canonical.{domain_separate}
use ouroboros_db.Auth.Ca.{AdminCa, UserCa, verify, ctx_user_ca_anchor_v1}
use ouroboros_db.Auth.Store.Apart.{Apart, Apart-delete, Apart-revoke, Holds, Holds-delete}
use ouroboros_db.Auth.Store.{
  CarrierAuth, remove_admin_pub_key, remove_user_pub_key, revoke_admin_ca, revoke_user_ca,
  revoke_node,
}

module _ {P N : Type 0} (k : Keys P N) where
  -- A key with the anchor's hash signed the user CA's whole public key.
  abbrev pub IsAnchored : UserCa P → Type 0
  IsAnchored user =
      (admin : AdminCa P) × (admin.hash ≡ user.anchor_admin_hash)
      × (verify k admin.base (domain_separate ctx_user_ca_anchor_v1 user.pub_key_bytes)
            user.anchor_sig
          ≡ true)

module _ {P N H : Type 0} (k : Keys P N) where
  pub record Inv (ca : CarrierAuth P N H) : Type 0 where
    pub admins_apart : Apart ca.admin_cas ca.revoked_admin_cas
    pub users_apart : Apart ca.user_cas ca.revoked_user_cas
    pub admins_keyed : Holds (λ h admin. admin.hash ≡ h) ca.admin_cas
    pub users_keyed : Holds (λ h user. (user.hash ≡ h) × IsAnchored k user) ca.user_cas
    pub admins_capped : length ca.revoked_admin_cas ≤ max_revocation_entries
    pub users_capped : length ca.revoked_user_cas ≤ max_revocation_entries
    pub nodes_capped : length ca.revoked_nodes ≤ max_revocation_entries

  pub admins-Inv :
      (ca : CarrierAuth P N H) (m : Map String (AdminCa P)) (r : Set String)
      → Inv ca
      → Apart m r
      → Holds (λ h admin. admin.hash ≡ h) m
      → length r ≤ max_revocation_entries
      → Inv (record ca { admin_cas = m; revoked_admin_cas = r })
  admins-Inv ca m r v apart keyed capped = record {
    admins_apart = apart;
    users_apart = v.users_apart;
    admins_keyed = keyed;
    users_keyed = v.users_keyed;
    admins_capped = capped;
    users_capped = v.users_capped;
    nodes_capped = v.nodes_capped;
  }

  pub users-Inv :
      (ca : CarrierAuth P N H) (m : Map String (UserCa P)) (r : Set String)
      → Inv ca
      → Apart m r
      → Holds (λ h user. (user.hash ≡ h) × IsAnchored k user) m
      → length r ≤ max_revocation_entries
      → Inv (record ca { user_cas = m; revoked_user_cas = r })
  users-Inv ca m r v apart keyed capped = record {
    admins_apart = v.admins_apart;
    users_apart = apart;
    admins_keyed = v.admins_keyed;
    users_keyed = keyed;
    admins_capped = v.admins_capped;
    users_capped = capped;
    nodes_capped = v.nodes_capped;
  }

  pub remove_admin_pub_key-Inv :
      (ca : CarrierAuth P N H) (h : String) → Inv ca → Inv (remove_admin_pub_key ca h).0
  unfolding remove_admin_pub_key
  remove_admin_pub_key-Inv ca h v = elim (Bool-cases (has h ca.admin_cas)) [
    | inr absent ↦ rw absent v
    | inl present ↦ elim (Bool-cases (ltb (length ca.revoked_admin_cas) max_revocation_entries)) [
      | inl room ↦
          rw (present, room)
            (admins-Inv ca _ _ v (Apart-revoke _ _ v.admins_apart h)
              (Holds-delete _ _ v.admins_keyed h)
              (ground (arith, length-insert-le h tt ca.revoked_admin_cas)))
      | inr full ↦
          rw (present, full)
            (admins-Inv ca _ _ v (Apart-delete _ _ v.admins_apart h)
              (Holds-delete _ _ v.admins_keyed h) v.admins_capped)
    ]
  ]

  pub revoke_admin_ca-Inv :
      (ca : CarrierAuth P N H) (h : String) → Inv ca → Inv (revoke_admin_ca ca h).0
  unfolding revoke_admin_ca
  revoke_admin_ca-Inv ca h v =
      elim (Bool-cases (leb max_revocation_entries (length ca.revoked_admin_cas))) [
        | inl full ↦ rw full v
        | inr room ↦ rw room (
            admins-Inv ca _ _ v (Apart-revoke _ _ v.admins_apart h)
              (Holds-delete _ _ v.admins_keyed h)
              (ground (arith, length-insert-le h tt ca.revoked_admin_cas)))
      ]

  pub remove_user_pub_key-Inv :
      (ca : CarrierAuth P N H) (h : String) → Inv ca → Inv (remove_user_pub_key ca h).0
  unfolding remove_user_pub_key
  remove_user_pub_key-Inv ca h v = elim (Bool-cases (has h ca.user_cas)) [
    | inr absent ↦ rw absent v
    | inl present ↦ elim (Bool-cases (ltb (length ca.revoked_user_cas) max_revocation_entries)) [
      | inl room ↦
          rw (present, room)
            (users-Inv ca _ _ v (Apart-revoke _ _ v.users_apart h)
              (Holds-delete _ _ v.users_keyed h)
              (ground (arith, length-insert-le h tt ca.revoked_user_cas)))
      | inr full ↦
          rw (present, full)
            (users-Inv ca _ _ v (Apart-delete _ _ v.users_apart h)
              (Holds-delete _ _ v.users_keyed h) v.users_capped)
    ]
  ]

  pub revoke_user_ca-Inv :
      (ca : CarrierAuth P N H) (h : String) → Inv ca → Inv (revoke_user_ca ca h).0
  unfolding revoke_user_ca
  revoke_user_ca-Inv ca h v =
      elim (Bool-cases (leb max_revocation_entries (length ca.revoked_user_cas))) [
        | inl full ↦ rw full v
        | inr room ↦ rw room (
            users-Inv ca _ _ v (Apart-revoke _ _ v.users_apart h) (Holds-delete _ _ v.users_keyed h)
              (ground (arith, length-insert-le h tt ca.revoked_user_cas)))
      ]

  pub nodes-Inv :
      (ca : CarrierAuth P N H) (r : Set N)
      → Inv ca
      → length r ≤ max_revocation_entries
      → Inv (record ca { revoked_nodes = r })
  nodes-Inv ca r v capped = record {
    admins_apart = v.admins_apart;
    users_apart = v.users_apart;
    admins_keyed = v.admins_keyed;
    users_keyed = v.users_keyed;
    admins_capped = v.admins_capped;
    users_capped = v.users_capped;
    nodes_capped = capped;
  }

  pub revoke_node-Inv :
      ⦃e : Eq N⦄ → (ca : CarrierAuth P N H) (n : N) → Inv ca → Inv (revoke_node ca n).0
  unfolding revoke_node
  revoke_node-Inv ca n v =
      elim (Bool-cases (leb max_revocation_entries (length ca.revoked_nodes))) [
        | inl full ↦ rw full v
        | inr room ↦
            rw room (nodes-Inv ca _ v (ground (arith, length-insert-le n tt ca.revoked_nodes)))
      ]
