-- ===== src/Auth/Store/Capacity.antt =====
-- What the store does when a revocation set has no room left.
use ouroboros_db.Base.{
  ◌∙◌, string_eq, ◌≡◌, refl, ◌≤◌, true, false, List, [], ◌∷◌, none, Eq, ==_refl, has, delete,
  length, arith, lookup-insert, lookup-delete, ok,
}
use ouroboros_db.Auth.Types.{Bytes, Keys, max_revocation_entries}
use ouroboros_db.Auth.Ca.{AdminCa, new_admin_ca}
use ouroboros_db.Auth.Store.WellFormed.{Inv}
use ouroboros_db.Auth.Store.{
  CarrierAuth, Call, adds_admin, sets_hook, add_admin_pub_key, add_user_pub_key,
  remove_admin_pub_key, remove_user_pub_key, revoke_admin_ca, revoke_user_ca, revoke_node,
  set_revocation_hook, call, run,
}

module _ {P N H : Type 0} ⦃e : Eq N⦄ (k : Keys P N) where
  call_full :
      (ca : CarrierAuth P N H) (c : Call N H)
      → max_revocation_entries ≤ length ca.revoked_admin_cas
      → (call k ca c).revoked_admin_cas ≡ ca.revoked_admin_cas
  unfolding call add_admin_pub_key add_user_pub_key remove_admin_pub_key remove_user_pub_key
      revoke_admin_ca revoke_user_ca revoke_node set_revocation_hook
  call_full ca (adds_admin pub_key) full = ground arith
  call_full ca (sets_hook hook) full = refl
  call_full ca c full = ground arith

  -- Once the set of revoked admin authorities is full it never changes again, whatever is called.
  pub run_full :
      (ca : CarrierAuth P N H) (cs : List (Call N H))
      → max_revocation_entries ≤ length ca.revoked_admin_cas
      → (run k ca cs).revoked_admin_cas ≡ ca.revoked_admin_cas
  unfolding run
  run_full ca [] full = refl
  run_full ca (c ∷ cs) full =
      run_full (call k ca c) cs (rw (call_full ca c full) full) ∙ call_full ca c full

  -- In a well-formed store whose set of revoked admin authorities is full, a trusted admin
  -- authority that is removed is not revoked: adding its key again succeeds and makes it trusted.
  pub remove_full_readd :
      (ca : CarrierAuth P N H) (pub_key : Bytes) (admin : AdminCa P)
      → Inv k ca
      → max_revocation_entries ≤ length ca.revoked_admin_cas
      → has admin.hash ca.admin_cas ≡ true
      → new_admin_ca k pub_key ≡ ok admin
      → let removed = (remove_admin_pub_key ca admin.hash).0 in
        let again = add_admin_pub_key k removed pub_key in
        (has admin.hash removed.admin_cas ≡ false)
        × (again.1 ≡ none)
        × (has admin.hash again.0.admin_cas ≡ true)
  unfolding remove_admin_pub_key add_admin_pub_key
  remove_full_readd ca pub_key admin v full present parsed = ground (
    arith,
    v.admins_apart admin.hash,
    lookup-delete admin.hash admin.hash ca.admin_cas,
    lookup-insert admin.hash admin.hash admin (delete admin.hash ca.admin_cas),
    ==_refl admin.hash,
  )
