-- ===== src/Auth/Store.antt =====
-- internal/auth/carrier_auth.go: the trust store of a node. A method that runs under the lock is a
-- function to the new store beside its error; `H` is the type of revocation hooks, and the call of
-- a hook is part of the result. Log lines are left out.
mod Apart
pub mod WellFormed
pub mod Invariant
pub mod Revocation
pub mod Capacity
use ouroboros_db.Base.{
  ℕ, String, string_eq, Bool, true, false, not, List, [], ◌∷◌, Option, none, some, Result, ok, err,
  Eq, Map, Set, has, lookup, insert, delete, length, leb, ltb, if◌then◌else◌,
}
use ouroboros_db.Auth.Types.{
  Bytes, Keys, Error, max_revocation_entries, ca_already_exists, ca_revoked, ca_not_found,
  anchor_admin_not_found, anchor_admin_revoked, invalid_anchor_sig, revocation_store_full,
}
use ouroboros_db.Auth.Canonical.{domain_separate}
use ouroboros_db.Auth.Ca.{AdminCa, UserCa, new_admin_ca, new_user_ca, verify, ctx_user_ca_anchor_v1}

pub data RevocationEvent (N : Type 0) : Type 0 where
  revocation_admin revocation_user : String → RevocationEvent N
  revocation_node : N → RevocationEvent N

pub record CarrierAuth (P N H : Type 0) : Type 0 where
  pub admin_cas : Map String (AdminCa P)
  pub user_cas : Map String (UserCa P)
  pub revoked_admin_cas : Set String
  pub revoked_user_cas : Set String
  pub revoked_nodes : Set N
  pub on_revoke : Option H

unfoldable pub new_carrier_auth : {P N H : Type 0} → CarrierAuth P N H
new_carrier_auth = record {
  admin_cas = [];
  user_cas = [];
  revoked_admin_cas = [];
  revoked_user_cas = [];
  revoked_nodes = [];
  on_revoke = none;
}

-- The new store, the error, and the hook with the event that it is called on.
abbrev pub Revoked : Type 0 → Type 0 → Type 0 → Type 0
Revoked P N H = CarrierAuth P N H × Option Error × Option (H × RevocationEvent N)

abbrev hook_call : {N H : Type 0} → Option H → RevocationEvent N → Option (H × RevocationEvent N)
hook_call none event = none
hook_call (some hook) event = some (hook, event)

module _ {P N H : Type 0} where
  unfoldable pub set_revocation_hook : CarrierAuth P N H → Option H → CarrierAuth P N H
  set_revocation_hook ca hook = record ca { on_revoke = hook }

  -- The hash is revoked only while the revocation store has room.
  unfoldable pub remove_admin_pub_key :
      CarrierAuth P N H → String → CarrierAuth P N H × Option Error
  remove_admin_pub_key ca h =
      let removed = record ca { admin_cas = delete h ca.admin_cas } in
      let revoked = insert h tt ca.revoked_admin_cas in
      if not (has h ca.admin_cas)
      then (ca, some ca_not_found)
      else if ltb (length ca.revoked_admin_cas) max_revocation_entries
      then (record removed { revoked_admin_cas = revoked }, none)
      else (removed, none)

  unfoldable pub remove_user_pub_key : CarrierAuth P N H → String → CarrierAuth P N H × Option Error
  remove_user_pub_key ca h =
      let removed = record ca { user_cas = delete h ca.user_cas } in
      let revoked = insert h tt ca.revoked_user_cas in
      if not (has h ca.user_cas)
      then (ca, some ca_not_found)
      else if ltb (length ca.revoked_user_cas) max_revocation_entries
      then (record removed { revoked_user_cas = revoked }, none)
      else (removed, none)

  unfoldable pub revoke_user_ca : CarrierAuth P N H → String → Revoked P N H
  revoke_user_ca ca h =
      if leb max_revocation_entries (length ca.revoked_user_cas)
      then (ca, some revocation_store_full, none)
      else (
        record ca {
          revoked_user_cas = insert h tt ca.revoked_user_cas;
          user_cas = delete h ca.user_cas;
        },
        none,
        hook_call ca.on_revoke (revocation_user h),
      )

  unfoldable pub revoke_admin_ca : CarrierAuth P N H → String → Revoked P N H
  revoke_admin_ca ca h =
      if leb max_revocation_entries (length ca.revoked_admin_cas)
      then (ca, some revocation_store_full, none)
      else (
        record ca {
          revoked_admin_cas = insert h tt ca.revoked_admin_cas;
          admin_cas = delete h ca.admin_cas;
        },
        none,
        hook_call ca.on_revoke (revocation_admin h),
      )

  unfoldable pub revoke_node : ⦃e : Eq N⦄ → CarrierAuth P N H → N → Revoked P N H
  revoke_node ca node_id =
      if leb max_revocation_entries (length ca.revoked_nodes)
      then (ca, some revocation_store_full, none)
      else (
        record ca { revoked_nodes = insert node_id tt ca.revoked_nodes },
        none,
        hook_call ca.on_revoke (revocation_node node_id),
      )

-- One call of a method of the store.
pub data Call (N H : Type 0) : Type 0 where
  adds_admin : Bytes → Call N H
  adds_user : Bytes → Bytes → String → Call N H
  removes_admin removes_user revokes_admin revokes_user : String → Call N H
  revokes_node : N → Call N H
  sets_hook : Option H → Call N H

module _ {P N H : Type 0} (k : Keys P N) where
  add_admin : CarrierAuth P N H → AdminCa P → CarrierAuth P N H × Option Error
  add_admin ca admin =
      if has admin.hash ca.admin_cas
      then (ca, some ca_already_exists)
      else if has admin.hash ca.revoked_admin_cas
      then (ca, some ca_revoked)
      else (record ca { admin_cas = insert admin.hash admin ca.admin_cas }, none)

  unfoldable pub add_admin_pub_key : CarrierAuth P N H → Bytes → CarrierAuth P N H × Option Error
  unfolding add_admin
  add_admin_pub_key ca pub_key = elim (new_admin_ca k pub_key) [
    | err e ↦ (ca, some e)
    | ok admin ↦ add_admin ca admin
  ]

  unfoldable pub verify_anchor : CarrierAuth P N H → UserCa P → String → Option Error
  verify_anchor ca user anchor_admin_hash = elim (lookup anchor_admin_hash ca.admin_cas) [
    | none ↦ some anchor_admin_not_found
    | some admin ↦
        if has anchor_admin_hash ca.revoked_admin_cas
        then some anchor_admin_revoked
        else if not (
            verify k admin.base (domain_separate ctx_user_ca_anchor_v1 user.pub_key_bytes)
              user.anchor_sig)
        then some invalid_anchor_sig
        else none
  ]

  add_user : CarrierAuth P N H → UserCa P → String → CarrierAuth P N H × Option Error
  unfolding verify_anchor
  add_user ca user anchor_admin_hash =
      if has user.hash ca.user_cas
      then (ca, some ca_already_exists)
      else if has user.hash ca.revoked_user_cas
      then (ca, some ca_revoked)
      else elim (verify_anchor ca user anchor_admin_hash) [
        | some e ↦ (ca, some e)
        | none ↦ (record ca { user_cas = insert user.hash user ca.user_cas }, none)
      ]

  unfoldable pub add_user_pub_key :
      CarrierAuth P N H → Bytes → Bytes → String → CarrierAuth P N H × Option Error
  unfolding add_user
  add_user_pub_key ca pub_key anchor_sig anchor_admin_hash =
      elim (new_user_ca k pub_key anchor_sig anchor_admin_hash) [
        | err e ↦ (ca, some e)
        | ok user ↦ add_user ca user anchor_admin_hash
      ]

  unfoldable pub call : ⦃e : Eq N⦄ → CarrierAuth P N H → Call N H → CarrierAuth P N H
  call ca (adds_admin pub_key) = (add_admin_pub_key ca pub_key).0
  call ca (adds_user pub_key sig h) = (add_user_pub_key ca pub_key sig h).0
  call ca (removes_admin h) = (remove_admin_pub_key ca h).0
  call ca (removes_user h) = (remove_user_pub_key ca h).0
  call ca (revokes_admin h) = (revoke_admin_ca ca h).0
  call ca (revokes_user h) = (revoke_user_ca ca h).0
  call ca (revokes_node node_id) = (revoke_node ca node_id).0
  call ca (sets_hook hook) = set_revocation_hook ca hook

  -- The lock makes the calls of all goroutines one sequence.
  unfoldable pub run : ⦃e : Eq N⦄ → CarrierAuth P N H → List (Call N H) → CarrierAuth P N H
  run ca [] = ca
  run ca (c ∷ cs) = run (call ca c) cs
