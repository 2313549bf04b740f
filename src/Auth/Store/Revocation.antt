-- ===== src/Auth/Store/Revocation.antt =====
-- Revocation over the life of a store.
use ouroboros_db.Base.{
  String, string_eq, ◌≡◌, true, false, List, [], ◌∷◌, none, Eq, ==_refl, Map, Set, has, insert,
  arith, lookup-insert,
}
use ouroboros_db.Auth.Types.{Keys}
use ouroboros_db.Auth.Store.WellFormed.{Inv}
use ouroboros_db.Auth.Store.Invariant.{call-Inv, run-Inv}
use ouroboros_db.Auth.Store.{
  CarrierAuth, Call, adds_admin, adds_user, removes_admin, removes_user, revokes_admin,
  revokes_user, revokes_node, sets_hook, add_admin_pub_key, add_user_pub_key, remove_admin_pub_key,
  remove_user_pub_key, revoke_admin_ca, revoke_user_ca, revoke_node, set_revocation_hook, call, run,
}

-- A set only grows.
abbrev Grows : {K : Type 0} ⦃e : Eq K⦄ → Set K → Set K → Type 0
Grows {K} r s = (k : K) → has k r ≡ true → has k s ≡ true

Grows-insert : {K : Type 0} ⦃e : Eq K⦄ (r : Set K) (j : K) → Grows r (insert j tt r)
Grows-insert r j k present = ground (arith, lookup-insert j k tt r)

-- The three revocation sets.
record Keeps {P N H : Type 0} ⦃e : Eq N⦄ (ca ca' : CarrierAuth P N H) : Type 0 where
  admins : Grows ca.revoked_admin_cas ca'.revoked_admin_cas
  users : Grows ca.revoked_user_cas ca'.revoked_user_cas
  nodes : Grows ca.revoked_nodes ca'.revoked_nodes

module _ {P N H : Type 0} ⦃e : Eq N⦄ where
  Keeps-refl : (ca : CarrierAuth P N H) → Keeps ca ca
  Keeps-refl ca = record { admins = λ h p. p; users = λ h p. p; nodes = λ h p. p }

  Keeps-trans : {ca ca' ca'' : CarrierAuth P N H} → Keeps ca ca' → Keeps ca' ca'' → Keeps ca ca''
  Keeps-trans p q = record {
    admins = λ h m. q.admins h (p.admins h m);
    users = λ h m. q.users h (p.users h m);
    nodes = λ h m. q.nodes h (p.nodes h m);
  }

not_has_of_revoked :
    {V : Type 0} (m : Map String V) (r : Set String) (h : String)
    → (has h m ≡ true → has h r ≡ false)
    → has h r ≡ true
    → has h m ≡ false
not_has_of_revoked m r h apart revoked = ground arith

has-insert_self : {K : Type 0} ⦃e : Eq K⦄ (h : K) (r : Set K) → has h (insert h tt r) ≡ true
has-insert_self h r = ground (arith, lookup-insert h h tt r, ==_refl h)

module _ {P N H : Type 0} where
  revoke_admin_ca_revokes :
      (ca : CarrierAuth P N H) (h : String)
      → (revoke_admin_ca ca h).1 ≡ none
      → has h (revoke_admin_ca ca h).0.revoked_admin_cas ≡ true
  unfolding revoke_admin_ca
  revoke_admin_ca_revokes ca h done = ground (arith, has-insert_self h ca.revoked_admin_cas)

  revoke_user_ca_revokes :
      (ca : CarrierAuth P N H) (h : String)
      → (revoke_user_ca ca h).1 ≡ none
      → has h (revoke_user_ca ca h).0.revoked_user_cas ≡ true
  unfolding revoke_user_ca
  revoke_user_ca_revokes ca h done = ground (arith, has-insert_self h ca.revoked_user_cas)

  revoke_node_revokes :
      ⦃e : Eq N⦄
      → (ca : CarrierAuth P N H) (n : N) → (revoke_node ca n).1 ≡ none
      → has n (revoke_node ca n).0.revoked_nodes ≡ true
  unfolding revoke_node
  revoke_node_revokes ca n done = ground (arith, has-insert_self n ca.revoked_nodes)

module _ {P N H : Type 0} ⦃e : Eq N⦄ (k : Keys P N) where
  call-Keeps : (ca : CarrierAuth P N H) (c : Call N H) → Keeps ca (call k ca c)
  unfolding call add_admin_pub_key add_user_pub_key remove_admin_pub_key remove_user_pub_key
      revoke_admin_ca revoke_user_ca revoke_node set_revocation_hook
  call-Keeps ca (adds_admin pub_key) = record {
    admins = λ h p. ground arith;
    users = λ h p. ground arith;
    nodes = λ h p. ground arith;
  }
  call-Keeps ca (adds_user pub_key sig a) = record {
    admins = λ h p. ground arith;
    users = λ h p. ground arith;
    nodes = λ h p. ground arith;
  }
  call-Keeps ca (removes_admin a) = record {
    admins = λ h p. ground (arith, Grows-insert ca.revoked_admin_cas a h p);
    users = λ h p. ground arith;
    nodes = λ h p. ground arith;
  }
  call-Keeps ca (removes_user a) = record {
    admins = λ h p. ground arith;
    users = λ h p. ground (arith, Grows-insert ca.revoked_user_cas a h p);
    nodes = λ h p. ground arith;
  }
  call-Keeps ca (revokes_admin a) = record {
    admins = λ h p. ground (arith, Grows-insert ca.revoked_admin_cas a h p);
    users = λ h p. ground arith;
    nodes = λ h p. ground arith;
  }
  call-Keeps ca (revokes_user a) = record {
    admins = λ h p. ground arith;
    users = λ h p. ground (arith, Grows-insert ca.revoked_user_cas a h p);
    nodes = λ h p. ground arith;
  }
  call-Keeps ca (revokes_node n) = record {
    admins = λ h p. ground arith;
    users = λ h p. ground arith;
    nodes = λ h p. ground (arith, Grows-insert ca.revoked_nodes n h p);
  }
  call-Keeps ca (sets_hook hook) = record { admins = λ h p. p; users = λ h p. p; nodes = λ h p. p }

  run-Keeps : (ca : CarrierAuth P N H) (cs : List (Call N H)) → Keeps ca (run k ca cs)
  unfolding run
  run-Keeps ca [] = Keeps-refl ca
  run-Keeps ca (c ∷ cs) = Keeps-trans (call-Keeps ca c) (run-Keeps (call k ca c) cs)

  -- After a revocation of an admin authority that reports no error, no later calls make the
  -- authority trusted again: its hash stays revoked and out of the store.
  pub revoke_admin_ca_permanent :
      (ca : CarrierAuth P N H) (h : String) (cs : List (Call N H))
      → Inv k ca
      → (revoke_admin_ca ca h).1 ≡ none
      → (has h (run k (revoke_admin_ca ca h).0 cs).revoked_admin_cas ≡ true)
        × (has h (run k (revoke_admin_ca ca h).0 cs).admin_cas ≡ false)
  unfolding call
  revoke_admin_ca_permanent ca h cs v done =
      let stays = (run-Keeps _ cs).admins h (revoke_admin_ca_revokes ca h done) in
      (
        stays,
        not_has_of_revoked _ _ h
            ((run-Inv k _ cs (call-Inv k ca (revokes_admin h) v)).admins_apart h) stays,
      )

  -- After a revocation of a user authority that reports no error, no later calls make the
  -- authority trusted again: its hash stays revoked and out of the store.
  pub revoke_user_ca_permanent :
      (ca : CarrierAuth P N H) (h : String) (cs : List (Call N H))
      → Inv k ca
      → (revoke_user_ca ca h).1 ≡ none
      → (has h (run k (revoke_user_ca ca h).0 cs).revoked_user_cas ≡ true)
        × (has h (run k (revoke_user_ca ca h).0 cs).user_cas ≡ false)
  unfolding call
  revoke_user_ca_permanent ca h cs v done =
      let stays = (run-Keeps _ cs).users h (revoke_user_ca_revokes ca h done) in
      (
        stays,
        not_has_of_revoked _ _ h ((run-Inv k _ cs (call-Inv k ca (revokes_user h) v)).users_apart h)
            stays,
      )

  -- A node whose revocation reports no error stays revoked through all later calls.
  pub revoke_node_permanent :
      (ca : CarrierAuth P N H) (n : N) (cs : List (Call N H))
      → (revoke_node ca n).1 ≡ none
      → has n (run k (revoke_node ca n).0 cs).revoked_nodes ≡ true
  revoke_node_permanent ca n cs done = (run-Keeps _ cs).nodes n (revoke_node_revokes ca n done)
