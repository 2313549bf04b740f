-- ===== src/Transport/Registry/Merging.antt =====
-- `mergeNode`: what is kept of a known node that is added again.
use ouroboros_db.Base.{
  String, string_eq, nat_eq, ◌≡◌, ◌≢◌, ◌⊎◌, refl, true, false, List, [], ◌∷◌, ◌++◌, ◌==◌, length,
  eqb, if◌then◌else◌, arith, inl, inr,
}
use ouroboros_db.Transport.Registry.{
  Node, NodeRole, ConnectionStatus, merge_addresses_of, merge_role, merge_status, merge_node,
  role_server, role_client, role_other, disconnected, connecting, connected, failed, status_other,
}
use ouroboros_db.Transport.Registry.Addresses.{contains, contains-append, compact_addresses_lem}

-- What the entry of a known node becomes when the node is added again with some certificates: it
-- takes what was added, but where that says nothing it keeps what was known. Nothing is said by no
-- certificates, no sighting, the status disconnected, and the role of a server of a client.
pub record Keeps {N C : Type 0} (old added : Node N C) (certs : List C) (new : Node N C)
    : Type 0 where
  pub addresses_known :
      (a : String)
      → (contains a old.addresses ≡ true) ⊎ (contains a added.addresses ≡ true)
      → (a == "") ≡ false
      → contains a new.addresses ≡ true
  pub addresses_from :
      (a : String)
      → contains a new.addresses ≡ true
      → (contains a old.addresses ≡ true) ⊎ (contains a added.addresses ≡ true)
  pub certs_kept : length certs ≡ 0 → length added.node_certs ≡ 0 → new.node_certs ≡ old.node_certs
  pub certs_added :
      length certs ≡ 0 → length added.node_certs ≢ 0 → new.node_certs ≡ added.node_certs
  pub certs_given : length certs ≢ 0 → new.node_certs ≡ certs
  pub client_kept : old.role ≡ role_client → added.role ≡ role_server → new.role ≡ role_client
  pub role_taken : (old.role ≢ role_client) ⊎ (added.role ≢ role_server) → new.role ≡ added.role
  pub sighting_kept : added.last_seen ≡ 0 → new.last_seen ≡ old.last_seen
  pub sighting_taken : added.last_seen ≢ 0 → new.last_seen ≡ added.last_seen
  pub status_kept :
      added.connection_status ≡ disconnected → new.connection_status ≡ old.connection_status
  pub status_taken :
      added.connection_status ≢ disconnected → new.connection_status ≡ added.connection_status

merge_addresses_of-known :
    (old new : List String) (a : String)
    → (contains a old ≡ true) ⊎ (contains a new ≡ true)
    → (a == "") ≡ false
    → contains a (merge_addresses_of old new) ≡ true
unfolding merge_addresses_of
merge_addresses_of-known old [] a (inl there) full = there
merge_addresses_of-known old [] a (inr there) full = cc
merge_addresses_of-known old (x ∷ new) a (inl there) full =
    ground (arith, contains-append a old (x ∷ new), (compact_addresses_lem (old ++ (x ∷ new))).1 a)
merge_addresses_of-known old (x ∷ new) a (inr there) full =
    ground (arith, contains-append a old (x ∷ new), (compact_addresses_lem (old ++ (x ∷ new))).1 a)

merge_addresses_of-from :
    (old new : List String) (a : String)
    → contains a (merge_addresses_of old new) ≡ true
    → (contains a old ≡ true) ⊎ (contains a new ≡ true)
unfolding merge_addresses_of
merge_addresses_of-from old [] a there = inl there
merge_addresses_of-from old (x ∷ new) a there =
    ground (arith, contains-append a old (x ∷ new), (compact_addresses_lem (old ++ (x ∷ new))).1 a)

merge_role-kept :
    (old new : NodeRole) → old ≡ role_client → new ≡ role_server → merge_role old new ≡ role_client
unfolding merge_role
merge_role-kept old new was is = rw (was, is) refl

merge_role-taken :
    (old new : NodeRole) → (old ≢ role_client) ⊎ (new ≢ role_server) → merge_role old new ≡ new
unfolding merge_role
merge_role-taken role_client role_server (inl other) = absurd (other refl)
merge_role-taken role_client role_server (inr other) = absurd (other refl)
merge_role-taken role_server role_server h = refl
merge_role-taken (role_other n) role_server h = refl
merge_role-taken old role_client h = refl
merge_role-taken old (role_other n) h = refl

merge_status-kept : (old new : ConnectionStatus) → new ≡ disconnected → merge_status old new ≡ old
unfolding merge_status
merge_status-kept disconnected new is = rw is refl
merge_status-kept connecting new is = rw is refl
merge_status-kept connected new is = rw is refl
merge_status-kept failed new is = rw is refl
merge_status-kept (status_other n) new is = rw is refl

merge_status-taken : (old new : ConnectionStatus) → new ≢ disconnected → merge_status old new ≡ new
unfolding merge_status
merge_status-taken old disconnected other = absurd (other refl)
merge_status-taken old connecting other = refl
merge_status-taken old connected other = refl
merge_status-taken old failed other = refl
merge_status-taken old (status_other n) other = refl

pub merge_node-Keeps :
    {N C : Type 0} (old added : Node N C) (certs : List C)
    → Keeps old added certs (
        merge_node old
          (record added { node_certs = if eqb (length certs) 0 then added.node_certs else certs }))
unfolding merge_node
merge_node-Keeps old added certs = record {
  addresses_known = merge_addresses_of-known old.addresses added.addresses;
  addresses_from = merge_addresses_of-from old.addresses added.addresses;
  certs_kept = λ none_given none_added. ground arith;
  certs_added = λ none_given some_added. ground arith;
  certs_given = λ some_given. ground arith;
  client_kept = merge_role-kept old.role added.role;
  role_taken = merge_role-taken old.role added.role;
  sighting_kept = λ h. ground arith;
  sighting_taken = λ h. ground arith;
  status_kept = merge_status-kept old.connection_status added.connection_status;
  status_taken = merge_status-taken old.connection_status added.connection_status;
}
