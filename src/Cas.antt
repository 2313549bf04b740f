-- ===== src/Cas.antt =====
-- internal/datacas/cas/privilege_checker.go: who may read data of an owner.
pub mod Privileges
use ouroboros_db.Base.{
  String, string_eq, Bool, true, false, not, List, [], ◌∷◌, Set, has, insert, lookup, ◌==◌,
  if◌then◌else◌,
}
use ouroboros_db.Auth.Types.{TrustScope, scope_admin, scope_user, scope_eq}

pub record AccessContext : Type 0 where
  pub scope : TrustScope
  pub allowed_owner_ca_hashes : Set String

-- The loop of `NewAccessContext`.
unfoldable pub allow_owners : Set String → List String → Set String
allow_owners allowed [] = allowed
allow_owners allowed (owner ∷ rest) =
    let skipped = allow_owners allowed rest in
    let added = allow_owners (insert owner tt allowed) rest in
    if owner == "" then skipped else added

unfoldable pub new_access_context : TrustScope → List String → AccessContext
new_access_context scope owners = record {
  scope = scope;
  allowed_owner_ca_hashes = allow_owners [] owners;
}

unfoldable pub can_access_data : AccessContext → String → Bool
can_access_data access owner =
    if access.scope == scope_admin
    then true
    else if not (access.scope == scope_user)
    then false
    else if owner == ""
    then false
    else has owner access.allowed_owner_ca_hashes
