-- ===== src/Cas/Privileges.antt =====
-- Access to an owner's data, from the scope and the owners of an authenticated peer.
use ouroboros_db.Base.{
  String, string_eq, ◌≡◌, ◌≢◌, true, List, [], ◌∷◌, Set, has, insert, lookup, lookup-insert, ◌↔◌,
  ◌⊎◌, arith,
}
use ouroboros_db.Auth.Types.{TrustScope, scope_admin, scope_user, scope_eq}
use ouroboros_db.Cas.{allow_owners, new_access_context, can_access_data}

-- The owner is one of the list.
abbrev pub IsListed : String → List String → Type 0
IsListed owner [] = ⊥
IsListed owner (x ∷ xs) = (x ≡ owner) ⊎ IsListed owner xs

has-allow_owners :
    (allowed : Set String) (owners : List String) (owner : String)
    → (has owner (allow_owners allowed owners) ≡ true)
      ↔ ((has owner allowed ≡ true) ⊎ ((owner ≢ "") × IsListed owner owners))
unfolding allow_owners
has-allow_owners allowed [] owner = ground arith
has-allow_owners allowed (x ∷ xs) owner = ground (
  arith,
  has-allow_owners allowed xs owner,
  has-allow_owners (insert x tt allowed) xs owner,
  lookup-insert x owner tt allowed,
  string_eq.beq_iff x owner,
  string_eq.beq_iff x "",
)

-- With a context made from a scope and a list of owners, data is accessible exactly with admin
-- scope, or with user scope if its owner is not empty and stands in the list.
pub can_access_data-new_access_context :
    (scope : TrustScope) (owners : List String) (owner : String)
    → (can_access_data (new_access_context scope owners) owner ≡ true)
      ↔ ((scope ≡ scope_admin) ⊎ ((scope ≡ scope_user) × (owner ≢ "") × IsListed owner owners))
unfolding can_access_data new_access_context lookup
can_access_data-new_access_context scope owners owner = ground (
  arith,
  has-allow_owners [] owners owner,
  scope_eq.beq_iff scope scope_admin,
  scope_eq.beq_iff scope scope_user,
  string_eq.beq_iff owner "",
)
