-- ===== src/Tests/Trust.antt =====
-- The trust store, its capacity, and signing contexts.
use mathlib.Core.List.Perm
use ouroboros_db.Base.{
  ℕ, zero, suc, string_eq, nat_eq, ◌≡◌, ◌≤◌, refl, true, false, List, [], ◌∷◌, ◌++◌, none, ok, has,
  lookup, insert, Set, length, arith, ◌==◌, eq_iff, ap, Bool-cases, inl, inr, subst, pos,
}
use ouroboros_db.Auth.Types.{Bytes, CertSnapshot, max_revocation_entries}
use Prim.Native.String.{String}
use Prim.Native.Char.{code}
use ouroboros_db.Auth.Canonical.{marshal_pub_key_bytes, canonical_node_cert_bundle}
use ouroboros_db.Auth.Canonical.Order.{canonical_node_cert_bundle-perm}
use ouroboros_db.Auth.Canonical.Domain.{domain_separate_injective}
use ouroboros_db.Auth.Ca.{AdminCa, new_admin_ca, new_ca_base, split_and_parse_pub_key, ca_hash}
use ouroboros_db.Auth.Store.{
  CarrierAuth, Call, revokes_admin, revokes_node, adds_admin, new_carrier_auth, revoke_admin_ca,
  revoke_user_ca, revoke_node, remove_admin_pub_key, add_admin_pub_key, run, call,
}
use ouroboros_db.Auth.Store.WellFormed.{Inv}
use ouroboros_db.Auth.Store.Invariant.{run-new_carrier_auth-Inv}
use ouroboros_db.Auth.Store.Revocation.{revoke_admin_ca_permanent}
use ouroboros_db.Auth.Store.Capacity.{run_full, remove_full_readd}
use ouroboros_db.Tests.World.{world, fill}

-- 1568 bytes for the KEM key and the signing key 7.
admin_key : Bytes
admin_key = fill 1568 0 ++ 7 ∷ []

abbrev admin : AdminCa ℕ
admin = record {
  base = record { pub_key = 7; pub_key_bytes = fill 1568 0 ++ 7 ∷ []; hash = "admin" };
}

admin_parsed : new_admin_ca world admin_key ≡ ok admin
unfolding new_admin_ca admin_key new_ca_base split_and_parse_pub_key ca_hash marshal_pub_key_bytes
admin_parsed = refl

-- Distinct names that are no hash of the tests.
name : ℕ → String
name zero = ""
name (suc n) = String.◌∷◌ "x" (name n)

abbrev head_code : String → ℕ
head_code String.[] = 0
head_code (String.◌∷◌ c s) = code c

name-ne-admin : (n : ℕ) → (name n == "admin") ≡ false
unfolding name
name-ne-admin zero = refl
name-ne-admin (suc n) = elim (Bool-cases (String.◌∷◌ "x" (name n) == "admin")) [
  | inr differ ↦ differ
  | inl same ↦ absurd (omega (arith, ap head_code ((eq_iff _ _).0 same)))
]

-- A revocation set with `n` entries.
filled : ℕ → Set String
filled zero = []
filled (suc n) = (name n, tt) ∷ filled n

length-filled : (n : ℕ) → length (filled n) ≡ n
unfolding filled
length-filled zero = refl
length-filled (suc n) = omega (arith, length-filled n)

not_filled : (n : ℕ) → has "admin" (filled n) ≡ false
unfolding filled lookup
not_filled zero = refl
not_filled (suc n) = ground (arith, name-ne-admin n, not_filled n)

full_store : CarrierAuth ℕ ℕ ℕ
full_store = record {
  admin_cas = ("admin", admin) ∷ [];
  user_cas = [];
  revoked_admin_cas = filled max_revocation_entries;
  revoked_user_cas = [];
  revoked_nodes = [];
  on_revoke = none;
}

full_store-Inv : Inv world full_store
unfolding full_store lookup
full_store-Inv = record {
  admins_apart = λ h present. apart h present;
  users_apart = λ h present. cc;
  admins_keyed = λ h v found. ground (arith, eq_iff "admin" h);
  users_keyed = λ h v found. cc;
  admins_capped = omega (arith, length-filled max_revocation_entries);
  users_capped = omega arith;
  nodes_capped = omega arith;
}
  where
    apart :
        (h : String)
        → has h full_store.admin_cas ≡ true
        → has h full_store.revoked_admin_cas ≡ false
    apart h present = elim (Bool-cases ("admin" == h)) [
      | inl same ↦
          subst (λ s. has s (filled max_revocation_entries) ≡ false) ((eq_iff "admin" h).0 same)
            (not_filled max_revocation_entries)
      | inr other ↦ absurd (ground arith)
    ]

full_store_full : max_revocation_entries ≤ length full_store.revoked_admin_cas
unfolding full_store
full_store_full = omega (arith, length-filled max_revocation_entries)

remove_full_readd_example :
    let removed = (remove_admin_pub_key full_store "admin").0 in
    let again = add_admin_pub_key world removed admin_key in
    (has "admin" removed.admin_cas ≡ false)
    × (again.1 ≡ none)
    × (has "admin" again.0.admin_cas ≡ true)
remove_full_readd_example =
    remove_full_readd world full_store admin_key admin full_store-Inv full_store_full
      (unfold full_store lookup in refl) admin_parsed

run_full_example :
    (run world full_store (revokes_admin "admin" ∷ revokes_node 3 ∷ [])).revoked_admin_cas
    ≡ full_store.revoked_admin_cas
run_full_example =
    run_full world full_store (revokes_admin "admin" ∷ revokes_node 3 ∷ []) full_store_full

run-new_carrier_auth-Inv_example :
    Inv {H = ℕ} world
      (run world new_carrier_auth (adds_admin admin_key ∷ revokes_admin "admin" ∷ []))
run-new_carrier_auth-Inv_example =
    run-new_carrier_auth-Inv {H = ℕ} world (adds_admin admin_key ∷ revokes_admin "admin" ∷ [])

trusted : CarrierAuth ℕ ℕ ℕ
trusted = run world new_carrier_auth (adds_admin admin_key ∷ [])

trusted-Inv : Inv world trusted
unfolding trusted
trusted-Inv = run-new_carrier_auth-Inv world (adds_admin admin_key ∷ [])

later : List (Call ℕ ℕ)
later = adds_admin admin_key ∷ revokes_node 3 ∷ []

trusted_revokes : (revoke_admin_ca trusted "admin").1 ≡ none
unfolding trusted run call new_carrier_auth add_admin_pub_key new_admin_ca admin_key new_ca_base
    split_and_parse_pub_key ca_hash marshal_pub_key_bytes revoke_admin_ca lookup insert
trusted_revokes = refl

trusted_revokes_user : (revoke_user_ca trusted "user").1 ≡ none
unfolding trusted run call new_carrier_auth add_admin_pub_key new_admin_ca admin_key new_ca_base
    split_and_parse_pub_key ca_hash marshal_pub_key_bytes revoke_user_ca lookup insert
trusted_revokes_user = refl

trusted_revokes_node : (revoke_node trusted 5).1 ≡ none
unfolding trusted run call new_carrier_auth add_admin_pub_key new_admin_ca admin_key new_ca_base
    split_and_parse_pub_key ca_hash marshal_pub_key_bytes revoke_node lookup insert
trusted_revokes_node = refl

revoke_admin_ca_permanent_example :
    (has "admin" (run world (revoke_admin_ca trusted "admin").0 later).revoked_admin_cas ≡ true)
    × (has "admin" (run world (revoke_admin_ca trusted "admin").0 later).admin_cas ≡ false)
revoke_admin_ca_permanent_example =
    revoke_admin_ca_permanent world trusted "admin" later trusted-Inv trusted_revokes

domain_separate_injective_example : ◌≡◌ {A = Bytes} (1 ∷ []) (1 ∷ [])
domain_separate_injective_example =
    (domain_separate_injective (1 ∷ []) (2 ∷ []) (1 ∷ []) (2 ∷ []) (omega arith) (omega arith)
      refl).0

abbrev cert : ℕ → CertSnapshot ℕ ℕ
cert s = record {
  cert_version = 1;
  node_pub_key = 5;
  issuer_ca_hash = "admin";
  valid_from = pos 0;
  valid_until = pos 100;
  serial = s ∷ [];
  cert_nonce = [];
  node_id = 5;
}

canonical_node_cert_bundle-perm_example :
    canonical_node_cert_bundle world (cert 2 ∷ cert 1 ∷ [])
    ≡ canonical_node_cert_bundle world (cert 1 ∷ cert 2 ∷ [])
canonical_node_cert_bundle-perm_example =
    canonical_node_cert_bundle-perm world (cert 2 ∷ cert 1 ∷ []) (cert 1 ∷ cert 2 ∷ [])
      (Perm.swap (cert 1) (cert 2) [])
