-- ===== src/Auth/Store/Apart.antt =====
-- A map of authorities beside the set of those that are revoked.
use ouroboros_db.Base.{
  String, string_eq, ◌≡◌, true, false, some, Map, Set, has, lookup, insert, delete, arith,
  lookup-insert, lookup-delete, lookup-insert_cases, inl, inr,
}

-- No key of the map is in the set.
abbrev pub Apart : {V : Type 0} → Map String V → Set String → Type 0
Apart m r = (h : String) → has h m ≡ true → has h r ≡ false

module _ {V : Type 0} (m : Map String V) (r : Set String) (apart : Apart m r) (k : String) where
  pub Apart-insert : (v : V) → has k r ≡ false → Apart (insert k v m) r
  Apart-insert v free h present =
      ground (arith, apart h, lookup-insert k h v m, string_eq.beq_iff k h)

  pub Apart-delete : Apart (delete k m) r
  Apart-delete h present = ground (arith, apart h, lookup-delete k h m)

  pub Apart-revoke : Apart (delete k m) (insert k tt r)
  Apart-revoke h present = ground (arith, apart h, lookup-delete k h m, lookup-insert k h tt r)

-- Every value of the map has the property under its key.
abbrev pub Holds : {V : Type 0} → (String → V → Type 0) → Map String V → Type 0
Holds {V} P m = (h : String) (v : V) → lookup h m ≡ some v → P h v

module _ {V : Type 0} (P : String → V → Type 0) (m : Map String V) (all : Holds P m)
    (k : String) where
  pub Holds-insert : (v : V) → P k v → Holds P (insert k v m)
  Holds-insert v pv h w e = elim (lookup-insert_cases k h v w m e) [
    | inl (same_key, same_value) ↦ rw (← same_key, ← same_value) pv
    | inr old ↦ all h w old
  ]

  pub Holds-delete : Holds P (delete k m)
  Holds-delete h w e = all h w (ground (arith, lookup-delete k h m))
