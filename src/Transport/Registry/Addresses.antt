-- ===== src/Transport/Registry/Addresses.antt =====
-- `compactAddresses`: no address is lost, and none is empty or stands twice.
use ouroboros_db.Base.{
  String, string_eq, ◌≡◌, refl, Bool, true, false, not, ◌&&◌, List, [], ◌∷◌, ◌++◌, ◌==◌, ==_refl,
  Set, has, insert, lookup, lookup-insert, arith, if◌then◌else◌,
}
use ouroboros_db.Transport.Registry.{compact_from, compact_addresses}

abbrev pub contains : String → List String → Bool
contains a [] = false
contains a (x ∷ xs) = if x == a then true else contains a xs

-- No address stands twice.
abbrev pub Distinct : List String → Type 0
Distinct [] = Unit
Distinct (x ∷ xs) = (contains x xs ≡ false) × Distinct xs

pub contains-append :
    (a : String) (xs ys : List String)
    → contains a (xs ++ ys) ≡ (if contains a xs then true else contains a ys)
contains-append a [] ys = refl
contains-append a (x ∷ xs) ys = ground (arith, contains-append a xs ys)

contains-compact_from :
    (a : String) (seen : Set String) (xs : List String)
    → contains a (compact_from seen xs) ≡ (contains a xs && not (a == "") && not (has a seen))
unfolding compact_from
contains-compact_from a seen [] = refl
contains-compact_from a seen (x ∷ xs) = ground (
  arith,
  contains-compact_from a seen xs,
  contains-compact_from a (insert x tt seen) xs,
  lookup-insert x a tt seen,
  string_eq.beq_iff x a,
  string_eq.beq_iff x "",
  string_eq.beq_iff a "",
)

compact_from-Distinct : (seen : Set String) (xs : List String) → Distinct (compact_from seen xs)
unfolding compact_from
compact_from-Distinct seen [] = tt
compact_from-Distinct seen (x ∷ xs) = ground (
  arith,
  compact_from-Distinct seen xs,
  compact_from-Distinct (insert x tt seen) xs,
  contains-compact_from x (insert x tt seen) xs,
  lookup-insert x x tt seen,
  ==_refl x,
)

-- Compacting keeps exactly the addresses that are not empty, and each of them once.
pub compact_addresses_lem :
    (xs : List String)
    → Distinct (compact_addresses xs)
      × ((a : String) → contains a (compact_addresses xs) ≡ (contains a xs && not (a == "")))
unfolding compact_addresses lookup
compact_addresses_lem xs =
    (compact_from-Distinct [] xs, λ a. ground (arith, contains-compact_from a [] xs))

compact_from_same :
    (seen : Set String) (xs : List String)
    → Distinct xs
    → ((a : String) → contains a xs ≡ true → (has a seen ≡ false) × ((a == "") ≡ false))
    → compact_from seen xs ≡ xs
unfolding compact_from
compact_from_same seen [] d fresh = refl
compact_from_same seen (x ∷ xs) d fresh =
    let here = fresh x (ground (arith, ==_refl x)) in
    let rest =
      compact_from_same (insert x tt seen) xs d.1 (λ a there.
        ground (arith, fresh a, d.0, lookup-insert x a tt seen, string_eq.beq_iff x a)) in
    rw (here.0, here.1, rest) refl

-- Compacting addresses that are compact changes nothing, their order included.
pub compact_addresses_idem :
    (xs : List String) → compact_addresses (compact_addresses xs) ≡ compact_addresses xs
unfolding compact_addresses lookup
compact_addresses_idem xs =
    compact_from_same [] (compact_from [] xs) (compact_from-Distinct [] xs)
      (λ a there. ground (arith, contains-compact_from a [] xs))
