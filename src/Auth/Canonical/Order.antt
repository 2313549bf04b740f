-- ===== src/Auth/Canonical/Order.antt =====
-- The order of the certificates in a bundle does not change its encoding.
use mathlib.Core.List.{Perm, Permᴰ}
use mathlib.Core.Logic.{∥∥₁_elim}
use ouroboros_db.Base.{
  ◌≡◌, refl, ap, ◌∙◌, true, false, List, [], ◌∷◌, Result, ok, err, ◌>>=◌, or_fail, arith, ◌⊎◌,
}
use ouroboros_db.Auth.Types.{Bytes, Keys, CertSnapshot, Error, external}
use ouroboros_db.Auth.Canonical.{
  bytes_lt, insert_sorted, sort_entries, encode_certs, canonical_node_cert, marshal_pub_key_bytes,
  canonical_node_cert_bundle,
}

bytes_lt_irrefl : (x : Bytes) → bytes_lt x x ≡ false
bytes_lt_irrefl [] = refl
bytes_lt_irrefl (a ∷ x) = ground (arith, bytes_lt_irrefl x)

bytes_lt_trans : (x y z : Bytes) → bytes_lt x y ≡ true → bytes_lt y z ≡ true → bytes_lt x z ≡ true
bytes_lt_trans x y [] h g = cc
bytes_lt_trans x [] (c ∷ z) h g = cc
bytes_lt_trans [] (b ∷ y) (c ∷ z) h g = refl
bytes_lt_trans (a ∷ x) (b ∷ y) (c ∷ z) h g = ground (arith, bytes_lt_trans x y z)

bytes_lt_total : (x y : Bytes) → bytes_lt x y ≡ false → bytes_lt y x ≡ false → x ≡ y
bytes_lt_total [] [] h g = refl
bytes_lt_total [] (b ∷ y) h g = cc
bytes_lt_total (a ∷ x) [] h g = cc
bytes_lt_total (a ∷ x) (b ∷ y) h g = ground (arith, bytes_lt_total x y)

insert_sorted_comm :
    (x y : Bytes) (l : List Bytes)
    → insert_sorted x (insert_sorted y l) ≡ insert_sorted y (insert_sorted x l)
unfolding insert_sorted
insert_sorted_comm x y [] =
    ground (arith, bytes_lt_trans x y x, bytes_lt_irrefl x, bytes_lt_total x y)
insert_sorted_comm x y (z ∷ l) = ground (
  arith,
  bytes_lt_trans x y x,
  bytes_lt_irrefl x,
  bytes_lt_total x y,
  bytes_lt_trans z x y,
  bytes_lt_trans z y x,
  insert_sorted_comm x y l,
)

Result-set : IsSet (Result Error Bytes)
Result-set = hlevel

module _ {P N : Type 0} (k : Keys P N) where
  -- An encoding fails with a library's error, or it does not fail.
  canonical_node_cert_cases :
      (c : CertSnapshot P N)
      → (canonical_node_cert k c ≡ err external) ⊎ ((b : Bytes) × (canonical_node_cert k c ≡ ok b))
  unfolding canonical_node_cert marshal_pub_key_bytes
  canonical_node_cert_cases c = ground arith

  -- Encode, and insert each encoding into its place.
  sorted_encoding : List (CertSnapshot P N) → Result Error (List Bytes)
  sorted_encoding [] = ok []
  sorted_encoding (c ∷ cs) = do
    b ← canonical_node_cert k c
    rest ← sorted_encoding cs
    ok (insert_sorted b rest)

  sorted_encoding_lem :
      (cs : List (CertSnapshot P N))
      → (do entries ← encode_certs k cs; ok (sort_entries entries)) ≡ sorted_encoding cs
  unfolding sorted_encoding encode_certs sort_entries
  sorted_encoding_lem [] = refl
  sorted_encoding_lem (c ∷ cs) = ground (arith, sorted_encoding_lem cs)

  insert_swap :
      (x y : Result Error Bytes) (rest : Result Error (List Bytes))
      → ((x ≡ err external) ⊎ ((b : Bytes) × (x ≡ ok b)))
      → ((y ≡ err external) ⊎ ((b : Bytes) × (y ≡ ok b)))
      → (do b ← x; l ← (do c ← y; m ← rest; ok (insert_sorted c m)); ok (insert_sorted b l))
        ≡ (do b ← y; l ← (do c ← x; m ← rest; ok (insert_sorted c m)); ok (insert_sorted b l))
  insert_swap (ok b) (ok c) (ok l) hx hy = ap ok (insert_sorted_comm b c l)
  insert_swap (ok b) (ok c) (err e) hx hy = refl
  insert_swap (ok b) (err d) (ok l) hx hy = refl
  insert_swap (ok b) (err d) (err e) hx hy = refl
  insert_swap (err d) (ok c) (ok l) hx hy = refl
  insert_swap (err d) (ok c) (err e) hx hy = refl
  insert_swap (err d) (err c) rest hx hy = ground arith

  sorted_encoding-permᴰ :
      {cs ds : List (CertSnapshot P N)} → Permᴰ cs ds → sorted_encoding cs ≡ sorted_encoding ds
  unfolding sorted_encoding
  sorted_encoding-permᴰ Permᴰ.nil = refl
  sorted_encoding-permᴰ (Permᴰ.cons e p) = rw (e, sorted_encoding-permᴰ p)
  sorted_encoding-permᴰ (Permᴰ.swap {a} {b} {l = l} e f) =
      rw (← e, ← f)
        (insert_swap _ _ (sorted_encoding l) (canonical_node_cert_cases a)
          (canonical_node_cert_cases b))
  sorted_encoding-permᴰ (Permᴰ.trans p q) = sorted_encoding-permᴰ p ∙ sorted_encoding-permᴰ q

  bundle_lem :
      (cs : List (CertSnapshot P N))
      → canonical_node_cert_bundle k cs
        ≡ (do entries ← sorted_encoding cs; or_fail (k.marshal_bundle entries) external)
  unfolding canonical_node_cert_bundle
  bundle_lem cs = rw (← sorted_encoding_lem cs) (ground arith)

  -- The encoding of a bundle, its failure included, does not depend on the order in which the
  -- certificates stand.
  pub canonical_node_cert_bundle-perm :
      (cs ds : List (CertSnapshot P N))
      → Perm cs ds
      → canonical_node_cert_bundle k cs ≡ canonical_node_cert_bundle k ds
  canonical_node_cert_bundle-perm cs ds p =
      ∥∥₁_elim p (Result-set _ _) λ d. rw (bundle_lem cs, bundle_lem ds, sorted_encoding-permᴰ d)
