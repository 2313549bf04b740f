-- ===== src/Auth/Snapshot/Frozen.antt =====
-- What a frozen certificate guarantees.
use ouroboros_db.Base.{
  suc, ◌≡◌, refl, List, [], ◌∷◌, Option, none, some, Result, ok, Eq, arith, All, length, >>=-eq-ok,
  subst, ap,
}
use ouroboros_db.Auth.Types.{Keys, CertSnapshot, Error}
use ouroboros_db.Auth.Snapshot.{NodeCertLike, snapshot_cert, snapshot_certs}

module _ {P N : Type 0} ⦃e : Eq N⦄ (k : Keys P N) where
  -- The frozen NodeID is the one that the frozen key derives.
  abbrev pub IsConsistent : CertSnapshot P N → Type 0
  IsConsistent s = k.node_id s.node_pub_key ≡ some s.node_id

  snapshot_cert-IsConsistent :
      (c : NodeCertLike P N) (s : CertSnapshot P N) → snapshot_cert k c ≡ ok s → IsConsistent s
  unfolding snapshot_cert
  snapshot_cert-IsConsistent c s h = ground arith

  -- Freezing a bundle that succeeds gives one copy for each certificate, none of which was nil,
  -- and in each copy the NodeID is the one that its key derives, whatever the certificates answer
  -- from call to call.
  pub snapshot_certs-IsConsistent :
      (cs : List (Option (NodeCertLike P N))) (out : List (CertSnapshot P N))
      → snapshot_certs k cs ≡ ok out
      → (length out ≡ length cs) × All IsConsistent out
  unfolding snapshot_certs
  snapshot_certs-IsConsistent [] out h =
      subst (λ o. (length o ≡ 0) × All IsConsistent o) {x = []} (ground arith) (refl, tt)
  snapshot_certs-IsConsistent (none ∷ cs) out h = absurd (ground arith)
  snapshot_certs-IsConsistent (some c ∷ cs) out h =
      let (snap, here, h₁) = >>=-eq-ok (snapshot_cert k c) _ h in
      let (rest, later, h₂) = >>=-eq-ok (snapshot_certs k cs) _ h₁ in
      let (sized, consistent) = snapshot_certs-IsConsistent cs rest later in
      subst (λ o. (length o ≡ length (some c ∷ cs)) × All IsConsistent o) (whole snap rest h₂)
        (ap suc sized, (snapshot_cert-IsConsistent c snap here, consistent))
    where
      whole :
          (snap : CertSnapshot P N) (rest : List (CertSnapshot P N))
          → ◌≡◌ {A = Result Error (List (CertSnapshot P N))} (ok (snap ∷ rest)) (ok out)
          → snap ∷ rest ≡ out
      whole snap rest eq = ground arith
