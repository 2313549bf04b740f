-- ===== src/Transport/Registry/Nodes.antt =====
-- `nodeRegistry`: what stands under a NodeID, and what `AddNode` keeps of a known node.
use ouroboros_db.Base.{
  ℕ, String, string_eq, nat_eq, ◌≡◌, refl, sym, ap, subst, Bool, false, List, [], ◌∷◌, ◌++◌, Option,
  none, some, Option-cases, Bool-cases, ◌>>=◌, ◌∙◌, Result, ok, err, >>=-eq-ok, fail_if, or_fail,
  Eq, ◌==◌, has, lookup, insert, lookup-insert, lookup-delete, lookup-insert_cases, length, eqb,
  if◌then◌else◌, arith, inl, inr,
}
use ouroboros_db.Transport.Registry.{
  Node, NodeRole, ConnectionStatus, Registry, RegistryError, zero_node_id, node_not_found,
  merge_node, merge_with, compact_addresses, add_node, remove_node, update_last_seen, set_status,
  set_role, merge_addresses,
}
use ouroboros_db.Transport.Registry.Merging.{Keeps, merge_node-Keeps}

-- A call of the registry.
pub data RegistryCall (N C : Type 0) : Type 0 where
  adds : Node N C → List C → RegistryCall N C
  deletes : N → RegistryCall N C
  updates_last_seen : N → ℕ → RegistryCall N C
  sets_status : N → ConnectionStatus → RegistryCall N C
  sets_role : N → NodeRole → RegistryCall N C
  merges_addresses : N → List String → RegistryCall N C

module _ {N C : Type 0} ⦃e : Eq N⦄ (is_zero : N → Bool) where
  abbrev pub or_old : Registry N C → Result RegistryError (Registry N C) → Registry N C
  or_old r (ok next) = next
  or_old r (err e) = r

  unfoldable pub registry_call : Registry N C → RegistryCall N C → Registry N C
  registry_call r (adds node certs) = or_old r (add_node is_zero r node certs)
  registry_call r (deletes id) = or_old r (remove_node r id)
  registry_call r (updates_last_seen id at) = or_old r (update_last_seen r id at)
  registry_call r (sets_status id status) = or_old r (set_status r id status)
  registry_call r (sets_role id role) = or_old r (set_role r id role)
  registry_call r (merges_addresses id as_) = or_old r (merge_addresses r id as_)

  unfoldable pub registry_run : Registry N C → List (RegistryCall N C) → Registry N C
  registry_run r [] = r
  registry_run r (c ∷ cs) = registry_run (registry_call r c) cs

  -- Every node stands under its own NodeID, which is not zero.
  abbrev pub IsKeyed : Registry N C → Type 0
  IsKeyed r =
      (id : N) (n : Node N C) → lookup id r ≡ some n → (n.node_id ≡ id) × (is_zero id ≡ false)

  -- Adding a node whose NodeID is known, if it succeeds, changes no other node's entry. The new
  -- entry has the addresses of both, but for the empty one, and no other. For the rest it takes
  -- what is added, but keeps the certificates if none are added, the last sighting if there is
  -- none, the status if the one added is disconnected, and the role of a client against that of a
  -- server.
  pub add_node-Keeps :
      (r next : Registry N C) (node old : Node N C) (certs : List C)
      → lookup node.node_id r ≡ some old
      → add_node is_zero r node certs ≡ ok next
      → (new : Node N C) × Keeps old node certs new
        × ((id : N) → lookup id next ≡ (if node.node_id == id then some new else lookup id r))
  unfolding add_node merge_with
  add_node-Keeps r next node old certs known h =
      let (_, valid, h₁) = >>=-eq-ok (fail_if (is_zero node.node_id) zero_node_id) _ h in
      let n : Node N C = record node {
        node_certs = if eqb (length certs) 0 then node.node_certs else certs;
      } in
      let new = merge_with (lookup node.node_id r) n in
      let stored : ◌≡◌ {A = Registry N C} (insert node.node_id new r) next = cc h₁ in
      (
        new,
        subst (λ m. Keeps old node certs (merge_with m n)) (sym known)
            (merge_node-Keeps old node certs),
        (λ id. ap (lookup id) (sym stored) ∙ lookup-insert node.node_id id new r),
      )

  abbrev IsKeyedResult : Result RegistryError (Registry N C) → Type 0
  IsKeyedResult (ok next) = IsKeyed next
  IsKeyedResult (err e) = Unit {0}

  or_old-IsKeyed :
      (r : Registry N C) (res : Result RegistryError (Registry N C))
      → IsKeyed r
      → IsKeyedResult res
      → IsKeyed (or_old r res)
  or_old-IsKeyed r (ok next) v w = w
  or_old-IsKeyed r (err e) v w = v

  insert-IsKeyed :
      (r : Registry N C) (id : N) (n : Node N C)
      → IsKeyed r
      → (n.node_id ≡ id) × (is_zero id ≡ false)
      → IsKeyed (insert id n r)
  insert-IsKeyed r id n v own j m found = elim (lookup-insert_cases id j n m r found) [
    | inr old ↦ v j m old
    | inl new ↦
        subst (λ i. (m.node_id ≡ i) × (is_zero i ≡ false)) new.0
          (subst (λ (x : Node N C). (x.node_id ≡ id) × (is_zero id ≡ false)) new.1 own)
  ]

  -- A method that rewrites the entry of a known node under the same NodeID.
  rewritten-IsKeyed :
      (r : Registry N C) (id : N) (f : Node N C → Node N C)
      → ((n : Node N C) → (f n).node_id ≡ n.node_id)
      → IsKeyed r
      → IsKeyedResult (or_fail (lookup id r) node_not_found >>= λ n. ok (insert id (f n) r))
  rewritten-IsKeyed r id f same v = elim (Option-cases (lookup id r)) [
    | inl missing ↦ rw missing tt
    | inr (n, known) ↦
        let own = v id n known in rw known (insert-IsKeyed r id (f n) v (same n ∙ own.0, own.1))
  ]

  merge_with-node_id :
      (old : Option (Node N C)) (n : Node N C) → (merge_with old n).node_id ≡ n.node_id
  unfolding merge_with merge_node
  merge_with-node_id none n = refl
  merge_with-node_id (some old) n = refl

  add_node-IsKeyed :
      (r : Registry N C) (node : Node N C) (certs : List C)
      → IsKeyed r
      → IsKeyedResult (add_node is_zero r node certs)
  unfolding add_node
  add_node-IsKeyed r node certs v = elim (Bool-cases (is_zero node.node_id)) [
    | inl zero ↦ rw zero tt
    | inr valid ↦
        rw valid
          (insert-IsKeyed r node.node_id _ v (merge_with-node_id (lookup node.node_id r) _, valid))
  ]

  remove_node-IsKeyed : (r : Registry N C) (id : N) → IsKeyed r → IsKeyedResult (remove_node r id)
  unfolding remove_node
  remove_node-IsKeyed r id v = elim (Bool-cases (has id r)) [
    | inr missing ↦ rw missing tt
    | inl known ↦ rw known (λ j n found. ground (arith, v j n, lookup-delete id j r))
  ]

  registry_call-IsKeyed :
      (r : Registry N C) (c : RegistryCall N C) → IsKeyed r → IsKeyed (registry_call r c)
  unfolding registry_call update_last_seen set_status set_role merge_addresses
  registry_call-IsKeyed r (adds node certs) v =
      or_old-IsKeyed r _ v (add_node-IsKeyed r node certs v)
  registry_call-IsKeyed r (deletes id) v = or_old-IsKeyed r _ v (remove_node-IsKeyed r id v)
  registry_call-IsKeyed r (updates_last_seen id at) v =
      or_old-IsKeyed r _ v (rewritten-IsKeyed r id (λ n. record n { last_seen = at }) (λ n. refl) v)
  registry_call-IsKeyed r (sets_status id status) v =
      or_old-IsKeyed r _ v
        (rewritten-IsKeyed r id (λ n. record n { connection_status = status }) (λ n. refl) v)
  registry_call-IsKeyed r (sets_role id role) v =
      or_old-IsKeyed r _ v (rewritten-IsKeyed r id (λ n. record n { role = role }) (λ n. refl) v)
  registry_call-IsKeyed r (merges_addresses id more) v = or_old-IsKeyed r _ v (
      rewritten-IsKeyed r id (λ n. record n { addresses = compact_addresses (n.addresses ++ more) })
        (λ n. refl) v)

  registry_run-IsKeyed :
      (r : Registry N C) (cs : List (RegistryCall N C)) → IsKeyed r → IsKeyed (registry_run r cs)
  unfolding registry_run
  registry_run-IsKeyed r [] v = v
  registry_run-IsKeyed r (c ∷ cs) v =
      registry_run-IsKeyed (registry_call r c) cs (registry_call-IsKeyed r c v)

  -- Whatever methods of an empty registry are called, every node stands under its own NodeID, and
  -- no node has the zero NodeID.
  pub registry_run_empty-IsKeyed : (cs : List (RegistryCall N C)) → IsKeyed (registry_run [] cs)
  unfolding lookup
  registry_run_empty-IsKeyed cs = registry_run-IsKeyed [] cs (λ id n found. cc)
