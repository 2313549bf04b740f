-- ===== src/Transport/Heartbeat/Discovery.antt =====
-- What merging the nodes of a heartbeat adds to the registry, and what it leaves alone.
use ouroboros_db.Base.{
  string_eq, nat_eq, ◌≡◌, refl, sym, ap, ◌∙◌, subst, Bool, true, false, not, ◌&&◌, ◌||◌, List, [],
  ◌∷◌, Option, none, some, ok, Eq, ◌==◌, has, lookup, insert, lookup-insert, lookup-insert_cases,
  All, All-append, All-map, arith, Option-cases, Bool-cases, inl, inr, if◌then◌else◌,
}
use ouroboros_db.Transport.Registry.{
  Node, Registry, RegistryError, disconnected, add_node, merge_with,
}
use ouroboros_db.Transport.Registry.Nodes.{IsKeyed}
use ouroboros_db.Transport.Heartbeat.{
  HeartbeatNodeEntry, new_node, told, merge_entry, merge_heartbeat_nodes,
}
use ouroboros_db.Transport.Heartbeat.Known.{
  Knows, Knows-refl, Knows-trans, stored, told-node_id, told-Knows,
}

module _ {N : Type 0} ⦃e : Eq N⦄ (is_zero : N → Bool) (self_id : N) where
  -- An entry that is not passed over: neither zero nor the node itself.
  abbrev pub is_foreign : N → Bool
  is_foreign id = not (is_zero id || (id == self_id))

  -- Some entry that is not passed over tells of the NodeID.
  abbrev pub mentions : N → List (HeartbeatNodeEntry N) → Bool
  mentions id [] = false
  mentions id (entry ∷ entries) =
      if (entry.node_id == id) && is_foreign entry.node_id then true else mentions id entries

module _ {N C : Type 0} ⦃e : Eq N⦄ (is_zero : N → Bool) (self_id : N) where
  -- A node that the registry did not know.
  abbrev pub IsNew : Registry N C → Node N C → Type 0
  IsNew r n =
      (has n.node_id r ≡ false)
      × (is_foreign is_zero self_id n.node_id ≡ true)
      × (n.connection_status ≡ disconnected)

  -- What one entry does to the registry.
  record Merges (r : Registry N C) (entry : HeartbeatNodeEntry N) : Type 0 where
    pub next : Registry N C
    pub found : List (Node N C)
    pub merged : merge_entry is_zero self_id r entry ≡ ok (next, found)
    pub keyed : IsKeyed is_zero next
    pub known_after :
        (id : N)
        → has id next ≡ (
            if (entry.node_id == id) && is_foreign is_zero self_id entry.node_id
            then true
            else has id r)
    pub all_new : All (IsNew r) found
    pub kept :
        (id : N) (old : Node N C)
        → lookup id r ≡ some old
        → (new : Node N C) × (lookup id next ≡ some new) × Knows old new

  insert-IsKeyed :
      (r : Registry N C) (id : N) (n : Node N C)
      → IsKeyed is_zero r
      → n.node_id ≡ id
      → is_zero id ≡ false
      → IsKeyed is_zero (insert id n r)
  insert-IsKeyed r id n keyed same valid j m found = elim (lookup-insert_cases id j n m r found) [
    | inr old ↦ keyed j m old
    | inl (here, new) ↦ (
      ap (λ (x : Node N C). x.node_id) (sym new) ∙ same ∙ here,
      subst (λ x. is_zero x ≡ false) here valid,
    )
  ]

  merge_unknown :
      (r : Registry N C) (entry : HeartbeatNodeEntry N)
      → IsKeyed is_zero r
      → (is_zero entry.node_id || (entry.node_id == self_id)) ≡ false
      → lookup entry.node_id r ≡ none
      → Merges r entry
  unfolding merge_entry add_node merge_with new_node
  merge_unknown r entry keyed foreign unknown =
      let valid : is_zero entry.node_id ≡ false = ground (arith, foreign) in
      record {
        next = insert entry.node_id (new_node entry) r;
        found = new_node entry ∷ [];
        merged = rw (foreign, unknown, valid, unknown) refl;
        keyed = insert-IsKeyed r entry.node_id (new_node entry) keyed refl valid;
        known_after = λ id.
            ground (arith, foreign, lookup-insert entry.node_id id (new_node {C = C} entry) r);
        all_new = ((ground (arith, unknown), ground (arith, foreign), refl), tt);
        kept = λ id old there. (
          old,
          ground (
            arith,
            there,
            unknown,
            e.beq_iff entry.node_id id,
            lookup-insert entry.node_id id (new_node {C = C} entry) r,
          ),
          Knows-refl old,
        );
      }

  merge_known :
      (r : Registry N C) (entry : HeartbeatNodeEntry N) (node : Node N C)
      → IsKeyed is_zero r
      → (is_zero entry.node_id || (entry.node_id == self_id)) ≡ false
      → lookup entry.node_id r ≡ some node
      → Merges r entry
  unfolding merge_entry add_node merge_with told
  merge_known r entry node keyed foreign known =
      let valid : is_zero entry.node_id ≡ false = ground (arith, foreign) in
      let same : node.node_id ≡ entry.node_id = (keyed entry.node_id node known).0 in
      let there : lookup node.node_id r ≡ some node = ap (λ id. lookup id r) same ∙ known in
      let new = stored node entry in
      record {
        next = insert node.node_id new r;
        found = [];
        merged = rw (foreign, known, ap is_zero same ∙ valid, there) refl;
        keyed =
            insert-IsKeyed r node.node_id new keyed (told-node_id node entry)
              (ap is_zero same ∙ valid);
        known_after = λ id. ground (
          arith,
          foreign,
          known,
          same,
          e.beq_iff entry.node_id id,
          e.beq_iff node.node_id id,
          lookup-insert node.node_id id new r,
        );
        all_new = tt;
        kept = λ id old found. elim (Bool-cases (node.node_id == id)) [
          | inr other ↦ (
            old,
            ground (arith, other, found, lookup-insert node.node_id id new r),
            Knows-refl old,
          )
          | inl here ↦ (
            new,
            ground (arith, here, lookup-insert node.node_id id new r),
            subst (λ n. Knows n new) (same_node id old here there found) (told-Knows node entry),
          )
        ];
      }
    where
      same_node :
          (id : N) (old : Node N C)
          → (node.node_id == id) ≡ true
          → lookup node.node_id r ≡ some node
          → lookup id r ≡ some old
          → node ≡ old
      same_node id old here there found =
          let moved : lookup id r ≡ some node =
            subst (λ i. lookup i r ≡ some node) ((e.beq_iff node.node_id id).0 here) there in
          cc (moved, found)

  merge_entry-Merges :
      (r : Registry N C) (entry : HeartbeatNodeEntry N) → IsKeyed is_zero r → Merges r entry
  unfolding merge_entry
  merge_entry-Merges r entry keyed =
      elim (Bool-cases (is_zero entry.node_id || (entry.node_id == self_id))) [
        | inl passed ↦ record {
          next = r;
          found = [];
          merged = rw (passed, merge_entry) refl;
          keyed = keyed;
          known_after = λ id. ground (arith, passed);
          all_new = tt;
          kept = λ id old there. (old, there, Knows-refl old);
        }
        | inr foreign ↦ elim (Option-cases (lookup entry.node_id r)) [
          | inl unknown ↦ merge_unknown r entry keyed foreign unknown
          | inr (node, known) ↦ merge_known r entry node keyed foreign known
        ]
      ]

  -- What the merging of a heartbeat's nodes into a registry comes to.
  pub record MergesAll (r : Registry N C) (entries : List (HeartbeatNodeEntry N))
      (last : Registry N C) (discovered : List (Node N C)) (failed : Option RegistryError)
      : Type 0 where
    pub no_error : failed ≡ none
    pub keyed : IsKeyed is_zero last
    pub known_after :
        (id : N) → has id last ≡ (if mentions is_zero self_id id entries then true else has id r)
    pub all_new : All (IsNew r) discovered
    pub kept :
        (id : N) (old : Node N C)
        → lookup id r ≡ some old
        → (new : Node N C) × (lookup id last ≡ some new) × Knows old new

  -- Merging the nodes of a heartbeat into a registry whose nodes stand under their own NodeIDs
  -- never fails, and keeps them so. Afterwards exactly the nodes are known that were known or are
  -- mentioned, but for the zero NodeID and the node itself. Every discovered node was unknown and
  -- counts as disconnected, and a known node keeps its addresses, certificates, last sighting and
  -- status.
  pub merge_heartbeat_nodes-MergesAll :
      (r : Registry N C) (entries : List (HeartbeatNodeEntry N))
      → IsKeyed is_zero r
      → MergesAll r entries
          (merge_heartbeat_nodes is_zero self_id r entries).0
          (merge_heartbeat_nodes is_zero self_id r entries).1
          (merge_heartbeat_nodes is_zero self_id r entries).2
  unfolding merge_heartbeat_nodes
  merge_heartbeat_nodes-MergesAll r [] keyed = record {
    no_error = refl;
    keyed = keyed;
    known_after = λ id. refl;
    all_new = tt;
    kept = λ id old there. (old, there, Knows-refl old);
  }
  merge_heartbeat_nodes-MergesAll r (entry ∷ entries) keyed =
      let s = merge_entry-Merges r entry keyed in
      let rest = merge_heartbeat_nodes-MergesAll s.next entries s.keyed in
      rw (s.merged, merge_heartbeat_nodes)
        (record {
          no_error = rest.no_error;
          keyed = rest.keyed;
          known_after = λ id. ground (arith, rest.known_after id, s.known_after id);
          all_new = All-append (IsNew r) s.found _ s.all_new (
              All-map (IsNew s.next) (IsNew r) _
                (λ n w. (ground (arith, w.0, s.known_after n.node_id), w.1, w.2)) rest.all_new);
          kept = λ id old there.
              let (mid, found, knows) = s.kept id old there in
              let (new, last, later) = rest.kept id mid found in
              (new, last, Knows-trans old mid new knows later);
        })
