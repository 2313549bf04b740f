-- ===== src/ClusterLog/Refinement.antt =====
-- The subscriptions of a cluster log refine a relation between sources and subscribers.
use ouroboros_db.Base.{
  ◌≡◌, refl, Bool, true, false, ◌&&◌, List, [], ◌∷◌, none, Option-cases, Bool-cases, Eq, ◌==◌, Map,
  Set, has, lookup, insert, delete, lookup-insert, lookup-delete, eqb, length, inl, inr, arith,
  if◌then◌else◌,
}
use ouroboros_db.ClusterLog.{
  ClusterLog, new_cluster_log, subscribers_of, add_subscriber, subscribe_log, add_subscriber_all,
  subscribe_log_all, unsubscribe_log, remove_subscriber_all, unsubscribe_log_all,
}
use ouroboros_db.ClusterLog.Subscribers.{
  is_subscribed, subscribe_log_lem, unsubscribe_log_lem, empty_lookup,
}

-- A call that changes the subscriptions; of `SubscribeLogAll`, with the carrier's nodes.
pub data SubscriptionCall (N : Type 0) : Type 0 where
  subscribes unsubscribes : N → N → SubscriptionCall N
  subscribes_all : List N → N → SubscriptionCall N
  unsubscribes_all : N → SubscriptionCall N

module _ {N : Type 0} ⦃e : Eq N⦄ where
  unfoldable pub subscription_call : ClusterLog N → SubscriptionCall N → ClusterLog N
  subscription_call cl (subscribes source subscriber) = subscribe_log cl source subscriber
  subscription_call cl (unsubscribes source subscriber) = unsubscribe_log cl source subscriber
  subscription_call cl (subscribes_all nodes subscriber) = subscribe_log_all cl nodes subscriber
  subscription_call cl (unsubscribes_all subscriber) = unsubscribe_log_all cl subscriber

  unfoldable pub subscription_run : ClusterLog N → List (SubscriptionCall N) → ClusterLog N
  subscription_run cl [] = cl
  subscription_run cl (c ∷ cs) = subscription_run (subscription_call cl c) cs

  abbrev pub among : N → List N → Bool
  among s [] = false
  among s (x ∷ xs) = if x == s then true else among s xs

  -- The specification: what a call does to the relation.
  abbrev pub relation_call : (N → N → Bool) → SubscriptionCall N → N → N → Bool
  relation_call related (subscribes source subscriber) s t =
      if source == s && subscriber == t then true else related s t
  relation_call related (unsubscribes source subscriber) s t =
      if source == s && subscriber == t then false else related s t
  relation_call related (subscribes_all nodes subscriber) s t =
      if among s nodes && subscriber == t then true else related s t
  relation_call related (unsubscribes_all subscriber) s t =
      if subscriber == t then false else related s t

  abbrev pub relation_run : (N → N → Bool) → List (SubscriptionCall N) → N → N → Bool
  relation_run related [] = related
  relation_run related (c ∷ cs) = relation_run (relation_call related c) cs

  -- No key stands twice.
  unfoldable pub Unique : {V : Type 0} → Map N V → Type 0
  Unique [] = Unit
  Unique ((k, v) ∷ m) = (has k m ≡ false) × Unique m

  pub insert-Unique : {V : Type 0} (k : N) (v : V) (m : Map N V) → Unique m → Unique (insert k v m)
  unfolding Unique insert lookup
  insert-Unique k v [] u = (refl, tt)
  insert-Unique k v ((j, w) ∷ m) u = elim (Bool-cases (j == k)) [
    | inl same ↦ rw same u
    | inr other ↦ rw other (
      ground (arith, u.0, other, lookup-insert k j v m, e.beq_iff k j, e.beq_iff j k),
      insert-Unique k v m u.1,
    )
  ]

  pub delete-Unique : {V : Type 0} (k : N) (m : Map N V) → Unique m → Unique (delete k m)
  unfolding Unique delete
  delete-Unique k [] u = tt
  delete-Unique k ((j, w) ∷ m) u = elim (Bool-cases (j == k)) [
    | inl same ↦ rw same (delete-Unique k m u.1)
    | inr other ↦ rw other (ground (arith, u.0, lookup-delete k j m), delete-Unique k m u.1)
  ]

  remove_all-missing :
      (m : Map N (Set N)) (subscriber s : N)
      → lookup s m ≡ none
      → lookup s (remove_subscriber_all m subscriber) ≡ none
  unfolding remove_subscriber_all lookup
  remove_all-missing [] subscriber s h = refl
  remove_all-missing ((source, subs) ∷ m) subscriber s h =
      ground (arith, h, remove_all-missing m subscriber s)

  remove_all-Unique :
      (m : Map N (Set N)) (subscriber : N) → Unique m → Unique (remove_subscriber_all m subscriber)
  unfolding Unique remove_subscriber_all
  remove_all-Unique [] subscriber u = tt
  remove_all-Unique ((source, subs) ∷ m) subscriber u =
      elim (Bool-cases (eqb (length (delete subscriber subs)) 0)) [
        | inl empty ↦ rw empty (remove_all-Unique m subscriber u.1)
        | inr left ↦ rw left (
          ground (arith, u.0, remove_all-missing m subscriber source),
          remove_all-Unique m subscriber u.1,
        )
      ]

  -- Everywhere the subscriber is gone, and nobody else is.
  remove_all_lem :
      (m : Map N (Set N)) (subscriber s t : N)
      → Unique m
      → has t (subscribers_of (remove_subscriber_all m subscriber) s)
        ≡ (if subscriber == t then false else has t (subscribers_of m s))
  unfolding Unique remove_subscriber_all subscribers_of lookup
  remove_all_lem [] subscriber s t u = ground arith
  remove_all_lem ((source, subs) ∷ m) subscriber s t u = ground (
    arith,
    u.0,
    remove_all_lem m subscriber s t u.1,
    remove_all-missing m subscriber s,
    e.beq_iff source s,
    lookup-delete subscriber t subs,
    empty_lookup (delete subscriber subs) t,
  )

  add_all_lem :
      (m : Map N (Set N)) (nodes : List N) (subscriber s t : N)
      → has t (subscribers_of (add_subscriber_all m nodes subscriber) s)
        ≡ (if among s nodes && subscriber == t then true else has t (subscribers_of m s))
  unfolding add_subscriber_all add_subscriber subscribers_of
  add_all_lem m [] subscriber s t = refl
  add_all_lem m (source ∷ nodes) subscriber s t = ground (
    arith,
    add_all_lem (add_subscriber m source subscriber) nodes subscriber s t,
    e.beq_iff source s,
    lookup-insert source s (insert subscriber tt (subscribers_of m source)) m,
    lookup-insert subscriber t tt (subscribers_of m source),
  )

  add_all-Unique :
      (m : Map N (Set N)) (nodes : List N) (subscriber : N)
      → Unique m
      → Unique (add_subscriber_all m nodes subscriber)
  unfolding add_subscriber_all add_subscriber
  add_all-Unique m [] subscriber u = u
  add_all-Unique m (source ∷ nodes) subscriber u =
      add_all-Unique (insert source (insert subscriber tt (subscribers_of m source)) m) nodes
        subscriber (insert-Unique source _ m u)

  subscription_call-Unique :
      (cl : ClusterLog N) (c : SubscriptionCall N)
      → Unique cl.subscribers
      → Unique (subscription_call cl c).subscribers
  unfolding subscription_call subscribe_log add_subscriber unsubscribe_log subscribe_log_all
      unsubscribe_log_all
  subscription_call-Unique cl (subscribes source subscriber) u =
      insert-Unique source _ cl.subscribers u
  subscription_call-Unique cl (subscribes_all nodes subscriber) u =
      add_all-Unique cl.subscribers nodes subscriber u
  subscription_call-Unique cl (unsubscribes_all subscriber) u =
      remove_all-Unique cl.subscribers subscriber u
  subscription_call-Unique cl (unsubscribes source subscriber) u =
      elim (Option-cases (lookup source cl.subscribers)) [
        | inl nobody ↦ rw (nobody, unsubscribe_log) u
        | inr (subs, there) ↦ elim (Bool-cases (eqb (length (delete subscriber subs)) 0)) [
          | inl empty ↦ rw (there, empty, unsubscribe_log) (delete-Unique source cl.subscribers u)
          | inr left ↦ rw (there, left, unsubscribe_log) (insert-Unique source _ cl.subscribers u)
        ]
      ]

  subscription_call_lem :
      (cl : ClusterLog N) (c : SubscriptionCall N) (related : N → N → Bool)
      → Unique cl.subscribers
      → ((s t : N) → is_subscribed cl s t ≡ related s t)
      → (s t : N) → is_subscribed (subscription_call cl c) s t ≡ relation_call related c s t
  unfolding subscription_call subscribe_log_all unsubscribe_log_all
  subscription_call_lem cl (subscribes source subscriber) related u same s t =
      ground (arith, subscribe_log_lem cl source subscriber s t, same s t)
  subscription_call_lem cl (unsubscribes source subscriber) related u same s t =
      ground (arith, unsubscribe_log_lem cl source subscriber s t, same s t)
  subscription_call_lem cl (subscribes_all nodes subscriber) related u same s t =
      ground (arith, add_all_lem cl.subscribers nodes subscriber s t, same s t)
  subscription_call_lem cl (unsubscribes_all subscriber) related u same s t =
      ground (arith, remove_all_lem cl.subscribers subscriber s t u, same s t)

  subscription_run_lem :
      (cl : ClusterLog N) (cs : List (SubscriptionCall N)) (related : N → N → Bool)
      → Unique cl.subscribers
      → ((s t : N) → is_subscribed cl s t ≡ related s t)
      → (s t : N) → is_subscribed (subscription_run cl cs) s t ≡ relation_run related cs s t
  unfolding subscription_run
  subscription_run_lem cl [] related u same s t = same s t
  subscription_run_lem cl (c ∷ cs) related u same s t =
      subscription_run_lem (subscription_call cl c) cs (relation_call related c)
        (subscription_call-Unique cl c u) (subscription_call_lem cl c related u same) s t

  -- After any calls of a new cluster log, a subscriber is subscribed to a source exactly when the
  -- relation that starts empty and gains and loses pairs by the same calls holds of the two.
  pub subscription_run-new_cluster_log :
      (self_id : N) (cs : List (SubscriptionCall N)) (s t : N)
      → is_subscribed (subscription_run (new_cluster_log self_id) cs) s t
        ≡ relation_run (λ x y. false) cs s t
  unfolding new_cluster_log subscribers_of lookup Unique
  subscription_run-new_cluster_log self_id cs s t =
      subscription_run_lem (new_cluster_log self_id) cs (λ x y. false) tt (λ x y. refl) s t
