-- ===== src/ClusterLog/Subscribers.antt =====
-- Who is subscribed to the entries of a node.
use ouroboros_db.Base.{
  ◌≡◌, refl, Bool, true, false, ◌&&◌, [], ◌∷◌, none, Option-cases, Eq, Map, has, lookup, insert,
  delete, lookup-insert, lookup-delete, eqb, length, ◌==◌, inl, inr, arith, if◌then◌else◌,
}
use ouroboros_db.ClusterLog.{
  ClusterLog, subscribers_of, add_subscriber, subscribe_log, unsubscribe_log,
}

module _ {N : Type 0} ⦃e : Eq N⦄ where
  abbrev pub is_subscribed : ClusterLog N → N → N → Bool
  is_subscribed cl source subscriber = has subscriber (subscribers_of cl.subscribers source)

  -- Subscribing makes exactly the pair of source and subscriber subscribed.
  pub subscribe_log_lem :
      (cl : ClusterLog N) (source subscriber s t : N)
      → is_subscribed (subscribe_log cl source subscriber) s t
        ≡ (if source == s && subscriber == t then true else is_subscribed cl s t)
  unfolding subscribe_log add_subscriber subscribers_of
  subscribe_log_lem cl source subscriber s t = ground (
    arith,
    e.beq_iff source s,
    lookup-insert source s (insert subscriber tt (subscribers_of cl.subscribers source))
        cl.subscribers,
    lookup-insert subscriber t tt (subscribers_of cl.subscribers source),
  )

  pub empty_lookup :
      {V : Type 0} (m : Map N V) (t : N) → eqb (length m) 0 ≡ true → lookup t m ≡ none
  unfolding lookup
  empty_lookup [] t h = refl
  empty_lookup (x ∷ m) t h = absurd (ground arith)

  -- Unsubscribing makes exactly the pair of source and subscriber unsubscribed.
  pub unsubscribe_log_lem :
      (cl : ClusterLog N) (source subscriber s t : N)
      → is_subscribed (unsubscribe_log cl source subscriber) s t
        ≡ (if source == s && subscriber == t then false else is_subscribed cl s t)
  unfolding unsubscribe_log subscribers_of lookup
  unsubscribe_log_lem cl source subscriber s t =
      elim (Option-cases (lookup source cl.subscribers)) [
        | inl nobody ↦ ground (arith, e.beq_iff source s)
        | inr (subs, there) ↦ ground (
          arith,
          e.beq_iff source s,
          lookup-insert source s (delete subscriber subs) cl.subscribers,
          lookup-delete source s cl.subscribers,
          lookup-delete subscriber t subs,
          empty_lookup (delete subscriber subs) t,
        )
      ]
