-- ===== src/ClusterLog/Sets.antt =====
-- In the sets of subscribers of a cluster log no subscriber stands twice.
use ouroboros_db.Base.{
  ◌≡◌, subst, List, [], ◌∷◌, some, some-injective, Option-cases, Bool-cases, Eq, Map, Set, lookup,
  insert, delete, eqb, length, ◌==◌, inl, inr,
}
use ouroboros_db.ClusterLog.{
  ClusterLog, subscribers_of, add_subscriber, add_subscriber_all, unsubscribe_log,
  remove_subscriber_all,
}
use ouroboros_db.ClusterLog.Refinement.{Unique, insert-Unique, delete-Unique}

module _ {N : Type 0} ⦃e : Eq N⦄ where
  -- In each set of subscribers no subscriber stands twice.
  abbrev pub AreSets : Map N (Set N) → Type 0
  AreSets [] = Unit
  AreSets ((source, subs) ∷ m) = Unique subs × AreSets m

  lookup-Unique :
      (m : Map N (Set N)) (source : N) (subs : Set N)
      → AreSets m
      → lookup source m ≡ some subs
      → Unique subs
  unfolding lookup
  lookup-Unique [] source subs u there = cc
  lookup-Unique ((s, old) ∷ m) source subs u there = elim (Bool-cases (s == source)) [
    | inl same ↦
        let found : some old ≡ some subs = rw (same, lookup) at there in
        subst Unique (some-injective found) u.0
    | inr other ↦ lookup-Unique m source subs u.1 (rw (other, lookup) at there)
  ]

  pub subscribers_of-Unique :
      (m : Map N (Set N)) (source : N) → AreSets m → Unique (subscribers_of m source)
  unfolding subscribers_of Unique
  subscribers_of-Unique m source u = elim (Option-cases (lookup source m)) [
    | inl missing ↦ rw (missing, subscribers_of) tt
    | inr (subs, there) ↦ rw (there, subscribers_of) (lookup-Unique m source subs u there)
  ]

  insert-AreSets :
      (m : Map N (Set N)) (source : N) (subs : Set N)
      → Unique subs
      → AreSets m
      → AreSets (insert source subs m)
  unfolding insert
  insert-AreSets [] source subs one u = (one, tt)
  insert-AreSets ((s, old) ∷ m) source subs one u = elim (Bool-cases (s == source)) [
    | inl same ↦ rw (same, insert) (one, u.1)
    | inr other ↦ rw (other, insert) (u.0, insert-AreSets m source subs one u.1)
  ]

  delete-AreSets : (m : Map N (Set N)) (source : N) → AreSets m → AreSets (delete source m)
  unfolding delete
  delete-AreSets [] source u = tt
  delete-AreSets ((s, old) ∷ m) source u = elim (Bool-cases (s == source)) [
    | inl same ↦ rw (same, delete) (delete-AreSets m source u.1)
    | inr other ↦ rw (other, delete) (u.0, delete-AreSets m source u.1)
  ]

  pub add-AreSets :
      (m : Map N (Set N)) (source subscriber : N)
      → AreSets m
      → AreSets (add_subscriber m source subscriber)
  unfolding add_subscriber
  add-AreSets m source subscriber u =
      insert-AreSets m source _
        (insert-Unique subscriber tt (subscribers_of m source) (subscribers_of-Unique m source u)) u

  pub add_all-AreSets :
      (m : Map N (Set N)) (nodes : List N) (subscriber : N)
      → AreSets m
      → AreSets (add_subscriber_all m nodes subscriber)
  unfolding add_subscriber_all
  add_all-AreSets m [] subscriber u = u
  add_all-AreSets m (source ∷ nodes) subscriber u =
      add_all-AreSets (add_subscriber m source subscriber) nodes subscriber
        (add-AreSets m source subscriber u)

  pub remove_all-AreSets :
      (m : Map N (Set N)) (subscriber : N)
      → AreSets m
      → AreSets (remove_subscriber_all m subscriber)
  unfolding remove_subscriber_all
  remove_all-AreSets [] subscriber u = tt
  remove_all-AreSets ((source, subs) ∷ m) subscriber u =
      elim (Bool-cases (eqb (length (delete subscriber subs)) 0)) [
        | inl empty ↦ rw (empty, remove_subscriber_all) (remove_all-AreSets m subscriber u.1)
        | inr left ↦
            rw (left, remove_subscriber_all)
              (delete-Unique subscriber subs u.0, remove_all-AreSets m subscriber u.1)
      ]

  pub unsubscribe-AreSets :
      (cl : ClusterLog N) (source subscriber : N)
      → AreSets cl.subscribers
      → AreSets (unsubscribe_log cl source subscriber).subscribers
  unfolding unsubscribe_log
  unsubscribe-AreSets cl source subscriber u = elim (Option-cases (lookup source cl.subscribers)) [
    | inl nobody ↦ rw (nobody, unsubscribe_log) u
    | inr (subs, there) ↦
        let one = lookup-Unique cl.subscribers source subs u there in
        elim (Bool-cases (eqb (length (delete subscriber subs)) 0)) [
          | inl empty ↦ rw (there, empty, unsubscribe_log) (delete-AreSets cl.subscribers source u)
          | inr left ↦
              rw (there, left, unsubscribe_log)
                (insert-AreSets cl.subscribers source _ (delete-Unique subscriber subs one) u)
        ]
  ]
