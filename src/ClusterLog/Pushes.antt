-- ===== src/ClusterLog/Pushes.antt =====
-- What is pushed when an entry is logged, and to whom.
use ouroboros_db.Base.{
  ℕ, suc, String, ◌≡◌, refl, subst, false, not, ◌&&◌, List, [], ◌∷◌, ◌++◌, Option, some, Eq, Map,
  Set, has, lookup, eqb, length, ◌==◌, arith, if◌then◌else◌,
}
use ouroboros_db.Auth.Types.{Bytes}
use ouroboros_db.Control.{Message}
use ouroboros_db.ClusterLog.{
  ClusterLog, LogEntry, LogLevel, new_cluster_log, members, subscribers_of, get_subscribers,
  push_each, push, record_entry, log, cleanup, entry_of, subscribe_log, subscribe_log_all,
  unsubscribe_log_all,
}
use ouroboros_db.ClusterLog.Subscribers.{is_subscribed}
use ouroboros_db.ClusterLog.Sets.{
  AreSets, subscribers_of-Unique, add-AreSets, add_all-AreSets, remove_all-AreSets,
  unsubscribe-AreSets,
}
use ouroboros_db.ClusterLog.Refinement.{
  SubscriptionCall, subscribes, unsubscribes, subscribes_all, unsubscribes_all, subscription_call,
  Unique,
}

-- A call of a cluster log, with the time at which it is made.
pub data LogCall (N : Type 0) : Type 0 where
  subscription : SubscriptionCall N → LogCall N
  logs : ℕ → LogLevel → String → Map String String → LogCall N
  cleans : ℕ → LogCall N

module _ {N : Type 0} ⦃e : Eq N⦄ where
  unfoldable pub log_call :
      (List (LogEntry N) → Option Bytes) → ClusterLog N → LogCall N → ClusterLog N
  log_call marshal cl (subscription c) = subscription_call cl c
  log_call marshal cl (logs now level msg fields) = (log marshal cl now level msg fields).0
  log_call marshal cl (cleans now) = cleanup cl now

  unfoldable pub log_run :
      (List (LogEntry N) → Option Bytes) → ClusterLog N → List (LogCall N) → ClusterLog N
  log_run marshal cl [] = cl
  log_run marshal cl (c ∷ cs) = log_run marshal (log_call marshal cl c) cs

  log_call-AreSets :
      (marshal : List (LogEntry N) → Option Bytes) (cl : ClusterLog N) (c : LogCall N)
      → AreSets cl.subscribers
      → AreSets (log_call marshal cl c).subscribers
  unfolding log_call subscription_call log record_entry cleanup subscribe_log subscribe_log_all
      unsubscribe_log_all
  log_call-AreSets marshal cl (logs now level msg fields) u = u
  log_call-AreSets marshal cl (cleans now) u = u
  log_call-AreSets marshal cl (subscription (subscribes source subscriber)) u =
      add-AreSets cl.subscribers source subscriber u
  log_call-AreSets marshal cl (subscription (unsubscribes source subscriber)) u =
      unsubscribe-AreSets cl source subscriber u
  log_call-AreSets marshal cl (subscription (subscribes_all nodes subscriber)) u =
      add_all-AreSets cl.subscribers nodes subscriber u
  log_call-AreSets marshal cl (subscription (unsubscribes_all subscriber)) u =
      remove_all-AreSets cl.subscribers subscriber u

  log_run-AreSets :
      (marshal : List (LogEntry N) → Option Bytes) (cl : ClusterLog N) (cs : List (LogCall N))
      → AreSets cl.subscribers
      → AreSets (log_run marshal cl cs).subscribers
  unfolding log_run
  log_run-AreSets marshal cl [] u = u
  log_run-AreSets marshal cl (c ∷ cs) u =
      log_run-AreSets marshal (log_call marshal cl c) cs (log_call-AreSets marshal cl c u)

  -- The messages that go to a node, in order.
  abbrev pub sent_to : N → List (N × Message) → List Message
  sent_to t [] = []
  sent_to t ((target, msg) ∷ rest) = if target == t then msg ∷ sent_to t rest else sent_to t rest

  push_each_lem :
      (self_id : N) (msg : Message) (subs : Set N) (t : N)
      → Unique subs
      → sent_to t (push_each self_id msg (members subs))
        ≡ (if has t subs && not (t == self_id) then msg ∷ [] else [])
  unfolding push_each members lookup Unique
  push_each_lem self_id msg [] t u = refl
  push_each_lem self_id msg ((id, held) ∷ rest) t u = ground (
    arith,
    u.0,
    push_each_lem self_id msg rest t u.1,
    e.beq_iff id t,
    e.beq_iff id self_id,
    e.beq_iff t self_id,
  )

  push_lem :
      (marshal : List (LogEntry N) → Option Bytes) (self_id : N) (subs : Set N) (entry : LogEntry N)
      (payload : Bytes) (t : N)
      → Unique subs
      → marshal (entry ∷ []) ≡ some payload
      → sent_to t (push marshal self_id (members subs) (entry ∷ [])) ≡ (
          if has t subs && not (t == self_id)
          then record { typ = 13; payload = payload } ∷ []
          else [])
  unfolding push members lookup
  push_lem marshal self_id [] entry payload t u encoded = refl
  push_lem marshal self_id ((id, held) ∷ rest) entry payload t u encoded =
      let some_target : eqb (suc (length (members rest))) 0 ≡ false = ground arith in
      rw (some_target, encoded) (push_each_lem self_id _ ((id, held) ∷ rest) t u)

  -- After any calls of a new cluster log, an entry that is logged and can be encoded is appended to
  -- the log. One message, of type 13 and with the encoding of this one entry, then goes to each
  -- node that is subscribed to the local node, and none to the local node itself or to a node that
  -- is not subscribed.
  pub log_lem :
      (marshal : List (LogEntry N) → Option Bytes) (self_id : N) (cs : List (LogCall N))
      (cl : ClusterLog N) (now : ℕ) (level : LogLevel) (msg : String) (fields : Map String String)
      (payload : Bytes) (t : N)
      → log_run marshal (new_cluster_log self_id) cs ≡ cl
      → marshal (entry_of cl now level msg fields ∷ []) ≡ some payload
      → ((log marshal cl now level msg fields).0.entries
          ≡ cl.entries ++ (entry_of cl now level msg fields ∷ []))
        × (sent_to t (log marshal cl now level msg fields).1 ≡ (
            if is_subscribed cl cl.self_id t && not (t == cl.self_id)
            then record { typ = 13; payload = payload } ∷ []
            else []))
  unfolding log record_entry get_subscribers new_cluster_log
  log_lem marshal self_id cs cl now level msg fields payload t reached encoded =
      let sets : AreSets cl.subscribers =
        subst (λ (l : ClusterLog N). AreSets l.subscribers) reached
          (log_run-AreSets marshal (new_cluster_log self_id) cs tt) in
      (
        refl,
        push_lem marshal cl.self_id (subscribers_of cl.subscribers cl.self_id)
            (entry_of cl now level msg fields) payload t
            (subscribers_of-Unique cl.subscribers cl.self_id sets) encoded,
      )
