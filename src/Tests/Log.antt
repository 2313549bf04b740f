-- ===== src/Tests/Log.antt =====
-- The cluster log, on a concrete log.
use ouroboros_db.Base.{
  ℕ, ◌≤◌, nat_eq, ◌≡◌, refl, true, false, not, ◌&&◌, List, [], ◌∷◌, ◌++◌, Option, none, some, ok,
  err, eqb, insert, delete, lookup, if◌then◌else◌,
}
use ouroboros_db.Auth.Types.{Bytes}
use ouroboros_db.ClusterLog.{
  ClusterLog, new_cluster_log, LogEntry, LogLevel, level_info, level_debug, entry_of, log,
  is_expired, unexpired, cleanup, query, query_all, query_by_level, ttl_by_level, matching,
  record_entry, subscribe_log, subscribe_log_all, unsubscribe_log_all, add_subscriber,
  add_subscriber_all, remove_subscriber_all, subscribers_of,
}
use ouroboros_db.ClusterLog.Subscribers.{is_subscribed}
use ouroboros_db.ClusterLog.Pushes.{
  LogCall, subscription, logs, log_call, log_run, sent_to, log_lem,
}
use ouroboros_db.ClusterLog.Refinement.{
  subscription_run, subscribes, subscribes_all, unsubscribes_all, subscription_call,
  subscription_run-new_cluster_log,
}
use ouroboros_db.ClusterLog.Entries.{IsLive, Selects, cleanup_lem}
use ouroboros_db.ClusterLog.Sending.{log_err, with_error, send_log, not_sent}

abbrev log_entry : LogLevel → ℕ → LogEntry ℕ
log_entry level at = record {
  timestamp = at;
  node_id = 1;
  level = level;
  message = "m";
  fields = [];
}

-- Node 1's log, with the subscribers 1 and 2.
abbrev small : ClusterLog ℕ
small = record {
  self_id = 1;
  entries = log_entry level_debug 5 ∷ log_entry level_info 6 ∷ [];
  subscribers = (1, (1, tt) ∷ (2, tt) ∷ []) ∷ [];
}

abbrev marshal : List (LogEntry ℕ) → Option Bytes
marshal entries = some (7 ∷ [])

-- A day and a little more after the first entry.
abbrev later : ℕ
later = 86400000000006

cleaned : (cleanup small later).entries ≡ log_entry level_info 6 ∷ []
unfolding cleanup unexpired is_expired ttl_by_level
cleaned = refl

-- The caller's map has the error afterwards.
caller_fields :
    (log_err marshal small 9 "m" (some "broken") (some [])).2 ≡ some (("error", "broken") ∷ [])
unfolding log_err with_error insert
caller_fields = refl

nothing_to_send : send_log marshal (λ target msg. false) small 2 7 0 ≡ ok none
unfolding send_log query matching
nothing_to_send = refl

sending_fails : send_log marshal (λ target msg. false) small 2 1 0 ≡ err not_sent
unfolding send_log query matching
sending_fails = refl

-- Node 1 logs, after it has got the subscribers 1 and 2 and lost itself a third.
abbrev calls : List (LogCall ℕ)
calls =
    subscription (subscribes 1 1)
    ∷ subscription (subscribes_all (1 ∷ 3 ∷ []) 2)
    ∷ logs 5 level_debug "m" []
    ∷ subscription (subscribes 1 4)
    ∷ subscription (unsubscribes_all 4)
    ∷ logs 6 level_info "m" []
    ∷ []

abbrev logged : ClusterLog ℕ
logged = record {
  self_id = 1;
  entries = log_entry level_debug 5 ∷ log_entry level_info 6 ∷ [];
  subscribers = (1, (1, tt) ∷ (2, tt) ∷ []) ∷ (3, (2, tt) ∷ []) ∷ [];
}

reached : log_run marshal (new_cluster_log 1) calls ≡ logged
unfolding log_run log_call subscription_call subscribe_log subscribe_log_all unsubscribe_log_all
    add_subscriber add_subscriber_all remove_subscriber_all subscribers_of log record_entry
    new_cluster_log insert delete lookup
reached = refl

log_lem_example :
    ((log marshal logged 9 level_info "m" []).0.entries
      ≡ logged.entries ++ (entry_of logged 9 level_info "m" [] ∷ []))
    × (sent_to 2 (log marshal logged 9 level_info "m" []).1 ≡ (
        if is_subscribed logged 1 2 && not (eqb 2 1)
        then record { typ = 13; payload = 7 ∷ [] } ∷ []
        else []))
log_lem_example = log_lem marshal 1 calls logged 9 level_info "m" [] (7 ∷ []) 2 reached refl

cleanup_lem_example :
    Selects (IsLive later) small.entries (cleanup small later).entries
    × Selects
        (λ entry. IsLive later entry × Unit {0} × (0 ≤ entry.timestamp))
        small.entries
        (query_all (cleanup small later) 0)
    × Selects
        (λ entry. IsLive later entry × (entry.node_id ≡ 1) × (0 ≤ entry.timestamp))
        small.entries
        (query (cleanup small later) 1 0)
    × Selects
        (λ entry. IsLive later entry × (entry.level ≡ level_info) × (0 ≤ entry.timestamp))
        small.entries
        (query_by_level (cleanup small later) level_info 0)
cleanup_lem_example = cleanup_lem small later 0 1 level_info

-- Two subscriptions for all, one of which is taken back everywhere.
subscription_run-new_cluster_log_example :
    is_subscribed {N = ℕ}
      (subscription_run
        (new_cluster_log 1)
        (subscribes_all (1 ∷ 2 ∷ []) 5 ∷ subscribes 2 6 ∷ unsubscribes_all 5 ∷ []))
      2
      6
    ≡ true
subscription_run-new_cluster_log_example =
    subscription_run-new_cluster_log 1
      (subscribes_all (1 ∷ 2 ∷ []) 5 ∷ subscribes 2 6 ∷ unsubscribes_all 5 ∷ []) 2 6
