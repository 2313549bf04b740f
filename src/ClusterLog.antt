-- ===== src/ClusterLog.antt =====
-- internal/logging: the log of a node, its queries and its subscribers. A time is a number of
-- nanoseconds, given as an argument where the code reads the clock; `N` is `keys.NodeID`. The
-- messages that are sent are part of a method's result, and the encoder is an argument, `none`
-- being its error. Output to slog is left out.
pub mod Subscribers
pub mod Refinement
pub mod Entries
pub mod Sets
pub mod Pushes
pub mod Sending
use ouroboros_db.Base.{
  ℕ, ◌+◌, ◌-◌, ◌*◌, String, string_eq, Bool, true, false, not, ◌&&◌, ◌||◌, List, [], ◌∷◌, ◌++◌,
  Option, none, some, Eq, Map, Set, has, lookup, insert, delete, eqb, ltb, length, drop, ◌==◌,
  if◌then◌else◌,
}
use ouroboros_db.Auth.Types.{Bytes}
use ouroboros_db.Control.{Message}

-- The four named levels, and any other value of the integer type.
pub data LogLevel : Type 0 where
  level_debug level_info level_warn level_error : LogLevel
  level_other : ℕ → LogLevel

abbrev pub level_beq : LogLevel → LogLevel → Bool
level_beq level_debug level_debug = true
level_beq level_info level_info = true
level_beq level_warn level_warn = true
level_beq level_error level_error = true
level_beq (level_other a) (level_other b) = eqb a b
level_beq level_debug l = false
level_beq level_info l = false
level_beq level_warn l = false
level_beq level_error l = false
level_beq (level_other a) l = false

pub record LogEntry (N : Type 0) : Type 0 where
  pub timestamp : ℕ
  pub node_id : N
  pub level : LogLevel
  pub message : String
  pub fields : Map String String

abbrev pub hour : ℕ
hour = 3600000000000

-- `ttlByLevel`, and for a level that it lacks the one of `LogLevelInfo`.
unfoldable pub ttl_by_level : LogLevel → ℕ
ttl_by_level level_debug = 24 * hour
ttl_by_level level_info = 72 * hour
ttl_by_level level_warn = 72 * hour
ttl_by_level level_error = 120 * hour
ttl_by_level (level_other n) = 72 * hour

unfoldable pub is_expired : {N : Type 0} → LogEntry N → ℕ → Bool
is_expired entry now = ltb (entry.timestamp + ttl_by_level entry.level) now

pub record ClusterLog (N : Type 0) : Type 0 where
  pub self_id : N
  pub entries : List (LogEntry N)
  pub subscribers : Map N (Set N)

-- `MessageTypeLogPush`.
abbrev pub message_type_log_push : ℕ
message_type_log_push = 13

unfoldable pub new_cluster_log : {N : Type 0} → N → ClusterLog N
new_cluster_log self_id = record { self_id = self_id; entries = []; subscribers = [] }

-- The keys of a set, in its order.
unfoldable pub members : {N : Type 0} → Set N → List N
members [] = []
members ((id, u) ∷ rest) = id ∷ members rest

-- The loop of `cleanup`.
unfoldable pub unexpired : {N : Type 0} → ℕ → List (LogEntry N) → List (LogEntry N)
unexpired now [] = []
unexpired now (entry ∷ rest) =
    let kept = unexpired now rest in if not (is_expired entry now) then entry ∷ kept else kept

module _ {N : Type 0} where
  unfoldable pub cleanup : ClusterLog N → ℕ → ClusterLog N
  cleanup cl now = record cl { entries = unexpired now cl.entries }

  -- A limit that is negative in Go is 0 here.
  unfoldable pub tail : ClusterLog N → ℕ → List (LogEntry N)
  tail cl limit =
      let n = length cl.entries in
      if eqb limit 0 || ltb n limit then cl.entries else drop (n - limit) cl.entries

  -- The loop of the queries, with the test that each makes.
  unfoldable pub matching : (LogEntry N → Bool) → ℕ → List (LogEntry N) → List (LogEntry N)
  matching test since [] = []
  matching test since (entry ∷ rest) =
      let out = matching test since rest in
      if test entry && not (ltb entry.timestamp since) then entry ∷ out else out

  unfoldable pub query : ⦃e : Eq N⦄ → ClusterLog N → N → ℕ → List (LogEntry N)
  query cl node_id since = matching (λ entry. entry.node_id == node_id) since cl.entries

  unfoldable pub query_all : ClusterLog N → ℕ → List (LogEntry N)
  query_all cl since = matching (λ entry. true) since cl.entries

  unfoldable pub query_by_level : ClusterLog N → LogLevel → ℕ → List (LogEntry N)
  query_by_level cl level since = matching (λ entry. level_beq entry.level level) since cl.entries

-- The entry that `Log` makes.
abbrev pub entry_of :
    {N : Type 0} → ClusterLog N → ℕ → LogLevel → String → Map String String → LogEntry N
entry_of cl now level msg fields = record {
  timestamp = now;
  node_id = cl.self_id;
  level = level;
  message = msg;
  fields = fields;
}

module _ {N : Type 0} ⦃e : Eq N⦄ where
  -- A missing key reads as the nil map, which has no members.
  unfoldable pub subscribers_of : Map N (Set N) → N → Set N
  subscribers_of subscribers source = elim (lookup source subscribers) [
    | none ↦ []
    | some subs ↦ subs
  ]

  unfoldable pub get_subscribers : ClusterLog N → N → List N
  get_subscribers cl source = members (subscribers_of cl.subscribers source)

  -- The loop of `push`.
  unfoldable pub push_each : N → Message → List N → List (N × Message)
  push_each self_id msg [] = []
  push_each self_id msg (target ∷ rest) =
      let sent = push_each self_id msg rest in
      if target == self_id then sent else (target, msg) ∷ sent

  unfoldable pub push :
      (List (LogEntry N) → Option Bytes) → N → List N → List (LogEntry N) → List (N × Message)
  push marshal self_id targets entries =
      if eqb (length targets) 0 || eqb (length entries) 0 then [] else elim (marshal entries) [
        | none ↦ []
        | some payload ↦
            push_each self_id (record { typ = message_type_log_push; payload = payload }) targets
      ]

  unfoldable pub record_entry :
      (List (LogEntry N) → Option Bytes)
      → ClusterLog N
      → LogEntry N
      → ClusterLog N × List (N × Message)
  record_entry marshal cl entry =
      let subs = get_subscribers cl cl.self_id in
      (
        record cl { entries = cl.entries ++ (entry ∷ []) },
        push marshal cl.self_id subs (entry ∷ []),
      )

  -- `Log`; `Info`, `Warn` and `Debug` are it at their level.
  unfoldable pub log :
      (List (LogEntry N) → Option Bytes)
      → ClusterLog N
      → ℕ
      → LogLevel
      → String
      → Map String String
      → ClusterLog N × List (N × Message)
  log marshal cl now level msg fields = record_entry marshal cl (entry_of cl now level msg fields)

  unfoldable pub add_subscriber : Map N (Set N) → N → N → Map N (Set N)
  add_subscriber subscribers source subscriber =
      insert source (insert subscriber tt (subscribers_of subscribers source)) subscribers

  unfoldable pub subscribe_log : ClusterLog N → N → N → ClusterLog N
  subscribe_log cl source subscriber = record cl {
    subscribers = add_subscriber cl.subscribers source subscriber;
  }

  -- The loop of `SubscribeLogAll`, over the carrier's nodes.
  unfoldable pub add_subscriber_all : Map N (Set N) → List N → N → Map N (Set N)
  add_subscriber_all subscribers [] subscriber = subscribers
  add_subscriber_all subscribers (source ∷ rest) subscriber =
      add_subscriber_all (add_subscriber subscribers source subscriber) rest subscriber

  unfoldable pub subscribe_log_all : ClusterLog N → List N → N → ClusterLog N
  subscribe_log_all cl nodes subscriber = record cl {
    subscribers = add_subscriber_all cl.subscribers nodes subscriber;
  }

  unfoldable pub unsubscribe_log : ClusterLog N → N → N → ClusterLog N
  unsubscribe_log cl source subscriber = elim (lookup source cl.subscribers) [
    | none ↦ cl
    | some subs ↦
        let left = delete subscriber subs in
        if eqb (length left) 0
        then record cl { subscribers = delete source cl.subscribers }
        else record cl { subscribers = insert source left cl.subscribers }
  ]

  -- The loop of `UnsubscribeLogAll`.
  unfoldable pub remove_subscriber_all : Map N (Set N) → N → Map N (Set N)
  remove_subscriber_all [] subscriber = []
  remove_subscriber_all ((source, subs) ∷ rest) subscriber =
      let left = delete subscriber subs in
      let others = remove_subscriber_all rest subscriber in
      if eqb (length left) 0 then others else (source, left) ∷ others

  unfoldable pub unsubscribe_log_all : ClusterLog N → N → ClusterLog N
  unsubscribe_log_all cl subscriber = record cl {
    subscribers = remove_subscriber_all cl.subscribers subscriber;
  }
