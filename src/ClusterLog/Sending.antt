-- ===== src/ClusterLog/Sending.antt =====
-- internal/logging/clusterlog: `Err` of cluster_log.go and `SendLog` of
-- cluster_log_subscribe.go.
use ouroboros_db.Base.{
  ℕ, String, string_eq, Bool, not, List, [], ◌∷◌, Option, none, some, Result, ok, ◌>>=◌, ◌>>◌,
  or_fail, fail_if, Eq, Map, insert,
}
use ouroboros_db.Auth.Types.{Bytes}
use ouroboros_db.Control.{Message}
use ouroboros_db.ClusterLog.{ClusterLog, LogEntry, level_error, log, query}

-- The map of the fields with the error's text under its key.
unfoldable pub with_error : Map String String → Option String → Map String String
with_error fields none = fields
with_error fields (some text) = insert "error" text fields

-- The map that the caller gave is written to: it is the third component. `none` is a map that is
-- nil or was left out, which stays as it is; the entry then has a map of its own.
module _ {N : Type 0} ⦃e : Eq N⦄ where
  unfoldable pub log_err :
      (List (LogEntry N) → Option Bytes)
      → ClusterLog N
      → ℕ
      → String
      → Option String
      → Option (Map String String)
      → ClusterLog N × List (N × Message) × Option (Map String String)
  log_err marshal cl now msg failure none =
      let (next, sent) = log marshal cl now level_error msg (with_error [] failure) in
      (next, sent, none)
  log_err marshal cl now msg failure (some fields) =
      let (next, sent) = log marshal cl now level_error msg (with_error fields failure) in
      (next, sent, some (with_error fields failure))

-- `MessageTypeLogSendResponse`.
abbrev message_type_log_send_response : ℕ
message_type_log_send_response = 14

pub data SendLogError : Type 0 where
  marshal_entries : SendLogError
  not_sent : SendLogError

-- The carrier's `SendMessageToNode` says whether it succeeded.
module _ {N : Type 0} ⦃e : Eq N⦄ where
  -- With the message that was handed to the carrier.
  unfoldable pub send_log :
      (List (LogEntry N) → Option Bytes)
      → (N → Message → Bool)
      → ClusterLog N
      → N
      → N
      → ℕ
      → Result SendLogError (Option Message)
  send_log marshal sends cl target source since = send_entries (query cl source since)
    where
      send_entries : List (LogEntry N) → Result SendLogError (Option Message)
      send_entries [] = ok none
      send_entries (entry ∷ rest) = do
        payload ← or_fail (marshal (entry ∷ rest)) marshal_entries
        let msg : Message = record { typ = message_type_log_send_response; payload = payload }
        fail_if (not (sends target msg)) not_sent
        ok (some msg)
