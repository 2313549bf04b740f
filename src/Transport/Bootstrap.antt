-- ===== src/Transport/Bootstrap.antt =====
-- internal/transport/bootstrap.go, and the offline state of carrier.go. What the network does may
-- change from dial to dial: the dials of a run are numbered, and each has its network and its
-- moment. A cancelled context is an argument: the attempts before which it is found cancelled.
pub mod Rounds
use ouroboros_db.Base.{
  ℕ, zero, suc, ◌+◌, ◌*◌, String, Bool, true, false, not, ◌&&◌, List, [], ◌∷◌, Option, none, some,
  is_some, Result, ok, err, Eq, eqb, ltb, length, ℤ, pos, negsuc, if◌then◌else◌,
}
use ouroboros_db.Auth.Types.{Keys}
use ouroboros_db.Transport.Carrier.{Carrier}
use ouroboros_db.Transport.Handshake.{AuthCodec}
use ouroboros_db.Transport.Connect.{Cert, Network, AuthConfig, Moment, dial_bootstrap_addr}

pub data NodeStatus : Type 0 where
  online offline : NodeStatus

abbrev pub default_bootstrap_max_retries : ℕ
default_bootstrap_max_retries = 4

-- `bootstrapMaxRetries`; the configured number is an int.
unfoldable pub bootstrap_max_retries : ℤ → ℕ
bootstrap_max_retries (pos zero) = default_bootstrap_max_retries
bootstrap_max_retries (pos (suc n)) = suc n
bootstrap_max_retries (negsuc n) = default_bootstrap_max_retries

-- The carrier with its status, and the number of dials that were made.
pub record NodeState (P N K M F : Type 0) : Type 0 where
  pub carrier : Carrier N (Cert P N) K M F
  pub status : NodeStatus
  pub dials : ℕ

pub data ReconnectError : Type 0 where
  no_bootstrap_addresses bootstrap_failed : ReconnectError

module _ {P N H K M F : Type 0} ⦃e : Eq N⦄ (k : Keys P N) (is_zero : N → Bool) (proto : AuthCodec)
    (cfg : AuthConfig P N H) (world : ℕ → Network K × Moment) where
  -- One dial, and whether it succeeded.
  unfoldable pub dial_one : NodeState P N K M F → String → NodeState P N K M F × Bool
  dial_one n addr =
      let (net, now) = world n.dials in
      let (carrier, failed) = dial_bootstrap_addr k is_zero proto net cfg now n.carrier addr in
      (record n { carrier = carrier; dials = suc n.dials }, not (is_some failed))

  -- With the count of the successes.
  unfoldable pub dial_bootstrap_all : NodeState P N K M F → List String → NodeState P N K M F × ℕ
  dial_bootstrap_all n [] = (n, 0)
  dial_bootstrap_all n (addr ∷ addrs) =
      let (m, connected) = dial_one n addr in
      let (last, others) = dial_bootstrap_all m addrs in
      (last, if connected then suc others else others)

  -- The attempts from number `attempt` on, of which `left` remain.
  unfoldable pub bootstrap_attempts :
      (ℕ → Bool) → List String → ℕ → ℕ → NodeState P N K M F → NodeState P N K M F × Bool
  bootstrap_attempts cancelled addrs attempt zero n = (record n { status = offline }, false)
  bootstrap_attempts cancelled addrs attempt (suc left) n =
      let (m, connected) = dial_bootstrap_all n addrs in
      let rest = bootstrap_attempts cancelled addrs (suc attempt) left m in
      if ltb 0 attempt && cancelled attempt
      then (n, false)
      else if ltb 0 connected
      then (m, true)
      else rest

  unfoldable pub attempt_bootstrap :
      (ℕ → Bool) → ℤ → List String → NodeState P N K M F → NodeState P N K M F × Bool
  attempt_bootstrap cancelled max_retries addrs n =
      bootstrap_attempts cancelled addrs 0 (suc (bootstrap_max_retries max_retries)) n

  unfoldable pub run_bootstrap_loop :
      (ℕ → Bool) → ℤ → List String → NodeState P N K M F → NodeState P N K M F
  run_bootstrap_loop cancelled max_retries addrs n =
      if eqb (length addrs) 0 then n else (attempt_bootstrap cancelled max_retries addrs n).0

  unfoldable pub reconnect :
      (ℕ → Bool)
      → ℤ
      → List String
      → NodeState P N K M F
      → NodeState P N K M F × Option ReconnectError
  reconnect cancelled max_retries addrs n =
      let up = record n { status = online } in
      let (last, connected) = attempt_bootstrap cancelled max_retries addrs up in
      if eqb (length addrs) 0
      then (up, some no_bootstrap_addresses)
      else (last, if connected then none else some bootstrap_failed)
