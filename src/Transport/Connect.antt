-- ===== src/Transport/Connect.antt =====
-- internal/transport/carrier_cluster.go, carrier_connection.go and bootstrap.go: how a connection
-- is authenticated in both directions and its peer registered. The network is outside the
-- repository: what dialling gives, what a connection tells of its TLS session, what stands on the
-- stream that the peer opened, and whether a message could be written to a new stream. A registered
-- peer's receiving loops are started by the operation that reports no error. Closing a refused
-- connection is an effect outside the state.
pub mod Admission
pub mod Trace
use ouroboros_db.Base.{
  ℕ, String, string_eq, Bool, true, false, not, List, [], ◌∷◌, Option, none, some, Result, ok, err,
  ◌>>=◌, ◌>>◌, or_fail, fail_if, Eq, has, eqb, length, ℤ, if◌then◌else◌,
}
use ouroboros_db.Auth.Types.{Bytes, Keys, Error, AuthContext}
use ouroboros_db.Auth.Snapshot.{NodeCertLike}
use ouroboros_db.Auth.Store.{CarrierAuth}
use ouroboros_db.Auth.Verify.{PeerHandshake, verify_peer_cert}
use ouroboros_db.Auth.Delegation.{NodeIdentity}
use ouroboros_db.Transport.Registry.{Node, RegistryError, compact_addresses}
use ouroboros_db.Transport.Carrier.{Carrier, register_peer}
use ouroboros_db.Transport.Handshake.{
  AuthCodec, TlsSession, HandshakeError, read_auth_handshake, dial_and_auth,
}

-- A peer's certificate; `none` is nil.
abbrev pub Cert : Type 0 → Type 0 → Type 0
Cert P N = Option (NodeCertLike P N)

pub record Network (K : Type 0) : Type 0 where
  pub dial : String → Option K
  pub tls : K → TlsSession
  -- `AcceptStream`, and what is read from the stream.
  pub accept_stream : K → Option Bytes
  -- Whether `OpenStream` and the writes succeed.
  pub sends : K → Bytes → Bool
  pub remote_addr : K → String

-- The fields of `CarrierConfig` that authentication reads. `New` makes a transport exactly for a
-- node identity; the code tests both.
pub record AuthConfig (P N H : Type 0) : Type 0 where
  pub auth : Option (CarrierAuth P N H)
  pub node_identity : Option (NodeIdentity P N)
  pub has_transport : Bool

-- The clock: seconds for the authentication, ticks for the registry.
pub record Moment : Type 0 where
  pub unix : ℤ
  pub ticks : ℕ

pub data ConnectError : Type 0 where
  no_node_identity no_transport no_carrier_auth no_addresses no_dial_attempts dial_failed :
      ConnectError
  auth_failed no_peer_stream response_failed : ConnectError
  bad_handshake : HandshakeError → ConnectError
  not_verified : Error → ConnectError
  not_registered : RegistryError → ConnectError

-- An error under the name of the operation that failed.
abbrev pub wrapped {ℓ} :
    {E : Type 0} {A : Type ℓ} → (E → ConnectError) → Result E A → Result ConnectError A
wrapped as_error (ok a) = ok a
wrapped as_error (err e) = err (as_error e)

-- The first address that can be dialled; with it, the connection.
unfoldable pub dial_each : {K : Type 0} → Network K → List String → Option (K × String)
dial_each net [] = none
dial_each net (address ∷ rest) = elim (net.dial address) [
  | some conn ↦ some (conn, address)
  | none ↦ dial_each net rest
]

unfoldable pub dial_known_addresses :
    {N C K : Type 0} → Network K → Node N C → Result ConnectError (K × String)
dial_known_addresses net node = do
  fail_if (eqb (length node.addresses) 0) no_addresses
  let tried = compact_addresses node.addresses
  fail_if (eqb (length tried) 0) no_dial_attempts
  or_fail (dial_each net tried) dial_failed

module _ {P N H K : Type 0} ⦃e : Eq N⦄ (k : Keys P N) (proto : AuthCodec) (net : Network K)
    (cfg : AuthConfig P N H) (now : Moment) where
  -- `dialAndAuth`: its three errors are one here.
  unfoldable pub authenticate_to : NodeIdentity P N → K → Result ConnectError (Unit {0})
  authenticate_to ni conn = do
    written ←
        wrapped (λ bad. auth_failed)
          (dial_and_auth k proto (net.tls conn).export_keying_material ni now.unix)
    fail_if (not (net.sends conn written)) auth_failed

  -- `handleIncomingConn` begins with the same calls.
  unfoldable pub await_peer_auth : K → Result ConnectError (AuthContext N × List (Cert P N))
  await_peer_auth conn = do
    auth ← or_fail cfg.auth no_carrier_auth
    stream ← or_fail (net.accept_stream conn) no_peer_stream
    hs ← wrapped bad_handshake (read_auth_handshake k proto (net.tls conn) stream)
    ctx ← wrapped not_verified (verify_peer_cert k auth now.unix hs)
    ok (ctx, hs.certs)

  -- Both directions over a connection that this node has dialled.
  unfoldable pub dialled :
      NodeIdentity P N → K → Result ConnectError (AuthContext N × List (Cert P N))
  dialled ni conn = do authenticate_to ni conn; await_peer_auth conn

  unfoldable pub write_local_auth : K → Result ConnectError (Unit {0})
  write_local_auth conn = do
    ni ← or_fail cfg.node_identity no_node_identity
    authenticate_to ni conn

-- A carrier, and an error that the operation reports.
abbrev pub Answer : Type 0 → Type 0
Answer S = S × Option ConnectError

abbrev pub error_of : {A : Type 0} → Result ConnectError A → Option ConnectError
error_of (ok a) = none
error_of (err e) = some e

-- What remains to be done with a successful result; an error leaves the carrier as it is.
abbrev pub or_refused {ℓ} :
    {S : Type 0} {A : Type ℓ} → S → Result ConnectError A → (A → Answer S) → Answer S
or_refused c (ok a) next = next a
or_refused c (err e) next = (c, some e)

-- `IsConnected`.
unfoldable pub is_node_connected : {N C K M F : Type 0} → ⦃e : Eq N⦄ → Carrier N C K M F → N → Bool
is_node_connected c node_id = has node_id c.connections

module _ {P N H K M F : Type 0} ⦃e : Eq N⦄ (k : Keys P N) (is_zero : N → Bool) (proto : AuthCodec)
    (net : Network K) (cfg : AuthConfig P N H) (now : Moment) where
  -- The registration of an authenticated peer.
  unfoldable pub register_as :
      Carrier N (Cert P N) K M F
      → K
      → String
      → AuthContext N × List (Cert P N)
      → Result ConnectError (Carrier N (Cert P N) K M F)
  register_as c conn address (ctx, certs) =
      wrapped not_registered (register_peer is_zero c ctx conn certs (address ∷ []) now.ticks)

  -- The response is written after the registration; if that fails, the connection is closed and
  -- the registration stays.
  unfoldable pub handle_incoming_conn :
      Carrier N (Cert P N) K M F → K → Answer (Carrier N (Cert P N) K M F)
  handle_incoming_conn c conn = or_refused c (await_peer_auth k proto net cfg now conn) (λ peer.
      or_refused c (register_as c conn (net.remote_addr conn) peer) (λ registered. (
        registered,
        error_of (wrapped (λ bad. response_failed) (write_local_auth k proto net cfg now conn)),
      )))

  unfoldable pub connect_node :
      Carrier N (Cert P N) K M F → Node N (Cert P N) → Answer (Carrier N (Cert P N) K M F)
  connect_node c node = or_refused c (or_fail cfg.node_identity no_node_identity) (λ ni.
      or_refused c (fail_if (not cfg.has_transport) no_transport) (λ there.
        or_refused c (dial_known_addresses net node) (λ (conn, used).
          or_refused c (dialled k proto net cfg now ni conn) (λ peer.
            or_refused c (register_as c conn used peer) (λ registered. (registered, none))))))

  -- A peer that is connected already keeps its connection.
  unfoldable pub dial_bootstrap_addr :
      Carrier N (Cert P N) K M F → String → Answer (Carrier N (Cert P N) K M F)
  dial_bootstrap_addr c addr = or_refused c (or_fail cfg.node_identity no_node_identity) (λ ni.
      or_refused c (fail_if (not cfg.has_transport) no_transport) (λ there.
        or_refused c (or_fail (net.dial addr) dial_failed) (λ conn.
          or_refused c (dialled k proto net cfg now ni conn) (λ (ctx, certs).
            if is_node_connected c ctx.node_id
            then (c, none)
            else or_refused c (register_as c conn addr (ctx, certs))
                (λ registered. (registered, none))))))

-- A way in which a peer comes to the carrier: it dials, it is dialled by one of its known
-- addresses, or it stands at a bootstrap address.
pub data Arrival (P N K : Type 0) : Type 0 where
  incoming : K → Arrival P N K
  outgoing : Node N (Cert P N) → Arrival P N K
  bootstrap : String → Arrival P N K

module _ {P N H K M F : Type 0} ⦃e : Eq N⦄ (k : Keys P N) (is_zero : N → Bool) (proto : AuthCodec)
    (net : Network K) (cfg : AuthConfig P N H) (now : Moment) where
  unfoldable pub arrive :
      Carrier N (Cert P N) K M F → Arrival P N K → Answer (Carrier N (Cert P N) K M F)
  arrive c (incoming conn) = handle_incoming_conn k is_zero proto net cfg now c conn
  arrive c (outgoing node) = connect_node k is_zero proto net cfg now c node
  arrive c (bootstrap addr) = dial_bootstrap_addr k is_zero proto net cfg now c addr
