-- ===== src/Lib.antt =====
-- OuroborosDB: the parts of a node that decide whom it trusts and what a peer may do, modelled
-- definition by definition from the Go code, with the theorems that make them correct.
--
-- The parts and how they interact. A node signs a delegation to its TLS session
-- (internal/auth/delegation) and sends it with its certificates as a handshake
-- (internal/transport/auth_handshake.go) over a QUIC connection. The other side reads it. Its
-- trust store (internal/auth/carrier_auth.go) holds the admin and user authorities and the
-- revocations; VerifyPeerCert (internal/auth/carrier_auth_verify.go) freezes the peer's
-- certificates (snapshot.go), copies the store, adds the user authorities that the peer sent if a
-- trusted admin authority anchors them, verifies the chain (trust_snapshot.go) and the delegation,
-- and gives a NodeID, a scope and the owners that the peer may act for. The carrier
-- (internal/transport) registers the peer with its connection and its scope and hands its messages
-- to the cluster controller (internal/control), which calls a handler if the scope allows it, and
-- replies. Heartbeats tell of further nodes, which are dialled; a bootstrap dials the configured
-- addresses. Data access (internal/datacas/cas) is decided by the scope and the owners. The
-- authorities that a new node trusts come from its files (pkg/authfile), which a tool makes
-- (cmd/certgen) and a program loads that lets an operator speak to a node (cmd/interactive). The
-- database itself (ouroboros.go) keeps a key of its own on the disk.
--
-- The files:
--   Base: the shared helpers. Maps.antt has Go's maps as association lists, Results.antt Go's (T,
--     error) with do blocks, Equality.antt Go's == on comparable types, Int.antt int64 with its
--     wrap-around.
--   Auth/Types: internal/auth/types.go, errors.go, constants.go, and the interface Keys.
--   Auth/Canonical: internal/auth/canonical/canonical.go (DomainSeparate, CanonicalNodeCert,
--     ...).
--   Auth/Ca: internal/auth/ca (NewAdminCA, NewUserCA, Verify, VerifyNodeCert).
--   Auth/Store: internal/auth/carrier_auth.go (AddAdminPubKey, AddUserPubKey, RemoveAdminPubKey,
--     RevokeAdminCA, RevokeNode, ...). The lock makes the calls of all goroutines one sequence:
--     `call` is one call of a method, `run` a sequence of them.
--   Auth/Snapshot: internal/auth/snapshot.go. A certificate is an interface value whose answers
--     may change from call to call, so its methods take the number of calls made before.
--   Auth/Chain, Auth/Embedded: internal/auth/trust_snapshot.go (verifyChain, filterValidCerts,
--     verifyAuthority, withEmbeddedAuthorities, ...).
--   Auth/Verify: internal/auth/carrier_auth_verify.go (VerifyPeerCert and its checks).
--   Auth/Chain/Complete, Auth/Verify/Complete: the same code, on the handshakes of honest nodes.
--   Auth/Delegation: internal/auth/delegation/sign_delegation.go (SignDelegation),
--     internal/auth/cert/node_cert.go and node_identity.go (NewNodeCert, NewNodeIdentity,
--     RotateSession).
--   AuthFile: pkg/authfile/authfile.go (MarshalCAKey, ReadNodeCert, NodeCertToIdentity,
--     BuildEmbeddedTrustChain); AuthFile/Trust has AddEmbeddedTrust.
--   Control: internal/control/cluster_controller.go and pkg/interfaces/message_registry.go.
--   Transport/Registry: internal/transport/node_registry.go and compactAddresses.
--   Transport/Carrier: registerPeer, LeaveCluster, RemoveNode, dropConnection, markPeerSeen and
--     dispatchMessage of internal/transport; `steps` is a sequence of such steps.
--   Transport/Broadcast: BroadcastReliable. Transport/Wire: internal/transport/message_io.go.
--   Transport/Replies: SendMessageToNodeReliable and SendMessageToNodeUnreliable of
--     carrier_broadcast.go, handleMessageStream of carrier_dispatch.go and the replies of
--     message_io.go.
--   Transport/Handshake: internal/transport/auth_handshake.go, both directions, and dialAndAuth.
--   Transport/Connect: handleIncomingConn of carrier_cluster.go, connectNode of
--     carrier_connection.go and dialBootstrapAddr of bootstrap.go; `arrive` is any of them, and
--     `events` of Connect/Trace a sequence of them and of the carrier's other steps.
--   Transport/Bootstrap: internal/transport/bootstrap.go and Reconnect of carrier.go.
--   Transport/Heartbeat: internal/transport/heartbeat.go: the payload with its encoding, merging,
--     and in Heartbeat/Peers the carrier's side (handleHeartbeatMessage, sendHeartbeatBatch,
--     failStalePeers).
--   Cas: internal/datacas/cas/privilege_checker.go.
--   Certgen: cmd/certgen/main.go (cmdAdminCA, cmdUserCA, cmdSignNode, cmdShow and main). What a
--     command prints is its report.
--   Start: config.go, ouroboros.go and internal/entities/node/node.go (PrimaryPath, the effective
--     values, loadOrCreateCrypt, New).
--   Interactive: cmd/interactive/main.go. Words has splitCSV and parseSlogLevel with the functions
--     of package strings that they call, Trust loadNodeIdentity and loadCarrierAuth, Repl the loop
--     over the operator's lines.
--   ClusterLog: internal/logging, the node's log with its queries and subscribers (Log, cleanup,
--     Tail, Query, SubscribeLog, UnsubscribeLog, SendLog, ...).
--   Tests: runs on concrete inputs, and the theorems applied to them.
--
-- What stands for code outside the repository. `Keys` has the operations of ouroboros-crypt
-- (parsing keys, verifying signatures, NodeIDs), SHA-256, and the protobuf encodings that are
-- signed; no soundness theorem assumes a law of it. The theorems that an honest node is accepted,
-- and those that something written is read back, assume that what was signed is verified, what was
-- encoded is decoded and what was split into halves is parsed; each names what it assumes. `Proto`
-- is the decoding of user messages, `AuthCodec`, `HeartbeatCodec`, `ReplyCodec` and `FileCodec`
-- are the protobuf encoder at the messages of a part, `Exporter` and `TlsSession` the TLS
-- library's side of a connection, `Network` and `Streams` what the network does, `Tools` what
-- certgen asks of the system, and `CryptLibrary` the key file of the crypto library. The clock's
-- reading, the outcome of each sending of a broadcast, the content of a file and the error of
-- closing a connection are arguments.
--
-- Conventions. Types that the code only compares (NodeID, connections) are parameters with an
-- equality. Log lines are left out, and copies of slices are the slices. A value that is nil is
-- `none`. Wrapped errors are their sentinels. Message types, roles' and scopes' unnamed values and
-- times of the registry and the log are natural numbers; certificate and delegation times are
-- integers, and the theorems on delegation ask that they are int64. No definition needs fuel:
-- every loop goes through a list or counts the attempts left. A bootstrap makes
-- bootstrapMaxRetries + 1 attempts, 5 if nothing is configured, each through all addresses; its
-- dials are numbered, and the network may answer each of them differently. The intervals of
-- heartbeats and the registry's times are in nanoseconds.
--
-- Not modelled: QUIC and its streams (internal/transport/transport.go, connection.go), which wrap
-- a library; StartListener and the loops that accept connections, streams and datagrams, whose
-- bodies are modelled but whose goroutines and timers are not; closing a connection, which is the
-- library's and leaves the carrier's state alone; NewSessionIdentity, which makes an X.509
-- certificate with the standard library; the data records of pkg/interfaces, which have no
-- behaviour; reading and writing of files and the JSON form of keys; the flags of
-- cmd/interactive, the order of its start and its printing; cmd/start, which is empty; generated
-- protobuf code.
pub mod Auth
pub mod AuthFile
pub mod Base
pub mod Cas
pub mod Certgen
pub mod ClusterLog
pub mod Control
pub mod Interactive
pub mod Start
pub mod Transport
pub mod Tests
