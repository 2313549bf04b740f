-- ===== src/Auth.antt =====
-- internal/auth: who may join the cluster. `Types` has the data that the parts share and the
-- cryptographic library as an interface; the children follow the package's files.
pub mod Types
pub mod Canonical
pub mod Ca
pub mod Store
pub mod Snapshot
pub mod Chain
pub mod Embedded
pub mod Verify
pub mod Delegation
